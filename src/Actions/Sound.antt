-- ===== src/Actions/Sound.antt =====
-- What the changes that src/fabri/orchestrator/action_execution.py plans rest on.
use fabri.Prelude.{
  ℕ, ◌*◌, ◌≤◌, ◌<◌, String, true, ◌||◌, Option, none, some, List, [], ◌∷◌, ◌++◌, ok, >>=-eq-ok,
  raise_if, raise_if-ok, ltb, leb, Dict, lookup, ◌≡◌, sym, refl, subst, All, All-map, All-append,
  Any, not, elem, eqb, arith, Bool-cases, Option-cases, inl, inr,
}
use fabri.Value.{
  Value, null, bool, num, neg, str, seq, mapping, Fields, get_field, set_field, as_mapping,
}
use fabri.Actions.Defs.{
  mismatch, Parts, is_true, change_of, plan_role, unsafe_increase, PlannedChange, Caps, equals,
  safe_caps, check_increase, as_int, roles_of, caps_of, role_of, load_raw_config, raise_cap,
  path_of, arguments_of, parts_of, check_policy, plan_step, plan_steps, plan_resolution,
}
use fabri.Actions.Apply.{plan_all}

-- The increase that an action may make.
abbrev IsSafe : ℕ → ℕ → Type 0
IsSafe old new = (old < new) × (new ≤ old * 2) × (new ≤ 32768)

-- A resolution that asks for a change: its policy allows one attempt of an idempotent action, the
-- change is of a role of its scope, and it takes the failing cap of its signature to the cap of the
-- retry.
pub record Grants (c : PlannedChange) (r : Fields) : Type 0 where
  pub parts : Parts
  pub is_resolution : parts_of r ≡ ok parts
  pub idempotent : is_true (get_field "idempotent" parts.policy) ≡ true
  pub one_attempt : equals (get_field "max_attempts" parts.policy) 1 ≡ true
  pub caps : Caps
  pub has_caps : caps_of parts.signature parts.scope ≡ ok caps
  pub in_scope : elem c.role caps.roles ≡ true
  pub failing : c.previous_max_tokens ≡ caps.configured_cap
  pub retried : c.new_max_tokens ≡ caps.retry_cap

-- A change of a file: one of the resolutions asks for it, the file was read, it is YAML with the failing cap, and only that cap is changed.
pub record IsSound (load : String → Option Value) (rs : List Fields) (paths files : Dict String)
    (c : PlannedChange) : Type 0 where
  pub granted : Any (Grants c) rs
  pub routed : lookup c.role paths ≡ some c.path
  pub read : lookup c.path files ≡ some c.original_text
  pub old : Fields
  pub llm : Fields
  pub loaded : load c.original_text ≡ some (mapping old)
  pub has_llm : get_field "llm" old ≡ mapping llm
  pub had_cap : equals (get_field "max_tokens" llm) c.previous_max_tokens ≡ true
  pub changed :
      c.config ≡ set_field "llm" (mapping (set_field "max_tokens" (num c.new_max_tokens) llm)) old
  pub safe : IsSafe c.previous_max_tokens c.new_max_tokens

as_mapping-some : (v : Value) (fs : Fields) → as_mapping v ≡ some fs → v ≡ mapping fs
as_mapping-some (mapping gs) fs h = cc
as_mapping-some null fs h = absurd (cc)
as_mapping-some (bool b) fs h = absurd (cc)
as_mapping-some (num n) fs h = absurd (cc)
as_mapping-some (neg n) fs h = absurd (cc)
as_mapping-some (str s) fs h = absurd (cc)
as_mapping-some (seq vs) fs h = absurd (cc)

abbrev AreSafe : Caps → Type 0
AreSafe caps = IsSafe caps.configured_cap caps.retry_cap

check_increase-AreSafe :
    (old new : Option ℕ) (roles : List String) (caps : Caps)
    → check_increase old new roles ≡ ok caps
    → AreSafe caps
unfolding check_increase
check_increase-AreSafe none new roles caps h = absurd (cc)
check_increase-AreSafe (some old) none roles caps h = absurd (cc)
check_increase-AreSafe (some old) (some new) roles caps h =
    let test = leb new old || ltb (old * 2) new || ltb 32768 new in
    let (u, passed, same) = >>=-eq-ok (raise_if test unsafe_increase) _ h in
    let fine = raise_if-ok test _ u passed in
    let e : record { configured_cap = old; retry_cap = new; roles = roles } ≡ caps = cc in
    subst AreSafe e (ground (arith, fine), ground (arith, fine), ground (arith, fine))

safe_caps-AreSafe :
    (v w : Value) (roles : List String) (caps : Caps) → safe_caps v w roles ≡ ok caps → AreSafe caps
unfolding safe_caps
safe_caps-AreSafe v w roles caps h = elim (Option-cases (as_int v)) [
  | inl not_int ↦ absurd (ground arith)
  | inr (old, is_old) ↦ elim (Option-cases (as_int w)) [
    | inl not_int ↦ absurd (ground arith)
    | inr (new, is_new) ↦ check_increase-AreSafe old new roles caps (ground arith)
  ]
]

module _ (load : String → Option Value) (paths files : Dict String) where
  load_raw_config-lem :
      (path : String) (original : String) (config : Fields)
      → load_raw_config load files path ≡ ok (original, config)
      → (lookup path files ≡ some original) × (load original ≡ some (mapping config))
  unfolding load_raw_config
  load_raw_config-lem path original config h = elim (Option-cases (lookup path files)) [
    | inl gone ↦ absurd (ground arith)
    | inr (s, found) ↦ elim (Option-cases (load s)) [
      | inl bad ↦ absurd (ground arith)
      | inr (v, parsed) ↦ elim (Option-cases (as_mapping v)) [
        | inl other ↦ absurd (ground arith)
        | inr (fs, is_map) ↦
            let this : s ≡ original = ground arith in
            let that : fs ≡ config = ground arith in
            let v_map = as_mapping-some v fs is_map in (cc, cc)
      ]
    ]
  ]

  raise_cap-lem :
      (role : String) (target : ℕ) (caps : Caps) (old config : Fields)
      → raise_cap load files role target caps old ≡ ok config
      → (llm : Fields) × (get_field "llm" old ≡ mapping llm)
        × (equals (get_field "max_tokens" llm) caps.configured_cap ≡ true)
        × (config ≡ set_field "llm" (mapping (set_field "max_tokens" (num target) llm)) old)
  unfolding raise_cap
  raise_cap-lem role target caps old config h =
      elim (Option-cases (as_mapping (get_field "llm" old))) [
        | inl none_there ↦ absurd (ground arith)
        | inr (llm, is_map) ↦
            elim (Bool-cases (equals (get_field "max_tokens" llm) caps.configured_cap)) [
              | inl has_cap ↦
                  let e : set_field "llm" (mapping (set_field "max_tokens" (num target) llm)) old
                      ≡ config =
                    ground arith in
                  (llm, as_mapping-some (get_field "llm" old) llm is_map, has_cap, sym e)
              | inr stale ↦ absurd (ground arith)
            ]
      ]

  path_of-lem :
      (role path : String) → path_of load files role paths ≡ ok path → lookup role paths ≡ some path
  path_of-lem role path h = elim (Option-cases (lookup role paths)) [
    | inl gone ↦ absurd (ground arith)
    | inr (p, there) ↦ let e : p ≡ path = ground arith in cc
  ]

  -- What a turn of the loop asks of its resolution.
  record Asked (caps : Caps) (c : PlannedChange) : Type 0 where
    in_scope : elem c.role caps.roles ≡ true
    failing : c.previous_max_tokens ≡ caps.configured_cap
    retried : c.new_max_tokens ≡ caps.retry_cap

  plan_role-IsSound :
      (rs : List Fields) (caps : Caps) (role : String) (target : ℕ) (c : PlannedChange)
      → AreSafe caps
      → elem role caps.roles ≡ true
      → target ≡ caps.retry_cap
      → ((d : PlannedChange) → Asked caps d → Any (Grants d) rs)
      → plan_role load files paths caps (role, target) ≡ ok c
      → IsSound load rs paths files c
  unfolding plan_role
  plan_role-IsSound rs caps role target c safe mine retry grants h =
      let (path, p, rest) = >>=-eq-ok (path_of load files role paths) _ h in
      let (read, l, rest2) = >>=-eq-ok (load_raw_config load files path) _ rest in
      let (config, r, same) = >>=-eq-ok (raise_cap load files role target caps read.1) _ rest2 in
      let e : change_of load files caps target role path read config ≡ c = cc in
      let (on_disk, parsed) = load_raw_config-lem path read.0 read.1 l in
      let (llm, has_llm, had_cap, changed) = raise_cap-lem role target caps read.1 config r in
      subst (IsSound load rs paths files) e (record {
        granted =
            grants (change_of load files caps target role path read config)
              (record { in_scope = mine; failing = refl; retried = retry });
        routed = path_of-lem role path p;
        read = on_disk;
        old = read.1;
        llm = llm;
        loaded = parsed;
        has_llm = has_llm;
        had_cap = had_cap;
        changed = changed;
        safe = subst (IsSafe caps.configured_cap) (sym retry) safe;
      })

  role_of-lem :
      (caps : Caps) (seen : List String) (v w : Value) (role : String) (target : ℕ)
      → role_of caps seen v w ≡ ok (role, target)
      → (elem role caps.roles ≡ true) × (target ≡ caps.retry_cap)
  unfolding role_of
  role_of-lem caps seen (str s) (num n) role target h =
      let test = not (elem s caps.roles) || elem s seen || not (eqb n caps.retry_cap) in
      let (u, passed, same) = >>=-eq-ok (raise_if test mismatch) _ h in
      let fine = raise_if-ok test _ u passed in
      let a : s ≡ role = ground arith in
      let b : n ≡ target = ground arith in (ground (arith, fine, a), ground (arith, fine, b))
  role_of-lem caps seen v w role target h = absurd (cc)

  plan_steps-IsSound :
      (rs : List Fields) (caps : Caps) (seen : List String) (steps : List Value)
      (cs : List PlannedChange)
      → AreSafe caps
      → ((d : PlannedChange) → Asked caps d → Any (Grants d) rs)
      → plan_steps load files paths caps seen steps ≡ ok cs
      → All (IsSound load rs paths files) cs
  unfolding plan_steps plan_step
  plan_steps-IsSound rs caps seen [] cs safe grants h =
      let e : [] ≡ cs = cc in subst (All (IsSound load rs paths files)) e tt
  plan_steps-IsSound rs caps seen (step ∷ steps) cs safe grants h =
      let (c, one, rest) = >>=-eq-ok (plan_step load files paths caps seen step) _ h in
      let (more, others, same) =
        >>=-eq-ok (plan_steps load files paths caps (seen ++ c.role ∷ []) steps) _ rest in
      let (arguments, a, rest1) = >>=-eq-ok (arguments_of step) _ one in
      let (asked, b, made) =
        >>=-eq-ok
          (role_of caps seen (get_field "role" arguments) (get_field "max_tokens" arguments)) _
          rest1 in
      let (mine, retry) =
        role_of-lem caps seen (get_field "role" arguments) (get_field "max_tokens" arguments)
          asked.0 asked.1 b in
      let e : c ∷ more ≡ cs = cc in
      subst (All (IsSound load rs paths files)) e (
        plan_role-IsSound rs caps asked.0 asked.1 c safe mine retry grants made,
        plan_steps-IsSound rs caps (seen ++ c.role ∷ []) steps more safe grants others,
      )

  caps_of-AreSafe :
      (signature scope : Fields) (caps : Caps) → caps_of signature scope ≡ ok caps → AreSafe caps
  unfolding caps_of
  caps_of-AreSafe signature scope caps h =
      let (roles, r, rest) = >>=-eq-ok (roles_of (get_field "roles" scope)) _ h in
      safe_caps-AreSafe (get_field "configured_cap" signature) (get_field "retry_cap" signature)
        roles caps rest

  plan_resolution-IsSound :
      (r : Fields) (rs : List Fields) (cs : List PlannedChange)
      → plan_resolution load files paths r ≡ ok cs
      → All (IsSound load (r ∷ rs) paths files) cs
  unfolding plan_resolution check_policy
  plan_resolution-IsSound r rs cs h =
      let (parts, p, rest) = >>=-eq-ok (parts_of r) _ h in
      let (u, c, rest2) = >>=-eq-ok (check_policy parts.policy) _ rest in
      let (caps, s, rest3) = >>=-eq-ok (caps_of parts.signature parts.scope) _ rest2 in
      let allowed = raise_if-ok _ _ u c in
      plan_steps-IsSound (r ∷ rs) caps [] parts.steps cs
        (caps_of-AreSafe parts.signature parts.scope caps s)
        (λ d asked. inl (record {
          parts = parts;
          is_resolution = p;
          idempotent = ground (arith, allowed);
          one_attempt = ground (arith, allowed);
          caps = caps;
          has_caps = s;
          in_scope = asked.in_scope;
          failing = asked.failing;
          retried = asked.retried;
        }))
        rest3

  IsSound-later :
      (r : Fields) (rs : List Fields) (c : PlannedChange)
      → IsSound load rs paths files c
      → IsSound load (r ∷ rs) paths files c
  IsSound-later r rs c s = record {
    granted = inr s.granted;
    routed = s.routed;
    read = s.read;
    old = s.old;
    llm = s.llm;
    loaded = s.loaded;
    has_llm = s.has_llm;
    had_cap = s.had_cap;
    changed = s.changed;
    safe = s.safe;
  }

  pub plan_all-IsSound :
      (rs : List Fields) (cs : List PlannedChange)
      → plan_all load files paths rs ≡ ok cs
      → All (IsSound load rs paths files) cs
  unfolding plan_all
  plan_all-IsSound [] cs h = let e : [] ≡ cs = cc in subst (All (IsSound load [] paths files)) e tt
  plan_all-IsSound (r ∷ rs) cs h =
      let (here, a, rest) = >>=-eq-ok (plan_resolution load files paths r) _ h in
      let (more, b, same) = >>=-eq-ok (plan_all load files paths rs) _ rest in
      let e : here ++ more ≡ cs = cc in
      subst (All (IsSound load (r ∷ rs) paths files)) e (
        All-append (IsSound load (r ∷ rs) paths files) here more
          (plan_resolution-IsSound r rs here a)
          (All-map (IsSound load rs paths files) (IsSound load (r ∷ rs) paths files)
            (IsSound-later r rs) more (plan_all-IsSound rs more b)))
