-- ===== src/Memory/Scopes/Isolated.antt =====
-- No call on the stores of src/fabri/memory reaches the collection of another user and organization.
use fabri.Prelude.{
  String, Bool, true, false, not, Option, none, some, List, ◌≡◌, refl, ap, subst, or_else, eq_iff,
  if◌then◌else◌, arith, All, All-append,
}
use fabri.Memory.Scopes.Guard.{
  MemoryScope, Refusal, wrong_bound, same_scope, is_scoped, in_allowed, refuse, check_effective,
  check_scopes, check_collection_access,
}
use fabri.Memory.Scopes.Context.{
  Action, call, in_scope, with_admin, Actions, finish, next, Access, Trace, guarded, traced,
  continue, run_action, run_actions, uses_admin, use_admin,
}
use fabri.Memory.Scopes.Owners.{Shares, Owns, Owns-Shares}

-- The scope in effect for a call.
abbrev pub effective : Option MemoryScope → Option MemoryScope → Option MemoryScope
effective none active = active
effective (some b) active = some b

abbrev pub IsSame : MemoryScope → MemoryScope → Type 0
IsSame s t = (s.user_id ≡ t.user_id) × (s.org_id ≡ t.org_id)

same_scope-IsSame : (s t : MemoryScope) → same_scope s t ≡ true → IsSame s t
unfolding same_scope
same_scope-IsSame s t h = (
  (eq_iff s.user_id t.user_id).0 (ground (arith, h)),
  (eq_iff s.org_id t.org_id).0 (ground (arith, h)),
)

IsSame-some : (s t u : MemoryScope) → some t ≡ some u → IsSame s t → IsSame s u
IsSame-some s t u e h = subst (IsSame s) (ap (λ o. or_else o t) e) h

if-none :
    (b : Bool) (o : Option Refusal) (r : Refusal)
    → (if b then o else some r) ≡ none
    → (b ≡ true) × (o ≡ none)
if-none true o r h = (refl, h)
if-none false o r h = absurd (cc)

module _ (normalize : String → String) (digest : String → String → String)
    (injective : (kind s t : String) → digest kind s ≡ digest kind t → s ≡ t) where
  -- A call on the collection of a user or an organization.
  pub record IsOwned (a : Access) : Type 0 where
    pub scope : MemoryScope
    pub in_effect : effective a.bound a.active ≡ some scope
    pub in_force : (s : MemoryScope) → a.active ≡ some s → IsSame scope s
    pub owns : Owns normalize digest injective scope a.collection
    pub alone :
        (t : MemoryScope)
        → Owns normalize digest injective t a.collection
        → Shares normalize scope t

  abbrev pub IsIsolated : Access → Type 0
  IsIsolated a = is_scoped a.collection ≡ true → IsOwned a

  refuse-none : (c : String) (o : Option Bool) → refuse normalize digest c o ≡ none → o ≡ some true
  refuse-none c none h = absurd (cc)
  refuse-none c (some true) h = refl
  refuse-none c (some false) h = absurd (cc)

  owned :
      (bound active : Option MemoryScope) (c : String) (s : MemoryScope)
      → effective bound active ≡ some s
      → ((a : MemoryScope) → active ≡ some a → IsSame s a)
      → check_effective normalize digest (some s) c ≡ none
      → IsOwned (record { bound = bound; active = active; collection = c })
  unfolding check_effective
  owned bound active c s e f h = record {
    scope = s;
    in_effect = e;
    in_force = f;
    owns = refuse-none c (in_allowed normalize digest s c) h;
    alone = λ t k.
        Owns-Shares normalize digest injective s t c
          (refuse-none c (in_allowed normalize digest s c) h) k;
  }

  check_scopes-IsOwned :
      (bound active : Option MemoryScope) (c : String)
      → check_scopes normalize digest bound active c ≡ none
      → IsOwned (record { bound = bound; active = active; collection = c })
  unfolding check_scopes check_effective
  check_scopes-IsOwned none none c h = absurd (cc)
  check_scopes-IsOwned none (some s) c h =
      owned none (some s) c s refl (λ a e. IsSame-some s s a e (refl, refl)) h
  check_scopes-IsOwned (some b) none c h = owned (some b) none c b refl (λ a e. absurd (cc)) h
  check_scopes-IsOwned (some b) (some a) c h =
      let (same, rest) =
        if-none (same_scope b a) (check_effective normalize digest (some b) c) wrong_bound h in
      owned (some b) (some a) c b refl (λ a' e. IsSame-some b a a' e (same_scope-IsSame b a same))
        rest

  guarded-IsIsolated :
      (active bound : Option MemoryScope) (c : String)
      → All IsIsolated (guarded normalize digest active false bound c).accesses
  unfolding guarded
  guarded-IsIsolated active bound c =
      after (check_collection_access normalize digest active false bound c)
        (λ h k. check_scopes-IsOwned bound active c (passed (is_scoped c) k h))
    where
      passed :
          (b : Bool)
          → b ≡ true
          → (if not b then none else check_scopes normalize digest bound active c) ≡ none
          → check_scopes normalize digest bound active c ≡ none
      passed true k h = h
      passed false k h = absurd (cc)

      after :
          (o : Option Refusal)
          → (o ≡ none → IsIsolated (record { bound = bound; active = active; collection = c }))
          → All IsIsolated (traced normalize digest active bound c o).accesses
      after none h = (h refl, tt)
      after (some r) h = tt

  continue-IsIsolated :
      (accesses : List Access) (refusal : Option Refusal) (rest : Trace)
      → All IsIsolated accesses
      → All IsIsolated rest.accesses
      → All IsIsolated (continue normalize digest accesses refusal rest).accesses
  continue-IsIsolated accesses none rest h k = All-append IsIsolated accesses rest.accesses h k
  continue-IsIsolated accesses (some r) rest h k = h

  mutual
    unfolding run_actions uses_admin

    run_action-keeps_apart :
        (active : Option MemoryScope) (a : Action)
        → uses_admin a ≡ false
        → All IsIsolated (run_action normalize digest active false a).accesses
    run_action-keeps_apart active (call bound c) h = guarded-IsIsolated active bound c
    run_action-keeps_apart active (in_scope scope actions) h =
        run_actions-keep_apart scope actions h
    run_action-keeps_apart active (with_admin actions) h = absurd (cc)

    run_actions-keep_apart :
        (active : Option MemoryScope) (actions : Actions)
        → use_admin actions ≡ false
        → All IsIsolated (run_actions normalize digest active false actions).accesses
    run_actions-keep_apart active finish h = tt
    run_actions-keep_apart active (next a actions) h =
        continue-IsIsolated (run_action normalize digest active false a).accesses
          (run_action normalize digest active false a).refusal
          (run_actions normalize digest active false actions)
          (run_action-keeps_apart active a (ground (arith, h)))
          (run_actions-keep_apart active actions (ground (arith, h)))

  -- Where digests tell ids apart, guarded calls in nested scopes, none of them an operator's, reach
  -- the collection of a user or an organization only from a scope that owns it: the one in effect,
  -- with the ids of the one in force. Another scope that owns the collection has the same user or
  -- the same organization.
  pub run_actions-IsIsolated :
      (active : Option MemoryScope) (actions : Actions)
      → use_admin actions ≡ false
      → All IsIsolated (run_actions normalize digest active false actions).accesses
  run_actions-IsIsolated active actions h = run_actions-keep_apart active actions h
