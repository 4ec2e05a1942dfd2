-- ===== src/Tools/Limits.antt =====
-- What the limits of src/fabri/tools/policy.py allow.
use fabri.Prelude.{
  ◌≤◌, String, Bool, true, not, ◌||◌, Option, none, some, List, [], ◌∷◌, ◌++◌, ok, >>=-eq-ok,
  raise_if, raise_if-ok, All-traverse, leb, any, all, filter, elem, All, Any, ◌≡◌, refl, sym, subst,
  ◌∙◌, ◌⊎◌, ◌↔◌, arith, Bool-cases, Option-cases, inl, inr,
}
use fabri.Value.{Value, null, bool, num, neg, str, seq, mapping, Fields, find_field, entries}
use fabri.Tools.Approval.{Approval, rank, stricter}
use fabri.Tools.Policy.{
  Python, ToolPolicy, no_grant, source_kinds, applies, floor_from, floor_for, granted, grants_for,
  check_refs, check_secret_refs, truthy, kinds_of, floor_of, grants_of, tup, from_mapping,
  from_data, known_kind, is_known_key, unknown_keys,
}

rank-stricter :
    (a b : Approval)
    → (rank a ≤ rank (stricter a b))
      × (rank b ≤ rank (stricter a b))
      × ((stricter a b ≡ a) ⊎ (stricter a b ≡ b))
rank-stricter a b = elim (Bool-cases (leb (rank b) (rank a))) [
  | inl below ↦ rw below (omega arith, ground (arith, below), inl refl)
  | inr above ↦ rw above (ground (arith, above), omega arith, inr refl)
]

-- The class is the strictest of those of the entries: it is one of them and none ranks higher.
abbrev pub Strictest : List (String × Approval) → Option Approval → Type 0
Strictest es none = es ≡ []
Strictest es (some f) = All (λ e. rank e.1 ≤ rank f) es × Any (λ e. e.1 ≡ f) es

-- The loop from a class that was found before.
record Raised (g : Approval) (es : List (String × Approval)) (r : Option Approval) : Type 0 where
  top : Approval
  found : r ≡ some top
  above : rank g ≤ rank top
  strictest : All (λ e. rank e.1 ≤ rank top) es
  met : (top ≡ g) ⊎ Any (λ e. e.1 ≡ top) es

module _ (py : Python) (name : String) (aliases : List String) where
  abbrev matching : List (String × Approval) → List (String × Approval)
  matching es = filter (applies py name aliases) es

  floor_from-Raised :
      (g : Approval) (es : List (String × Approval))
      → Raised g (matching es) (floor_from py name aliases (some g) es)
  unfolding floor_from
  floor_from-Raised g [] = record {
    top = g;
    found = refl;
    above = omega arith;
    strictest = tt;
    met = inl refl;
  }
  floor_from-Raised g (e ∷ es) = elim (Bool-cases (applies py name aliases e)) [
    | inr other ↦ rw other (floor_from-Raised g es)
    | inl applied ↦
        let (over_g, over_e, one) = rank-stricter g e.1 in
        let r = floor_from-Raised (stricter g e.1) es in
        rw applied (record {
          top = r.top;
          found = r.found;
          above = omega (arith, over_g, r.above);
          strictest = (omega (arith, over_e, r.above), r.strictest);
          met = elim r.met [
            | inr later ↦ inr (inr later)
            | inl same ↦ elim one [
              | inl is_g ↦ inl (same ∙ is_g)
              | inr is_e ↦ inr (inl (sym (same ∙ is_e)))
            ]
          ];
        })
  ]

  floor_from-Strictest :
      (es : List (String × Approval)) → Strictest (matching es) (floor_from py name aliases none es)
  unfolding floor_from
  floor_from-Strictest [] = refl
  floor_from-Strictest (e ∷ es) = elim (Bool-cases (applies py name aliases e)) [
    | inr other ↦ rw other (floor_from-Strictest es)
    | inl applied ↦
        let r = floor_from-Raised e.1 es in
        rw (applied, r.found)
          ((r.above, r.strictest), elim r.met [ inl same ↦ inl (sym same) | inr later ↦ inr later ])
  ]

  -- The class that the floor gives a tool is the strictest of the entries whose pattern the name or an
  -- alias of the tool matches, and there is none exactly if there is no such entry.
  pub floor_for-Strictest :
      (p : ToolPolicy)
      → Strictest (filter (applies py name aliases) p.approval_floor) (floor_for py p name aliases)
  unfolding floor_for
  floor_for-Strictest p = floor_from-Strictest p.approval_floor

module _ (py : Python) (source : String) where
  any-append : (p : String → Bool) (xs ys : List String) → any p (xs ++ ys) ≡ (any p xs || any p ys)
  any-append p [] ys = refl
  any-append p (x ∷ xs) ys = ground (arith, any-append p xs ys)

  -- Some entry for the source grants the reference.
  abbrev pub IsGranted : List (String × List String) → String → Type 0
  IsGranted grants ref =
      Any (λ g. (py.matches source g.0 ≡ true) × (any (py.matches ref) g.1 ≡ true)) grants

  any-granted :
      (ref : String) (grants : List (String × List String))
      → any (py.matches ref) (granted py source grants) ≡ true
      → IsGranted grants ref
  unfolding granted
  any-granted ref [] h = absurd (cc)
  any-granted ref ((pattern, refs) ∷ rest) h = elim (Bool-cases (py.matches source pattern)) [
    | inr other ↦ inr (any-granted ref rest (rw other at h))
    | inl applied ↦
        let both : (any (py.matches ref) refs || any (py.matches ref) (granted py source rest))
            ≡ true =
          sym (any-append (py.matches ref) refs (granted py source rest)) ∙ rw applied at h in
        elim (Bool-cases (any (py.matches ref) refs)) [
          | inl here ↦ inl (applied, here)
          | inr later ↦ inr (any-granted ref rest (rw later at both))
        ]
  ]

  granted-any :
      (ref : String) (grants : List (String × List String))
      → IsGranted grants ref
      → any (py.matches ref) (granted py source grants) ≡ true
  unfolding granted
  granted-any ref [] x = absurd x
  granted-any ref ((pattern, refs) ∷ rest) (inl (applied, here)) =
      rw applied (any-append (py.matches ref) refs (granted py source rest) ∙ rw here refl)
  granted-any ref ((pattern, refs) ∷ rest) (inr later) =
      elim (Bool-cases (py.matches source pattern)) [
        | inr other ↦ rw other (granted-any ref rest later)
        | inl applied ↦ rw applied (
            any-append (py.matches ref) refs (granted py source rest)
            ∙ ground (arith, granted-any ref rest later))
      ]

  check_refs-granted :
      (grants : List (String × List String)) (refs : List String)
      → check_refs py source (granted py source grants) refs ≡ ok tt
      → All (IsGranted grants) refs
  unfolding check_refs
  check_refs-granted grants [] h = tt
  check_refs-granted grants (ref ∷ refs) h =
      let test = not (any (py.matches ref) (granted py source grants)) in
      let (u, passed, rest) = >>=-eq-ok (raise_if test (no_grant source ref)) _ h in
      let fine = raise_if-ok test _ u passed in
      (any-granted ref grants (ground (arith, fine)), check_refs-granted grants refs rest)

  granted-check_refs :
      (grants : List (String × List String)) (refs : List String)
      → All (IsGranted grants) refs
      → check_refs py source (granted py source grants) refs ≡ ok tt
  unfolding check_refs
  granted-check_refs grants [] h = refl
  granted-check_refs grants (ref ∷ refs) h =
      rw (granted-any ref grants h.0) (granted-check_refs grants refs h.1)

  check_secret_refs-capped :
      (p : ToolPolicy) (grants : List (String × List String)) (refs : List String)
      → p.credential_grants ≡ some grants
      → check_secret_refs py p source refs ≡ check_refs py source (granted py source grants) refs
  unfolding check_secret_refs grants_for
  check_secret_refs-capped p grants refs h = rw (h, check_secret_refs) refl

  -- Under a policy with grants a source may use its secret references exactly if each of them is
  -- matched by a reference pattern of an entry whose source pattern matches the source.
  pub check_secret_refs-IsGranted :
      (p : ToolPolicy) (grants : List (String × List String)) (refs : List String)
      → p.credential_grants ≡ some grants
      → (check_secret_refs py p source refs ≡ ok tt) ↔ All (IsGranted grants) refs
  check_secret_refs-IsGranted p grants refs h = (
    λ passed.
        check_refs-granted grants refs (sym (check_secret_refs-capped p grants refs h) ∙ passed),
    λ good. check_secret_refs-capped p grants refs h ∙ granted-check_refs grants refs good,
  )

module _ (py : Python) where
  abbrev pub IsKind : String → Type 0
  IsKind k = elem k source_kinds ≡ true

  all-IsKind : (ks : List String) → all (λ k. elem k source_kinds) ks ≡ true → All IsKind ks
  all-IsKind [] h = tt
  all-IsKind (k ∷ ks) h = (ground (arith, h), all-IsKind ks (ground (arith, h)))

  known_kind-IsKind : (v : Value) (k : String) → known_kind py v ≡ ok k → IsKind k
  known_kind-IsKind (str s) k h = elim (Bool-cases (elem s source_kinds)) [
    | inl known ↦ let same : s ≡ k = ground arith in subst IsKind same known
    | inr other ↦ absurd (ground arith)
  ]
  known_kind-IsKind null k h = absurd (cc)
  known_kind-IsKind (bool b) k h = absurd (cc)
  known_kind-IsKind (num n) k h = absurd (cc)
  known_kind-IsKind (neg n) k h = absurd (cc)
  known_kind-IsKind (seq vs) k h = absurd (cc)
  known_kind-IsKind (mapping fs) k h = absurd (cc)

  kinds_of-IsKind :
      (base : ToolPolicy) (fs : Fields) (ks : List String)
      → kinds_of py base fs ≡ ok ks
      → All IsKind ks
  unfolding kinds_of
  kinds_of-IsKind base fs ks h = elim (Option-cases (find_field "allowed_kinds" fs)) [
    | inl gone ↦ elim (Bool-cases (all (λ k. elem k source_kinds) base.allowed_kinds)) [
      | inl known ↦
          let same : base.allowed_kinds ≡ ks = ground arith in
          subst (All IsKind) same (all-IsKind base.allowed_kinds known)
      | inr other ↦ absurd (ground arith)
    ]
    | inr (v, there) ↦ elim (Bool-cases (truthy v)) [
      | inr empty ↦ let same : [] ≡ ks = ground arith in subst (All IsKind) same tt
      | inl full ↦ elim (Option-cases (py.elements v)) [
        | inl none_there ↦ absurd (ground arith)
        | inr (vs, listed) ↦
            All-traverse (known_kind py) IsKind known_kind-IsKind vs ks (ground arith)
      ]
    ]
  ]

  -- A policy that is read from a mapping allows only kinds of sources that exist, whatever the policy
  -- is that it starts from.
  pub from_data-IsKind :
      (base p : ToolPolicy) (fs : Fields)
      → from_data py base (mapping fs) ≡ ok p
      → All IsKind p.allowed_kinds
  unfolding from_data from_mapping
  from_data-IsKind base p fs h =
      let (u, a, rest) =
        >>=-eq-ok (raise_if (not (all (λ e. is_known_key py e.0) (entries fs))) unknown_keys) _ h in
      let (kinds, b, rest1) = >>=-eq-ok (kinds_of py base fs) _ rest in
      let (floor, c, rest2) = >>=-eq-ok (floor_of py base fs) _ rest1 in
      let (grants, d, rest3) = >>=-eq-ok (grants_of py base fs) _ rest2 in
      let (allow, e, rest4) = >>=-eq-ok (tup py "allow" base.allow fs) _ rest3 in
      let (hosts, f, rest5) = >>=-eq-ok (tup py "allowed_hosts" base.allowed_hosts fs) _ rest4 in
      let (modules, g, same) = >>=-eq-ok (tup py "python_modules" base.python_modules fs) _ rest5 in
      let kept : kinds ≡ p.allowed_kinds = cc in
      subst (All IsKind) kept (kinds_of-IsKind base fs kinds b)
