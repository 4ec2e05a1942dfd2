-- ===== src/Memory/Scopes/Owners.antt =====
-- The scopes that may touch a collection of src/fabri/memory/scopes.py.
use fabri.Prelude.{
  String, Bool, true, false, ◌==◌, ◌||◌, none, some, ◌≡◌, ◌⊎◌, inl, inr, sym, ap, ◌∙◌, eq_iff,
  false≢true, if◌then◌else◌, str_append, starts_with, is_empty, Bool-cases, arith,
}
use fabri.Memory.Scopes.Guard.{
  MemoryScope, user_prefix, org_prefix, hash_id, prefixed, user_collection_name,
  org_collection_name, is_allowed, in_allowed,
}

tail : String → String
tail String.[] = String.[]
tail (String.◌∷◌ c s) = s

str_append-injective : (s t u : String) → str_append s t ≡ str_append s u → t ≡ u
unfolding str_append tail
str_append-injective String.[] t u h = h
str_append-injective (String.◌∷◌ c s) t u h = str_append-injective s t u (ap tail h)

prefixes-disjoint : (s t : String) → str_append user_prefix s ≡ str_append org_prefix t → ⊥
unfolding str_append starts_with
prefixes-disjoint s t h = false≢true (sym (ap (λ c. starts_with user_prefix c) h))

-- Scopes of the same user or of the same organization, by their normalized ids.
abbrev pub Shares : (String → String) → MemoryScope → MemoryScope → Type 0
Shares normalize s t =
    (normalize s.user_id ≡ normalize t.user_id) ⊎ (normalize s.org_id ≡ normalize t.org_id)

module _ (normalize : String → String) (digest : String → String → String)
    (injective : (kind s t : String) → digest kind s ≡ digest kind t → s ≡ t) where
  abbrev pub Owns : MemoryScope → String → Type 0
  Owns s c = in_allowed normalize digest s c ≡ some true

  -- The two collections of a scope.
  IsNamed : MemoryScope → String → Type 0
  IsNamed s c =
      (c ≡ str_append user_prefix (digest "user" (normalize s.user_id)))
      ⊎ (c ≡ str_append org_prefix (digest "org" (normalize s.org_id)))

  either-equal : (c u o : String) → some ((c == u) || (c == o)) ≡ some true → (c ≡ u) ⊎ (c ≡ o)
  either-equal c u o h = elim (Bool-cases (c == u)) [
    | inl e ↦ inl ((eq_iff c u).0 e)
    | inr e ↦ inr ((eq_iff c o).0 (ground (arith, e, h)))
  ]

  owns_cases :
      (b d : Bool) (u o c : String)
      → is_allowed normalize digest
          (prefixed normalize digest user_prefix (if b then none else some u))
          (prefixed normalize digest org_prefix (if d then none else some o))
          c
        ≡ some true
      → (c ≡ str_append user_prefix u) ⊎ (c ≡ str_append org_prefix o)
  unfolding is_allowed str_append
  owns_cases true d u o c h = absurd (cc)
  owns_cases false true u o c h = absurd (cc)
  owns_cases false false u o c h =
      either-equal c (str_append user_prefix u) (str_append org_prefix o) h

  Owns-IsNamed : (s : MemoryScope) (c : String) → Owns s c → IsNamed s c
  unfolding IsNamed in_allowed user_collection_name org_collection_name hash_id
  Owns-IsNamed s c h =
      owns_cases (is_empty (normalize s.user_id)) (is_empty (normalize s.org_id))
        (digest "user" (normalize s.user_id)) (digest "org" (normalize s.org_id)) c h

  IsNamed-Shares :
      (s t : MemoryScope) (c : String) → IsNamed s c → IsNamed t c → Shares normalize s t
  unfolding IsNamed
  IsNamed-Shares s t c (inl h) (inl k) = inl (
      injective "user" (normalize s.user_id) (normalize t.user_id)
        (str_append-injective user_prefix _ _ (sym h ∙ k)))
  IsNamed-Shares s t c (inr h) (inr k) = inr (
      injective "org" (normalize s.org_id) (normalize t.org_id)
        (str_append-injective org_prefix _ _ (sym h ∙ k)))
  IsNamed-Shares s t c (inl h) (inr k) = absurd (prefixes-disjoint _ _ (sym h ∙ k))
  IsNamed-Shares s t c (inr h) (inl k) = absurd (prefixes-disjoint _ _ (sym k ∙ h))

  -- Two owners of one collection are the same user or the same organization.
  pub Owns-Shares : (s t : MemoryScope) (c : String) → Owns s c → Owns t c → Shares normalize s t
  Owns-Shares s t c h k = IsNamed-Shares s t c (Owns-IsNamed s c h) (Owns-IsNamed t c k)
