-- ===== src/Pricing/Longest.antt =====
-- The entry that the lookup of src/fabri/pricing.py finds.
use fabri.Prelude.{
  ◌≤◌, String, true, false, ◌==◌, ◌&&◌, Option, none, some, List, [], ◌∷◌, ◌≡◌, refl, if◌then◌else◌,
  ltb, is_some, Dict, lookup, starts_with, str_length, eq_iff, arith, Bool-cases, inl, inr, All,
  All-of, All-map,
}
use fabri.Pricing.Defs.{is_longer, best_from, best_prefix_key, keys_of, entry_at, find_entry}

starts_with_refl : (s : String) → starts_with s s ≡ true
unfolding starts_with
starts_with_refl String.[] = refl
starts_with_refl (String.◌∷◌ c s) = ground (arith, starts_with_refl s)

starts_with-le : (s t : String) → starts_with s t ≡ true → str_length s ≤ str_length t
unfolding starts_with str_length
starts_with-le String.[] t h = omega arith
starts_with-le (String.◌∷◌ c s) String.[] h = absurd (cc)
starts_with-le (String.◌∷◌ c s) (String.◌∷◌ d t) h = ground (arith, starts_with-le s t, h)

keys_of-IsKey : {V : Type 0} (d : Dict V) → All (λ key. is_some (lookup key d) ≡ true) (keys_of d)
keys_of-IsKey [] = tt
keys_of-IsKey ((key, v) ∷ d) = (
  ground (arith, eq_iff key key),
  All-map (λ k. is_some (lookup k d) ≡ true)
      (λ k. is_some (if key == k then some v else lookup k d) ≡ true) (λ k h. ground (arith, h))
      (keys_of d) (keys_of-IsKey d),
)

module _ (model : String) where
  -- A key that starts the name is no longer than the one that is found, and there is none without.
  abbrev Beats : Option String → String → Type 0
  Beats none key = starts_with key model ≡ false
  Beats (some best) key = starts_with key model ≡ true → str_length key ≤ str_length best

  -- What is found later is as good.
  abbrev Improves : Option String → Option String → Type 0
  Improves none r = Unit
  Improves (some best) none = ⊥
  Improves (some best) (some key) = str_length best ≤ str_length key

  Improves-trans : (a b c : Option String) → Improves a b → Improves b c → Improves a c
  Improves-trans none b c h k = tt
  Improves-trans (some a) none c h k = absurd h
  Improves-trans (some a) (some b) none h k = absurd k
  Improves-trans (some a) (some b) (some c) h k = omega (arith, h, k)

  -- The key that is kept after one more.
  abbrev kept : String → Option String → Option String
  unfolding starts_with
  kept key best = if starts_with key model && is_longer key best then some key else best

  step-Beats :
      (key : String) (best : Option String)
      → Beats (kept key best) key × Improves best (kept key best)
  unfolding kept is_longer
  step-Beats key none = elim (Bool-cases (starts_with key model)) [
    | inl e ↦ rw e (λ h. omega arith, tt)
    | inr e ↦ rw e (e, tt)
  ]
  step-Beats key (some best) = elim (Bool-cases (starts_with key model)) [
    | inr e ↦ rw e (λ h. absurd (cc), omega arith)
    | inl e ↦ elim (Bool-cases (ltb (str_length best) (str_length key))) [
      | inl l ↦ rw (e, l) (λ h. omega arith, ground (arith, l))
      | inr l ↦ rw (e, l) (λ h. ground (arith, l), omega arith)
    ]
  ]

  Beats-Improves : (a b : Option String) (key : String) → Beats a key → Improves a b → Beats b key
  Beats-Improves none none key h k = h
  Beats-Improves none (some b) key h k = λ e. absurd (cc)
  Beats-Improves (some a) none key h k = absurd k
  Beats-Improves (some a) (some b) key h k = λ e. omega (arith, h e, k)

  best_from-Beats :
      (keys : List String) (best : Option String)
      → All (Beats (best_from model keys best)) keys × Improves best (best_from model keys best)
  unfolding best_from kept
  best_from-Beats [] none = (tt, tt)
  best_from-Beats [] (some best) = (tt, omega arith)
  best_from-Beats (key ∷ keys) best =
      let (beats, improves) = best_from-Beats keys (kept key best) in
      (
        (
          Beats-Improves (kept key best) (best_from model keys (kept key best)) key
              (step-Beats key best).0 improves,
          beats,
        ),
        Improves-trans best (kept key best) (best_from model keys (kept key best))
            (step-Beats key best).1 improves,
      )

  module _ {V : Type 0} (d : Dict V) where
    -- A key of the dictionary that starts the name.
    abbrev IsKey : String → Type 0
    IsKey key = (is_some (lookup key d) ≡ true) × (starts_with key model ≡ true)

    abbrev IsFound : Option String → Type 0
    IsFound none = Unit
    IsFound (some key) = IsKey key

    kept-IsFound :
        (key : String) (best : Option String)
        → is_some (lookup key d) ≡ true
        → IsFound best
        → IsFound (kept key best)
    unfolding kept
    kept-IsFound key best h k = elim (Bool-cases (starts_with key model && is_longer key best)) [
      | inl e ↦ rw e (h, ground (arith, e))
      | inr e ↦ rw e k
    ]

    best_from-IsFound :
        (keys : List String) (best : Option String)
        → All (λ key. is_some (lookup key d) ≡ true) keys
        → IsFound best
        → IsFound (best_from model keys best)
    unfolding best_from kept
    best_from-IsFound [] best h k = k
    best_from-IsFound (key ∷ keys) best h k =
        best_from-IsFound keys (kept key best) h.1 (kept-IsFound key best h.0 k)

    -- The key of a value: it starts the name, and no longer key does. Without one, no key does.
    pub data IsEntry : Option V → Type 0 where
      found :
          (key : String) (v : V)
          → lookup key d ≡ some v
          → starts_with key model ≡ true
          → All (λ k. starts_with k model ≡ true → str_length k ≤ str_length key) (keys_of d)
          → IsEntry (some v)
      missing : All (λ k. starts_with k model ≡ false) (keys_of d) → IsEntry none

    IsEntry-of :
        (key : String) (o : Option V)
        → lookup key d ≡ o
        → is_some o ≡ true
        → starts_with key model ≡ true
        → All (Beats (some key)) (keys_of d)
        → IsEntry o
    IsEntry-of key none e h s b = absurd (cc)
    IsEntry-of key (some v) e h s b = found key v e s b

    entry_at-IsEntry :
        (best : Option String)
        → IsFound best
        → All (Beats best) (keys_of d)
        → IsEntry (entry_at d best)
    entry_at-IsEntry none h b = missing b
    entry_at-IsEntry (some key) h b = IsEntry-of key (lookup key d) refl h.0 h.1 b

    -- The lookup finds the value of a key that starts the model's name, and no longer key starts it.
    -- It finds none only where no key starts the name.
    pub find_entry-IsEntry : IsEntry (find_entry d model)
    unfolding find_entry best_prefix_key
    find_entry-IsEntry = exact_or (lookup model d) refl (
        entry_at-IsEntry (best_from model (keys_of d) none)
          (best_from-IsFound (keys_of d) none (keys_of-IsKey d) tt)
          (best_from-Beats (keys_of d) none).0)
      where
        exact_or :
            (o : Option V)
            → lookup model d ≡ o
            → IsEntry (entry_at d (best_from model (keys_of d) none))
            → IsEntry
                (elim o [ some v ↦ some v | none ↦ entry_at d (best_from model (keys_of d) none) ])
        exact_or none e h = h
        exact_or (some v) e h = found model v e (starts_with_refl model) (
            All-of (λ k. starts_with k model ≡ true → str_length k ≤ str_length model)
              (λ k. starts_with-le k model) (keys_of d))
