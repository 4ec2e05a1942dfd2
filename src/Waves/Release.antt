-- ===== src/Waves/Release.antt =====
-- What a round of src/fabri/builder/waves.py does to the counts: `indeg` keeps the number of
-- dependencies that are not met yet, and what is freed is what has just come down to none.
use fabri.Prelude.{
  ℕ, suc, ◌+◌, ◌-◌, ◌≤◌, ◌<◌, String, Bool, true, false, ◌==◌, ◌&&◌, ◌||◌, List, [], ◌∷◌, ◌≡◌, refl,
  ◌∙◌, Dict, if◌then◌else◌, eqb, ltb, leb, length, elem, count, is_nodup, arith, eq_iff, Bool-cases,
  inl, inr,
}
use fabri.Waves.Defs.{indeg_at, children_at, release, release_all, finish_all}
use fabri.Waves.Graph.{indeg_at-insert}

-- How many of a list of dependencies are not met.
abbrev pub unmet : (String → Bool) → List String → ℕ
unmet met [] = 0
unmet met (d ∷ ds) = if met d then unmet met ds else suc (unmet met ds)

abbrev or_met : String → (String → Bool) → String → Bool
or_met i met d = (i == d) || met d

abbrev pub or_any : List String → (String → Bool) → String → Bool
or_any is met d = elem d is || met d

pub unmet-congr :
    (f g : String → Bool) (ds : List String) → ((d : String) → f d ≡ g d) → unmet f ds ≡ unmet g ds
unmet-congr f g [] h = refl
unmet-congr f g (d ∷ ds) h = ground (arith, h d, unmet-congr f g ds h)

pub unmet-or_met :
    (i : String) (met : String → Bool) (ds : List String)
    → met i ≡ false
    → unmet met ds ≡ unmet (or_met i met) ds + count i ds
unmet-or_met i met [] h = omega arith
unmet-or_met i met (d ∷ ds) h = ground (arith, unmet-or_met i met ds h, eq_iff i d, eq_iff d i)

pub unmet_anti : (f g : String → Bool) (ds : List String) → unmet (λ d. f d || g d) ds ≤ unmet g ds
unmet_anti f g [] = omega arith
unmet_anti f g (d ∷ ds) = ground (arith, unmet_anti f g ds)

pub unmet-none : (ds : List String) → unmet (λ d. false) ds ≡ length ds
unmet-none [] = refl
unmet-none (d ∷ ds) = omega (arith, unmet-none ds)

pub unmet-zero :
    (met : String → Bool) (d : String) (ds : List String)
    → unmet met ds ≡ 0
    → elem d ds ≡ true
    → met d ≡ true
unmet-zero met d [] h m = absurd (cc)
unmet-zero met d (e ∷ ds) h m = ground (arith, unmet-zero met d ds, eq_iff e d)

pub unmet-pos :
    (met : String → Bool) (ds : List String)
    → 0 < unmet met ds
    → (d : String) × (elem d ds ≡ true) × (met d ≡ false)
unmet-pos met [] h = absurd (omega arith)
unmet-pos met (e ∷ ds) h = elim (Bool-cases (met e)) [
  | inl m ↦ let (d, p, q) = unmet-pos met ds (ground arith) in (d, ground arith, q)
  | inr m ↦ (e, ground (arith, eq_iff e e), m)
]

indeg_at-release_all :
    (c : String) (cs : List String) (m : Dict ℕ) (freed : List String)
    → indeg_at c (release_all cs (m, freed)).0 ≡ indeg_at c m - count c cs
unfolding release_all
indeg_at-release_all c [] m freed = omega arith
indeg_at-release_all c (x ∷ cs) m freed = ground (
  arith,
  indeg_at-release_all c cs (release x (m, freed)).0 (release x (m, freed)).1,
  indeg_at-insert x c (indeg_at x m - 1) m,
  eq_iff x c,
)

elem-release_all :
    (c : String) (cs : List String) (m : Dict ℕ) (freed : List String)
    → elem c (release_all cs (m, freed)).1
      ≡ (elem c freed || (ltb 0 (indeg_at c m) && leb (indeg_at c m) (count c cs)))
unfolding release_all
elem-release_all c [] m freed = ground arith
elem-release_all c (x ∷ cs) m freed = ground (
  arith,
  elem-release_all c cs (release x (m, freed)).0 (release x (m, freed)).1,
  indeg_at-insert x c (indeg_at x m - 1) m,
  eq_iff x c,
)

-- The count of an item after a batch of ready items, and whether the batch frees it.
abbrev freed_by : (String → Bool) → List String → List String → Bool
freed_by met is ds = ltb 0 (unmet met ds) && eqb (unmet (or_any is met) ds) 0

or_any-or_met :
    (i : String) (is : List String) (met : String → Bool) (d : String)
    → or_any is (or_met i met) d ≡ or_any (i ∷ is) met d
or_any-or_met i is met d = ground arith

unmet-or_any-or_met :
    (i : String) (is : List String) (met : String → Bool) (ds : List String)
    → unmet (or_any is (or_met i met)) ds ≡ unmet (or_any (i ∷ is) met) ds
unmet-or_any-or_met i is met ds =
    unmet-congr (or_any is (or_met i met)) (or_any (i ∷ is) met) ds (or_any-or_met i is met)

-- The rest of a batch is still to be met after its head.
still_new :
    (i : String) (is : List String) (met : String → Bool)
    → is_nodup (i ∷ is) ≡ true
    → ((j : String) → elem j (i ∷ is) ≡ true → met j ≡ false)
    → (j : String) → elem j is ≡ true
    → or_met i met j ≡ false
still_new i is met nodup new j h = ground (arith, eq_iff i j, new j)

module _ (children : Dict (List String)) (deps : String → List String)
    (noted : (d c : String) → count c (children_at d children) ≡ count d (deps c)) where
  step_counts :
      (i : String) (met : String → Bool) (m : Dict ℕ) (freed : List String)
      → ((c : String) → indeg_at c m ≡ unmet met (deps c))
      → met i ≡ false
      → (c : String)
      → indeg_at c (release_all (children_at i children) (m, freed)).0
        ≡ unmet (or_met i met) (deps c)
  step_counts i met m freed h new c = omega (
    arith,
    indeg_at-release_all c (children_at i children) m freed,
    h c,
    noted i c,
    unmet-or_met i met (deps c) new,
  )

  pub indeg_at-finish_all :
      (is : List String) (met : String → Bool) (m : Dict ℕ) (freed : List String)
      → ((c : String) → indeg_at c m ≡ unmet met (deps c))
      → is_nodup is ≡ true
      → ((i : String) → elem i is ≡ true → met i ≡ false)
      → (c : String)
      → indeg_at c (finish_all children is (m, freed)).0 ≡ unmet (or_any is met) (deps c)
  unfolding finish_all
  indeg_at-finish_all [] met m freed h nodup new c = h c
  indeg_at-finish_all (i ∷ is) met m freed h nodup new c =
      let next = release_all (children_at i children) (m, freed) in
      indeg_at-finish_all is (or_met i met) next.0 next.1
        (step_counts i met m freed h (new i (ground (arith, eq_iff i i)))) (ground arith)
        (still_new i is met nodup new) c
      ∙ unmet-or_any-or_met i is met (deps c)

  pub elem-finish_all :
      (is : List String) (met : String → Bool) (m : Dict ℕ) (freed : List String)
      → ((c : String) → indeg_at c m ≡ unmet met (deps c))
      → is_nodup is ≡ true
      → ((i : String) → elem i is ≡ true → met i ≡ false)
      → (c : String)
      → elem c (finish_all children is (m, freed)).1 ≡ (elem c freed || freed_by met is (deps c))
  unfolding finish_all
  elem-finish_all [] met m freed h nodup new c = ground arith
  elem-finish_all (i ∷ is) met m freed h nodup new c =
      let next = release_all (children_at i children) (m, freed) in
      let new_i = new i (ground (arith, eq_iff i i)) in
      ground (
        arith,
        elem-finish_all is (or_met i met) next.0 next.1 (step_counts i met m freed h new_i)
            (ground arith) (still_new i is met nodup new) c,
        elem-release_all c (children_at i children) m freed,
        h c,
        noted i c,
        unmet-or_met i met (deps c) new_i,
        unmet-or_any-or_met i is met (deps c),
        unmet_anti (λ d. elem d is) (or_met i met) (deps c),
      )
