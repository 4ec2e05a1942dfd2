-- ===== src/Prelude/Dedup.antt =====
-- What is left of a list without its repetitions.
use Prim.Native.String.{String}
use mathlib.Core.Path.{◌≡◌, refl, ap, ◌∙◌}
use mathlib.Core.Logic.{inl, inr}
use mathlib.Core.Bool.{true, false, ◌||◌}
use mathlib.Core.List.{List, [], ◌∷◌, ◌++◌}
use native.Mathlib.Omega.{arith}
use text.Mathlib.TextEquality.{eq_iff}
use fabri.Prelude.Tests.{Bool-cases}
use fabri.Prelude.Lists.{elem, is_nodup, dedup, dedup_from}

-- Texts that have been seen leave nothing.
dedup_from-seen :
    (seen xs : List String)
    → ((a : String) → elem a xs ≡ true → elem a seen ≡ true)
    → dedup_from seen xs ≡ []
dedup_from-seen seen [] h = refl
dedup_from-seen seen (x ∷ xs) h =
    rw (h x (ground (arith, eq_iff x x))) (dedup_from-seen seen xs (λ a m. h a (ground arith)))

dedup_from-append :
    (seen xs ys : List String)
    → ((a : String) → elem a ys ≡ true → (elem a xs || elem a seen) ≡ true)
    → dedup_from seen (xs ++ ys) ≡ dedup_from seen xs
dedup_from-append seen [] ys h = dedup_from-seen seen ys h
dedup_from-append seen (x ∷ xs) ys h = elim (Bool-cases (elem x seen)) [
  | inl old ↦ rw old (dedup_from-append seen xs ys (λ a m. ground (arith, h a, eq_iff x a)))
  | inr new ↦ rw new (
      ap (λ r. x ∷ r) (dedup_from-append (x ∷ seen) xs ys (λ a m. ground (arith, h a, eq_iff x a))))
]

-- Texts that are all new and distinct are kept.
dedup_from-new :
    (seen xs : List String)
    → is_nodup xs ≡ true
    → ((a : String) → elem a xs ≡ true → elem a seen ≡ false)
    → dedup_from seen xs ≡ xs
dedup_from-new seen [] h apart = refl
dedup_from-new seen (x ∷ xs) h apart = rw (apart x (ground (arith, eq_iff x x))) (
    ap (λ r. x ∷ r)
      (dedup_from-new (x ∷ seen) xs (ground arith) (λ a m. ground (arith, apart a, eq_iff x a))))

elem-dedup_from_new :
    (a : String) (seen xs : List String) → elem a (dedup_from seen xs) ≡ true → elem a seen ≡ false
elem-dedup_from_new a seen [] h = absurd (cc)
elem-dedup_from_new a seen (x ∷ xs) h = elim (Bool-cases (elem x seen)) [
  | inl old ↦ elem-dedup_from_new a seen xs (ground arith)
  | inr new ↦ ground (arith, elem-dedup_from_new a (x ∷ seen) xs, eq_iff x a)
]

is_nodup-dedup_from : (seen xs : List String) → is_nodup (dedup_from seen xs) ≡ true
is_nodup-dedup_from seen [] = refl
is_nodup-dedup_from seen (x ∷ xs) = elim (Bool-cases (elem x seen)) [
  | inl old ↦ rw old (is_nodup-dedup_from seen xs)
  | inr new ↦ rw new (
      ground
        (arith, is_nodup-dedup_from (x ∷ seen) xs, elem-dedup_from_new x (x ∷ seen) xs, eq_iff x x))
]

pub dedup_twice : (xs : List String) → dedup (dedup xs ++ dedup xs) ≡ dedup xs
dedup_twice xs =
    dedup_from-append [] (dedup xs) (dedup xs) (λ a m. ground arith)
    ∙ dedup_from-new [] (dedup xs) (is_nodup-dedup_from [] xs) (λ a m. refl)
