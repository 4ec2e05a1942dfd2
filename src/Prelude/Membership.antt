-- ===== src/Prelude/Membership.antt =====
-- Membership, repetition and filters on lists of texts.
use Prim.Native.Nat.{ℕ, zero, suc, ◌+◌, ◌≤◌, ◌<◌}
use Prim.Native.String.{String}
use mathlib.Core.Path.{◌≡◌, refl}
use mathlib.Core.Logic.{inl, inr}
use mathlib.Core.Bool.{Bool, true, false, not, ◌&&◌, ◌||◌}
use mathlib.Core.List.{List, [], ◌∷◌, ◌++◌}
use native.Mathlib.Omega.{arith}
use text.Mathlib.Text.{◌==◌}
use text.Mathlib.TextEquality.{eq_iff}
use fabri.Prelude.Tests.{if◌then◌else◌, Bool-cases}
use fabri.Prelude.Text.{insert_sorted, sorted}
use fabri.Prelude.Lists.{
  take, drop, length, filter, elem, is_nodup, count, All, elem-append, length-filter,
}

pub elem-filter :
    (p : String → Bool) (a : String) (xs : List String) → elem a (filter p xs) ≡ (p a && elem a xs)
elem-filter p a [] = ground arith
elem-filter p a (x ∷ xs) = ground (arith, elem-filter p a xs, eq_iff x a)

pub is_nodup-filter :
    (p : String → Bool) (xs : List String) → is_nodup xs ≡ true → is_nodup (filter p xs) ≡ true
is_nodup-filter p [] h = refl
is_nodup-filter p (x ∷ xs) h = ground (arith, is_nodup-filter p xs, elem-filter p x xs)

pub is_nodup-append :
    (xs ys : List String)
    → is_nodup xs ≡ true
    → is_nodup ys ≡ true
    → ((a : String) → elem a xs ≡ true → elem a ys ≡ false)
    → is_nodup (xs ++ ys) ≡ true
is_nodup-append [] ys h k apart = k
is_nodup-append (x ∷ xs) ys h k apart = ground (
  arith,
  is_nodup-append xs ys (ground arith) k (λ a m. apart a (ground arith)),
  elem-append x xs ys,
  apart x (ground (arith, eq_iff x x)),
)

pub filter-congr :
    (p q : String → Bool) (xs : List String)
    → ((a : String) → elem a xs ≡ true → p a ≡ q a)
    → filter p xs ≡ filter q xs
filter-congr p q [] h = refl
filter-congr p q (x ∷ xs) h =
    ground
      (arith, h x (ground (arith, eq_iff x x)), filter-congr p q xs (λ a m. h a (ground arith)))

-- Two tests that part a third one count together what it counts.
pub length-filter_split :
    (p q r : String → Bool) (xs : List String)
    → ((a : String) → elem a xs ≡ true → (p a ≡ (q a || r a)) × ((q a && r a) ≡ false))
    → length (filter p xs) ≡ length (filter q xs) + length (filter r xs)
length-filter_split p q r [] h = omega arith
length-filter_split p q r (x ∷ xs) h = ground (
  arith,
  h x (ground (arith, eq_iff x x)),
  length-filter_split p q r xs (λ a m. h a (ground arith)),
)

-- What is counted not at all passes nowhere.
pub filter-none :
    (p : String → Bool) (a : String) (xs : List String)
    → length (filter p xs) ≡ 0
    → elem a xs ≡ true
    → p a ≡ false
filter-none p a [] h m = absurd (cc)
filter-none p a (x ∷ xs) h m = ground (arith, filter-none p a xs, eq_iff x a)

pub count-is_nodup :
    (a : String) (xs : List String) → is_nodup xs ≡ true → count a xs ≡ (if elem a xs then 1 else 0)
count-is_nodup a [] h = refl
count-is_nodup a (x ∷ xs) h = ground (arith, count-is_nodup a xs, eq_iff x a)

pub All-of_elem {κ} :
    (P : String → Type κ) (xs : List String) → ((a : String) → elem a xs ≡ true → P a) → All P xs
All-of_elem P [] h = tt
All-of_elem P (x ∷ xs) h =
    (h x (ground (arith, eq_iff x x)), All-of_elem P xs (λ a m. h a (ground arith)))

elem-insert_sorted :
    (a b : String) (xs : List String) → elem a (insert_sorted b xs) ≡ ((b == a) || elem a xs)
unfolding insert_sorted
elem-insert_sorted a b [] = refl
elem-insert_sorted a b (x ∷ xs) = ground (arith, elem-insert_sorted a b xs)

pub elem-sorted : (a : String) (xs : List String) → elem a (sorted xs) ≡ elem a xs
unfolding sorted
elem-sorted a [] = refl
elem-sorted a (x ∷ xs) = ground (arith, elem-sorted a xs, elem-insert_sorted a x (sorted xs))

pub filter-some :
    (p : String → Bool) (xs : List String)
    → 0 < length (filter p xs)
    → (a : String) × (elem a xs ≡ true) × (p a ≡ true)
filter-some p [] h = absurd (omega arith)
filter-some p (x ∷ xs) h = elim (Bool-cases (p x)) [
  | inl e ↦ (x, ground (arith, eq_iff x x), e)
  | inr e ↦ let (a, m, q) = filter-some p xs (ground arith) in (a, ground arith, q)
]

remove : String → List String → List String
remove a xs = filter (λ y. not (y == a)) xs

length-remove :
    (a : String) (xs : List String) → elem a xs ≡ true → length (remove a xs) < length xs
unfolding remove
length-remove a [] h = absurd (cc)
length-remove a (x ∷ xs) h = elim (Bool-cases (x == a)) [
  | inl e ↦ rw e (omega (arith, length-filter (λ y. not (y == a)) xs))
  | inr e ↦ rw e (omega (arith, length-remove a xs (ground arith)))
]

-- Distinct texts that all stand in a list are at most as many as its elements.
pub pigeonhole :
    (xs ys : List String)
    → is_nodup xs ≡ true
    → ((a : String) → elem a xs ≡ true → elem a ys ≡ true)
    → length xs ≤ length ys
pigeonhole [] ys h sub = omega arith
pigeonhole (x ∷ xs) ys h sub = omega (
  arith,
  pigeonhole xs (remove x ys) (ground arith) (λ a m.
      unfold remove in ground (arith, elem-filter (λ y. not (y == x)) a ys, sub a, eq_iff a x)),
  length-remove x ys (sub x (ground (arith, eq_iff x x))),
)

-- What holds of a list holds of its parts.
module _ {ℓ κ} {A : Type ℓ} (P : A → Type κ) where
  pub All-take : (n : ℕ) (xs : List A) → All P xs → All P (take n xs)
  All-take zero xs h = tt
  All-take (suc n) [] h = tt
  All-take (suc n) (x ∷ xs) h = (h.0, All-take n xs h.1)

  pub All-drop : (n : ℕ) (xs : List A) → All P xs → All P (drop n xs)
  All-drop zero xs h = h
  All-drop (suc n) [] h = h
  All-drop (suc n) (x ∷ xs) h = All-drop n xs h.1

  pub All-kept : (p : A → Bool) (xs : List A) → All P xs → All P (filter p xs)
  All-kept p [] h = tt
  All-kept p (x ∷ xs) h = elim (Bool-cases (p x)) [
    | inl hit ↦ rw hit (h.0, All-kept p xs h.1)
    | inr miss ↦ rw miss (All-kept p xs h.1)
  ]
