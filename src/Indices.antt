-- ===== src/Indices.antt =====
-- Lists of indices and arrays, as src/fabri/core uses them.
use fabri.Prelude.{
  ℕ, zero, suc, ◌+◌, ◌≤◌, ◌<◌, Bool, true, false, not, ◌&&◌, ◌||◌, List, [], ◌∷◌, ◌++◌, ◌≡◌, refl,
  if◌then◌else◌, eqb, ltb, leb, length, filter, All, arith, Bool-cases, inl, inr,
}

-- `a in xs`.
abbrev pub elem : ℕ → List ℕ → Bool
elem a [] = false
elem a (x ∷ xs) = eqb x a || elem a xs

abbrev pub count : ℕ → List ℕ → ℕ
count a [] = 0
count a (x ∷ xs) = if eqb x a then suc (count a xs) else count a xs

abbrev pub is_nodup : List ℕ → Bool
is_nodup [] = true
is_nodup (x ∷ xs) = not (elem x xs) && is_nodup xs

-- `range(i, i + n)`.
abbrev pub range_from : ℕ → ℕ → List ℕ
range_from i zero = []
range_from i (suc n) = i ∷ range_from (suc i) n

-- `range(n)`.
abbrev pub range : ℕ → List ℕ
range n = range_from 0 n

module _ {ℓ} {A : Type ℓ} where
  -- `[x] * n`.
  abbrev pub replicate : ℕ → A → List A
  replicate zero x = []
  replicate (suc n) x = x ∷ replicate n x

  -- `xs[i]`, which the code reads in range only.
  abbrev pub get_or : List A → ℕ → A → A
  get_or [] i d = d
  get_or (x ∷ xs) zero d = x
  get_or (x ∷ xs) (suc i) d = get_or xs i d

  -- `xs[i] = v`.
  abbrev pub set : List A → ℕ → A → List A
  set [] i v = []
  set (x ∷ xs) zero v = v ∷ xs
  set (x ∷ xs) (suc i) v = x ∷ set xs i v

  pub length-set : (xs : List A) (i : ℕ) (v : A) → length (set xs i v) ≡ length xs
  length-set [] i v = refl
  length-set (x ∷ xs) zero v = refl
  length-set (x ∷ xs) (suc i) v = omega (arith, length-set xs i v)

  pub length-replicate : (n : ℕ) (x : A) → length (replicate n x) ≡ n
  length-replicate zero x = refl
  length-replicate (suc n) x = omega (arith, length-replicate n x)

  pub get_or-set :
      (xs : List A) (i j : ℕ) (v d : A)
      → get_or (set xs i v) j d ≡ (if eqb i j && ltb i (length xs) then v else get_or xs j d)
  get_or-set [] i j v d = ground arith
  get_or-set (x ∷ xs) zero zero v d = ground arith
  get_or-set (x ∷ xs) zero (suc j) v d = ground arith
  get_or-set (x ∷ xs) (suc i) zero v d = ground arith
  get_or-set (x ∷ xs) (suc i) (suc j) v d = ground (arith, get_or-set xs i j v d)

  pub get_or-past : (xs : List A) (i : ℕ) (d : A) → length xs ≤ i → get_or xs i d ≡ d
  get_or-past [] i d h = refl
  get_or-past (x ∷ xs) zero d h = absurd (omega arith)
  get_or-past (x ∷ xs) (suc i) d h = get_or-past xs i d (omega arith)

  pub get_or-replicate : (n i : ℕ) (x : A) → get_or (replicate n x) i x ≡ x
  get_or-replicate zero i x = refl
  get_or-replicate (suc n) zero x = refl
  get_or-replicate (suc n) (suc i) x = get_or-replicate n i x

pub elem-append : (a : ℕ) (xs ys : List ℕ) → elem a (xs ++ ys) ≡ (elem a xs || elem a ys)
elem-append a [] ys = refl
elem-append a (x ∷ xs) ys = ground (arith, elem-append a xs ys)

pub count-append : (a : ℕ) (xs ys : List ℕ) → count a (xs ++ ys) ≡ count a xs + count a ys
count-append a [] ys = omega arith
count-append a (x ∷ xs) ys = ground (arith, count-append a xs ys)

pub elem→count : (a : ℕ) (xs : List ℕ) → elem a xs ≡ true → 0 < count a xs
elem→count a [] h = absurd (cc)
elem→count a (x ∷ xs) h = ground (arith, elem→count a xs)

pub count-is_nodup :
    (a : ℕ) (xs : List ℕ) → is_nodup xs ≡ true → count a xs ≡ (if elem a xs then 1 else 0)
count-is_nodup a [] h = refl
count-is_nodup a (x ∷ xs) h = ground (arith, count-is_nodup a xs)

pub elem-filter : (p : ℕ → Bool) (a : ℕ) (xs : List ℕ) → elem a (filter p xs) ≡ (p a && elem a xs)
elem-filter p a [] = ground arith
elem-filter p a (x ∷ xs) = elim (Bool-cases (eqb x a)) [
  | inl e ↦ let same : x ≡ a = ground arith in rw same (ground (arith, elem-filter p a xs))
  | inr n ↦ ground (arith, elem-filter p a xs)
]

pub is_nodup-filter :
    (p : ℕ → Bool) (xs : List ℕ) → is_nodup xs ≡ true → is_nodup (filter p xs) ≡ true
is_nodup-filter p [] h = refl
is_nodup-filter p (x ∷ xs) h = ground (arith, is_nodup-filter p xs, elem-filter p x xs)

pub is_nodup-append :
    (xs ys : List ℕ)
    → is_nodup xs ≡ true
    → is_nodup ys ≡ true
    → ((a : ℕ) → elem a xs ≡ true → elem a ys ≡ false)
    → is_nodup (xs ++ ys) ≡ true
is_nodup-append [] ys h k apart = k
is_nodup-append (x ∷ xs) ys h k apart = ground (
  arith,
  is_nodup-append xs ys (ground arith) k (λ a m. apart a (ground arith)),
  elem-append x xs ys,
  apart x (ground arith),
)

pub elem-range_from : (c i n : ℕ) → elem c (range_from i n) ≡ (leb i c && ltb c (i + n))
elem-range_from c i zero = ground arith
elem-range_from c i (suc n) = ground (arith, elem-range_from c (suc i) n)

pub is_nodup-range_from : (i n : ℕ) → is_nodup (range_from i n) ≡ true
is_nodup-range_from i zero = refl
is_nodup-range_from i (suc n) =
    ground (arith, is_nodup-range_from (suc i) n, elem-range_from i (suc i) n)

pub elem-range : (c n : ℕ) → elem c (range n) ≡ ltb c n
elem-range c n = ground (arith, elem-range_from c 0 n)

pub All-of_elem {κ} : (P : ℕ → Type κ) (xs : List ℕ) → ((a : ℕ) → elem a xs ≡ true → P a) → All P xs
All-of_elem P [] h = tt
All-of_elem P (x ∷ xs) h = (h x (ground arith), All-of_elem P xs (λ a m. h a (ground arith)))

length-without :
    (a : ℕ) (xs : List ℕ) → length xs ≡ length (filter (λ y. not (eqb y a)) xs) + count a xs
length-without a [] = omega arith
length-without a (x ∷ xs) = ground (arith, length-without a xs)

-- Distinct numbers below a bound are at most as many as the bound says.
pub pigeonhole :
    (n : ℕ) (xs : List ℕ)
    → is_nodup xs ≡ true
    → ((a : ℕ) → elem a xs ≡ true → a < n)
    → length xs ≤ n
pigeonhole zero [] h below = omega arith
pigeonhole zero (x ∷ xs) h below = absurd (omega (arith, below x (ground arith)))
pigeonhole (suc n) xs h below =
    let without = filter (λ y. not (eqb y n)) xs in
    ground (
      arith,
      length-without n xs,
      count-is_nodup n xs h,
      pigeonhole n without (is_nodup-filter (λ y. not (eqb y n)) xs h)
          (λ a m. ground (arith, elem-filter (λ y. not (eqb y n)) a xs, below a)),
    )

pub is_nodup-middle : (i : ℕ) (xs ys : List ℕ) → is_nodup (xs ++ i ∷ ys) ≡ true → elem i xs ≡ false
is_nodup-middle i [] ys h = refl
is_nodup-middle i (x ∷ xs) ys h = ground (arith, is_nodup-middle i xs ys, elem-append x xs (i ∷ ys))
