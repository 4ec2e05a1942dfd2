-- ===== src/Prelude/Text.antt =====
-- What the code uses of Python's texts: white space, and the order that `sorted` goes by.
use Prim.Native.Nat.{ℕ, zero, suc, ◌/◌, ◌%◌, compare, Ordering}
use Prim.Native.Char.{code}
use Prim.Native.String.{String}
use mathlib.Core.Bool.{Bool, true, false, ◌&&◌, ◌||◌}
use mathlib.Core.List.{List, [], ◌∷◌}
use fabri.Prelude.Tests.{ltb, leb, eqb, if◌then◌else◌}
use fabri.Prelude.Lists.{drop}

-- `c.isspace()`, which is what `strip()` takes away.
unfoldable pub is_space : ℕ → Bool
is_space c =
    leb 9 c && leb c 13
    || (leb 28 c && leb c 32
        || (eqb c 133
            || (eqb c 160
                || (eqb c 5760
                    || (leb 8192 c && leb c 8202
                        || (eqb c 8232
                            || (eqb c 8233 || (eqb c 8239 || (eqb c 8287 || eqb c 12288)))))))))

-- `not s.strip()`.
unfoldable pub is_blank : String → Bool
unfolding is_space
is_blank String.[] = true
is_blank (String.◌∷◌ c s) = is_space (code c) && is_blank s

-- `not s`.
unfoldable pub is_empty : String → Bool
is_empty String.[] = true
is_empty (String.◌∷◌ c s) = false

unfoldable pub lstrip : String → String
unfolding is_space
lstrip String.[] = String.[]
lstrip (String.◌∷◌ c s) = if is_space (code c) then lstrip s else String.◌∷◌ c s

unfoldable pub rstrip : String → String
unfolding is_space is_empty
rstrip String.[] = String.[]
rstrip (String.◌∷◌ c s) =
    let rest = rstrip s in
    if is_space (code c) && is_empty rest then String.[] else String.◌∷◌ c rest

-- `s.strip()`.
unfoldable pub strip : String → String
unfolding lstrip rstrip
strip s = rstrip (lstrip s)

-- `s <= t`: texts are compared by code points.
unfoldable pub str_leb : String → String → Bool
str_leb String.[] t = true
str_leb (String.◌∷◌ c s) String.[] = false
str_leb (String.◌∷◌ c s) (String.◌∷◌ d t) =
    let rest = str_leb s t in
    elim (compare (code c) (code d)) [
      | Ordering.lt ↦ true
      | Ordering.eq ↦ rest
      | Ordering.gt ↦ false
    ]

-- `sorted(xs)`.
unfoldable pub insert_sorted : String → List String → List String
unfolding str_leb
insert_sorted a [] = a ∷ []
insert_sorted a (x ∷ xs) = if str_leb a x then a ∷ x ∷ xs else x ∷ insert_sorted a xs

unfoldable pub sorted : List String → List String
unfolding insert_sorted
sorted [] = []
sorted (x ∷ xs) = insert_sorted x (sorted xs)

-- `s + t`.
unfoldable pub str_append : String → String → String
str_append String.[] t = t
str_append (String.◌∷◌ c s) t = String.◌∷◌ c (str_append s t)

-- `t.startswith(s)`, and `s in t`.
unfoldable pub starts_with : String → String → Bool
starts_with String.[] t = true
starts_with (String.◌∷◌ c s) String.[] = false
starts_with (String.◌∷◌ c s) (String.◌∷◌ d t) = eqb (code c) (code d) && starts_with s t

unfoldable pub contains : String → String → Bool
unfolding starts_with is_empty
contains s String.[] = is_empty s
contains s (String.◌∷◌ d t) = starts_with s (String.◌∷◌ d t) || contains s t

-- `len(s)`.
unfoldable pub str_length : String → ℕ
str_length String.[] = 0
str_length (String.◌∷◌ c s) = suc (str_length s)

-- `separator.join(xs)`.
unfoldable pub join : String → List String → String
unfolding str_append
join separator [] = ""
join separator (x ∷ []) = x
join separator (x ∷ y ∷ xs) = str_append x (str_append separator (join separator (y ∷ xs)))

-- `s.split(".")`: the component that has begun, and the others.
unfoldable pub split_from : String → String × List String
split_from String.[] = (String.[], [])
split_from (String.◌∷◌ c s) =
    let (first, others) = split_from s in
    if eqb (code c) b'.' then (String.[], first ∷ others) else (String.◌∷◌ c first, others)

unfoldable pub split_dots : String → List String
unfolding split_from
split_dots s = let (first, others) = split_from s in first ∷ others

-- `str(n)`: the decimal digits, with fuel for each.
abbrev digit : ℕ → String
digit n =
    elim (drop {A = String} n ("0" ∷ "1" ∷ "2" ∷ "3" ∷ "4" ∷ "5" ∷ "6" ∷ "7" ∷ "8" ∷ "9" ∷ [])) [
      | [] ↦ ""
      | d ∷ ds ↦ d
    ]

unfoldable pub digits : ℕ → ℕ → String
unfolding str_append
digits zero n = digit n
digits (suc fuel) n =
    let more = str_append (digits fuel (n / 10)) (digit (n % 10)) in
    if ltb n 10 then digit n else more

unfoldable pub decimal : ℕ → String
unfolding digits
decimal n = digits n n
