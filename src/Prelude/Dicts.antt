-- ===== src/Prelude/Dicts.antt =====
-- A Python `dict` with text keys: an association list in insertion order. A write to a present
-- key keeps its place.
use Prim.Native.String.{String}
use mathlib.Core.Path.{◌≡◌, refl, subst}
use mathlib.Core.Logic.{inl, inr}
use mathlib.Core.Bool.{Bool, false, ◌||◌}
use mathlib.Core.List.{List, [], ◌∷◌, ◌++◌, map}
use mathlib.Core.Option.{Option, none, some}
use native.Mathlib.Omega.{arith}
use text.Mathlib.Text.{◌==◌}
use text.Mathlib.TextEquality.{eq_iff}
use fabri.Prelude.Tests.{if◌then◌else◌, Bool-cases, is_some}
use fabri.Prelude.Lists.{elem, All}

abbrev pub Dict {ℓ} : Type ℓ → Type ℓ
Dict V = List (String × V)

module _ {ℓ} {V : Type ℓ} where
  abbrev pub lookup : String → Dict V → Option V
  lookup k [] = none
  lookup k ((key, v) ∷ rest) = if key == k then some v else lookup k rest

  abbrev pub insert : String → V → Dict V → Dict V
  insert k v [] = (k, v) ∷ []
  insert k v ((key, old) ∷ rest) = if key == k then (k, v) ∷ rest else (key, old) ∷ insert k v rest

  abbrev pub keys : Dict V → List String
  keys rest = map (λ p. p.0) rest

  abbrev pub has_key : String → Dict V → Bool
  has_key k rest = elem k (keys rest)

  pub lookup-insert :
      (k key : String) (v : V) (rest : Dict V)
      → lookup key (insert k v rest) ≡ (if k == key then some v else lookup key rest)
  lookup-insert k key v [] = refl
  lookup-insert k key v ((first, old) ∷ rest) =
      ground (arith, eq_iff k key, eq_iff first k, eq_iff first key, lookup-insert k key v rest)

  pub lookup-has_key : (k : String) (rest : Dict V) → is_some (lookup k rest) ≡ has_key k rest
  lookup-has_key k [] = refl
  lookup-has_key k ((key, v) ∷ rest) = ground (arith, lookup-has_key k rest)

  pub has_key-insert :
      (k key : String) (v : V) (rest : Dict V)
      → has_key key (insert k v rest) ≡ ((k == key) || has_key key rest)
  has_key-insert k key v [] = refl
  has_key-insert k key v ((first, old) ∷ rest) =
      ground (arith, eq_iff k key, eq_iff first k, eq_iff first key, has_key-insert k key v rest)

  -- A new key goes to the end.
  pub insert-new :
      (k : String) (v : V) (rest : Dict V)
      → has_key k rest ≡ false
      → insert k v rest ≡ rest ++ (k, v) ∷ []
  insert-new k v [] h = refl
  insert-new k v ((first, old) ∷ rest) h = ground (arith, insert-new k v rest)

pub All-lookup {ℓ κ} :
    {V : Type ℓ} (P : V → Type κ) (k : String) (v : V) (rest : Dict V)
    → All (λ p. P p.1) rest
    → lookup k rest ≡ some v
    → P v
All-lookup P k v [] h e = absurd (cc)
All-lookup P k v ((key, old) ∷ rest) h e = elim (Bool-cases (key == k)) [
  | inl same ↦ let this : old ≡ v = ground arith in subst P this h.0
  | inr other ↦ All-lookup P k v rest h.1 (ground arith)
]
