-- ===== src/Memory/Recurrence/Confidence.antt =====
-- src/fabri/memory/recurrence.py: `apply_confidence`. Floats are a parameter with the operations that
-- the code uses.
use fabri.Prelude.{
  ℕ, ◌≤◌, ◌<◌, String, Bool, true, false, not, ◌==◌, ◌&&◌, List, ◌≡◌, if◌then◌else◌, eqb, length,
  filter,
}
use fabri.Value.{Fields, mapping, get_field, is_null, equal}
use fabri.Memory.Recurrence.Signature.{signature_fields, canonicalize, fingerprint}
use fabri.Memory.Recurrence.Applicable.{applicable}

-- The constants are 0.0, 1.0, 0.10, 0.15, 0.45, 0.60 and 0.90; `ratio m n` is `m / n`.
pub record Floats (F : Type 0) : Type 0 where
  pub zero_float : F
  pub one : F
  pub tenth : F
  pub near_width : F
  pub near : F
  pub near_top : F
  pub exact : F
  pub less : F → F → Bool
  pub add : F → F → F
  pub mul : F → F → F
  pub ratio : ℕ → ℕ → F

module _ {F : Type 0} (floats : Floats F) where
  -- `min(1.0, max(0.0, x))`.
  unfoldable pub clip : F → F
  clip x =
      let positive = if floats.less floats.zero_float x then x else floats.zero_float in
      if floats.less positive floats.one then positive else floats.one

  -- `_structured_similarity`.
  abbrev pub comparable : Fields → Fields → List String
  unfolding get_field
  comparable left right =
      filter (λ k. not (is_null (get_field k left)) && not (is_null (get_field k right)))
        signature_fields

  abbrev pub agreeing : Fields → Fields → List String
  unfolding get_field equal comparable
  agreeing left right =
      filter (λ k. equal (get_field k left) (get_field k right)) (comparable left right)

  unfoldable pub structured_similarity : Fields → Fields → F
  unfolding comparable agreeing
  structured_similarity left right =
      let fields = length (comparable left right) in
      if eqb fields 0 then floats.zero_float else floats.ratio (length (agreeing left right)) fields

  -- The three bands.
  unfoldable pub banded : Bool → Bool → F → F → F
  banded is_exact fits relevance similarity =
      if is_exact && fits
      then floats.add floats.exact (floats.mul floats.tenth relevance)
      else if fits
      then floats.add floats.near (floats.mul floats.near_width relevance)
      else floats.mul (floats.mul floats.tenth relevance) similarity

  -- `apply_confidence`.
  unfoldable pub score_with : (String → String) → Fields → Fields → Fields → F → F
  unfolding canonicalize fingerprint applicable structured_similarity banded clip
  score_with digest signature resolution state relevance =
      let left = canonicalize signature in
      let right = canonicalize state in
      banded (fingerprint digest left == fingerprint digest right) (applicable resolution state)
        (clip relevance) (structured_similarity left right)

  unfoldable pub apply_confidence : (String → String) → Fields → Fields → F → F
  unfolding get_field score_with
  apply_confidence digest resolution state relevance =
      elim (get_field "problem_signature" resolution) [
        | mapping signature ↦ score_with digest signature resolution state relevance
        | _ ↦ floats.zero_float
      ]

  -- What is known of floats that are numbers: rounding keeps the order.
  abbrev pub le : F → F → Type 0
  le a b = floats.less b a ≡ false

  pub record AreFloats : Type 0 where
    pub le_refl : (a : F) → le a a
    pub le_trans : (a b c : F) → le a b → le b c → le a c
    pub less-le : (a b : F) → floats.less a b ≡ true → le a b
    pub mul_nonneg :
        (a s : F)
        → le floats.zero_float a
        → le floats.zero_float s
        → le floats.zero_float (floats.mul a s)
    pub mul_le : (a s : F) → le floats.zero_float a → le s floats.one → le (floats.mul a s) a
    pub add_grows : (a b : F) → le floats.zero_float b → le a (floats.add a b)
    pub add_mono : (a b c : F) → le b c → le (floats.add a b) (floats.add a c)
    pub ratio_nonneg : (m n : ℕ) → 0 < n → le floats.zero_float (floats.ratio m n)
    pub ratio_le : (m n : ℕ) → 0 < n → m ≤ n → le (floats.ratio m n) floats.one
    pub zero_one : le floats.zero_float floats.one
    pub zero_tenth : le floats.zero_float floats.tenth
    pub zero_width : le floats.zero_float floats.near_width
    pub zero_near : le floats.zero_float floats.near
    pub zero_exact : le floats.zero_float floats.exact
    pub exact_one : le (floats.add floats.exact floats.tenth) floats.one
    pub near_sum : le (floats.add floats.near floats.near_width) floats.near_top
    pub top_one : le floats.near_top floats.one
    pub tenth_one : le floats.tenth floats.one
