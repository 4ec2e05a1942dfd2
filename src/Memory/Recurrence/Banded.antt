-- ===== src/Memory/Recurrence/Banded.antt =====
-- The bands of `apply_confidence` in src/fabri/memory/recurrence.py.
use fabri.Prelude.{
  ℕ, ◌≤◌, String, Bool, true, false, ◌==◌, ◌&&◌, ◌≡◌, ◌⊎◌, refl, ap, ◌∙◌, if◌then◌else◌, eqb,
  length, length-filter, arith, Bool-cases, eq_iff, none, inl, inr,
}
use fabri.Value.{
  Value, Fields, null, bool, num, neg, str, seq, mapping, get_field, as_mapping, equal,
}
use fabri.Memory.Recurrence.Signature.{canonicalize, fingerprint}
use fabri.Memory.Recurrence.Applicable.{applicable}
use fabri.Memory.Recurrence.Confidence.{
  Floats, clip, comparable, agreeing, structured_similarity, banded, score_with, apply_confidence,
  le, AreFloats,
}
use fabri.Memory.Recurrence.Fits.{IsApplicable, applicable-IsApplicable, applicable-no_signature}

-- The mapping beneath `problem_signature`, which is empty where there is none.
abbrev pub signature_of : Value → Fields
signature_of (mapping signature) = signature
signature_of v = Fields.end

-- The signature of the recovery is that of the state.
abbrev pub IsExact : (String → String) → Fields → Fields → Type 0
IsExact digest resolution state =
    fingerprint digest (canonicalize (signature_of (get_field "problem_signature" resolution)))
    ≡ fingerprint digest (canonicalize state)

IsExact-of :
    (digest : String → String) (resolution state signature : Fields)
    → get_field "problem_signature" resolution ≡ mapping signature
    → (fingerprint digest (canonicalize signature) == fingerprint digest (canonicalize state))
      ≡ true
    → IsExact digest resolution state
IsExact-of digest resolution state signature h same =
    ap (λ g. fingerprint digest (canonicalize g)) (ap signature_of h)
    ∙ (eq_iff (fingerprint digest (canonicalize signature))
          (fingerprint digest (canonicalize state))).0
        same

module _ {F : Type 0} (floats : Floats F) (laws : AreFloats floats) where
  clip_bounds :
      (x : F) → le floats floats.zero_float (clip floats x) × le floats (clip floats x) floats.one
  unfolding clip
  clip_bounds x = ground (
    arith,
    laws.le_refl floats.zero_float,
    laws.le_refl floats.one,
    laws.zero_one,
    laws.less-le floats.zero_float x,
    laws.less-le x floats.one,
    laws.less-le floats.zero_float floats.one,
  )

  ratio_bounds :
      (m n : ℕ)
      → m ≤ n
      → le floats floats.zero_float (if eqb n 0 then floats.zero_float else floats.ratio m n)
        × le floats (if eqb n 0 then floats.zero_float else floats.ratio m n) floats.one
  ratio_bounds m n h = elim (Bool-cases (eqb n 0)) [
    | inl e ↦ rw e (laws.le_refl floats.zero_float, laws.zero_one)
    | inr e ↦ rw e (laws.ratio_nonneg m n (ground arith), laws.ratio_le m n (ground arith) h)
  ]

  similarity_bounds :
      (left right : Fields)
      → le floats floats.zero_float (structured_similarity floats left right)
        × le floats (structured_similarity floats left right) floats.one
  unfolding structured_similarity
  similarity_bounds left right =
      ratio_bounds (length (agreeing floats left right)) (length (comparable floats left right)) (
        length-filter (λ k. equal (get_field k left) (get_field k right))
          (comparable floats left right))

  -- The score of one band, and why it is in that band.
  abbrev pub InBand : (String → String) → Fields → Fields → F → Type 0
  InBand digest resolution state score =
      (le floats score floats.tenth × (applicable resolution state ≡ false))
      ⊎ ((le floats floats.near score
            × le floats score floats.near_top
            × IsApplicable resolution state)
          ⊎ (le floats floats.exact score
              × IsApplicable resolution state
              × IsExact digest resolution state))

  abbrev part : F → F → F
  part width relevance = floats.mul width relevance

  low_bounds :
      (r s : F)
      → le floats floats.zero_float r
      → le floats r floats.one
      → le floats floats.zero_float s
      → le floats s floats.one
      → le floats floats.zero_float (part (part floats.tenth r) s)
        × le floats (part (part floats.tenth r) s) floats.tenth
  low_bounds r s a b c d =
      let inner = laws.mul_nonneg floats.tenth r laws.zero_tenth a in
      (
        laws.mul_nonneg (part floats.tenth r) s inner c,
        laws.le_trans (part (part floats.tenth r) s) (part floats.tenth r) floats.tenth
            (laws.mul_le (part floats.tenth r) s inner d)
            (laws.mul_le floats.tenth r laws.zero_tenth b),
      )

  -- A base with a part of a width on top lies between the base and its top.
  high_bounds :
      (base width top r : F)
      → le floats floats.zero_float width
      → le floats (floats.add base width) top
      → le floats floats.zero_float r
      → le floats r floats.one
      → le floats base (floats.add base (part width r))
        × le floats (floats.add base (part width r)) top
  high_bounds base width top r w t a b = (
    laws.add_grows base (part width r) (laws.mul_nonneg width r w a),
    laws.le_trans (floats.add base (part width r)) (floats.add base width) top
        (laws.add_mono base (part width r) width (laws.mul_le width r w b)) t,
  )

  abbrev IsUnit : F → Type 0
  IsUnit x = le floats floats.zero_float x × le floats x floats.one

  banded-InBand :
      (digest : String → String) (resolution state : Fields) (is_exact : Bool) (r s : F)
      → (is_exact ≡ true → IsExact digest resolution state)
      → IsUnit r
      → IsUnit s
      → IsUnit (banded floats is_exact (applicable resolution state) r s)
        × InBand digest resolution state (banded floats is_exact (applicable resolution state) r s)
  unfolding banded
  banded-InBand digest resolution state is_exact r s same ru su =
      elim (Bool-cases (applicable resolution state)) [
        | inr misfit ↦
            let low = low_bounds r s ru.0 ru.1 su.0 su.1 in
            let score = part (part floats.tenth r) s in
            rw (misfit, and_false is_exact)
              (
                (low.0, laws.le_trans score floats.tenth floats.one low.1 laws.tenth_one),
                inl (low.1, refl),
              )
        | inl fits ↦ by_exact is_exact fits same
      ]
    where
      and_false : (b : Bool) → (b && false) ≡ false
      and_false true = refl
      and_false false = refl

      by_exact :
          (b : Bool)
          → applicable resolution state ≡ true
          → (b ≡ true → IsExact digest resolution state)
          → IsUnit (banded floats b (applicable resolution state) r s)
            × InBand digest resolution state (banded floats b (applicable resolution state) r s)
      by_exact true fits same =
          let high =
            high_bounds floats.exact floats.tenth floats.one r laws.zero_tenth laws.exact_one ru.0
              ru.1 in
          let score = floats.add floats.exact (part floats.tenth r) in
          let shown : banded floats true (applicable resolution state) r s ≡ score = rw fits in
          rw shown (
            (laws.le_trans floats.zero_float floats.exact score laws.zero_exact high.0, high.1),
            inr (inr (high.0, applicable-IsApplicable resolution state fits, same refl)),
          )
      by_exact false fits same =
          let high =
            high_bounds floats.near floats.near_width floats.near_top r laws.zero_width
              laws.near_sum ru.0 ru.1 in
          let score = floats.add floats.near (part floats.near_width r) in
          let shown : banded floats false (applicable resolution state) r s ≡ score = rw fits in
          rw shown (
            (
              laws.le_trans floats.zero_float floats.near score laws.zero_near high.0,
              laws.le_trans score floats.near_top floats.one high.1 laws.top_one,
            ),
            inr (inl (high.0, high.1, applicable-IsApplicable resolution state fits)),
          )

  -- Without a signature nothing fits.
  zero-InBand :
      (digest : String → String) (resolution state : Fields)
      → as_mapping (get_field "problem_signature" resolution) ≡ none
      → IsUnit floats.zero_float × InBand digest resolution state floats.zero_float
  zero-InBand digest resolution state h = (
    (laws.le_refl floats.zero_float, laws.zero_one),
    inl (laws.zero_tenth, applicable-no_signature resolution state h),
  )

  -- Where the floats are numbers and rounding keeps their order: every score lies between 0 and 1. It
  -- is at most 0.10 and the recovery does not fit, or from 0.45 to 0.60 and the recovery fits, or at
  -- least 0.90 and the recovery fits and has the fingerprint of the state; the relevance changes
  -- nothing about this.
  pub apply_confidence-InBand :
      (digest : String → String) (resolution state : Fields) (relevance : F)
      → (le floats floats.zero_float (apply_confidence floats digest resolution state relevance)
          × le floats (apply_confidence floats digest resolution state relevance) floats.one)
        × InBand digest resolution state (apply_confidence floats digest resolution state relevance)
  unfolding apply_confidence score_with
  apply_confidence-InBand digest resolution state relevance =
      by_signature (get_field "problem_signature" resolution) refl
    where
      score : Value → F
      score v = elim v [
        | mapping signature ↦ score_with floats digest signature resolution state relevance
        | _ ↦ floats.zero_float
      ]

      by_signature :
          (v : Value)
          → get_field "problem_signature" resolution ≡ v
          → IsUnit (score v) × InBand digest resolution state (score v)
      by_signature (mapping signature) e =
          banded-InBand digest resolution state
            (fingerprint digest (canonicalize signature) == fingerprint digest (canonicalize state))
            (clip floats relevance)
            (structured_similarity floats (canonicalize signature) (canonicalize state))
            (IsExact-of digest resolution state signature e) (clip_bounds relevance)
            (similarity_bounds (canonicalize signature) (canonicalize state))
      by_signature null e = zero-InBand digest resolution state (rw e refl)
      by_signature (bool b) e = zero-InBand digest resolution state (rw e refl)
      by_signature (num n) e = zero-InBand digest resolution state (rw e refl)
      by_signature (neg n) e = zero-InBand digest resolution state (rw e refl)
      by_signature (str s) e = zero-InBand digest resolution state (rw e refl)
      by_signature (seq vs) e = zero-InBand digest resolution state (rw e refl)
