-- ===== src/Memory/Recurrence/Tests.antt =====
-- Tests of src/fabri/memory/recurrence.py, with thousandths for the floats, and the theorem on a
-- concrete recovery.
use fabri.Prelude.{ℕ, ◌+◌, ◌*◌, ◌/◌, ◌≤◌, ◌<◌, String, true, false, ◌≡◌, refl, ltb, arith}
use fabri.Value.{Value, Fields, null, bool, num, str, seq, mapping, nil, cons, end, field, text}
use fabri.Memory.Recurrence.Signature.{fingerprint}
use fabri.Memory.Recurrence.Applicable.{applicable}
use fabri.Memory.Recurrence.Confidence.{Floats, le, AreFloats, apply_confidence}
use fabri.Memory.Recurrence.Banded.{InBand, apply_confidence-InBand}

abbrev floats : Floats ℕ
floats = record {
  zero_float = 0;
  one = 1000;
  tenth = 100;
  near_width = 150;
  near = 450;
  near_top = 600;
  exact = 900;
  less = ltb;
  add = λ a b. a + b;
  mul = λ a b. a * b / 1000;
  ratio = λ m n. m * 1000 / n;
}

mul-le : (a s : ℕ) → s ≤ 1000 → a * s / 1000 ≤ a
mul-le a s h = grind arith

ratio-le : (m n : ℕ) → 0 < n → m ≤ n → m * 1000 / n ≤ 1000
ratio-le m n h k = grind arith

laws : AreFloats floats
laws = record {
  le_refl = λ a. ground arith;
  le_trans = λ a b c h k. ground arith;
  less-le = λ a b h. ground arith;
  mul_nonneg = λ a s h k. ground arith;
  mul_le = λ a s h k. ground (arith, mul-le a s);
  add_grows = λ a b h. ground arith;
  add_mono = λ a b c h. ground arith;
  ratio_nonneg = λ m n h. ground arith;
  ratio_le = λ m n h k. ground (arith, ratio-le m n);
  zero_one = refl;
  zero_tenth = refl;
  zero_width = refl;
  zero_near = refl;
  zero_exact = refl;
  exact_one = refl;
  near_sum = refl;
  top_one = refl;
  tenth_one = refl;
}

abbrev signature : Fields
signature = field (text "agency") (str "shop") (
    field (text "configured_cap") (num 512) (
      field (text "roles")
        (seq (cons (str "writer") (cons (str "editor") (cons (str "writer") nil)))) end))

abbrev scope : Fields
scope =
    field (text "company") (str "acme") (
      field (text "agency") (str "shop") (field (text "roles") (seq (cons (str "writer") nil)) end))

abbrev precondition : Fields
precondition = field (text "field") (str "limits.retries") (field (text "equals") (num 1) end)

abbrev resolution : Fields
resolution = field (text "problem_signature") (mapping signature) (
    field (text "scope") (mapping scope)
      (field (text "preconditions") (seq (cons (mapping precondition) nil)) end))

abbrev state_with : Value → Value → Fields
state_with cap retries = field (text "company") (str "acme") (
    field (text "agency") (str "shop") (
      field (text "limits") (mapping (field (text "retries") retries end)) (
        field (text "problem_signature") (mapping signature) (
          field (text "roles_config")
            (mapping (field (text "writer") (mapping (field (text "max_tokens") cap end)) end))
            end))))

abbrev identity : String → String
identity s = s

fits : applicable resolution (state_with (num 512) (bool true)) ≡ true
unfolding applicable
fits = refl

other_cap : applicable resolution (state_with (num 600) (num 1)) ≡ false
unfolding applicable
other_cap = refl

no_retries : applicable resolution (state_with (num 512) null) ≡ false
unfolding applicable
no_retries = refl

fingerprint-signature :
    fingerprint identity signature
    ≡ "phase:none|agency:str:4:shop|roles:list:str:6:editor,str:6:writer|error_class:none|cause:none|configured_cap:int:512|retry_cap:none|model_family:none|finish_reason:none"
unfolding fingerprint
fingerprint-signature = refl

confidence-exact :
    apply_confidence floats identity resolution (state_with (num 512) (num 1)) 500 ≡ 950
unfolding apply_confidence
confidence-exact = refl

confidence-misfit :
    apply_confidence floats identity resolution (state_with (num 600) (num 1)) 2000 ≡ 100
unfolding apply_confidence
confidence-misfit = refl

apply_confidence-InBand_example :
    (le floats 0 (apply_confidence floats identity resolution (state_with (num 512) (num 1)) 500)
      × le floats
          (apply_confidence floats identity resolution (state_with (num 512) (num 1)) 500)
          1000)
    × InBand floats laws identity resolution
        (state_with (num 512) (num 1))
        (apply_confidence floats identity resolution (state_with (num 512) (num 1)) 500)
apply_confidence-InBand_example =
    apply_confidence-InBand floats laws identity resolution (state_with (num 512) (num 1)) 500
