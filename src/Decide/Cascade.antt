-- ===== src/Decide/Cascade.antt =====
-- src/fabri/decide/cascade.py: questions that the primary decider does not answer well go to the
-- fallback. A decider is what one call of it returns, or the text of the `DecideError` it raises.
-- The answer objects that the two deciders return are distinct.
mod Merging
pub mod Answers
use fabri.Prelude.{
  ℕ, ◌+◌, String, Bool, true, false, not, ◌==◌, ◌&&◌, ◌||◌, Option, none, some, List, [], ◌∷◌, map,
  Result, ok, err, ◌>>=◌, ◌>>◌, raise_if, if◌then◌else◌, filter, elem, Dict, lookup, insert,
  is_some, or_else,
}
use fabri.Decide.Question.{QuestionKind, choice, score, yesno, Question}
use fabri.Decide.Answer.{Float, Answer, AnswerSource, llm, jev}

pub record Thresholds (R : Type 0) : Type 0 where
  pub for_choice : R
  pub for_score : R
  pub for_yesno : R

pub data CascadeError : Type 0 where
  unknown_threshold out_of_range : String → CascadeError
  -- the fallback's error, behind that of the primary if there was one
  fallback_failed : Option String → String → CascadeError

abbrev pub question_keys : List Question → List String
question_keys qs = map (λ q. q.key) qs

abbrev pub is_nil : List Question → Bool
is_nil [] = true
is_nil (q ∷ qs) = false

module _ {R : Type 0} (F : Float R) where
  open F use {zero_f, one_f, six_tenths, add, lt_f, le_f}

  abbrev threshold : Thresholds R → QuestionKind → R
  threshold t choice = t.for_choice
  threshold t score = t.for_score
  threshold t yesno = t.for_yesno

  abbrev pub default_thresholds : Thresholds R
  default_thresholds = record {
    for_choice = six_tenths;
    for_score = six_tenths;
    for_yesno = six_tenths;
  }

  -- One turn of the loop of `__init__`.
  unfoldable merge_threshold : Thresholds R → String → R → Result CascadeError (Thresholds R)
  merge_threshold t kind value =
      let checked : Result CascadeError Unit =
        raise_if (not (le_f zero_f value && le_f value one_f)) (out_of_range kind) in
      if kind == "choice"
      then (checked >> ok (record t { for_choice = value }))
      else if kind == "score"
      then (checked >> ok (record t { for_score = value }))
      else if kind == "yesno"
      then (checked >> ok (record t { for_yesno = value }))
      else err (unknown_threshold kind)

  unfoldable merge_thresholds :
      Thresholds R → List (String × R) → Result CascadeError (Thresholds R)
  unfolding merge_threshold
  merge_thresholds t [] = ok t
  merge_thresholds t ((kind, value) ∷ rest) = do
    t' ← merge_threshold t kind value
    merge_thresholds t' rest

  -- `CascadeDecider.__init__`, for its thresholds.
  unfoldable init_thresholds : List (String × R) → Result CascadeError (Thresholds R)
  unfolding merge_thresholds
  init_thresholds given = merge_thresholds default_thresholds given

  -- An answer that is there, without an error and with a value.
  abbrev is_usable : Answer R → Bool
  is_usable a = not (is_some a.error) && is_some a.value

  abbrev is_llm : AnswerSource → Bool
  is_llm llm = true
  is_llm jev = false

  abbrev is_unsure : Thresholds R → Question → Answer R → Bool
  is_unsure t q a = elim a.confidence [
    | none ↦ not (is_llm a.source)
    | some c ↦ lt_f c (threshold t q.kind)
  ]

  unfoldable pub needs_fallback : Thresholds R → Question → Option (Answer R) → Bool
  needs_fallback t q none = true
  needs_fallback t q (some a) = if is_usable a then is_unsure t q a else true

  -- The answer that stands in for one the fallback did not give.
  abbrev pub no_answer : Question → Answer R
  no_answer q = record {
    key = q.key;
    kind = q.kind;
    value = none;
    probabilities = [];
    confidence = none;
    source = llm;
    latency_ms = zero_f;
    input_tokens = 0;
    output_tokens = 0;
    cost_usd = zero_f;
    model = "";
    escalated = false;
    error = some "fallback returned no answer for this question";
    cost_known = true;
  }

  -- The changes that the loop makes to an escalated answer, `first` being the primary's.
  abbrev pub charge : R → Option (Answer R) → Answer R → Answer R
  charge wall none a = record a { escalated = true; latency_ms = add a.latency_ms wall }
  charge wall (some first) a = record a {
    escalated = true;
    cost_usd = add a.cost_usd first.cost_usd;
    input_tokens = a.input_tokens + first.input_tokens;
    output_tokens = a.output_tokens + first.output_tokens;
    latency_ms = add a.latency_ms first.latency_ms;
    cost_known = a.cost_known && first.cost_known;
  }

  -- The answer objects of the fallback, which the loop changes in place, and the result so far.
  pub record Merge : Type 0 where
    pub fallback : Dict (Answer R)
    pub out : Dict (Answer R)

  abbrev pub touch : String → Answer R → Dict (Answer R) → Dict (Answer R)
  touch k a fb = if is_some (lookup k fb) then insert k a fb else fb

  unfoldable pub merge_step : R → Dict (Answer R) → List String → Question → Merge → Merge
  merge_step wall primary escalated_keys q m =
      let first = lookup q.key primary in
      let answer = charge wall first (or_else (lookup q.key m.fallback) (no_answer q)) in
      if elem q.key escalated_keys
      then record { fallback = touch q.key answer m.fallback; out = insert q.key answer m.out }
      else record m { out = insert q.key (or_else first (no_answer q)) m.out }

  unfoldable pub merge_all : R → Dict (Answer R) → List String → List Question → Merge → Merge
  unfolding merge_step
  merge_all wall primary escalated_keys [] m = m
  merge_all wall primary escalated_keys (q ∷ qs) m =
      merge_all wall primary escalated_keys qs (merge_step wall primary escalated_keys q m)

  -- A question that is not escalated has a primary answer, so the stand-in is not used.
  unfoldable pub copy_primary : Dict (Answer R) → List Question → Dict (Answer R) → Dict (Answer R)
  copy_primary primary [] out = out
  copy_primary primary (q ∷ qs) out =
      copy_primary primary qs (insert q.key (or_else (lookup q.key primary) (no_answer q)) out)

  abbrev pub escalated : Thresholds R → Dict (Answer R) → List Question → List Question
  escalated t primary qs = filter (λ q. needs_fallback t q (lookup q.key primary)) qs

  abbrev pub answers_of : Result String (Dict (Answer R)) → Dict (Answer R)
  answers_of (ok answers) = answers
  answers_of (err e) = []

  abbrev pub error_of : Result String (Dict (Answer R)) → Option String
  error_of (ok answers) = none
  error_of (err e) = some e

  unfoldable pub ask_fallback :
      R
      → Result String (Dict (Answer R))
      → (List Question → Result String (Dict (Answer R)))
      → List Question
      → List Question
      → Result CascadeError (Dict (Answer R))
  unfolding merge_all
  ask_fallback wall primary fallback qs escalate = elim (fallback escalate) [
    | err e ↦ err (fallback_failed (error_of primary) e)
    | ok answers ↦
        ok
          (merge_all wall (answers_of primary) (question_keys escalate) qs
            (record { fallback = answers; out = [] })).out
  ]

  -- `CascadeDecider.decide`; `wall` is the time that the primary took.
  unfoldable pub decide :
      Thresholds R
      → R
      → (List Question → Result String (Dict (Answer R)))
      → (List Question → Result String (Dict (Answer R)))
      → List Question
      → Result CascadeError (Dict (Answer R))
  unfolding needs_fallback copy_primary ask_fallback
  decide t wall primary fallback [] = ok []
  decide t wall primary fallback (q ∷ qs) =
      let first = primary (q ∷ qs) in
      let escalate = escalated t (answers_of first) (q ∷ qs) in
      if is_nil escalate
      then ok (copy_primary (answers_of first) (q ∷ qs) [])
      else ask_fallback wall first fallback (q ∷ qs) escalate
