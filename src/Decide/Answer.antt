-- ===== src/Decide/Answer.antt =====
-- The answers of src/fabri/decide/types.py. Python's floats are a type `R` with the operations and
-- the literals that the code uses.
use fabri.Prelude.{ℕ, String, Bool, Option, Dict}
use fabri.Decide.Question.{QuestionKind, AnswerValue}

pub record Float (R : Type 0) : Type 0 where
  pub zero_f : R
  pub one_f : R
  -- the literal 0.6
  pub six_tenths : R
  pub add : R → R → R
  pub lt_f : R → R → Bool
  pub le_f : R → R → Bool

pub data AnswerSource : Type 0 where
  jev llm : AnswerSource

pub record Answer (R : Type 0) : Type 0 where
  pub key : String
  pub kind : QuestionKind
  pub value : Option AnswerValue
  pub probabilities : Dict R
  pub confidence : Option R
  pub source : AnswerSource
  pub latency_ms : R
  pub input_tokens : ℕ
  pub output_tokens : ℕ
  pub cost_usd : R
  pub model : String
  pub escalated : Bool
  pub error : Option String
  pub cost_known : Bool
