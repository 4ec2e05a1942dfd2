-- ===== src/Decide/Tests.antt =====
-- Runs of src/fabri/decide/ on small questions and a small tree. The floats of the tests are numbers
-- of tenths.
use fabri.Prelude.{
  elem, any, is_nodup, is_blank, ℕ, ◌+◌, String, Bool, true, false, none, some, List, [], ◌∷◌, ok,
  err, ◌≡◌, refl, ltb, leb, sum, map, All, Dict, ◌↔◌,
}
use fabri.Value.{Key, Value, Items, field, end, text}
use fabri.Decide.Question.{
  Question, RawQuestion, QuestionKind, AnswerValue, make_question, allowed_values, answer_key,
}
use fabri.Decide.Answer.{Float, Answer, AnswerSource}
use fabri.Decide.Shapes.{IsQuestion, make_question-IsQuestion}
use fabri.Decide.Cascade.{CascadeError, needs_fallback, decide, default_thresholds, is_nil}
use fabri.Decide.Cascade.Answers.{Ask, IsAnswered, decide-IsAnswered, decide_tokens, decide_error}
use fabri.Decide.Tree.Config.{max_depth, TreeNode, TreeError, Target, parse_branches, answer_keys}
use fabri.Decide.Tree.Branches.{IsComplete, parse_branches-IsComplete}
use fabri.Decide.Tree.Graph.{validate_graph}
use fabri.Decide.Tree.Safe.{IsExplained, validate_graph-IsExplained}
use fabri.Decide.Tree.Report.{
  cost_known, unpriced_models, is_unpriced, no_models, unpriced_models-IsReported,
}
use fabri.Decide.Tree.Run.{TreeResult, Tree, Decider, run_tree}
use fabri.Decide.Tree.Outcome.{Outcome, run_tree-Outcome}

abbrev tenths : Float ℕ
tenths = record {
  zero_f = 0;
  one_f = 10;
  six_tenths = 6;
  add = λ x y. x + y;
  lt_f = ltb;
  le_f = leb;
}

abbrev raw_question : RawQuestion
raw_question = record {
  key = "lang";
  kind = Value.str "score";
  instructions = Value.str "How good?";
  options = Value.null;
  levels = Value.seq (Items.cons (Value.str "low") (Items.cons (Value.str "high") Items.nil));
}

abbrev rated : Question
rated = record {
  key = "lang";
  kind = QuestionKind.score;
  instructions = "How good?";
  options = none;
  levels = some ("low" ∷ "high" ∷ []);
}

rated_made : make_question raw_question ≡ ok rated
unfolding make_question is_blank
rated_made = refl

make_question-IsQuestion_example : IsQuestion rated
make_question-IsQuestion_example = make_question-IsQuestion raw_question rated rated_made

abbrev yesno_question : String → Question
yesno_question k = record {
  key = k;
  kind = QuestionKind.yesno;
  instructions = "Is it?";
  options = none;
  levels = none;
}

abbrev answered : String → Bool → ℕ → ℕ → Answer ℕ
answered k v confidence tokens = record {
  key = k;
  kind = QuestionKind.yesno;
  value = some (AnswerValue.flag v);
  probabilities = [];
  confidence = some confidence;
  source = AnswerSource.jev;
  latency_ms = 1;
  input_tokens = tokens;
  output_tokens = 1;
  cost_usd = tokens;
  model = "m";
  escalated = false;
  error = none;
  cost_known = true;
}

-- The primary is sure of one question and not of the other.
abbrev primary : Ask ℕ
primary qs = ok (("a", answered "a" true 9 5) ∷ ("b", answered "b" true 3 7) ∷ [])

abbrev fallback : Ask ℕ
fallback qs = ok (("b", answered "b" false 8 20) ∷ [])

abbrev broken : Ask ℕ
broken qs = err "no answer"

abbrev two : List Question
two = yesno_question "a" ∷ yesno_question "b" ∷ []

abbrev both : Dict (Answer ℕ)
both =
    ("a", answered "a" true 9 5)
    ∷ (
      "b",
      record (answered "b" false 8 27) {
        latency_ms = 2;
        output_tokens = 2;
        escalated = true;
        cost_usd = 27;
      },
    )
    ∷ []

both_decided : decide tenths (default_thresholds tenths) 4 primary fallback two ≡ ok both
unfolding decide
both_decided = refl

decide-IsAnswered_example :
    All (IsAnswered tenths (default_thresholds tenths) 4 primary fallback two both) two
decide-IsAnswered_example =
    decide-IsAnswered tenths (default_thresholds tenths) 4 primary fallback two both refl
      both_decided

decide_tokens_example :
    (sum (map (λ p. p.1.input_tokens) both) ≡ 12 + 20)
    × (sum (map (λ p. p.1.output_tokens) both) ≡ 2 + 1)
unfolding needs_fallback
decide_tokens_example =
    decide_tokens tenths (default_thresholds tenths) 4 primary fallback two both refl both_decided

decide_error_example :
    (decide tenths (default_thresholds tenths) 4 primary broken two
      ≡ err (CascadeError.fallback_failed none "no answer"))
    ↔ ((why : String) × (is_nil (yesno_question "b" ∷ []) ≡ false)
        × (broken (yesno_question "b" ∷ []) ≡ err why)
        × (CascadeError.fallback_failed none "no answer" ≡ CascadeError.fallback_failed none why))
unfolding needs_fallback
decide_error_example =
    decide_error tenths (default_thresholds tenths) 4 primary broken two
      (CascadeError.fallback_failed none "no answer") refl

abbrev node_of : String → Target → Target → TreeNode
node_of k if_true if_false = record {
  name = k;
  question = yesno_question k;
  branches = ("true", if_true) ∷ ("false", if_false) ∷ [];
}

abbrev done : Target
done = Target.leaf (field (text "tool") (Value.str "x") end)

abbrev small : Tree
small = record {
  start = "a";
  nodes = ("a", node_of "a" (Target.node "b") done) ∷ ("b", node_of "b" done done) ∷ [];
}

abbrev looped : Dict TreeNode
looped = ("a", node_of "a" (Target.node "b") done) ∷ ("b", node_of "b" done (Target.node "a")) ∷ []

abbrev always : Decider tenths
always call q = ok ((q.key, answered q.key true 9 1) ∷ [])

small_validated : validate_graph small.start small.nodes ≡ ok tt
unfolding validate_graph
small_validated = refl

looped_refused : validate_graph "a" looped ≡ err (TreeError.cycle ("a" ∷ "b" ∷ "a" ∷ []))
unfolding validate_graph
looped_refused = refl

validate_graph-IsExplained_example : IsExplained "a" looped (TreeError.cycle ("a" ∷ "b" ∷ "a" ∷ []))
validate_graph-IsExplained_example =
    validate_graph-IsExplained "a" looped (TreeError.cycle ("a" ∷ "b" ∷ "a" ∷ [])) looped_refused

run_tree-Outcome_example :
    Outcome ℕ tenths small.nodes max_depth [] [] "a" (run_tree tenths always small)
run_tree-Outcome_example = run_tree-Outcome tenths always small small_validated

abbrev raw_branches : Value
raw_branches = Value.mapping (
    field (Key.boolean true) (Value.str "b")
      (field (text "false") (Value.mapping (field (text "leaf") (Value.mapping end) end)) end))

raw_branches_read :
    parse_branches "a" (yesno_question "a") raw_branches
    ≡ ok (("true", Target.node "b") ∷ ("false", Target.leaf end) ∷ [])
unfolding parse_branches allowed_values answer_key
raw_branches_read = refl

parse_branches-IsComplete_example :
    IsComplete
      (answer_keys (yesno_question "a"))
      (("true", Target.node "b") ∷ ("false", Target.leaf end) ∷ [])
parse_branches-IsComplete_example =
    parse_branches-IsComplete "a" (yesno_question "a") raw_branches
      (("true", Target.node "b") ∷ ("false", Target.leaf end) ∷ []) raw_branches_read

abbrev half_priced : TreeResult ℕ
half_priced = record {
  path =
      answered "a" true 9 1
      ∷ record (answered "b" true 9 1) { cost_known = false; model = "new" }
      ∷ [];
  leaf = end;
  cost_usd = 1;
  latency_ms = 2;
  nodes = "a" ∷ "b" ∷ [];
}

unpriced_models-IsReported_example :
    ((m : String) → elem m (unpriced_models half_priced) ≡ any (is_unpriced m) half_priced.path)
    × (is_nodup (unpriced_models half_priced) ≡ true)
    × (no_models (unpriced_models half_priced) ≡ cost_known half_priced)
unpriced_models-IsReported_example = unpriced_models-IsReported half_priced
