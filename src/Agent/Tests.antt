-- ===== src/Agent/Tests.antt =====
-- Tests of src/fabri/core/agent.py on a scripted model, and the theorems on concrete runs.
use fabri.Prelude.{
  ℕ, ◌+◌, String, Bool, Option, true, false, not, ◌==◌, none, some, List, [], ◌∷◌, ◌++◌, err, ◌≡◌,
  refl, leb, if◌then◌else◌, arith,
}
use fabri.Value.{Value, null, bool}
use fabri.Agent.Structured.{Schema, finalize_structured}
use fabri.Agent.Resolved.{IsResolved, finalize_structured-IsResolved}
use fabri.Indices.{elem, elem-append}
use fabri.Agent.Defs.{
  success, success_with_recovery, budget_exceeded, invalid_output, Usage, Call, Message, Reply,
  response, llm_error, Env,
}
use fabri.Agent.Steps.{run_step_loop}
use fabri.Agent.Plan.{Config, Attempted, finished, user_text}
use fabri.Agent.Attempt.{run_single_attempt}
use fabri.Agent.Repair.{Repair, verified, Repaired, run_agent}
use fabri.Agent.Repaired.{EndsRepaired, run_agent-EndsRepaired}
use fabri.Agent.Complete.{Finishes}
use fabri.Agent.Paired.{PairedLoop, run_step_loop-IsPaired}

reversed : List ℕ → List ℕ
reversed [] = []
reversed (x ∷ xs) = reversed xs ++ x ∷ []

elem-reversed : (i : ℕ) (xs : List ℕ) → elem i (reversed xs) ≡ elem i xs
unfolding reversed
elem-reversed i [] = refl
elem-reversed i (x ∷ xs) = ground (arith, elem-reversed i xs, elem-append i (reversed xs) (x ∷ []))

-- The world is the script of the model; the tool `bad` fails, and groups finish in reverse.
abbrev World : Type 0
World = List Reply

abbrev next_reply : List Message → World → Reply × World
next_reply messages [] = (llm_error "no reply" none, [])
next_reply messages (r ∷ rs) = (r, rs)

abbrev env : Env World ℕ
env = record {
  llm_step = next_reply;
  invoke =
      λ call w. (record { ok = not (call.name == "bad"); child = none; encoded = call.name }, w);
  decompose = λ call w. (err ("no model", none), w);
  finish_order = λ indices w. reversed indices;
  cost_for = λ u. some u.output_tokens;
  encode_error = λ e. e;
  zero_cost = 0;
  add = λ a b. a + b;
  at_least = λ a b. leb b a;
}

finishes : Finishes env
finishes = record { same_members = λ i indices w. elem-reversed i indices }

abbrev usage : ℕ → Usage
usage n = record {
  model = some "m";
  input_tokens = 0;
  output_tokens = n;
  cache_creation_input_tokens = 0;
  cache_read_input_tokens = 0;
  provider_transient_retries = 0;
  max_token_retries = 0;
}

abbrev call : String → String → Call
call name id = record { name = name; id = some id; parallel_group = some "g" }

abbrev tools : List Call → Reply
tools calls = response (record { tool_calls = calls; final_text = none; usage = some (usage 5) })

abbrev answer : String → Reply
answer t = response (record { tool_calls = []; final_text = some t; usage = some (usage 5) })

abbrev config : String → Config
config mode = record {
  max_steps = 4;
  planner_mode = mode;
  planner_max_items = 8;
  planner_auto_token_threshold = 80;
  json = record { loads = λ t. none; unfence = λ t. t; braces = λ t. none };
  schema = none;
  visible = λ t. t;
}

abbrev planner : String → World → Reply × World
planner task w = next_reply [] w

abbrev script : World
script =
    tools (call "spawn_subagent" "1" ∷ call "bad" "2" ∷ call "spawn_subagent" "3" ∷ [])
    ∷ answer "done"
    ∷ []

recovered :
    run_single_attempt env none (config "off") planner "go" script
    ≡ finished (record {
      is_success = true;
      final_text = some "done";
      structured_output = none;
      outcome = success_with_recovery;
      had_tool_failure = true;
      step_count = 2;
      world = [];
    })
unfolding run_single_attempt reversed
recovered = refl

-- The budget is checked before each step.
over_budget :
    run_single_attempt env (some 5) (config "off") planner "go" script
    ≡ finished (record {
      is_success = false;
      final_text = none;
      structured_output = none;
      outcome = budget_exceeded;
      had_tool_failure = true;
      step_count = 2;
      world = answer "done" ∷ [];
    })
unfolding run_single_attempt reversed
over_budget = refl

-- A plan that cannot be read is one item, the task.
planned :
    run_single_attempt env none (config "force") planner "go" (answer "no plan" ∷ script)
    ≡ finished (record {
      is_success = true;
      final_text = some "done";
      structured_output = none;
      outcome = success_with_recovery;
      had_tool_failure = true;
      step_count = 2;
      world = [];
    })
unfolding run_single_attempt reversed
planned = refl

-- A schema that the answer "good" satisfies, with two retries.
abbrev parse_good : String → Value × List String
parse_good t = if t == "good" then (bool true, []) else (null, "not good" ∷ [])

abbrev schema : Schema
schema = record {
  parse = parse_good;
  visible = λ t. t;
  conventions = none;
  response_retries = 1;
  error_strategy = "strict";
  fallback = null;
  fallback_text = "null";
  schema_text = "{}";
}

abbrev with_schema : Config
with_schema = record (config "off") { schema = some schema }

corrected :
    run_single_attempt env none with_schema planner "go" (answer "bad" ∷ answer "good" ∷ [])
    ≡ finished (record {
      is_success = true;
      final_text = some "good";
      structured_output = some (bool true);
      outcome = success;
      had_tool_failure = false;
      step_count = 1;
      world = [];
    })
unfolding run_single_attempt
corrected = refl

uncorrected :
    run_single_attempt env none with_schema planner "go" (answer "bad" ∷ answer "worse" ∷ script)
    ≡ finished (record {
      is_success = false;
      final_text = some "worse";
      structured_output = none;
      outcome = invalid_output;
      had_tool_failure = false;
      step_count = 1;
      world = script;
    })
unfolding run_single_attempt
uncorrected = refl

finalize_structured-IsResolved_example :
    IsResolved schema env none "bad" (user_text "go") (answer "good" ∷ []) (
      finalize_structured env none schema "bad"
        (user_text "go")
        (record { usage_by_model = []; subagent_cost = 0 })
        (answer "good" ∷ []))
finalize_structured-IsResolved_example =
    finalize_structured-IsResolved schema env none "bad" (user_text "go") (answer "good" ∷ []) refl
      refl (record { usage_by_model = []; subagent_cost = 0 })

-- A verifier that looks for one more reply in the script, and fails on the same errors.
abbrev has_more : World → Bool
has_more [] = false
has_more (r ∷ w) = true

abbrev repair : Repair World
repair = record {
  verify = some (λ w. (record { ok = not (has_more w); output = "more" }, w));
  max_attempts = 2;
  stop_on_no_progress = true;
  signature = λ t. t;
  prompt = λ t. t;
}

-- The second attempt leaves one reply, and the third is not made.
abbrev three_answers : World
three_answers = answer "one" ∷ answer "two" ∷ answer "three" ∷ []

-- Whether a run with repair ends for a reason, and the attempts that it makes.
abbrev ends_after : Attempted env none (Repaired env none repair) → Option (Bool × ℕ)
ends_after (finished p) = elim p.reason [
  | verified ↦ some (true, p.attempt)
  | _ ↦ some (false, p.attempt)
]
ends_after _ = none

no_progress_after :
    ends_after (run_agent env none repair (config "off") planner "go" three_answers)
    ≡ some (false, 1)
unfolding run_agent
no_progress_after = refl

verified_after :
    ends_after
      (run_agent env none repair (config "off") planner "go" (answer "one" ∷ answer "two" ∷ []))
    ≡ some (true, 1)
unfolding run_agent
verified_after = refl

run_agent-EndsRepaired_example :
    EndsRepaired env none repair
      (config "off")
      planner
      "go"
      three_answers
      (run_agent env none repair (config "off") planner "go" three_answers)
run_agent-EndsRepaired_example =
    run_agent-EndsRepaired env none repair finishes (config "off") planner "go" three_answers

run_step_loop-IsPaired_example : PairedLoop env none (
    run_step_loop env none
      (user_text "go")
      2
      (record { usage_by_model = []; subagent_cost = 0 })
      script)
run_step_loop-IsPaired_example =
    run_step_loop-IsPaired env none (user_text "go") 2
      (record { usage_by_model = []; subagent_cost = 0 }) script (refl, refl)
