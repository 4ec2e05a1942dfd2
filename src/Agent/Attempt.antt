-- ===== src/Agent/Attempt.antt =====
-- src/fabri/core/agent.py: `_run_single_attempt`, on a plan or on the whole task at once.
use fabri.Prelude.{
  ℕ, String, Bool, true, false, not, ◌==◌, ◌&&◌, Option, none, some, List, [], ◌∷◌, if◌then◌else◌,
  Result, ok, err, eqb, length, join, str_append,
}
use fabri.Planner.Defs.{PlanItem, plan, topological_order}
use fabri.Agent.Defs.{
  Outcome, budget_exceeded, invalid_output, Message, Reply, response, llm_error, Env, Account,
  accumulate, classify_outcome,
}
use fabri.Value.{Value}
use fabri.Agent.Structured.{Schema, finalize_structured}
use fabri.Agent.Steps.{budget_error, Loop, returned, raised_protocol, raised_key, run_step_loop}
use fabri.Agent.Plan.{
  Config, plan_engaged, user_text, Run, new_run, Attempted, finished, protocol_raised, key_raised,
  add_item, run_items,
}

module _ {W F : Type 0} (env : Env W F) (max_cost : Option F) where
  -- The run before its outcome is classified.
  pub record Ending : Type 0 where
    pub is_success : Bool
    pub schema_failed : Bool
    pub final_text : Option String
    pub structured_output : Option Value
    pub run : Run env max_cost

  abbrev pub is_some_list : List String → Bool
  is_some_list [] = false
  is_some_list (x ∷ xs) = true

  abbrev pub no_answer : Run env max_cost → Ending
  no_answer r = record {
    is_success = false;
    schema_failed = false;
    final_text = none;
    structured_output = none;
    run = r;
  }

  unfoldable pub end_plan : List PlanItem → Run env max_cost → Ending
  unfolding join
  end_plan items r =
      if is_some_list r.outputs && not r.is_failed
      then record {
        is_success = eqb (length r.outputs) (length items);
        schema_failed = false;
        final_text = some (join "\n\n" r.outputs);
        structured_output = none;
        run = r;
      }
      else no_answer r

  -- `run_plan` with its usage: a planner that raises fails the run, with no item.
  unfoldable pub run_plan :
      Config → String → Reply → Run env max_cost → Attempted env max_cost Ending
  unfolding run_items end_plan plan topological_order accumulate
  run_plan config task (llm_error reason usage) r = finished (
      no_answer (record r {
        is_failed = true;
        error_reason = some (str_append "planner failed: " reason);
        account = accumulate usage r.account;
      }))
  run_plan config task (response reply) r =
      let items = plan config.json task config.planner_max_items reply.final_text in
      elim (run_items env max_cost items (topological_order items)
        (record r { account = accumulate reply.usage r.account })) [
          | finished r' ↦ finished (end_plan items r')
          | protocol_raised ↦ protocol_raised
          | key_raised ↦ key_raised
        ]

  -- The answer of a run with a schema: a value, or the reason for which the run failed.
  unfoldable pub end_structured : String → Result String Value → Run env max_cost → Ending
  end_structured t (ok v) r = record {
    is_success = true;
    schema_failed = false;
    final_text = some t;
    structured_output = some v;
    run = r;
  }
  end_structured t (err reason) r = record {
    is_success = false;
    schema_failed = true;
    final_text = some t;
    structured_output = none;
    run = record r { is_failed = true; error_reason = some reason };
  }

  unfoldable pub end_answer : Option Schema → String → List Message → Run env max_cost → Ending
  unfolding end_structured finalize_structured
  end_answer none t messages r = record {
    is_success = true;
    schema_failed = false;
    final_text = some t;
    structured_output = none;
    run = r;
  }
  end_answer (some schema) t messages r =
      let f = finalize_structured env max_cost schema t messages r.account r.world in
      end_structured f.text f.value (record r { account = f.account; world = f.world })

  -- The whole run as one item.
  unfoldable pub end_text : Option Schema → Option String → List Message → Run env max_cost → Ending
  unfolding end_answer
  end_text schema none messages r = no_answer r
  end_text schema (some t) messages r = end_answer schema t messages r

  unfoldable pub end_single : Option Schema → Loop env max_cost → Run env max_cost → Ending
  unfolding add_item end_text
  end_single schema l r =
      let r' = add_item env max_cost l r in
      if l.item.is_failed
      then no_answer (record r' { is_failed = true; error_reason = l.item.error_reason })
      else end_text schema (if l.item.is_success then l.item.final_text else none) l.messages r'

  unfoldable pub run_single : Config → String → Run env max_cost → Attempted env max_cost Ending
  unfolding run_step_loop end_single
  run_single config task r =
      elim (run_step_loop env max_cost (user_text task) config.max_steps r.account r.world) [
        | returned l ↦ finished (end_single config.schema l r)
        | raised_protocol l ↦ protocol_raised
        | raised_key ↦ key_raised
      ]

  -- The fields of the result that the model has, and the world that the attempt leaves.
  pub record RunResult : Type 0 where
    pub is_success : Bool
    pub final_text : Option String
    pub structured_output : Option Value
    pub outcome : Outcome
    pub had_tool_failure : Bool
    pub step_count : ℕ
    pub world : W

  abbrev pub is_budget_error : Option String → Bool
  is_budget_error none = false
  is_budget_error (some reason) = reason == budget_error

  unfoldable pub outcome_of : Ending → Outcome
  unfolding classify_outcome
  outcome_of e =
      if e.schema_failed
      then invalid_output
      else if not e.is_success && is_budget_error e.run.error_reason
      then budget_exceeded
      else classify_outcome e.is_success e.run.had_tool_failure e.run.is_failed
          e.run.total_tool_calls e.run.failed_tool_calls

  unfoldable pub result_of : Config → Ending → RunResult
  unfolding outcome_of
  result_of config e = record {
    is_success = e.is_success;
    final_text = elim e.final_text [
      | none ↦ none
      | some t ↦ some (if e.is_success then config.visible t else t)
    ];
    structured_output = e.structured_output;
    outcome = outcome_of e;
    had_tool_failure = e.run.had_tool_failure;
    step_count = e.run.step_count;
    world = e.run.world;
  }

  -- `_run_single_attempt`, where `planner` is the step of the planner's model.
  unfoldable pub run_single_attempt :
      Config → (String → W → Reply × W) → String → W → Attempted env max_cost RunResult
  unfolding plan_engaged run_plan run_single result_of
  run_single_attempt config planner task world =
      let account : Account F = record { usage_by_model = []; subagent_cost = env.zero_cost } in
      let single = run_single config task (new_run env max_cost config.max_steps account world) in
      let (reply, later) = planner task world in
      let planned =
        run_plan config task reply (new_run env max_cost config.max_steps account later) in
      elim (if plan_engaged config task then planned else single) [
        | finished e ↦ finished (result_of config e)
        | protocol_raised ↦ protocol_raised
        | key_raised ↦ key_raised
      ]
