-- ===== src/Agent/Result.antt =====
-- What `_run_single_attempt` of src/fabri/core/agent.py returns, for any model, tools and plan.
use fabri.Prelude.{
  ℕ, ◌≤◌, String, Bool, true, false, not, ◌&&◌, ◌||◌, Option, none, some, List, [], ◌≡◌, refl,
  if◌then◌else◌, Result, ok, err, is_some, arith, Bool-cases, inl, inr,
}
use fabri.Value.{Value}
use fabri.Agent.Structured.{Schema, finalize_structured}
use fabri.Planner.Defs.{PlanItem, plan, topological_order}
use fabri.Agent.Defs.{
  Message, Outcome, success, success_with_recovery, all_tools_failed, Reply, response, llm_error,
  Env, Account, accumulate, classify_outcome,
}
use fabri.Agent.Steps.{Loop, Exit, returned, raised_protocol, raised_key, run_step_loop}
use fabri.Agent.Plan.{
  Config, plan_engaged, user_text, Run, new_run, Attempted, finished, protocol_raised, key_raised,
  add_item, run_items,
}
use fabri.Agent.Attempt.{
  Ending, is_some_list, end_plan, run_plan, end_single, run_single, RunResult, end_structured,
  end_answer, end_text, is_budget_error, outcome_of, result_of, run_single_attempt,
}
use fabri.Agent.Complete.{Finishes}
use fabri.Agent.Bounds.{IsExit, run_step_loop-IsExit}
use fabri.Agent.Items.{Within, IsRun, run_items-IsRun}

-- The outcomes of a run with `success`, and the one that no failed tool call may have.
abbrev pub succeeds : Outcome → Bool
succeeds success = true
succeeds success_with_recovery = true
succeeds all_tools_failed = true
succeeds _ = false

abbrev pub is_clean : Outcome → Bool
is_clean success = true
is_clean _ = false

classify-succeeds :
    (is_success had_tool_failure is_failed : Bool) (total failures : ℕ)
    → (is_success && is_failed) ≡ false
    → (succeeds (classify_outcome is_success had_tool_failure is_failed total failures)
        ≡ is_success)
      × ((is_clean (classify_outcome is_success had_tool_failure is_failed total failures)
            && had_tool_failure)
          ≡ false)
unfolding classify_outcome
classify-succeeds true true true total failures h = absurd (cc)
classify-succeeds true false true total failures h = absurd (cc)
classify-succeeds false true true total failures h = (refl, refl)
classify-succeeds false false true total failures h = (refl, refl)
classify-succeeds false true false total failures h = (refl, refl)
classify-succeeds false false false total failures h = (refl, refl)
classify-succeeds true true false total failures h = (ground arith, ground arith)
classify-succeeds true false false total failures h = (ground arith, ground arith)

module _ {W F : Type 0} (env : Env W F) (max_cost : Option F) where
  -- A run that succeeds has a text and has not failed.
  abbrev answered : Bool → Bool → Bool → Option String → Bool
  answered is_success schema_failed is_failed t =
      if is_success then not schema_failed && not is_failed && is_some t else true

  -- An attempt that has ended: within its steps, and with a text if it succeeds.
  abbrev IsEnding : ℕ → Ending env max_cost → Type 0
  IsEnding n e =
      (e.run.step_count ≤ n)
      × (answered e.is_success e.schema_failed e.run.is_failed e.final_text ≡ true)

  abbrev EndsWell : ℕ → Attempted env max_cost (Ending env max_cost) → Type 0
  EndsWell n (finished e) = IsEnding n e
  EndsWell n protocol_raised = Unit
  EndsWell n key_raised = ⊥

  end_plan-IsEnding :
      (n : ℕ) (items : List PlanItem) (r : Run env max_cost)
      → Within env max_cost n r
      → IsEnding n (end_plan env max_cost items r)
  unfolding end_plan
  end_plan-IsEnding n items r w =
      elim (Bool-cases (is_some_list env max_cost r.outputs && not r.is_failed)) [
        | inl e ↦ rw e (omega arith, ground arith)
        | inr e ↦ rw e (omega arith, refl)
      ]

  run_plan-EndsWell :
      Finishes env
      → (config : Config) (task : String) (reply : Reply) (r : Run env max_cost)
      → Within env max_cost config.max_steps r
      → EndsWell config.max_steps (run_plan env max_cost config task reply r)
  unfolding run_plan
  run_plan-EndsWell fin config task (llm_error reason usage) r w = (omega arith, refl)
  run_plan-EndsWell fin config task (response reply) r w =
      after (run_items env max_cost items (topological_order items) begun)
        (run_items-IsRun env max_cost fin config.max_steps items (topological_order items) begun w)
    where
      items : List PlanItem
      items = plan config.json task config.planner_max_items reply.final_text

      begun : Run env max_cost
      begun = record r { account = accumulate reply.usage r.account }

      after :
          (a : Attempted env max_cost (Run env max_cost))
          → IsRun env max_cost config.max_steps a
          → EndsWell config.max_steps (elim a [
            | finished r' ↦ finished (end_plan env max_cost items r')
            | protocol_raised ↦ protocol_raised
            | key_raised ↦ key_raised
          ])
      after (finished r') h = end_plan-IsEnding config.max_steps items r' h
      after protocol_raised h = tt
      after key_raised h = h

  end_structured-IsEnding :
      (n : ℕ) (t : String) (v : Result String Value) (r : Run env max_cost)
      → r.step_count ≤ n
      → r.is_failed ≡ false
      → IsEnding n (end_structured env max_cost t v r)
  unfolding end_structured
  end_structured-IsEnding n t (ok v) r h u = (h, ground (arith, u))
  end_structured-IsEnding n t (err reason) r h u = (h, refl)

  end_text-IsEnding :
      (n : ℕ) (schema : Option Schema) (t : Option String) (messages : List Message)
      (r : Run env max_cost)
      → r.step_count ≤ n
      → r.is_failed ≡ false
      → IsEnding n (end_text env max_cost schema t messages r)
  unfolding end_text end_answer
  end_text-IsEnding n schema none messages r h u = (h, refl)
  end_text-IsEnding n none (some t) messages r h u = (h, ground (arith, u))
  end_text-IsEnding n (some schema) (some t) messages r h u =
      end_structured-IsEnding n
        (finalize_structured env max_cost schema t messages r.account r.world).text
        (finalize_structured env max_cost schema t messages r.account r.world).value
        (record r {
          account = (finalize_structured env max_cost schema t messages r.account r.world).account;
          world = (finalize_structured env max_cost schema t messages r.account r.world).world;
        })
        h u

  end_single-IsEnding :
      (n : ℕ) (schema : Option Schema) (l : Loop env max_cost) (r : Run env max_cost)
      → r.step_count ≡ 0
      → r.is_failed ≡ false
      → l.item.steps_used ≤ n
      → IsEnding n (end_single env max_cost schema l r)
  unfolding end_single add_item
  end_single-IsEnding n schema l r z u h = elim (Bool-cases l.item.is_failed) [
    | inl e ↦ rw e (omega arith, refl)
    | inr e ↦ rw e (
        end_text-IsEnding n schema (if l.item.is_success then l.item.final_text else none)
          l.messages (add_item env max_cost l r) (omega arith) u)
  ]

  run_single-EndsWell :
      Finishes env
      → (config : Config) (task : String) (r : Run env max_cost) → r.step_count ≡ 0
      → r.is_failed ≡ false
      → EndsWell config.max_steps (run_single env max_cost config task r)
  unfolding run_single
  run_single-EndsWell fin config task r z u =
      after (run_step_loop env max_cost (user_text task) config.max_steps r.account r.world)
        (run_step_loop-IsExit env max_cost fin (user_text task) config.max_steps r.account r.world)
    where
      after :
          (e : Exit env max_cost)
          → IsExit env max_cost config.max_steps e
          → EndsWell config.max_steps (elim e [
            | returned l ↦ finished (end_single env max_cost config.schema l r)
            | raised_protocol l ↦ protocol_raised
            | raised_key ↦ key_raised
          ])
      after (returned l) h = end_single-IsEnding config.max_steps config.schema l r z u h.0
      after (raised_protocol l) h = tt
      after raised_key h = h

  -- What a returned result says.
  pub record IsResult (n : ℕ) (r : RunResult env max_cost) : Type 0 where
    pub within : r.step_count ≤ n
    pub classified : succeeds r.outcome ≡ r.is_success
    pub has_text : (is_some r.final_text || not r.is_success) ≡ true
    pub clean : (is_clean r.outcome && r.had_tool_failure) ≡ false

  abbrev pub IsAttempt : ℕ → Attempted env max_cost (RunResult env max_cost) → Type 0
  IsAttempt n (finished r) = IsResult n r
  IsAttempt n protocol_raised = Unit
  IsAttempt n key_raised = ⊥

  outcome-classified :
      (e : Ending env max_cost)
      → answered e.is_success e.schema_failed e.run.is_failed e.final_text ≡ true
      → (succeeds (outcome_of env max_cost e) ≡ e.is_success)
        × ((is_clean (outcome_of env max_cost e) && e.run.had_tool_failure) ≡ false)
  unfolding outcome_of
  outcome-classified e h = elim (Bool-cases e.schema_failed) [
    | inl s ↦ rw s (ground (arith, s, h), refl)
    | inr s ↦
        elim (Bool-cases (not e.is_success && is_budget_error env max_cost e.run.error_reason)) [
          | inl b ↦ rw (s, b) (ground arith, refl)
          | inr b ↦
              rw (s, b)
                (classify-succeeds e.is_success e.run.had_tool_failure e.run.is_failed
                  e.run.total_tool_calls e.run.failed_tool_calls (ground arith))
        ]
  ]

  has_final_text :
      (visible : String → String) (o : Option String) (is_success schema_failed is_failed : Bool)
      → answered is_success schema_failed is_failed o ≡ true
      → (is_some (elim o [ none ↦ none | some t ↦ some (if is_success then visible t else t) ])
          || not is_success)
        ≡ true
  has_final_text visible none is_success schema_failed is_failed h = ground arith
  has_final_text visible (some t) is_success schema_failed is_failed h = refl

  result_of-IsResult :
      (config : Config) (e : Ending env max_cost)
      → IsEnding config.max_steps e
      → IsResult config.max_steps (result_of env max_cost config e)
  unfolding result_of
  result_of-IsResult config e h = record {
    within = h.0;
    classified = (outcome-classified e h.1).0;
    has_text =
        has_final_text config.visible e.final_text e.is_success e.schema_failed e.run.is_failed h.1;
    clean = (outcome-classified e h.1).1;
  }

  pub run_single_attempt-IsAttempt :
      Finishes env
      → (config : Config) (planner : String → W → Reply × W) (task : String) (world : W)
      → IsAttempt config.max_steps (run_single_attempt env max_cost config planner task world)
  unfolding run_single_attempt
  run_single_attempt-IsAttempt fin config planner task world =
      let planned =
        run_plan env max_cost config task (planner task world).0
          (new_run env max_cost config.max_steps account (planner task world).1) in
      let single =
        run_single env max_cost config task (new_run env max_cost config.max_steps account world) in
      shown (if plan_engaged config task then planned else single) (
        choose (plan_engaged config task) planned single
          (run_plan-EndsWell fin config task (planner task world).0
            (new_run env max_cost config.max_steps account (planner task world).1) (omega arith))
          (run_single-EndsWell fin config task (new_run env max_cost config.max_steps account world)
            refl refl))
    where
      account : Account F
      account = record { usage_by_model = []; subagent_cost = env.zero_cost }

      choose :
          (b : Bool) (planned single : Attempted env max_cost (Ending env max_cost))
          → EndsWell config.max_steps planned
          → EndsWell config.max_steps single
          → EndsWell config.max_steps (if b then planned else single)
      choose true planned single h k = h
      choose false planned single h k = k

      shown :
          (a : Attempted env max_cost (Ending env max_cost))
          → EndsWell config.max_steps a
          → IsAttempt config.max_steps (elim a [
            | finished e ↦ finished (result_of env max_cost config e)
            | protocol_raised ↦ protocol_raised
            | key_raised ↦ key_raised
          ])
      shown (finished e) h = result_of-IsResult config e h
      shown protocol_raised h = tt
      shown key_raised h = h
