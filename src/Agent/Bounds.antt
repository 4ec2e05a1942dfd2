-- ===== src/Agent/Bounds.antt =====
-- How the step loop of src/fabri/core/agent.py ends: within its steps, and with a text if it succeeds.
use fabri.Prelude.{
  ℕ, zero, suc, ◌+◌, ◌≤◌, String, Bool, true, false, not, ◌&&◌, Option, none, some, List, [], ◌∷◌,
  ◌≡◌, refl, subst, if◌then◌else◌, ltb, eqb, length, is_some, arith, Bool-cases, inl, inr,
}
use fabri.Agent.Defs.{
  LlmError, Call, Message, Reply, response, llm_error, Env, Account, accumulate, budget_breached,
}
use fabri.Agent.Calls.{Progress, dispatch_all}
use fabri.Agent.Turn.{Turn, build_turn}
use fabri.Agent.Dispatch.{
  DispatchExit, dispatched, raised_error, missing_result, after_dispatch, dispatch_tool_calls,
}
use fabri.Agent.Steps.{
  inject_final_step_nudge, Item, new_item, non_empty, Loop, Step, goes_on, returns, protocol_error,
  key_error, fail_item, after_tools, after_text, after_response, after_reply, step, Exit, returned,
  raised_protocol, raised_key, run_steps, run_step_loop,
}
use fabri.Agent.Complete.{Finishes, dispatch_all-built}

-- An item that has not ended, and one that has.
abbrev pub IsRunning : Item → Type 0
IsRunning item = (item.is_success ≡ false) × (item.is_failed ≡ false)

abbrev pub IsEnded : Item → Type 0
IsEnded item =
    (if item.is_success then not item.is_failed && is_some item.final_text else true) ≡ true

module _ {W F : Type 0} (env : Env W F) (max_cost : Option F) where
  abbrev IsStep : ℕ → Step env max_cost → Type 0
  IsStep n (goes_on s) = (s.item.steps_used ≡ n) × IsRunning s.item
  IsStep n (returns s) = (s.item.steps_used ≡ n) × IsEnded s.item
  IsStep n (protocol_error s) = Unit
  IsStep n key_error = ⊥

  abbrev pub IsExit : ℕ → Exit env max_cost → Type 0
  IsExit n (returned s) = (s.item.steps_used ≤ n) × IsEnded s.item
  IsExit n (raised_protocol s) = Unit
  IsExit n raised_key = ⊥

  fail_item-IsStep :
      (e : LlmError) (s : Loop env max_cost)
      → IsRunning s.item
      → IsStep s.item.steps_used (fail_item env max_cost e s)
  unfolding fail_item
  fail_item-IsStep (reason, usage) s r = (refl, ground arith)

  abbrev HasResults : DispatchExit env max_cost → Type 0
  HasResults (dispatched d) = Unit
  HasResults (raised_error e account world) = Unit
  HasResults missing_result = ⊥

  dispatch-HasResults :
      Finishes env
      → (calls : List Call) (messages : List Message) (account : Account F) (world : W)
      → HasResults (dispatch_tool_calls env max_cost calls messages account world)
  unfolding dispatch_tool_calls
  dispatch-HasResults fin calls messages account world =
      by_raised (dispatch_all env max_cost calls account world).raised refl
    where
      p : Progress env max_cost
      p = dispatch_all env max_cost calls account world

      by_turn :
          (o : Option (Turn env max_cost)) (t : Turn env max_cost)
          → o ≡ some t
          → HasResults (after_dispatch env max_cost calls messages p o)
      by_turn none t e = absurd (cc)
      by_turn (some u) t e = tt

      by_raised :
          (o : Option LlmError)
          → (dispatch_all env max_cost calls account world).raised ≡ o
          → HasResults (elim o [
            | some e ↦ raised_error e p.account p.world
            | none ↦
                after_dispatch env max_cost calls messages p
                  (build_turn env max_cost calls p.results p.account)
          ])
      by_raised (some e) r = tt
      by_raised none r =
          let (t, e) = dispatch_all-built env max_cost calls account world fin r in
          by_turn (build_turn env max_cost calls p.results p.account) t e

  after_tools-IsStep :
      (calls : ℕ) (s : Loop env max_cost) (d : DispatchExit env max_cost)
      → HasResults d
      → IsRunning s.item
      → IsStep s.item.steps_used (after_tools env max_cost calls s d)
  unfolding after_tools
  after_tools-IsStep calls s (dispatched d) h r = (refl, r)
  after_tools-IsStep calls s (raised_error e account world) h r =
      fail_item-IsStep e (record s { account = account; world = world }) r
  after_tools-IsStep calls s missing_result h r = h

  after_text-IsStep :
      (text : Option String) (s : Loop env max_cost)
      → IsRunning s.item
      → IsStep s.item.steps_used (after_text env max_cost text s)
  unfolding after_text
  after_text-IsStep none s r = tt
  after_text-IsStep (some t) s r = (refl, ground arith)

  after_reply-IsStep :
      Finishes env
      → (reply : Reply) (s : Loop env max_cost) → IsRunning s.item
      → IsStep s.item.steps_used (after_reply env max_cost reply s)
  unfolding after_reply
  after_reply-IsStep fin (llm_error reason usage) s r = fail_item-IsStep (reason, usage) s r
  after_reply-IsStep fin (response a) s r =
      by_calls a.tool_calls (record s { account = accumulate a.usage s.account }) r
    where
      by_calls :
          (calls : List Call) (s : Loop env max_cost)
          → IsRunning s.item
          → IsStep s.item.steps_used (after_response env max_cost calls a.final_text s)
      by_calls [] s r = unfold after_response in after_text-IsStep (non_empty a.final_text) s r
      by_calls (c ∷ calls) s r =
          unfold after_response in
          after_tools-IsStep (length (c ∷ calls)) s
            (dispatch_tool_calls env max_cost (c ∷ calls) s.messages s.account s.world)
            (dispatch-HasResults fin (c ∷ calls) s.messages s.account s.world) r

  step-IsStep :
      Finishes env
      → (is_last : Bool) (s : Loop env max_cost) → IsRunning s.item
      → IsStep (suc s.item.steps_used) (step env max_cost is_last s)
  unfolding step
  step-IsStep fin is_last s r = elim (Bool-cases (budget_breached env max_cost s.account)) [
    | inl b ↦ rw b (refl, ground arith)
    | inr b ↦ rw b (
        let messages = if is_last then inject_final_step_nudge s.messages else s.messages in
        let answer = env.llm_step messages s.world in
        after_reply-IsStep fin answer.0
          (record s {
            item = record s.item { steps_used = suc s.item.steps_used };
            messages = messages;
            world = answer.1;
          })
          r)
  ]

  run_steps-IsExit :
      Finishes env
      → (max_steps left : ℕ) (s : Loop env max_cost) → IsRunning s.item
      → IsExit (s.item.steps_used + left) (run_steps env max_cost max_steps left s)
  unfolding run_steps
  run_steps-IsExit fin max_steps zero s r = (omega arith, ground arith)
  run_steps-IsExit fin max_steps (suc left) s r =
      after (step env max_cost (ltb 1 max_steps && eqb left 0) s)
        (step-IsStep fin (ltb 1 max_steps && eqb left 0) s r)
        (λ s' r'. run_steps-IsExit fin max_steps left s' r')
    where
      after :
          (st : Step env max_cost)
          → IsStep (suc s.item.steps_used) st
          → ((s' : Loop env max_cost)
              → IsRunning s'.item
              → IsExit (s'.item.steps_used + left) (run_steps env max_cost max_steps left s'))
          → IsExit (s.item.steps_used + suc left) (elim st [
            | goes_on s' ↦ run_steps env max_cost max_steps left s'
            | returns s' ↦ returned s'
            | protocol_error s' ↦ raised_protocol s'
            | key_error ↦ raised_key
          ])
      after (goes_on s') h later =
          let e : s'.item.steps_used + left ≡ s.item.steps_used + suc left = omega (arith, h.0) in
          subst (λ (n : ℕ). IsExit n (run_steps env max_cost max_steps left s')) e (later s' h.1)
      after (returns s') h later = (omega (arith, h.0), h.1)
      after (protocol_error s') h later = tt
      after key_error h later = h

  pub run_step_loop-IsExit :
      Finishes env
      → (messages : List Message) (max_steps : ℕ) (account : Account F) (world : W)
      → IsExit max_steps (run_step_loop env max_cost messages max_steps account world)
  unfolding run_step_loop
  run_step_loop-IsExit fin messages max_steps account world =
      let begun : Loop env max_cost = record {
        item = new_item;
        messages = messages;
        account = account;
        world = world;
      } in
      let e : 0 + max_steps ≡ max_steps = omega arith in
      subst (λ (n : ℕ). IsExit n (run_steps env max_cost max_steps max_steps begun)) e
        (run_steps-IsExit fin max_steps max_steps begun (refl, refl))
