-- ===== src/Agent/Paired.antt =====
-- The step loop of src/fabri/core/agent.py keeps each tool call answered by the message after it.
use fabri.Prelude.{
  ℕ, zero, suc, String, Bool, true, false, ◌&&◌, Option, none, some, List, [], ◌∷◌, ◌≡◌, refl, sym,
  ap, subst, if◌then◌else◌, ltb, eqb, length, arith, Bool-cases, inl, inr,
}
use fabri.Agent.Defs.{
  LlmError, Call, ToolResult, Message, Reply, response, llm_error, Env, Account, accumulate,
  budget_breached,
}
use fabri.Agent.Calls.{Progress, dispatch_all}
use fabri.Agent.Turn.{Turn, real_ids, turn_messages, build_turn, add_result, charge_child}
use fabri.Agent.Dispatch.{
  DispatchExit, dispatched, raised_error, missing_result, after_dispatch, dispatch_tool_calls,
}
use fabri.Agent.Steps.{
  inject_final_step_nudge, new_item, budget_error, non_empty, Loop, Step, goes_on, returns,
  protocol_error, key_error, fail_item, after_tools, after_text, after_response, after_reply, step,
  Exit, returned, raised_protocol, raised_key, run_steps, run_step_loop,
}
use fabri.Agent.Talk.{use_ids, result_ids, IsPaired, IsPaired-append, inject-IsPaired}

module _ {W F : Type 0} (env : Env W F) (max_cost : Option F) where
  build_turn-ids :
      (calls : List Call) (results : List (Option (ToolResult F))) (account : Account F)
      (t : Turn env max_cost)
      → build_turn env max_cost calls results account ≡ some t
      → use_ids t.uses ≡ result_ids t.result_blocks
  unfolding build_turn
  build_turn-ids [] results account t h = ground (arith, h)
  build_turn-ids (call ∷ calls) [] account t h = absurd (cc)
  build_turn-ids (call ∷ calls) (none ∷ results) account t h = absurd (cc)
  build_turn-ids (call ∷ calls) (some result ∷ results) account t h =
      by_rest
        (build_turn env max_cost calls results (charge_child env max_cost call result account)) refl
        h (λ u e. build_turn-ids calls results (charge_child env max_cost call result account) u e)
    where
      by_rest :
          (o : Option (Turn env max_cost))
          → build_turn env max_cost calls results (charge_child env max_cost call result account)
            ≡ o
          → elim o [ none ↦ none | some u ↦ some (add_result env max_cost call result u) ] ≡ some t
          → ((u : Turn env max_cost)
              → build_turn env max_cost calls results
                  (charge_child env max_cost call result account)
                ≡ some u
              → use_ids u.uses ≡ result_ids u.result_blocks)
          → use_ids t.uses ≡ result_ids t.result_blocks
      by_rest none e k later = absurd (cc)
      by_rest (some u) e k later =
          let same : add_result env max_cost call result u ≡ t = cc in
          subst (λ v. use_ids v.uses ≡ result_ids v.result_blocks) same
            (ap (λ r. call.id ∷ r) (later u e))

  turn_messages-IsPaired :
      (calls : List Call) (t : Turn env max_cost)
      → use_ids t.uses ≡ result_ids t.result_blocks
      → IsPaired [] (turn_messages env max_cost calls t)
  unfolding turn_messages
  turn_messages-IsPaired calls t h = elim (Bool-cases (real_ids env max_cost calls)) [
    | inl e ↦ rw e (refl, (sym h, refl))
    | inr e ↦ rw e (refl, (refl, refl))
  ]

  abbrev PairedExit : DispatchExit env max_cost → Type 0
  PairedExit (dispatched d) = IsPaired [] d.messages
  PairedExit (raised_error e account world) = Unit
  PairedExit missing_result = Unit

  dispatch-PairedExit :
      (calls : List Call) (messages : List Message) (account : Account F) (world : W)
      → IsPaired [] messages
      → PairedExit (dispatch_tool_calls env max_cost calls messages account world)
  unfolding dispatch_tool_calls
  dispatch-PairedExit calls messages account world h = by_raised p.raised
    where
      p : Progress env max_cost
      p = dispatch_all env max_cost calls account world

      by_turn :
          (o : Option (Turn env max_cost))
          → build_turn env max_cost calls p.results p.account ≡ o
          → PairedExit (after_dispatch env max_cost calls messages p o)
      by_turn none e = tt
      by_turn (some t) e =
          IsPaired-append [] messages (turn_messages env max_cost calls t) h
            (turn_messages-IsPaired calls t (build_turn-ids calls p.results p.account t e))

      by_raised :
          (o : Option LlmError)
          → PairedExit (elim o [
            | some e ↦ raised_error e p.account p.world
            | none ↦
                after_dispatch env max_cost calls messages p
                  (build_turn env max_cost calls p.results p.account)
          ])
      by_raised (some e) = tt
      by_raised none = by_turn (build_turn env max_cost calls p.results p.account) refl

  abbrev PairedStep : Step env max_cost → Type 0
  PairedStep (goes_on s) = IsPaired [] s.messages
  PairedStep (returns s) = IsPaired [] s.messages
  PairedStep (protocol_error s) = IsPaired [] s.messages
  PairedStep key_error = Unit

  abbrev pub PairedLoop : Exit env max_cost → Type 0
  PairedLoop (returned s) = IsPaired [] s.messages
  PairedLoop (raised_protocol s) = IsPaired [] s.messages
  PairedLoop raised_key = Unit

  fail_item-PairedStep :
      (e : LlmError) (s : Loop env max_cost)
      → IsPaired [] s.messages
      → PairedStep (fail_item env max_cost e s)
  unfolding fail_item
  fail_item-PairedStep (reason, usage) s h = h

  after_tools-PairedStep :
      (calls : ℕ) (s : Loop env max_cost) (d : DispatchExit env max_cost)
      → IsPaired [] s.messages
      → PairedExit d
      → PairedStep (after_tools env max_cost calls s d)
  unfolding after_tools
  after_tools-PairedStep calls s (dispatched d) h k = k
  after_tools-PairedStep calls s (raised_error e account world) h k =
      fail_item-PairedStep e (record s { account = account; world = world }) h
  after_tools-PairedStep calls s missing_result h k = tt

  after_text-PairedStep :
      (text : Option String) (s : Loop env max_cost)
      → IsPaired [] s.messages
      → PairedStep (after_text env max_cost text s)
  unfolding after_text
  after_text-PairedStep none s h = h
  after_text-PairedStep (some t) s h = h

  after_response-PairedStep :
      (calls : List Call) (text : Option String) (s : Loop env max_cost)
      → IsPaired [] s.messages
      → PairedStep (after_response env max_cost calls text s)
  unfolding after_response
  after_response-PairedStep [] text s h = after_text-PairedStep (non_empty text) s h
  after_response-PairedStep (c ∷ calls) text s h =
      after_tools-PairedStep (length (c ∷ calls)) s
        (dispatch_tool_calls env max_cost (c ∷ calls) s.messages s.account s.world) h
        (dispatch-PairedExit (c ∷ calls) s.messages s.account s.world h)

  after_reply-PairedStep :
      (reply : Reply) (s : Loop env max_cost)
      → IsPaired [] s.messages
      → PairedStep (after_reply env max_cost reply s)
  unfolding after_reply
  after_reply-PairedStep (llm_error reason usage) s h = fail_item-PairedStep (reason, usage) s h
  after_reply-PairedStep (response a) s h =
      after_response-PairedStep a.tool_calls a.final_text
        (record s { account = accumulate a.usage s.account }) h

  -- The messages that the model gets.
  asked-IsPaired :
      (is_last : Bool) (ms : List Message)
      → IsPaired [] ms
      → IsPaired [] (if is_last then inject_final_step_nudge ms else ms)
  asked-IsPaired true ms h = inject-IsPaired [] ms h
  asked-IsPaired false ms h = h

  step-PairedStep :
      (is_last : Bool) (s : Loop env max_cost)
      → IsPaired [] s.messages
      → PairedStep (step env max_cost is_last s)
  unfolding step
  step-PairedStep is_last s h = by_budget (budget_breached env max_cost s.account)
    where
      begun : Loop env max_cost
      begun = record s { item = record s.item { steps_used = suc s.item.steps_used } }

      asked : List Message
      asked = if is_last then inject_final_step_nudge s.messages else s.messages

      by_budget :
          (b : Bool)
          → PairedStep (
              if b
              then returns (record begun {
                item = record begun.item { is_failed = true; error_reason = some budget_error };
              })
              else after_reply env max_cost
                  (env.llm_step asked s.world).0
                  (record begun { messages = asked; world = (env.llm_step asked s.world).1 }))
      by_budget true = h
      by_budget false =
          after_reply-PairedStep (env.llm_step asked s.world).0
            (record begun { messages = asked; world = (env.llm_step asked s.world).1 })
            (asked-IsPaired is_last s.messages h)

  run_steps-PairedLoop :
      (max_steps left : ℕ) (s : Loop env max_cost)
      → IsPaired [] s.messages
      → PairedLoop (run_steps env max_cost max_steps left s)
  unfolding run_steps
  run_steps-PairedLoop max_steps zero s h = h
  run_steps-PairedLoop max_steps (suc left) s h =
      after (step env max_cost (ltb 1 max_steps && eqb left 0) s)
        (step-PairedStep (ltb 1 max_steps && eqb left 0) s h)
        (λ s' k. run_steps-PairedLoop max_steps left s' k)
    where
      after :
          (st : Step env max_cost)
          → PairedStep st
          → ((s' : Loop env max_cost)
              → IsPaired [] s'.messages
              → PairedLoop (run_steps env max_cost max_steps left s'))
          → PairedLoop (elim st [
            | goes_on s' ↦ run_steps env max_cost max_steps left s'
            | returns s' ↦ returned s'
            | protocol_error s' ↦ raised_protocol s'
            | key_error ↦ raised_key
          ])
      after (goes_on s') k later = later s' k
      after (returns s') k later = k
      after (protocol_error s') k later = k
      after key_error k later = tt

  -- A step loop that begins with messages in which every tool call is answered by the next message, in
  -- the same order, and nothing else is answered, leaves such messages, also where it ends by the
  -- protocol error.
  pub run_step_loop-IsPaired :
      (messages : List Message) (max_steps : ℕ) (account : Account F) (world : W)
      → IsPaired [] messages
      → PairedLoop (run_step_loop env max_cost messages max_steps account world)
  unfolding run_step_loop
  run_step_loop-IsPaired messages max_steps account world h =
      run_steps-PairedLoop max_steps max_steps
        (record { item = new_item; messages = messages; account = account; world = world }) h
