-- ===== src/Agent/Steps.antt =====
-- src/fabri/core/agent.py: `_run_step_loop`, the steps of one item of a plan or of a whole run.
use fabri.Prelude.{
  ℕ, zero, suc, ◌+◌, String, Bool, true, false, ◌&&◌, ◌||◌, Option, none, some, List, [], ◌∷◌, ◌++◌,
  if◌then◌else◌, ltb, eqb, length, any, is_empty, contains, str_append,
}
use fabri.Agent.Defs.{
  LlmError, Call, Block, text_block, user, assistant, Content, plain, blocks, Message, Reply,
  response, llm_error, Env, Account, accumulate, budget_breached,
}
use fabri.Agent.Dispatch.{
  DispatchExit, dispatched, raised_error, missing_result, dispatch_tool_calls,
}

-- `_FINAL_STEP_NUDGE`.
abbrev pub final_step_nudge : String
final_step_nudge =
    "This is your FINAL step in this run. Do NOT call any more tools — even if the work feels unfinished. Reply now with your final answer summarising what you did and any open items, so the run ends cleanly."

abbrev pub has_nudge : Block → Bool
unfolding contains
has_nudge (text_block t) = contains final_step_nudge t
has_nudge _ = false

-- `_inject_final_step_nudge`, on the last message.
unfoldable pub nudge_content : Content → Content
unfolding has_nudge contains str_append
nudge_content (plain t) =
    plain
      (if contains final_step_nudge t then t else str_append t (str_append "\n\n" final_step_nudge))
nudge_content (blocks bs) =
    blocks (if any has_nudge bs then bs else bs ++ text_block final_step_nudge ∷ [])

unfoldable pub nudge_message : Message → Message
unfolding nudge_content
nudge_message m = elim m.role [
  | user ↦ record m { content = nudge_content m.content }
  | assistant ↦ m
]

unfoldable pub inject_final_step_nudge : List Message → List Message
unfolding nudge_message
inject_final_step_nudge [] = []
inject_final_step_nudge (m ∷ []) = nudge_message m ∷ []
inject_final_step_nudge (m ∷ n ∷ ms) = m ∷ inject_final_step_nudge (n ∷ ms)

-- The tuple that the loop returns.
pub record Item : Type 0 where
  pub final_text : Option String
  pub is_success : Bool
  pub is_failed : Bool
  pub error_reason : Option String
  pub had_failure : Bool
  pub total_tool_calls : ℕ
  pub failed_tool_calls : ℕ
  pub steps_used : ℕ

abbrev pub new_item : Item
new_item = record {
  final_text = none;
  is_success = false;
  is_failed = false;
  error_reason = none;
  had_failure = false;
  total_tool_calls = 0;
  failed_tool_calls = 0;
  steps_used = 0;
}

abbrev pub budget_error : String
budget_error = "cost budget exceeded"

-- `if response.final_text`.
abbrev pub non_empty : Option String → Option String
unfolding is_empty
non_empty none = none
non_empty (some t) = if is_empty t then none else some t

module _ {W F : Type 0} (env : Env W F) (max_cost : Option F) where
  pub record Loop : Type 0 where
    pub item : Item
    pub messages : List Message
    pub account : Account F
    pub world : W

  -- How a step ends: the loop goes on or returns, or an exception leaves it.
  pub data Step : Type 0 where
    goes_on : Loop → Step
    returns : Loop → Step
    protocol_error : Loop → Step
    key_error : Step

  -- `except LLMError`.
  unfoldable pub fail_item : LlmError → Loop → Step
  unfolding accumulate
  fail_item (reason, usage) s = returns (record s {
    item = record s.item { is_failed = true; error_reason = some reason };
    account = accumulate usage s.account;
  })

  -- After the tools have been called.
  unfoldable pub after_tools : ℕ → Loop → DispatchExit env max_cost → Step
  unfolding fail_item
  after_tools calls s (dispatched d) = goes_on (record {
    item = record s.item {
      had_failure = s.item.had_failure || d.had_failure;
      total_tool_calls = s.item.total_tool_calls + calls;
      failed_tool_calls = s.item.failed_tool_calls + d.failed_calls;
    };
    messages = d.messages;
    account = d.account;
    world = d.world;
  })
  after_tools calls s (raised_error e account world) =
      fail_item e (record s { account = account; world = world })
  after_tools calls s missing_result = key_error

  unfoldable pub after_text : Option String → Loop → Step
  after_text none s = protocol_error s
  after_text (some t) s =
      returns (record s { item = record s.item { final_text = some t; is_success = true } })

  -- A response with tool calls, or one without.
  unfoldable pub after_response : List Call → Option String → Loop → Step
  unfolding after_tools after_text dispatch_tool_calls non_empty
  after_response [] text s = after_text (non_empty text) s
  after_response (c ∷ calls) text s =
      after_tools (length (c ∷ calls)) s
        (dispatch_tool_calls env max_cost (c ∷ calls) s.messages s.account s.world)

  unfoldable pub after_reply : Reply → Loop → Step
  unfolding after_response fail_item accumulate
  after_reply (response r) s =
      after_response r.tool_calls r.final_text (record s { account = accumulate r.usage s.account })
  after_reply (llm_error reason usage) s = fail_item (reason, usage) s

  -- One round of the `for`, with `is_last` for the last of several.
  unfoldable pub step : Bool → Loop → Step
  unfolding budget_breached inject_final_step_nudge after_reply
  step is_last s =
      let begun = record s { item = record s.item { steps_used = suc s.item.steps_used } } in
      if budget_breached env max_cost s.account
      then returns (record begun {
        item = record begun.item { is_failed = true; error_reason = some budget_error };
      })
      else (let messages = if is_last then inject_final_step_nudge s.messages else s.messages in
          let (reply, world) = env.llm_step messages s.world in
          after_reply reply (record begun { messages = messages; world = world }))

  -- The rounds that are left, of `max_steps`.
  pub data Exit : Type 0 where
    returned : Loop → Exit
    raised_protocol : Loop → Exit
    raised_key : Exit

  unfoldable pub run_steps : ℕ → ℕ → Loop → Exit
  unfolding step
  run_steps max_steps zero s = returned s
  run_steps max_steps (suc left) s = elim (step (ltb 1 max_steps && eqb left 0) s) [
    | goes_on s' ↦ run_steps max_steps left s'
    | returns s' ↦ returned s'
    | protocol_error s' ↦ raised_protocol s'
    | key_error ↦ raised_key
  ]

  -- `_run_step_loop`.
  unfoldable pub run_step_loop : List Message → ℕ → Account F → W → Exit
  unfolding run_steps
  run_step_loop messages max_steps account world =
      run_steps max_steps max_steps
        (record { item = new_item; messages = messages; account = account; world = world })
