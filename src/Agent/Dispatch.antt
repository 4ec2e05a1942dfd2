-- ===== src/Agent/Dispatch.antt =====
-- src/fabri/core/agent.py: `_dispatch_tool_calls`.
use fabri.Prelude.{ℕ, Bool, Option, none, some, List, ◌++◌}
use fabri.Agent.Defs.{LlmError, Call, Message, Env, Account}
use fabri.Agent.Calls.{Progress, dispatch_all}
use fabri.Agent.Turn.{Turn, build_turn, turn_messages}

module _ {W F : Type 0} (env : Env W F) (max_cost : Option F) where
  -- `_dispatch_tool_calls`: the messages, whether a call failed, how many did, and what is spent.
  pub record Dispatched : Type 0 where
    pub messages : List Message
    pub had_failure : Bool
    pub failed_calls : ℕ
    pub account : Account F
    pub world : W

  pub data DispatchExit : Type 0 where
    dispatched : Dispatched → DispatchExit
    raised_error : LlmError → Account F → W → DispatchExit
    missing_result : DispatchExit

  abbrev pub after_dispatch :
      List Call → List Message → Progress env max_cost → Option (Turn env max_cost) → DispatchExit
  unfolding turn_messages
  after_dispatch calls messages p none = missing_result
  after_dispatch calls messages p (some t) = dispatched (record {
    messages = messages ++ turn_messages env max_cost calls t;
    had_failure = t.had_failure;
    failed_calls = t.failed_calls;
    account = t.account;
    world = p.world;
  })

  unfoldable pub dispatch_tool_calls : List Call → List Message → Account F → W → DispatchExit
  unfolding dispatch_all build_turn after_dispatch
  dispatch_tool_calls calls messages account world =
      let p = dispatch_all env max_cost calls account world in
      elim p.raised [
        | some e ↦ raised_error e p.account p.world
        | none ↦ after_dispatch calls messages p (build_turn env max_cost calls p.results p.account)
      ]
