-- ===== src/Agent/Turn.antt =====
-- src/fabri/core/agent.py: the messages that `_dispatch_tool_calls` makes of the results.
use fabri.Prelude.{
  ℕ, suc, String, Bool, false, not, ◌==◌, ◌&&◌, ◌||◌, Option, none, some, List, [], ◌∷◌,
  if◌then◌else◌, all, is_some, join, str_append,
}
use fabri.Agent.Defs.{
  Call, ChildUsage, ToolResult, Block, tool_use, tool_result, user, assistant, plain, blocks,
  Message, Env, Account, spawn_subagent_tool_name,
}

module _ {W F : Type 0} (env : Env W F) (max_cost : Option F) where
  -- The cost that a child reports, with that of its own children where it has it.
  abbrev child_cost : ChildUsage F → Option F
  child_cost u = elim u.total_cost_usd [ none ↦ u.cost_usd | some c ↦ some c ]

  abbrev pub is_agent_child : Call → ToolResult F → Bool
  is_agent_child call result = (call.name == spawn_subagent_tool_name) || elim result.child [
    | none ↦ false
    | some child ↦ child.has_session_id && is_some child.usage
  ]

  abbrev usage_of : ToolResult F → Option (ChildUsage F)
  usage_of result = elim result.child [ none ↦ none | some child ↦ child.usage ]

  abbrev outcome_of : ToolResult F → Option String
  outcome_of result = elim result.child [ none ↦ none | some child ↦ child.outcome ]

  unfoldable pub charge_child : Call → ToolResult F → Account F → Account F
  charge_child call result a =
      if is_agent_child call result
      then elim (usage_of result) [
        | none ↦ a
        | some u ↦ elim (child_cost u) [
          | none ↦ a
          | some c ↦ record a { subagent_cost = env.add a.subagent_cost c }
        ]
      ]
      else a

  -- A call counts as a failure where it failed, or where an agent that it ran did not end in success.
  unfoldable pub is_failure : Call → ToolResult F → Bool
  is_failure call result =
      not result.ok
      || is_agent_child call result
        && elim (outcome_of result) [ none ↦ false | some o ↦ not (o == "success") ]

  -- The third part of `_dispatch_tool_calls`: the blocks in the order of the calls. A missing result is
  -- the `KeyError` of `results[i]`, here `none`.
  pub record Turn : Type 0 where
    pub uses : List Block
    pub result_blocks : List Block
    pub simple_calls : List String
    pub simple_results : List String
    pub had_failure : Bool
    pub failed_calls : ℕ
    pub account : Account F

  abbrev pub add_result : Call → ToolResult F → Turn → Turn
  unfolding str_append
  add_result call result t = record t {
    uses = tool_use call.id call.name ∷ t.uses;
    result_blocks = tool_result call.id result.encoded ∷ t.result_blocks;
    simple_calls = str_append "[tool_call:" (str_append call.name "]") ∷ t.simple_calls;
    simple_results = str_append "[tool_result] " result.encoded ∷ t.simple_results;
    had_failure = is_failure call result || t.had_failure;
    failed_calls = if result.ok then t.failed_calls else suc t.failed_calls;
  }

  unfoldable pub build_turn : List Call → List (Option (ToolResult F)) → Account F → Option Turn
  unfolding charge_child is_failure add_result
  build_turn [] results account = some (record {
    uses = [];
    result_blocks = [];
    simple_calls = [];
    simple_results = [];
    had_failure = false;
    failed_calls = 0;
    account = account;
  })
  build_turn (call ∷ calls) [] account = none
  build_turn (call ∷ calls) (none ∷ results) account = none
  build_turn (call ∷ calls) (some result ∷ results) account =
      elim (build_turn calls results (charge_child call result account)) [
        | none ↦ none
        | some t ↦ some (add_result call result t)
      ]

  abbrev pub real_ids : List Call → Bool
  real_ids calls = all (λ c. is_some c.id) calls

  -- The two messages of the turn.
  unfoldable pub turn_messages : List Call → Turn → List Message
  unfolding join
  turn_messages calls t =
      if real_ids calls
      then record { role = assistant; content = blocks t.uses }
        ∷ record { role = user; content = blocks t.result_blocks }
        ∷ []
      else record { role = assistant; content = plain (join " " t.simple_calls) }
        ∷ record { role = user; content = plain (join " " t.simple_results) }
        ∷ []
