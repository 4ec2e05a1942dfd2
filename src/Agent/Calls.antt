-- ===== src/Agent/Calls.antt =====
-- src/fabri/core/agent.py: `_index_parallel_groups`, and the calls of the tools in `_dispatch_tool_calls`.
use fabri.Prelude.{
  ℕ, suc, String, false, not, ◌==◌, ◌&&◌, Option, none, some, List, [], ◌∷◌, ◌++◌, if◌then◌else◌,
  or_else, Dict, Result, ok, err, lookup, insert, length, filter, is_empty,
}
use fabri.Indices.{elem, range, replicate, get_or, set}
use fabri.Agent.Defs.{
  Usage, LlmError, decompose_tool_name, Call, ToolResult, Env, Account, spawn_subagent_tool_name,
  accumulate, budget_breached,
}

-- `_index_parallel_groups`, from an index on: a group without a name is no group.
abbrev group_of : Call → Option String
unfolding is_empty
group_of call =
    if call.name == spawn_subagent_tool_name
    then elim call.parallel_group [
      | none ↦ none
      | some group ↦ if is_empty group then none else some group
    ]
    else none

unfoldable pub group_from : ℕ → List Call → Dict (List ℕ) → Dict (List ℕ)
unfolding group_of
group_from i [] groups = groups
group_from i (call ∷ calls) groups = group_from (suc i) calls (elim (group_of call) [
  | none ↦ groups
  | some group ↦ insert group (or_else (lookup group groups) [] ++ i ∷ []) groups
])

unfoldable pub index_parallel_groups : List Call → Dict (List ℕ)
unfolding group_from
index_parallel_groups calls = group_from 0 calls []

-- `parallel_index_set`.
abbrev pub members : Dict (List ℕ) → List ℕ
members [] = []
members ((group, indices) ∷ groups) = indices ++ members groups

-- `calls[i]`, which is read in range.
abbrev pub call_at : List Call → ℕ → Call
call_at calls i = get_or calls i (record { name = ""; id = none; parallel_group = none })

module _ {W F : Type 0} (env : Env W F) (max_cost : Option F) where
  -- The dictionary `results` by index, the exception if one was raised, what has been spent, and the
  -- world.
  pub record Progress : Type 0 where
    pub results : List (Option (ToolResult F))
    pub raised : Option LlmError
    pub account : Account F
    pub world : W

  abbrev pub refused : ToolResult F
  refused = record {
    ok = false;
    child = none;
    encoded = env.encode_error "cost budget exceeded; refusing to spawn sub-agent";
  }

  abbrev pub set_result : ℕ → ToolResult F → Account F → W → Progress → Progress
  set_result i result account world p = record p {
    results = set p.results i (some result);
    account = account;
    world = world;
  }

  -- A `decompose` call, whose usage counts for the run.
  unfoldable pub dispatch_decompose :
      ℕ → Result LlmError (ToolResult F × Option Usage) × W → Progress → Progress
  unfolding accumulate
  dispatch_decompose i (ok (result, usage), world) p =
      set_result i result (accumulate usage p.account) world p
  dispatch_decompose i (err e, world) p = record p { raised = some e; world = world }

  -- `_dispatch_one`, and the entry of its result.
  unfoldable pub dispatch_one : List Call → ℕ → Progress → Progress
  unfolding budget_breached dispatch_decompose
  dispatch_one calls i p =
      let call = call_at calls i in
      if call.name == decompose_tool_name
      then dispatch_decompose i (env.decompose call p.world) p
      else if (call.name == spawn_subagent_tool_name) && budget_breached env max_cost p.account
      then set_result i refused p.account p.world p
      else (let (result, world) = env.invoke call p.world in set_result i result p.account world p)

  -- The calls of some indices, up to the first that raises.
  unfoldable pub dispatch_each : List Call → List ℕ → Progress → Progress
  unfolding dispatch_one
  dispatch_each calls [] p = p
  dispatch_each calls (i ∷ indices) p = elim p.raised [
    | none ↦ dispatch_each calls indices (dispatch_one calls i p)
    | some e ↦ p
  ]

  -- One group after the other, each in the order in which its members finish.
  unfoldable pub dispatch_groups : List Call → Dict (List ℕ) → Progress → Progress
  unfolding dispatch_each
  dispatch_groups calls [] p = p
  dispatch_groups calls ((group, indices) ∷ groups) p =
      dispatch_groups calls groups (dispatch_each calls (env.finish_order indices p.world) p)

  -- The serial calls, and then the groups.
  unfoldable pub dispatch_all : List Call → Account F → W → Progress
  unfolding dispatch_groups index_parallel_groups
  dispatch_all calls account world =
      let groups = index_parallel_groups calls in
      let serial = filter (λ i. not (elem i (members groups))) (range (length calls)) in
      dispatch_groups calls groups (
        dispatch_each calls serial (record {
          results = replicate (length calls) none;
          raised = none;
          account = account;
          world = world;
        }))
