-- ===== src/Agent/Defs.antt =====
-- src/fabri/core/agent.py and src/fabri/core/outcome.py: messages, replies, tool results, outcomes and
-- the account of what a run has spent.
use fabri.Prelude.{
  ℕ, ◌+◌, String, Bool, false, not, ◌&&◌, Option, none, some, List, [], ◌∷◌, if◌then◌else◌, or_else,
  Dict, Result, lookup, insert, ltb, eqb,
}

pub data Outcome : Type 0 where
  success success_with_recovery incomplete incomplete_with_tool_failure : Outcome
  budget_exceeded failed invalid_output all_tools_failed : Outcome

-- `LLMUsage`.
pub record Usage : Type 0 where
  pub model : Option String
  pub input_tokens : ℕ
  pub output_tokens : ℕ
  pub cache_creation_input_tokens : ℕ
  pub cache_read_input_tokens : ℕ
  pub provider_transient_retries : ℕ
  pub max_token_retries : ℕ

-- `ToolCall`: the `parallel_group` is the argument of that name, where it is a text.
pub record Call : Type 0 where
  pub name : String
  pub id : Option String
  pub parallel_group : Option String

pub record ChildUsage (F : Type 0) : Type 0 where
  pub total_cost_usd : Option F
  pub cost_usd : Option F

-- The mapping `result["result"]` of a tool that ran an agent.
pub record Child (F : Type 0) : Type 0 where
  pub has_session_id : Bool
  pub usage : Option (ChildUsage F)
  pub outcome : Option String

-- What a tool returns: `ok`, its result where that is a mapping, and the text for the model.
pub record ToolResult (F : Type 0) : Type 0 where
  pub ok : Bool
  pub child : Option (Child F)
  pub encoded : String

pub data Block : Type 0 where
  tool_use : Option String → String → Block
  tool_result : Option String → String → Block
  text_block : String → Block

pub data Role : Type 0 where
  user assistant : Role

pub data Content : Type 0 where
  plain : String → Content
  blocks : List Block → Content

pub record Message : Type 0 where
  pub role : Role
  pub content : Content

pub record Response : Type 0 where
  pub tool_calls : List Call
  pub final_text : Option String
  pub usage : Option Usage

-- `llm.step` returns, or it raises an `LLMError` with its text and usage.
pub data Reply : Type 0 where
  response : Response → Reply
  llm_error : String → Option Usage → Reply

-- The text and the usage of an `LLMError`.
abbrev pub LlmError : Type 0
LlmError = String × Option Usage

-- The model and the tools, on a world `W`. `decompose` calls a model of its own, which may raise; a
-- registered tool returns its errors. `finish_order` is the order in which the members of a parallel
-- group finish, `cost_for` is that of pricing.py, and
-- `encode_error` the text of a failed result with that error.
pub record Env (W F : Type 0) : Type 0 where
  pub llm_step : List Message → W → Reply × W
  pub invoke : Call → W → ToolResult F × W
  pub decompose : Call → W → Result LlmError (ToolResult F × Option Usage) × W
  pub finish_order : List ℕ → W → List ℕ
  pub cost_for : Usage → Option F
  pub encode_error : String → String
  pub zero_cost : F
  pub add : F → F → F
  pub at_least : F → F → Bool

-- `usage_by_model` and `subagent_cost_total`.
pub record Account (F : Type 0) : Type 0 where
  pub usage_by_model : Dict Usage
  pub subagent_cost : F

abbrev pub spawn_subagent_tool_name : String
spawn_subagent_tool_name = "spawn_subagent"

abbrev pub decompose_tool_name : String
decompose_tool_name = "decompose"

-- `_accumulate`, on the bucket of the model.
abbrev pub add_usage : Usage → Usage → Usage
add_usage bucket u = record bucket {
  input_tokens = bucket.input_tokens + u.input_tokens;
  output_tokens = bucket.output_tokens + u.output_tokens;
  cache_creation_input_tokens = bucket.cache_creation_input_tokens + u.cache_creation_input_tokens;
  cache_read_input_tokens = bucket.cache_read_input_tokens + u.cache_read_input_tokens;
  provider_transient_retries = bucket.provider_transient_retries + u.provider_transient_retries;
  max_token_retries = bucket.max_token_retries + u.max_token_retries;
}

abbrev empty_bucket : Option String → Usage
empty_bucket model = record {
  model = model;
  input_tokens = 0;
  output_tokens = 0;
  cache_creation_input_tokens = 0;
  cache_read_input_tokens = 0;
  provider_transient_retries = 0;
  max_token_retries = 0;
}

module _ {F : Type 0} where
  unfoldable pub accumulate : Option Usage → Account F → Account F
  accumulate none a = a
  accumulate (some u) a =
      let key = or_else u.model "" in
      let bucket = or_else (lookup key a.usage_by_model) (empty_bucket u.model) in
      record a { usage_by_model = insert key (add_usage bucket u) a.usage_by_model }

  module _ {W : Type 0} (env : Env W F) where
    -- The sum over the buckets; one without a price counts nothing.
    unfoldable pub own_cost : Dict Usage → F → F
    own_cost [] own = own
    own_cost ((key, bucket) ∷ rest) own =
        own_cost rest (elim (env.cost_for bucket) [ none ↦ own | some c ↦ env.add own c ])

    -- `_budget_breached`.
    unfoldable pub budget_breached : Option F → Account F → Bool
    unfolding own_cost
    budget_breached none a = false
    budget_breached (some max_cost) a =
        env.at_least (env.add (own_cost a.usage_by_model env.zero_cost) a.subagent_cost) max_cost

-- `_classify_outcome`.
unfoldable pub classify_outcome : Bool → Bool → Bool → ℕ → ℕ → Outcome
classify_outcome is_success had_tool_failure is_failed total failures =
    if is_failed
    then failed
    else if not is_success
    then if had_tool_failure then incomplete_with_tool_failure else incomplete
    else if ltb 1 total && eqb failures total
    then all_tools_failed
    else if had_tool_failure
    then success_with_recovery
    else success
