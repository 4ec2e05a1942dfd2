-- ===== src/Agent/Structured.antt =====
-- src/fabri/core/agent.py: `_finalize_structured`, which checks the final answer of a run against the
-- response schema and asks the model again where it does not fit.
use fabri.Prelude.{
  ℕ, zero, suc, ◌+◌, min, String, ◌==◌, Option, none, some, List, [], ◌∷◌, ◌++◌, if◌then◌else◌,
  or_else, Result, ok, err, ltb, leb, join, str_append,
}
use fabri.Value.{Value, null, mapping, Fields, set_field}
use fabri.Agent.Defs.{
  user, assistant, plain, Message, Reply, response, llm_error, Env, Account, accumulate,
  budget_breached,
}
use fabri.Agent.Steps.{non_empty}

-- `ValidationResult` of orchestrator/convention_application.py: a valid selection has the fields to
-- copy and perhaps a branch, an invalid one perhaps a reason.
pub record Selection : Type 0 where
  pub fields : List (String × Value)
  pub branch_id : Option String

-- The conventions that were retrieved. `max_retries` is that of the retrieval's configuration, where
-- it is given; `validate` is `validate_branch_selection`.
pub record Conventions : Type 0 where
  pub max_retries : Option ℕ
  pub validate : Value → Result (Option String) Selection

-- `parse` is `parse_response` on the schema, with `null` for no value; `visible` is
-- `split_agent_output`, `schema_text` and `fallback_text` what `json.dumps` makes of the schema and of
-- the fallback. A negative count of retries counts as zero.
pub record Schema : Type 0 where
  pub parse : String → Value × List String
  pub visible : String → String
  pub conventions : Option Conventions
  pub response_retries : ℕ
  pub error_strategy : String
  pub fallback : Value
  pub fallback_text : String
  pub schema_text : String

-- `{**value, **selected_fields}`.
unfoldable pub copy_fields : List (String × Value) → Fields → Fields
unfolding set_field
copy_fields [] fields = fields
copy_fields ((name, v) ∷ rest) fields = copy_fields rest (set_field name v fields)

unfoldable pub apply_selection : Selection → Value → Value
unfolding copy_fields
apply_selection selection (mapping fields) = mapping (copy_fields selection.fields fields)
apply_selection selection v = v

-- `convention_retry_limit`.
unfoldable pub retry_limit : Option Conventions → ℕ
retry_limit none = 0
retry_limit (some c) = elim c.max_retries [ none ↦ 0 | some n ↦ min 1 n ]

-- What one look at an answer finds: the value, with the status of a convention that was applied; or
-- the value and the reason against its branch; or the value and its errors.
pub data Verdict : Type 0 where
  valid : Value → Option String → Verdict
  bad_branch : Value → String → Verdict
  bad_schema : Value → List String → Verdict

unfoldable pub select_branch : Value → Result (Option String) Selection → Verdict
unfolding apply_selection str_append
select_branch v (ok selection) =
    valid (apply_selection selection v)
      (some (str_append "convention_applied:" (or_else selection.branch_id "")))
select_branch v (err reason) =
    bad_branch v
      (str_append "convention branch selection invalid: " (or_else reason "unknown reason"))

unfoldable pub check_conventions : Option Conventions → Value → Verdict
unfolding select_branch
check_conventions none v = valid v none
check_conventions (some c) v = select_branch v (c.validate v)

unfoldable pub judge_parsed : Option Conventions → Value × List String → Verdict
unfolding check_conventions
judge_parsed conventions (v, []) = check_conventions conventions v
judge_parsed conventions (v, e ∷ errors) = bad_schema v (e ∷ errors)

unfoldable pub judge : Schema → String → Verdict
unfolding judge_parsed
judge schema t = judge_parsed schema.conventions (schema.parse (schema.visible t))

-- `"\n- ".join(errors)`, below the header and above the request.
abbrev branch_prompt : Schema → String → String
unfolding str_append
branch_prompt schema e =
    str_append
      "Your previous reply did not make a valid convention branch selection.\nValidation error:\n- "
      (str_append e (
        str_append
          "\n\nReturn ONLY a JSON value that satisfies this schema (no prose, no code fences). Inside the `response` string, include two marked lines: `SELECTED_BRANCH: <branch_id>` naming exactly one branch from the retrieved convention, and `BRANCH_EVIDENCE: <current-run evidence>`. Do not add fields the schema does not define:\n"
          schema.schema_text))

abbrev schema_prompt : Schema → List String → String
unfolding str_append join
schema_prompt schema errors =
    str_append
      "Your previous reply did not match the required response schema.\nValidation errors:\n- "
      (str_append (join "\n- " errors) (
        str_append
          "\n\nReturn ONLY a JSON value that satisfies this schema (no prose, no code fences):\n"
          schema.schema_text))

abbrev not_applicable : Option String
not_applicable = some "convention_not_applicable"

module _ {W F : Type 0} (env : Env W F) (max_cost : Option F) (schema : Schema) where
  -- The variables of the loop; `calls` counts the corrective calls.
  pub record Attempts : Type 0 where
    pub text : String
    pub value : Value
    pub last_valid : Value
    pub last_errors : List String
    pub schema_retries : ℕ
    pub convention_retries : ℕ
    pub calls : ℕ
    pub messages : List Message
    pub account : Account F
    pub world : W

  -- What it returns: the text, and either the value or the reason of the failure.
  pub record Final : Type 0 where
    pub text : String
    pub value : Result String Value
    pub status : Option String
    pub calls : ℕ
    pub messages : List Message
    pub account : Account F
    pub world : W

  abbrev pub close : Result String Value → Option String → Attempts → Final
  close value status s = record {
    text = s.text;
    value = value;
    status = status;
    calls = s.calls;
    messages = s.messages;
    account = s.account;
    world = s.world;
  }

  -- After the loop.
  unfoldable pub resolve : Attempts → Final
  unfolding join str_append
  resolve s =
      if schema.error_strategy == "warn"
      then close (ok s.value) none s
      else if schema.error_strategy == "fallback"
      then close (ok schema.fallback) none (record s { text = schema.fallback_text })
      else close
          (err (str_append "response did not match response_schema: " (join "; " s.last_errors)))
          none s

  -- One more answer of the model, or how the loop ends without one.
  pub data Asked : Type 0 where
    again : Attempts → Asked
    done : Final → Asked

  -- The answer's text, where it has one. Over the budget, the model is not asked again.
  unfoldable pub take_text : Option String → Attempts → Asked
  unfolding resolve budget_breached
  take_text none s = done (resolve s)
  take_text (some t) s =
      let s' = record s { text = t } in
      if budget_breached env max_cost s.account
      then done (
          if ltb 0 s.convention_retries
          then close (ok s.last_valid) not_applicable s'
          else resolve s')
      else again s'

  unfoldable pub take_reply : Reply → Attempts → Asked
  unfolding take_text accumulate str_append
  take_reply (response r) s =
      take_text (non_empty r.final_text) (record s { account = accumulate r.usage s.account })
  take_reply (llm_error reason usage) s = done (
      close (err (str_append "structured-output retry failed: " reason)) none
        (record s { account = accumulate usage s.account }))

  unfoldable pub ask : String → Attempts → Asked
  unfolding take_reply
  ask corrective s =
      let messages =
        s.messages
        ++ record { role = assistant; content = plain s.text }
          ∷ record { role = user; content = plain corrective }
          ∷ [] in
      let (reply, world) = env.llm_step messages s.world in
      take_reply reply (record s { calls = suc s.calls; messages = messages; world = world })

  -- One round of the loop.
  unfoldable pub attempt : Verdict → Attempts → Asked
  unfolding ask resolve retry_limit
  attempt (valid v status) s = done (close (ok v) status s)
  attempt (bad_branch v e) s =
      if leb (retry_limit schema.conventions) s.convention_retries
      then done (close (ok v) not_applicable s)
      else ask (branch_prompt schema e) (record s {
        value = v;
        last_valid = v;
        last_errors = e ∷ [];
        convention_retries = suc s.convention_retries;
      })
  attempt (bad_schema v errors) s =
      if ltb 0 s.convention_retries
      then done (close (ok s.last_valid) not_applicable s)
      else if leb schema.response_retries s.schema_retries
      then done (resolve (record s { value = v; last_errors = errors }))
      else ask (schema_prompt schema errors)
          (record s { value = v; last_errors = errors; schema_retries = suc s.schema_retries })

  -- The rounds that are left.
  unfoldable pub run_attempts : ℕ → Attempts → Final
  unfolding attempt judge resolve
  run_attempts zero s = resolve s
  run_attempts (suc left) s = elim (attempt (judge schema s.text) s) [
    | again s' ↦ run_attempts left s'
    | done f ↦ f
  ]

  -- `_finalize_structured` with a schema.
  unfoldable pub finalize_structured : String → List Message → Account F → W → Final
  unfolding run_attempts retry_limit
  finalize_structured candidate messages account world =
      run_attempts (suc (schema.response_retries + retry_limit schema.conventions)) (record {
        text = candidate;
        value = null;
        last_valid = null;
        last_errors = [];
        schema_retries = 0;
        convention_retries = 0;
        calls = 0;
        messages = messages;
        account = account;
        world = world;
      })
