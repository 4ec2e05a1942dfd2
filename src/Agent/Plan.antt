-- ===== src/Agent/Plan.antt =====
-- src/fabri/core/agent.py: the items of a plan in `_run_single_attempt`, one after the other.
use fabri.Prelude.{
  ℕ, ◌+◌, ◌-◌, ◌/◌, max, String, Bool, true, false, ◌==◌, ◌&&◌, ◌||◌, Option, none, some, List, [],
  ◌∷◌, ◌++◌, if◌then◌else◌, leb, eqb, length, is_empty, join, str_append, str_length, decimal,
}
use fabri.Indices.{get_or}
use fabri.Planner.Defs.{PlanItem, Json}
use fabri.Agent.Defs.{user, plain, Message, Env, Account}
use fabri.Agent.Structured.{Schema}
use fabri.Agent.Steps.{Item, non_empty, Loop, returned, raised_protocol, raised_key, run_step_loop}

-- The arguments of a run that choose its path. `visible` is `split_agent_output` of memory/output.py.
pub record Config : Type 0 where
  pub max_steps : ℕ
  pub planner_mode : String
  pub planner_max_items : ℕ
  pub planner_auto_token_threshold : ℕ
  pub json : Json
  pub schema : Option Schema
  pub visible : String → String

-- `plan_engaged`.
unfoldable pub plan_engaged : Config → String → Bool
unfolding str_length
plan_engaged config task =
    (config.planner_mode == "force")
    || (config.planner_mode == "auto") && leb config.planner_auto_token_threshold (str_length task)

abbrev or_none : String → String
unfolding is_empty
or_none t = if is_empty t then "(none)" else t

-- The message of one item.
unfoldable pub item_message : PlanItem → List String → String
unfolding join str_append or_none
item_message item completed = join "\n" (
    str_append "Current goal: " item.goal
    ∷ str_append "Target artefacts: " (or_none (join ", " item.artifacts))
    ∷ str_append "Previously completed in this plan: "
        (elim completed [ [] ↦ "(none yet)" | c ∷ cs ↦ join "; " (c ∷ cs) ])
    ∷ "Do this single goal, then reply with a brief confirmation."
    ∷ [])

-- `max(1, steps_remaining // max(1, len(order) - processed_count))`.
unfoldable pub item_budget : ℕ → ℕ → ℕ
item_budget steps_remaining items_left = max 1 (steps_remaining / max 1 items_left)

-- `plan_items[plan_idx]`, which is read in range.
abbrev pub item_at : List PlanItem → ℕ → PlanItem
item_at items i =
    get_or items i (record { goal = ""; artifacts = []; depends_on = []; tool_hints = [] })

abbrev pub user_text : String → List Message
user_text t = record { role = user; content = plain t } ∷ []

module _ {W F : Type 0} (env : Env W F) (max_cost : Option F) where
  -- The variables of the attempt.
  pub record Run : Type 0 where
    pub is_failed : Bool
    pub error_reason : Option String
    pub had_tool_failure : Bool
    pub total_tool_calls : ℕ
    pub failed_tool_calls : ℕ
    pub step_count : ℕ
    pub steps_remaining : ℕ
    pub outputs : List String
    pub completed : List String
    pub account : Account F
    pub world : W

  abbrev pub new_run : ℕ → Account F → W → Run
  new_run max_steps account world = record {
    is_failed = false;
    error_reason = none;
    had_tool_failure = false;
    total_tool_calls = 0;
    failed_tool_calls = 0;
    step_count = 0;
    steps_remaining = max_steps;
    outputs = [];
    completed = [];
    account = account;
    world = world;
  }

  -- An exception that leaves the attempt.
  pub data Attempted (A : Type 0) : Type 0 where
    finished : A → Attempted A
    protocol_raised key_raised : Attempted A

  -- What an item or the whole run adds to the counts.
  unfoldable pub add_item : Loop env max_cost → Run → Run
  add_item l r = record r {
    had_tool_failure = r.had_tool_failure || l.item.had_failure;
    total_tool_calls = r.total_tool_calls + l.item.total_tool_calls;
    failed_tool_calls = r.failed_tool_calls + l.item.failed_tool_calls;
    step_count = r.step_count + l.item.steps_used;
    steps_remaining = r.steps_remaining - l.item.steps_used;
    account = l.account;
    world = l.world;
  }

  -- A finished item's text, where it has one.
  abbrev pub item_text : Item → Option String
  item_text item = if item.is_success then non_empty item.final_text else none

  -- A text is kept, and the item is noted as completed.
  unfoldable pub add_text : PlanItem → ℕ → Option String → Run → Run
  unfolding str_append decimal
  add_text item index none r = r
  add_text item index (some t) r = record r {
    outputs = r.outputs ++ t ∷ [];
    completed =
        r.completed ++ str_append "#" (str_append (decimal index) (str_append " " item.goal)) ∷ [];
  }

  unfoldable pub conclude_item : PlanItem → ℕ → Loop env max_cost → Run → Run
  unfolding add_item add_text
  conclude_item item index l r =
      if l.item.is_failed
      then record (add_item l r) { is_failed = true; error_reason = l.item.error_reason }
      else add_text item index (item_text l.item) (add_item l r)

  -- The loop over the order of the plan.
  unfoldable pub run_items : List PlanItem → List ℕ → Run → Attempted Run
  unfolding conclude_item item_budget item_message
  run_items items [] r = finished r
  run_items items (i ∷ order) r =
      if eqb r.steps_remaining 0 || r.is_failed
      then finished r
      else (let budget = item_budget r.steps_remaining (length (i ∷ order)) in
          let item = item_at items i in
          elim (run_step_loop env max_cost (user_text (item_message item r.completed)) budget
            r.account r.world) [
              | returned l ↦ run_items items order (conclude_item item i l r)
              | raised_protocol l ↦ protocol_raised
              | raised_key ↦ key_raised
            ])
