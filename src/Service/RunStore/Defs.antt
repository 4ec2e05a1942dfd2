-- ===== src/Service/RunStore/Defs.antt =====
-- src/fabri/service/run_store.py: the rows, the two writes, the listing, the owner, the totals and
-- the import of an older index. Times, costs and rates are the numbers of a parameter.
use fabri.Prelude.{
  ℕ, String, Bool, true, false, not, ◌==◌, ◌&&◌, ◌||◌, Option, none, some, List, [], ◌∷◌, ◌++◌, map,
  if◌then◌else◌, take, drop, filter, any, elem, str_leb, is_empty, or_else,
}

-- The numbers of SQLite's `REAL` and what the code and its queries use of them, and the JSON
-- mapping of costs by model with `json.dumps` and `json.loads`.
pub record Reals (F J : Type 0) : Type 0 where
  pub zero_real : F
  pub is_zero : F → Bool
  pub add : F → F → F
  pub less : F → F → Bool
  pub no_models : J
  pub dumps : J → String
  pub loads : String → J

pub record Row (F : Type 0) : Type 0 where
  pub session_id : String
  pub agency : String
  pub task : String
  pub submitted_at : F
  pub finished_at : Option F
  pub outcome : Option String
  pub cost_total : Option F
  pub cost_by_model : Option String
  pub step_count : Option ℕ
  pub reuse_rate : Option F
  pub guidelines_from_prior : Option ℕ
  pub thread_id : Option String
  pub fleet_id : Option String
  pub label : Option String
  pub user_id : Option String
  pub terminal_event : Option String
  pub origin : Option String

-- The arguments of `record_submit`.
pub record Submission (F : Type 0) : Type 0 where
  pub session_id : String
  pub agency : String
  pub task : String
  pub submitted_at : F
  pub thread_id : Option String
  pub fleet_id : Option String
  pub label : Option String
  pub user_id : Option String
  pub origin : Option String

-- `cost["metrics"]` and `cost`, where a missing key is `none`.
pub record Metrics (F : Type 0) : Type 0 where
  pub step_count : Option ℕ
  pub guideline_reuse_rate : Option F
  pub guidelines_from_prior_sessions : Option ℕ

pub record Cost (F J : Type 0) : Type 0 where
  pub total_cost_usd : Option F
  pub cost_by_model : Option J
  pub metrics : Option (Metrics F)

-- The arguments of `record_terminal`.
pub record Terminal (F J : Type 0) : Type 0 where
  pub session_id : String
  pub finished_at : F
  pub event : String
  pub outcome : Option String
  pub cost : Option (Cost F J)

pub record CostSummary (F J : Type 0) : Type 0 where
  pub total_cost_usd : F
  pub cost_by_model : J
  pub metrics : Metrics F

pub record Summary (F J : Type 0) : Type 0 where
  pub session_id : String
  pub agency : String
  pub task : String
  pub status : String
  pub outcome : Option String
  pub thread_id : Option String
  pub fleet_id : Option String
  pub label : Option String
  pub started_ts : F
  pub ended_ts : Option F
  pub cost : Option (CostSummary F J)

-- `_SUCCESS_OUTCOMES`.
abbrev pub success_outcomes : List String
success_outcomes = "success" ∷ "success_with_recovery" ∷ []

-- The status of `_summary`.
unfoldable pub status : Option String → Option String → String
status none outcome = "running"
status (some event) outcome = if event == "cancel" then "cancelled" else elim outcome [
  | none ↦ "error"
  | some o ↦ if elem o success_outcomes then "done" else "error"
]

module _ {F : Type 0} where
  abbrev pub no_metrics : Metrics F
  no_metrics = record {
    step_count = none;
    guideline_reuse_rate = none;
    guidelines_from_prior_sessions = none;
  }

  -- The row of a run that is submitted.
  unfoldable pub submitted : Submission F → Row F
  submitted s = record {
    session_id = s.session_id;
    agency = s.agency;
    task = s.task;
    submitted_at = s.submitted_at;
    finished_at = none;
    outcome = none;
    cost_total = none;
    cost_by_model = none;
    step_count = none;
    reuse_rate = none;
    guidelines_from_prior = none;
    thread_id = s.thread_id;
    fleet_id = s.fleet_id;
    label = s.label;
    user_id = s.user_id;
    terminal_event = none;
    origin = s.origin;
  }

  -- `record_submit`: `INSERT OR IGNORE`.
  unfoldable pub record_submit : Submission F → List (Row F) → List (Row F)
  unfolding submitted
  record_submit s rows =
      if any (λ r. r.session_id == s.session_id) rows then rows else rows ++ submitted s ∷ []

  -- `WHERE agency = ? AND user_id = ?`, each clause only where it is asked for.
  abbrev pub matches : Option String → Option String → Row F → Bool
  matches agency user r = elim agency [ none ↦ true | some a ↦ r.agency == a ] && elim user [
    | none ↦ true
    | some u ↦ elim r.user_id [ none ↦ false | some owner ↦ owner == u ]
  ]

  -- `LIMIT ? OFFSET ?`, where `none` is no limit.
  abbrev pub page : Option ℕ → ℕ → List (Row F) → List (Row F)
  page none offset rows = drop offset rows
  page (some limit) offset rows = take limit (drop offset rows)

  -- `run_owner`.
  unfoldable pub run_owner : String → List (Row F) → Option String
  run_owner id [] = none
  run_owner id (r ∷ rows) = if r.session_id == id then r.user_id else run_owner id rows

module _ {F J : Type 0} where
  abbrev pub no_cost : Cost F J
  no_cost = record { total_cost_usd = none; cost_by_model = none; metrics = none }

  module _ (reals : Reals F J) where
    -- The columns that `record_terminal` sets.
    unfoldable pub finished : Terminal F J → Row F → Row F
    finished t r =
        let cost = or_else t.cost no_cost in
        let metrics = or_else cost.metrics no_metrics in
        record r {
          finished_at = some t.finished_at;
          outcome = t.outcome;
          cost_total = cost.total_cost_usd;
          cost_by_model = some (reals.dumps (or_else cost.cost_by_model reals.no_models));
          step_count = metrics.step_count;
          reuse_rate = metrics.guideline_reuse_rate;
          guidelines_from_prior = metrics.guidelines_from_prior_sessions;
          terminal_event = some t.event;
        }

    -- `record_terminal`: `UPDATE … WHERE session_id = ?`.
    unfoldable pub record_terminal : Terminal F J → List (Row F) → List (Row F)
    unfolding finished
    record_terminal t rows =
        map (λ r. if r.session_id == t.session_id then finished t r else r) rows

    -- `ORDER BY submitted_at DESC, session_id DESC`: whether a row may stand before another.
    abbrev pub is_before : Row F → Row F → Bool
    is_before r s =
        reals.less s.submitted_at r.submitted_at
        || not (reals.less r.submitted_at s.submitted_at) && str_leb s.session_id r.session_id

    unfoldable pub insert_row : Row F → List (Row F) → List (Row F)
    insert_row r [] = r ∷ []
    insert_row r (s ∷ rows) = if is_before r s then r ∷ s ∷ rows else s ∷ insert_row r rows

    unfoldable pub order_rows : List (Row F) → List (Row F)
    unfolding insert_row
    order_rows [] = []
    order_rows (r ∷ rows) = insert_row r (order_rows rows)

    -- `_summary`.
    abbrev cost_of : Row F → CostSummary F J
    cost_of r = record {
      total_cost_usd = or_else r.cost_total reals.zero_real;
      cost_by_model =
          reals.loads
            (elim r.cost_by_model [ none ↦ "{}" | some t ↦ if is_empty t then "{}" else t ]);
      metrics = record {
        step_count = r.step_count;
        guideline_reuse_rate = r.reuse_rate;
        guidelines_from_prior_sessions = r.guidelines_from_prior;
      };
    }

    unfoldable pub summary : Row F → Summary F J
    unfolding status
    summary r = record {
      session_id = r.session_id;
      agency = r.agency;
      task = r.task;
      status = status r.terminal_event r.outcome;
      outcome = r.outcome;
      thread_id = r.thread_id;
      fleet_id = r.fleet_id;
      label = r.label;
      started_ts = r.submitted_at;
      ended_ts = r.finished_at;
      cost = elim r.terminal_event [
        | none ↦ none
        | some event ↦ if event == "cancel" then none else some (cost_of r)
      ];
    }

    -- `list_runs`.
    unfoldable pub list_runs :
        Option String → Option String → Option ℕ → ℕ → List (Row F) → List (Summary F J)
    unfolding order_rows summary
    list_runs agency user limit offset rows =
        map summary (page limit offset (order_rows (filter (matches agency user) rows)))
