-- ===== src/Service/RunStore/Totals.antt =====
-- src/fabri/service/run_store.py: the totals and the series of each agency.
use fabri.Prelude.{
  ℕ, String, Bool, true, false, not, ◌&&◌, ◌||◌, Option, none, some, List, [], ◌∷◌, map,
  if◌then◌else◌, length, filter, dedup, sorted, str_leb,
}
use fabri.Service.RunStore.Defs.{Reals, Row, matches}

pub record Point (F : Type 0) : Type 0 where
  pub session_id : String
  pub finished_at : Option F
  pub value : Option F

pub record Aggregate (F : Type 0) : Type 0 where
  pub agency : String
  pub run_count : ℕ
  pub cost_total : F
  pub cost_per_run_series : List (Point F)
  pub reuse_series : List (Point F)

module _ {F J : Type 0} (reals : Reals F J) where
  -- `SUM(cost_total)` with `COALESCE(…, 0)`: null costs are left out.
  unfoldable pub sum_costs : List (Row F) → F
  sum_costs [] = reals.zero_real
  sum_costs (r ∷ rows) = elim r.cost_total [
    | none ↦ sum_costs rows
    | some c ↦ reals.add c (sum_costs rows)
  ]

  -- A number in ascending order, and at equal numbers the rest of the key.
  abbrev later : F → F → Bool → Bool
  later a b rest = reals.less a b || not (reals.less b a) && rest

  abbrev by_submission : Row F → Row F → Bool
  by_submission r s = later r.submitted_at s.submitted_at (str_leb r.session_id s.session_id)

  -- `ORDER BY finished_at IS NULL, finished_at ASC, submitted_at ASC, session_id ASC`.
  abbrev ends_before : Option F → Option F → Bool → Bool
  ends_before none none rest = rest
  ends_before none (some b) rest = false
  ends_before (some a) none rest = true
  ends_before (some a) (some b) rest = later a b rest

  abbrev pub is_earlier : Row F → Row F → Bool
  is_earlier r s = ends_before r.finished_at s.finished_at (by_submission r s)

  unfoldable pub insert_ended : Row F → List (Row F) → List (Row F)
  insert_ended r [] = r ∷ []
  insert_ended r (s ∷ rows) = if is_earlier r s then r ∷ s ∷ rows else s ∷ insert_ended r rows

  unfoldable pub order_ended : List (Row F) → List (Row F)
  unfolding insert_ended
  order_ended [] = []
  order_ended (r ∷ rows) = insert_ended r (order_ended rows)

  abbrev cost_point : Row F → Point F
  cost_point r = record {
    session_id = r.session_id;
    finished_at = r.finished_at;
    value = r.cost_total;
  }

  abbrev reuse_point : Row F → Point F
  reuse_point r = record {
    session_id = r.session_id;
    finished_at = r.finished_at;
    value = r.reuse_rate;
  }

  -- One group of the query, and its series.
  unfoldable pub aggregate : Option String → List (Row F) → String → Aggregate F
  unfolding sum_costs order_ended
  aggregate user rows agency =
      let runs = filter (matches (some agency) user) rows in
      let series = order_ended runs in
      record {
        agency = agency;
        run_count = length runs;
        cost_total = sum_costs runs;
        cost_per_run_series = map cost_point series;
        reuse_series = map reuse_point series;
      }

  -- `agency_aggregates`: `GROUP BY agency ORDER BY agency` over the user's runs.
  unfoldable pub agency_aggregates : Option String → List (Row F) → List (Aggregate F)
  unfolding aggregate sorted
  agency_aggregates user rows =
      map (aggregate user rows)
        (sorted (dedup (map (λ r. r.agency) (filter (matches none user) rows))))
