-- ===== src/Service/RunStore/Tests.antt =====
-- Tests of src/fabri/service/run_store.py, with numbers for the times and the costs, and the theorems
-- on concrete calls.
use fabri.Prelude.{
  ℕ, ◌+◌, String, true, Option, none, some, List, [], ◌∷◌, ◌++◌, map, ◌≡◌, ◌≢◌, refl, eqb, ltb,
  length, is_nodup, str_leb, arith,
}
use fabri.Service.RunStore.Defs.{
  Reals, Row, Submission, Terminal, submitted, summary, list_runs, run_owner,
}
use fabri.Service.RunStore.History.{
  Call, submit, terminal, replay, find_row, run_history, session_ids,
}
use fabri.Service.RunStore.Ended.{SameRun, replay-IsEnded}
use fabri.Service.RunStore.Order.{IsOrder}
use fabri.Service.RunStore.Listing.{pages, IsListing, pages-IsListing}
use fabri.Service.RunStore.Index.{
  IndexRecord, Line, malformed, object, open_store, opening_calls, open_store-IsHistory,
}
use fabri.Service.RunStore.Totals.{agency_aggregates}

abbrev reals : Reals ℕ String
reals = record {
  zero_real = 0;
  is_zero = λ n. eqb n 0;
  add = λ a b. a + b;
  less = ltb;
  no_models = "{}";
  dumps = λ t. t;
  loads = λ t. t;
}

abbrev submission : String → ℕ → Submission ℕ
submission id at = record {
  session_id = id;
  agency = "shop";
  task = "sell";
  submitted_at = at;
  thread_id = none;
  fleet_id = none;
  label = none;
  user_id = some "ann";
  origin = none;
}

abbrev ending : String → String → Option String → ℕ → Terminal ℕ String
ending id event outcome cost = record {
  session_id = id;
  finished_at = 9;
  event = event;
  outcome = outcome;
  cost = some (record { total_cost_usd = some cost; cost_by_model = none; metrics = none });
}

abbrev calls : List (Call ℕ String)
calls =
    submit (submission "a" 3)
    ∷ terminal (ending "z" "result" none 1)
    ∷ submit (submission "b" 3)
    ∷ submit (submission "a" 7)
    ∷ terminal (ending "a" "result" (some "success") 5)
    ∷ submit (submission "c" 4)
    ∷ terminal (ending "c" "cancel" none 2)
    ∷ []

abbrev table : List (Row ℕ)
table = replay reals calls []

listed-table :
    map {B = String × String}
      (λ s. (s.session_id, s.status))
      (list_runs reals (some "shop") (some "ann") (some 2) 1 table)
    ≡ ("b", "running") ∷ ("a", "done") ∷ []
unfolding replay list_runs str_leb
listed-table = refl

owner-table : run_owner "c" table ≡ some "ann"
unfolding replay run_owner
owner-table = refl

totals-table :
    map {B = String × ℕ × ℕ × ℕ}
      (λ a. (a.agency, a.run_count, a.cost_total, length a.reuse_series))
      (agency_aggregates reals none table)
    ≡ ("shop", 3, 7, 3) ∷ []
unfolding replay agency_aggregates
totals-table = refl

abbrev old_record : IndexRecord ℕ String
old_record = record {
  session_id = some "old";
  event = some "submit";
  agency = some "";
  task = none;
  started_ts = some 0;
  ts = some 2;
  thread_id = none;
  fleet_id = none;
  label = none;
  user_id = none;
  outcome = none;
  cost = none;
}

abbrev old_lines : List (Line ℕ String)
old_lines = malformed ∷ object old_record ∷ []

opened-table :
    map {B = String × String × ℕ}
      (λ r. (r.session_id, r.agency, r.submitted_at))
      (open_store reals "default" (some old_lines) [])
    ≡ ("old", "default", 2) ∷ []
unfolding open_store
opened-table = refl

open_store-IsHistory_example :
    (is_nodup
        (session_ids reals (replay reals calls (open_store reals "default" (some old_lines) [])))
      ≡ true)
    × ((id : String)
        → find_row reals id (replay reals calls (open_store reals "default" (some old_lines) []))
          ≡ run_history reals id (opening_calls reals "default" old_lines ++ calls) none)
open_store-IsHistory_example = open_store-IsHistory reals "default" old_lines calls

abbrev first_calls : List (Call ℕ String)
first_calls = submit (submission "a" 3) ∷ []

abbrev more_calls : List (Call ℕ String)
more_calls = submit (submission "a" 8) ∷ []

abbrev result : Terminal ℕ String
result = ending "a" "result" (some "success") 5

found-first : find_row reals "a" (replay reals first_calls []) ≡ some (submitted (submission "a" 3))
unfolding replay
found-first = refl

replay-IsEnded_example :
    (r : Row ℕ) × (find_row reals "a"
        (replay reals (first_calls ++ terminal result ∷ more_calls) [])
      ≡ some r)
    × SameRun (submitted (submission "a" 3)) r
    × ((summary reals r).status ≢ "running")
replay-IsEnded_example =
    replay-IsEnded reals first_calls more_calls result (submitted (submission "a" 3)) found-first

order : IsOrder reals
order = record { asymmetric = λ a b h. ground arith; transitive = λ a b c h k. ground arith }

table-nodup : is_nodup (session_ids reals table) ≡ true
unfolding replay
table-nodup = refl

table-length : length table ≡ 3
unfolding replay
table-length = refl

pages-IsListing_example :
    (pages reals none (some "ann") 2 2 0 table ≡ list_runs reals none (some "ann") none 0 table)
    × ((found : List (Row ℕ)) × (pages reals none (some "ann") 2 2 0 table
          ≡ map (summary reals) found)
        × IsListing reals none (some "ann") table found)
pages-IsListing_example =
    pages-IsListing reals none (some "ann") order 2 2 table table-nodup
      (omega (arith, table-length))
