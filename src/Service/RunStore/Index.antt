-- ===== src/Service/RunStore/Index.antt =====
-- src/fabri/service/run_store.py: the import of an older index of JSON lines into an empty table.
use fabri.Prelude.{
  String, true, ◌==◌, ◌||◌, Option, none, some, List, [], ◌∷◌, ◌++◌, sym, ◌≡◌, refl, ap, ◌∙◌,
  if◌then◌else◌, is_empty, is_nodup, Bool-cases, inl, inr,
}
use fabri.Service.RunStore.Defs.{
  Reals, Row, Cost, Submission, Terminal, record_submit, record_terminal,
}
use fabri.Service.RunStore.History.{
  Call, submit, terminal, apply_call, replay, find_row, run_history, session_ids, replay-IsHistory,
}

-- A JSON object of the index; a key that is missing or null is `none`.
pub record IndexRecord (F J : Type 0) : Type 0 where
  pub session_id : Option String
  pub event : Option String
  pub agency : Option String
  pub task : Option String
  pub started_ts : Option F
  pub ts : Option F
  pub thread_id : Option String
  pub fleet_id : Option String
  pub label : Option String
  pub user_id : Option String
  pub outcome : Option String
  pub cost : Option (Cost F J)

-- A line that is no JSON is skipped.
pub data Line (F J : Type 0) : Type 0 where
  malformed : Line F J
  object : IndexRecord F J → Line F J

-- `value or default` for texts.
abbrev pub text_or : Option String → String → String
text_or none d = d
text_or (some s) d = if is_empty s then d else s

module _ {F J : Type 0} (reals : Reals F J) (default_agency : String) where
  -- `value or rest` for numbers.
  abbrev pub real_or : Option F → F → F
  real_or none rest = rest
  real_or (some x) rest = if reals.is_zero x then rest else x

  abbrev submission : String → IndexRecord F J → Submission F
  submission id r = record {
    session_id = id;
    agency = text_or r.agency default_agency;
    task = text_or r.task "";
    submitted_at = real_or r.started_ts (real_or r.ts reals.zero_real);
    thread_id = r.thread_id;
    fleet_id = r.fleet_id;
    label = r.label;
    user_id = r.user_id;
    origin = none;
  }

  abbrev ending : String → String → IndexRecord F J → Terminal F J
  ending id event r = record {
    session_id = id;
    finished_at = real_or r.ts reals.zero_real;
    event = event;
    outcome = r.outcome;
    cost = r.cost;
  }

  -- The two branches on `record.get("event")`.
  abbrev import_event : String → Option String → IndexRecord F J → List (Row F) → List (Row F)
  import_event id none r rows = rows
  import_event id (some event) r rows =
      if event == "submit"
      then record_submit (submission id r) rows
      else if (event == "result") || (event == "cancel")
      then record_terminal reals (ending id event r) rows
      else rows

  unfoldable pub import_line : Line F J → List (Row F) → List (Row F)
  unfolding is_empty record_submit record_terminal
  import_line malformed rows = rows
  import_line (object r) rows = elim r.session_id [
    | none ↦ rows
    | some id ↦ if is_empty id then rows else import_event id r.event r rows
  ]

  -- `_migrate_index`.
  unfoldable pub migrate_index : List (Line F J) → List (Row F) → List (Row F)
  unfolding import_line
  migrate_index [] rows = rows
  migrate_index (l ∷ lines) rows = migrate_index lines (import_line l rows)

  -- `__init__` on a file with these rows: the index is read only into an empty table.
  unfoldable pub open_store : Option (List (Line F J)) → List (Row F) → List (Row F)
  unfolding migrate_index
  open_store none rows = rows
  open_store (some lines) [] = migrate_index lines []
  open_store (some lines) (r ∷ rows) = r ∷ rows

  -- The call that a line stands for.
  abbrev event_calls : String → Option String → IndexRecord F J → List (Call F J)
  event_calls id none r = []
  event_calls id (some event) r =
      if event == "submit"
      then submit (submission id r) ∷ []
      else if (event == "result") || (event == "cancel")
      then terminal (ending id event r) ∷ []
      else []

  abbrev pub line_calls : Line F J → List (Call F J)
  line_calls malformed = []
  line_calls (object r) = elim r.session_id [
    | none ↦ []
    | some id ↦ if is_empty id then [] else event_calls id r.event r
  ]

  abbrev pub opening_calls : List (Line F J) → List (Call F J)
  opening_calls [] = []
  opening_calls (l ∷ lines) = line_calls l ++ opening_calls lines

  replay-append :
      (xs ys : List (Call F J)) (rows : List (Row F))
      → replay reals (xs ++ ys) rows ≡ replay reals ys (replay reals xs rows)
  unfolding replay
  replay-append [] ys rows = refl
  replay-append (c ∷ xs) ys rows = replay-append xs ys (apply_call reals c rows)

  import_event-replay :
      (id : String) (event : Option String) (r : IndexRecord F J) (rows : List (Row F))
      → import_event id event r rows ≡ replay reals (event_calls id event r) rows
  unfolding replay apply_call
  import_event-replay id none r rows = refl
  import_event-replay id (some event) r rows = elim (Bool-cases (event == "submit")) [
    | inl e ↦ rw e refl
    | inr e ↦ rw e (elim (Bool-cases ((event == "result") || (event == "cancel"))) [
      | inl f ↦ rw f refl
      | inr f ↦ rw f refl
    ])
  ]

  import_line-replay :
      (l : Line F J) (rows : List (Row F)) → import_line l rows ≡ replay reals (line_calls l) rows
  unfolding import_line
  import_line-replay malformed rows = unfold replay in refl
  import_line-replay (object r) rows = by_id r.session_id
    where
      by_id :
          (id : Option String)
          → elim id [
            | none ↦ rows
            | some i ↦ if is_empty i then rows else import_event i r.event r rows
          ]
            ≡ replay reals
                (elim id [
                  | none ↦ []
                  | some i ↦ if is_empty i then [] else event_calls i r.event r
                ])
                rows
      by_id none = unfold replay in refl
      by_id (some i) = elim (Bool-cases (is_empty i)) [
        | inl e ↦ rw e (unfold replay in refl)
        | inr e ↦ rw e (import_event-replay i r.event r rows)
      ]

  migrate_index-replay :
      (lines : List (Line F J)) (rows : List (Row F))
      → migrate_index lines rows ≡ replay reals (opening_calls lines) rows
  unfolding migrate_index
  migrate_index-replay [] rows = unfold replay in refl
  migrate_index-replay (l ∷ lines) rows =
      migrate_index-replay lines (import_line l rows)
      ∙ ap (replay reals (opening_calls lines)) (import_line-replay l rows)
      ∙ sym (replay-append (line_calls l) (opening_calls lines) rows)

  -- After an old index has been imported into an empty table, and any calls, no id stands twice, and
  -- the row of each run is what the lines and the calls for this run alone make of it, in their order:
  -- the first submission makes it, each later terminal event sets its result, and nothing else
  -- changes it.
  pub open_store-IsHistory :
      (lines : List (Line F J)) (calls : List (Call F J))
      → (is_nodup (session_ids reals (replay reals calls (open_store (some lines) []))) ≡ true)
        × ((id : String)
            → find_row reals id (replay reals calls (open_store (some lines) []))
              ≡ run_history reals id (opening_calls lines ++ calls) none)
  unfolding open_store
  open_store-IsHistory lines calls =
      let h = replay-IsHistory reals (opening_calls lines ++ calls) in
      let e : replay reals calls (migrate_index lines [])
          ≡ replay reals (opening_calls lines ++ calls) [] =
        ap (replay reals calls) (migrate_index-replay lines [])
        ∙ sym (replay-append (opening_calls lines) calls []) in
      (
        ap (λ rows. is_nodup (session_ids reals rows)) e ∙ h.0,
        λ id. ap (find_row reals id) e ∙ h.1 id,
      )
