-- ===== src/Service/RunStore/Ended.antt =====
-- A run of src/fabri/service/run_store.py that has ended stays ended, with what it was submitted with.
use fabri.Prelude.{
  String, true, ◌==◌, Option, none, some, List, [], ◌∷◌, ◌++◌, ◌≡◌, ◌≢◌, refl, sym, ap, ◌∙◌, elem,
  is_some, arith, eq_iff, Bool-cases, inl, inr,
}
use fabri.Service.RunStore.Defs.{Reals, Row, Terminal, finished, success_outcomes, status, summary}
use fabri.Service.RunStore.History.{
  Call, submit, terminal, replay, find_row, run_step, run_history, replay-IsHistory,
}

-- The columns that `record_submit` writes.
pub record SameRun {F : Type 0} (r r' : Row F) : Type 0 where
  pub session_id : r'.session_id ≡ r.session_id
  pub agency : r'.agency ≡ r.agency
  pub task : r'.task ≡ r.task
  pub submitted_at : r'.submitted_at ≡ r.submitted_at
  pub thread_id : r'.thread_id ≡ r.thread_id
  pub fleet_id : r'.fleet_id ≡ r.fleet_id
  pub label : r'.label ≡ r.label
  pub user_id : r'.user_id ≡ r.user_id
  pub origin : r'.origin ≡ r.origin

status-ended : (event : String) (outcome : Option String) → status (some event) outcome ≢ "running"
unfolding status
status-ended event none = elim (Bool-cases (event == "cancel")) [
  | inl e ↦ rw e (λ h. ground (arith, eq_iff "cancelled" "running"))
  | inr e ↦ rw e (λ h. ground (arith, eq_iff "error" "running"))
]
status-ended event (some o) = elim (Bool-cases (event == "cancel")) [
  | inl e ↦ rw e (λ h. ground (arith, eq_iff "cancelled" "running"))
  | inr e ↦ rw e (elim (Bool-cases (elem o success_outcomes)) [
    | inl d ↦ rw d (λ h. ground (arith, eq_iff "done" "running"))
    | inr d ↦ rw d (λ h. ground (arith, eq_iff "error" "running"))
  ])
]

module _ {F J : Type 0} (reals : Reals F J) where
  -- A later row of the same run, which has not gone back to running.
  record Later (r : Row F) (found : Option (Row F)) : Type 0 where
    row : Row F
    is_found : found ≡ some row
    same : SameRun r row
    ended : is_some r.terminal_event ≡ true → is_some row.terminal_event ≡ true

  same_refl : (r : Row F) → SameRun r r
  same_refl r = record {
    session_id = refl;
    agency = refl;
    task = refl;
    submitted_at = refl;
    thread_id = refl;
    fleet_id = refl;
    label = refl;
    user_id = refl;
    origin = refl;
  }

  same_trans : {r r' r'' : Row F} → SameRun r r' → SameRun r' r'' → SameRun r r''
  same_trans a b = record {
    session_id = b.session_id ∙ a.session_id;
    agency = b.agency ∙ a.agency;
    task = b.task ∙ a.task;
    submitted_at = b.submitted_at ∙ a.submitted_at;
    thread_id = b.thread_id ∙ a.thread_id;
    fleet_id = b.fleet_id ∙ a.fleet_id;
    label = b.label ∙ a.label;
    user_id = b.user_id ∙ a.user_id;
    origin = b.origin ∙ a.origin;
  }

  finished-SameRun : (t : Terminal F J) (r : Row F) → SameRun r (finished reals t r)
  unfolding finished
  finished-SameRun t r = record {
    session_id = refl;
    agency = refl;
    task = refl;
    submitted_at = refl;
    thread_id = refl;
    fleet_id = refl;
    label = refl;
    user_id = refl;
    origin = refl;
  }

  step-Later : (id : String) (c : Call F J) (r : Row F) → Later r (run_step reals id c (some r))
  unfolding finished
  step-Later id (submit s) r = record {
    row = r;
    is_found = ground arith;
    same = same_refl r;
    ended = λ h. h;
  }
  step-Later id (terminal t) r = elim (Bool-cases (t.session_id == id)) [
    | inl e ↦ rw e (record {
      row = finished reals t r;
      is_found = refl;
      same = finished-SameRun t r;
      ended = λ h. refl;
    })
    | inr e ↦ rw e (record { row = r; is_found = refl; same = same_refl r; ended = λ h. h })
  ]

  history-Later :
      (id : String) (calls : List (Call F J)) (r : Row F)
      → Later r (run_history reals id calls (some r))
  history-Later id [] r = record { row = r; is_found = refl; same = same_refl r; ended = λ h. h }
  history-Later id (c ∷ calls) r =
      let a = step-Later id c r in
      let b = history-Later id calls a.row in
      record {
        row = b.row;
        is_found = ap (run_history reals id calls) a.is_found ∙ b.is_found;
        same = same_trans a.same b.same;
        ended = λ h. b.ended (a.ended h);
      }

  history-append :
      (id : String) (xs ys : List (Call F J)) (run : Option (Row F))
      → run_history reals id (xs ++ ys) run ≡ run_history reals id ys (run_history reals id xs run)
  history-append id [] ys run = refl
  history-append id (c ∷ xs) ys run = history-append id xs ys (run_step reals id c run)

  -- A run that has been submitted and for which a terminal event is recorded is found after any
  -- further calls, with all that it was submitted with, and is never listed as running again.
  pub replay-IsEnded :
      (before after : List (Call F J)) (t : Terminal F J) (r : Row F)
      → find_row reals t.session_id (replay reals before []) ≡ some r
      → (r' : Row F) × (find_row reals t.session_id (replay reals (before ++ terminal t ∷ after) [])
          ≡ some r')
        × SameRun r r'
        × ((summary reals r').status ≢ "running")
  unfolding summary finished
  replay-IsEnded before after t r h =
      let id = t.session_id in
      let known : run_history reals id before none ≡ some r =
        sym ((replay-IsHistory reals before).1 id) ∙ h in
      let last = history-Later id after (finished reals t r) in
      let reached : run_history reals id (terminal t ∷ after) (run_history reals id before none)
          ≡ some last.row =
        rw (known, (eq_iff id id).1 refl) last.is_found in
      (
        last.row,
        (replay-IsHistory reals (before ++ terminal t ∷ after)).1 id
            ∙ history-append id before (terminal t ∷ after) none
            ∙ reached,
        same_trans (finished-SameRun t r) last.same,
        ended last.row.terminal_event last.row.outcome (last.ended refl),
      )
    where
      ended :
          (event outcome : Option String) → is_some event ≡ true → status event outcome ≢ "running"
      ended none outcome h = absurd (cc)
      ended (some e) outcome h = status-ended e outcome
