-- ===== src/Service/RunStore/History.antt =====
-- The table of src/fabri/service/run_store.py after any calls: each run goes through its own states.
use fabri.Prelude.{
  String, Bool, true, false, ◌==◌, ◌||◌, Option, none, some, List, [], ◌∷◌, ◌++◌, map, ◌≡◌, refl,
  ap, ◌∙◌, if◌then◌else◌, any, elem, is_nodup, is_some, arith, eq_iff, Bool-cases, inl, inr,
}
use fabri.Service.RunStore.Defs.{
  Reals, Row, Submission, Terminal, submitted, record_submit, finished, record_terminal,
}

-- A call that writes.
pub data Call (F J : Type 0) : Type 0 where
  submit : Submission F → Call F J
  terminal : Terminal F J → Call F J

module _ {F J : Type 0} (reals : Reals F J) where
  unfoldable pub apply_call : Call F J → List (Row F) → List (Row F)
  unfolding record_submit record_terminal
  apply_call (submit s) rows = record_submit s rows
  apply_call (terminal t) rows = record_terminal reals t rows

  -- The calls in their order, on a table.
  unfoldable pub replay : List (Call F J) → List (Row F) → List (Row F)
  unfolding apply_call
  replay [] rows = rows
  replay (c ∷ calls) rows = replay calls (apply_call c rows)

  -- `SELECT * FROM runs WHERE session_id = ?`.
  abbrev pub find_row : String → List (Row F) → Option (Row F)
  find_row id [] = none
  find_row id (r ∷ rows) = if r.session_id == id then some r else find_row id rows

  -- What a call does to the run with an id: the first submission makes it, a terminal event sets its
  -- result, and calls for other runs do nothing.
  abbrev pub run_step : String → Call F J → Option (Row F) → Option (Row F)
  run_step id (submit s) run =
      if s.session_id == id then elim run [ none ↦ some (submitted s) | some r ↦ some r ] else run
  run_step id (terminal t) run =
      if t.session_id == id
      then elim run [ none ↦ none | some r ↦ some (finished reals t r) ]
      else run

  abbrev pub run_history : String → List (Call F J) → Option (Row F) → Option (Row F)
  run_history id [] run = run
  run_history id (c ∷ calls) run = run_history id calls (run_step id c run)

  has_id : String → List (Row F) → Bool
  has_id id rows = any (λ r. r.session_id == id) rows

  find_row-has_id :
      (id : String) (rows : List (Row F)) → is_some (find_row id rows) ≡ has_id id rows
  unfolding has_id
  find_row-has_id id [] = refl
  find_row-has_id id (r ∷ rows) = ground (arith, find_row-has_id id rows)

  find_row-snoc :
      (id : String) (r : Row F) (rows : List (Row F))
      → find_row id (rows ++ r ∷ []) ≡ elim (find_row id rows) [
        | none ↦ if r.session_id == id then some r else none
        | some found ↦ some found
      ]
  find_row-snoc id r [] = refl
  find_row-snoc id r (s ∷ rows) = ground (arith, find_row-snoc id r rows)

  find_row-submit :
      (id : String) (s : Submission F) (rows : List (Row F))
      → find_row id (record_submit s rows) ≡ run_step id (submit s) (find_row id rows)
  unfolding record_submit submitted has_id
  find_row-submit id s rows = ground (
    arith,
    find_row-snoc id (submitted s) rows,
    find_row-has_id s.session_id rows,
    find_row-has_id id rows,
    eq_iff s.session_id id,
  )

  find_row-terminal :
      (id : String) (t : Terminal F J) (rows : List (Row F))
      → find_row id (record_terminal reals t rows) ≡ run_step id (terminal t) (find_row id rows)
  unfolding record_terminal finished
  find_row-terminal id t [] = ground arith
  find_row-terminal id t (r ∷ rows) = ground (
    arith,
    find_row-terminal id t rows,
    eq_iff r.session_id id,
    eq_iff r.session_id t.session_id,
    eq_iff t.session_id id,
  )

  find_row-replay :
      (id : String) (calls : List (Call F J)) (rows : List (Row F))
      → find_row id (replay calls rows) ≡ run_history id calls (find_row id rows)
  unfolding replay apply_call
  find_row-replay id [] rows = refl
  find_row-replay id (submit s ∷ calls) rows =
      find_row-replay id calls (record_submit s rows)
      ∙ ap (run_history id calls) (find_row-submit id s rows)
  find_row-replay id (terminal t ∷ calls) rows =
      find_row-replay id calls (record_terminal reals t rows)
      ∙ ap (run_history id calls) (find_row-terminal id t rows)

  abbrev pub session_ids : List (Row F) → List String
  session_ids rows = map (λ r. r.session_id) rows

  elem-session_ids :
      (id : String) (rows : List (Row F)) → elem id (session_ids rows) ≡ has_id id rows
  unfolding has_id
  elem-session_ids id [] = refl
  elem-session_ids id (r ∷ rows) = ground (arith, elem-session_ids id rows)

  session_ids-terminal :
      (t : Terminal F J) (rows : List (Row F))
      → session_ids (record_terminal reals t rows) ≡ session_ids rows
  unfolding record_terminal finished
  session_ids-terminal t [] = refl
  session_ids-terminal t (r ∷ rows) = ground (arith, session_ids-terminal t rows)

  nodup-snoc :
      (r : Row F) (rows : List (Row F))
      → is_nodup (session_ids rows) ≡ true
      → elem r.session_id (session_ids rows) ≡ false
      → is_nodup (session_ids (rows ++ r ∷ [])) ≡ true
  nodup-snoc r [] h new = refl
  nodup-snoc r (s ∷ rows) h new = ground (
    arith,
    nodup-snoc r rows,
    elem-snoc s.session_id rows,
    eq_iff r.session_id s.session_id,
    eq_iff s.session_id r.session_id,
  )
    where
      elem-snoc :
          (id : String) (rows : List (Row F))
          → elem id (session_ids (rows ++ r ∷ []))
            ≡ (elem id (session_ids rows) || (r.session_id == id))
      elem-snoc id [] = ground arith
      elem-snoc id (s ∷ rows) = ground (arith, elem-snoc id rows)

  nodup-apply_call :
      (c : Call F J) (rows : List (Row F))
      → is_nodup (session_ids rows) ≡ true
      → is_nodup (session_ids (apply_call c rows)) ≡ true
  unfolding apply_call record_submit has_id
  nodup-apply_call (submit s) rows h = elim (Bool-cases (has_id s.session_id rows)) [
    | inl old ↦ rw old h
    | inr new ↦ rw new (
        nodup-snoc (submitted s) rows h
          (unfold submitted in ground (arith, elem-session_ids s.session_id rows)))
  ]
  nodup-apply_call (terminal t) rows h = ap is_nodup (session_ids-terminal t rows) ∙ h

  nodup-replay :
      (calls : List (Call F J)) (rows : List (Row F))
      → is_nodup (session_ids rows) ≡ true
      → is_nodup (session_ids (replay calls rows)) ≡ true
  unfolding replay
  nodup-replay [] rows h = h
  nodup-replay (c ∷ calls) rows h =
      nodup-replay calls (apply_call c rows) (nodup-apply_call c rows h)

  -- A table that starts empty.
  pub replay-IsHistory :
      (calls : List (Call F J))
      → (is_nodup (session_ids (replay calls [])) ≡ true)
        × ((id : String) → find_row id (replay calls []) ≡ run_history id calls none)
  replay-IsHistory calls = (nodup-replay calls [] refl, λ id. find_row-replay id calls [])
