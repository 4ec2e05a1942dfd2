-- ===== src/Service/RunStore/Listing.antt =====
-- What `list_runs` of src/fabri/service/run_store.py lists, and how its pages fit together.
use fabri.Prelude.{
  ℕ, zero, suc, ◌+◌, ◌*◌, ◌≤◌, String, true, false, ◌==◌, ◌&&◌, Option, none, some, List, [], ◌∷◌,
  ◌++◌, map, map-append, ◌≡◌, refl, sym, ap, ◌∙◌, length, take, drop, filter, any, elem, is_nodup,
  All, All-filter, length-filter, arith, Bool-cases, inl, inr,
}
use fabri.Service.RunStore.Defs.{
  Reals, Row, Summary, matches, order_rows, summary, list_runs, insert_row,
}
use fabri.Service.RunStore.History.{session_ids}
use fabri.Service.RunStore.Order.{
  IsOrder, IsSorted, All-order_rows, elem-order_rows, nodup-order_rows, order_rows-IsSorted,
}

module _ {ℓ} {A : Type ℓ} where
  drop_nil : (n : ℕ) → ◌≡◌ {A = List A} (drop n []) []
  drop_nil zero = refl
  drop_nil (suc n) = refl

  drop-drop : (a b : ℕ) (xs : List A) → drop a (drop b xs) ≡ drop (b + a) xs
  drop-drop a zero xs = let e : a ≡ 0 + a = omega arith in ap (λ (n : ℕ). drop n xs) e
  drop-drop a (suc b) [] = drop_nil a ∙ sym (drop_nil (suc b + a))
  drop-drop a (suc b) (x ∷ xs) =
      let e : suc (b + a) ≡ suc b + a = omega arith in
      drop-drop a b xs ∙ ap (λ (n : ℕ). drop n (x ∷ xs)) e

  take-drop : (n : ℕ) (xs : List A) → (take n xs ++ drop n xs) ≡ xs
  take-drop zero xs = refl
  take-drop (suc n) [] = refl
  take-drop (suc n) (x ∷ xs) = ap (λ ys. x ∷ ys) (take-drop n xs)

  drop-past : (n : ℕ) (xs : List A) → length xs ≤ n → drop n xs ≡ []
  drop-past zero [] h = refl
  drop-past zero (x ∷ xs) h = absurd (omega arith)
  drop-past (suc n) [] h = refl
  drop-past (suc n) (x ∷ xs) h = drop-past n xs (omega arith)

  -- The parts of a list that the pages of one size show, from an offset on.
  chunks : ℕ → ℕ → ℕ → List A → List A
  chunks size zero offset xs = []
  chunks size (suc k) offset xs = take size (drop offset xs) ++ chunks size k (offset + size) xs

  chunks_lem :
      (size k offset : ℕ) (xs : List A)
      → length xs ≤ offset + k * size
      → chunks size k offset xs ≡ drop offset xs
  unfolding chunks
  chunks_lem size zero offset xs h = sym (drop-past offset xs (omega arith))
  chunks_lem size (suc k) offset xs h =
      rw (chunks_lem size k (offset + size) xs (grind arith), ← drop-drop size offset xs)
        (take-drop size (drop offset xs))

module _ {F J : Type 0} (reals : Reals F J) (agency user : Option String) where
  -- What a client gets that asks for page after page.
  abbrev pub pages : ℕ → ℕ → ℕ → List (Row F) → List (Summary F J)
  pages size zero offset rows = []
  pages size (suc k) offset rows =
      list_runs reals agency user (some size) offset rows ++ pages size k (offset + size) rows

  abbrev listed : List (Row F) → List (Row F)
  listed rows = order_rows reals (filter (matches agency user) rows)

  pages-chunks :
      (size k offset : ℕ) (rows : List (Row F))
      → pages size k offset rows ≡ map (summary reals) (chunks size k offset (listed rows))
  unfolding list_runs chunks
  pages-chunks size zero offset rows = refl
  pages-chunks size (suc k) offset rows = rw (pages-chunks size k (offset + size) rows) (
      sym (
        map-append (summary reals) (take size (drop offset (listed rows)))
          (chunks size k (offset + size) (listed rows))))

  length-insert_row :
      (r : Row F) (rows : List (Row F)) → length (insert_row reals r rows) ≡ suc (length rows)
  unfolding insert_row
  length-insert_row r [] = refl
  length-insert_row r (s ∷ rows) = ground (arith, length-insert_row r rows)

  length-order_rows : (rows : List (Row F)) → length (order_rows reals rows) ≡ length rows
  unfolding order_rows
  length-order_rows [] = refl
  length-order_rows (r ∷ rows) =
      omega (arith, length-insert_row r (order_rows reals rows), length-order_rows rows)

  elem-matches :
      (id : String) (rows : List (Row F))
      → elem id (session_ids reals (filter (matches agency user) rows))
        ≡ any (λ r. matches agency user r && (r.session_id == id)) rows
  elem-matches id [] = refl
  elem-matches id (r ∷ rows) = elim (Bool-cases (matches agency user r)) [
    | inl e ↦ rw e (ground (arith, elem-matches id rows))
    | inr e ↦ rw e (elem-matches id rows)
  ]

  nodup-filter :
      (rows : List (Row F))
      → is_nodup (session_ids reals rows) ≡ true
      → is_nodup (session_ids reals (filter (matches agency user) rows)) ≡ true
  nodup-filter [] h = refl
  nodup-filter (r ∷ rows) h = elim (Bool-cases (matches agency user r)) [
    | inl e ↦ rw e (ground (arith, nodup-filter rows, absent r.session_id rows))
    | inr e ↦ rw e (nodup-filter rows (ground arith))
  ]
    where
      absent :
          (id : String) (rows : List (Row F))
          → elem id (session_ids reals rows) ≡ false
          → elem id (session_ids reals (filter (matches agency user) rows)) ≡ false
      absent id [] k = refl
      absent id (s ∷ rows) k = elim (Bool-cases (matches agency user s)) [
        | inl e ↦ rw e (ground (arith, absent id rows))
        | inr e ↦ rw e (absent id rows (ground arith))
      ]

  -- A listing of some rows in order: the matching runs, each once, the latest first.
  pub record IsListing (rows : List (Row F)) (found : List (Row F)) : Type 0 where
    pub sorted : IsSorted reals found
    pub matching : All (λ r. matches agency user r ≡ true) found
    pub complete :
        (id : String)
        → elem id (session_ids reals found)
          ≡ any (λ r. matches agency user r && (r.session_id == id)) rows
    pub nodup : is_nodup (session_ids reals found) ≡ true

  -- Where times are ordered, the ids of the table are distinct, and as many pages are asked for as
  -- hold its rows, the pages of any size put together are the listing without a limit: every run of
  -- the agency and of the user exactly once, by submission with the latest first, and by id among
  -- those of one time.
  pub pages-IsListing :
      (o : IsOrder reals) (size k : ℕ) (rows : List (Row F))
      → is_nodup (session_ids reals rows) ≡ true
      → length rows ≤ k * size
      → (pages size k 0 rows ≡ list_runs reals agency user none 0 rows)
        × ((found : List (Row F)) × (pages size k 0 rows ≡ map (summary reals) found)
            × IsListing rows found)
  unfolding list_runs
  pages-IsListing o size k rows distinct enough =
      let kept = filter (matches agency user) rows in
      let e : pages size k 0 rows ≡ map (summary reals) (listed rows) =
        pages-chunks size k 0 rows
        ∙ ap (map (summary reals)) (
            chunks_lem size k 0 (listed rows) (
              omega (
                arith,
                length-order_rows kept,
                length-filter (matches agency user) rows,
                enough,
              ))) in
      (
        e,
        (
          listed rows,
          e,
          record {
            sorted = order_rows-IsSorted reals o kept;
            matching =
                All-order_rows reals (λ r. matches agency user r ≡ true) kept
                  (All-filter (matches agency user) rows);
            complete = λ id. elem-order_rows reals id kept ∙ elem-matches id rows;
            nodup = nodup-order_rows reals kept (nodup-filter rows distinct);
          },
        ),
      )
