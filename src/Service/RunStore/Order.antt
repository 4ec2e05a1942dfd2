-- ===== src/Service/RunStore/Order.antt =====
-- The order in which src/fabri/service/run_store.py lists its runs.
use fabri.Prelude.{
  String, true, false, ◌||◌, ◌==◌, List, [], ◌∷◌, ◌≡◌, refl, str_leb, elem, is_nodup, All, All-map,
  arith, eq_iff, Bool-cases, inl, inr,
}
use fabri.Service.RunStore.Defs.{Reals, Row, is_before, insert_row, order_rows}
use fabri.Service.RunStore.History.{session_ids}

str_leb_total : (s t : String) → (str_leb s t || str_leb t s) ≡ true
unfolding str_leb
str_leb_total String.[] t = refl
str_leb_total (String.◌∷◌ c s) String.[] = refl
str_leb_total (String.◌∷◌ c s) (String.◌∷◌ d t) = ground (arith, str_leb_total s t)

str_leb_trans : (s t u : String) → str_leb s t ≡ true → str_leb t u ≡ true → str_leb s u ≡ true
unfolding str_leb
str_leb_trans String.[] t u h k = refl
str_leb_trans (String.◌∷◌ c s) String.[] u h k = absurd (cc)
str_leb_trans (String.◌∷◌ c s) (String.◌∷◌ d t) String.[] h k = absurd (cc)
str_leb_trans (String.◌∷◌ c s) (String.◌∷◌ d t) (String.◌∷◌ e u) h k =
    ground (arith, str_leb_trans s t u)

-- How SQLite compares the values of a `REAL` column, which are no NaN.
pub record IsOrder {F J : Type 0} (reals : Reals F J) : Type 0 where
  pub asymmetric : (a b : F) → reals.less a b ≡ true → reals.less b a ≡ false
  pub transitive :
      (a b c : F) → reals.less b a ≡ false → reals.less c b ≡ false → reals.less c a ≡ false

module _ {F J : Type 0} (reals : Reals F J) where
  -- Each row may stand before all that follow it.
  abbrev pub IsSorted : List (Row F) → Type 0
  IsSorted [] = Unit
  IsSorted (r ∷ rows) = All (λ s. is_before reals r s ≡ true) rows × IsSorted rows

  All-insert_row :
      (P : Row F → Type 0) (r : Row F) (rows : List (Row F))
      → P r
      → All P rows
      → All P (insert_row reals r rows)
  unfolding insert_row
  All-insert_row P r [] here h = (here, tt)
  All-insert_row P r (s ∷ rows) here h = elim (Bool-cases (is_before reals r s)) [
    | inl e ↦ rw e (here, h)
    | inr e ↦ rw e (h.0, All-insert_row P r rows here h.1)
  ]

  pub All-order_rows :
      (P : Row F → Type 0) (rows : List (Row F)) → All P rows → All P (order_rows reals rows)
  unfolding order_rows
  All-order_rows P [] h = tt
  All-order_rows P (r ∷ rows) h =
      All-insert_row P r (order_rows reals rows) h.0 (All-order_rows P rows h.1)

  elem-insert_row :
      (id : String) (r : Row F) (rows : List (Row F))
      → elem id (session_ids reals (insert_row reals r rows))
        ≡ ((r.session_id == id) || elem id (session_ids reals rows))
  unfolding insert_row
  elem-insert_row id r [] = refl
  elem-insert_row id r (s ∷ rows) = elim (Bool-cases (is_before reals r s)) [
    | inl e ↦ rw e refl
    | inr e ↦ rw e (ground (arith, elem-insert_row id r rows))
  ]

  pub elem-order_rows :
      (id : String) (rows : List (Row F))
      → elem id (session_ids reals (order_rows reals rows)) ≡ elem id (session_ids reals rows)
  unfolding order_rows
  elem-order_rows id [] = refl
  elem-order_rows id (r ∷ rows) =
      ground (arith, elem-insert_row id r (order_rows reals rows), elem-order_rows id rows)

  nodup-insert_row :
      (r : Row F) (rows : List (Row F))
      → elem r.session_id (session_ids reals rows) ≡ false
      → is_nodup (session_ids reals rows) ≡ true
      → is_nodup (session_ids reals (insert_row reals r rows)) ≡ true
  unfolding insert_row
  nodup-insert_row r [] new h = refl
  nodup-insert_row r (s ∷ rows) new h = elim (Bool-cases (is_before reals r s)) [
    | inl e ↦ rw e (ground arith)
    | inr e ↦ rw e (
        ground (
          arith,
          nodup-insert_row r rows,
          elem-insert_row s.session_id r rows,
          eq_iff r.session_id s.session_id,
          eq_iff s.session_id r.session_id,
        ))
  ]

  pub nodup-order_rows :
      (rows : List (Row F))
      → is_nodup (session_ids reals rows) ≡ true
      → is_nodup (session_ids reals (order_rows reals rows)) ≡ true
  unfolding order_rows
  nodup-order_rows [] h = refl
  nodup-order_rows (r ∷ rows) h =
      nodup-insert_row r (order_rows reals rows) (ground (arith, elem-order_rows r.session_id rows))
        (nodup-order_rows rows (ground arith))

  module _ (o : IsOrder reals) where
    before_total : (r s : Row F) → is_before reals r s ≡ false → is_before reals s r ≡ true
    before_total r s h = ground (arith, str_leb_total s.session_id r.session_id)

    before_trans :
        (r s u : Row F)
        → is_before reals r s ≡ true
        → is_before reals s u ≡ true
        → is_before reals r u ≡ true
    before_trans r s u h k = ground (
      arith,
      str_leb_trans u.session_id s.session_id r.session_id,
      o.asymmetric s.submitted_at r.submitted_at,
      o.asymmetric u.submitted_at s.submitted_at,
      o.transitive s.submitted_at r.submitted_at u.submitted_at,
      o.transitive r.submitted_at u.submitted_at s.submitted_at,
      o.transitive u.submitted_at s.submitted_at r.submitted_at,
    )

    insert_row-IsSorted :
        (r : Row F) (rows : List (Row F)) → IsSorted rows → IsSorted (insert_row reals r rows)
    unfolding insert_row
    insert_row-IsSorted r [] h = (tt, tt)
    insert_row-IsSorted r (s ∷ rows) h = elim (Bool-cases (is_before reals r s)) [
      | inl e ↦ rw e (
        (
          e,
          All-map (λ u. is_before reals s u ≡ true) (λ u. is_before reals r u ≡ true)
              (λ u k. before_trans r s u e k) rows h.0,
        ),
        h,
      )
      | inr e ↦ rw e (
        All-insert_row (λ u. is_before reals s u ≡ true) r rows (before_total r s e) h.0,
        insert_row-IsSorted r rows h.1,
      )
    ]

    pub order_rows-IsSorted : (rows : List (Row F)) → IsSorted (order_rows reals rows)
    unfolding order_rows
    order_rows-IsSorted [] = tt
    order_rows-IsSorted (r ∷ rows) =
        insert_row-IsSorted r (order_rows reals rows) (order_rows-IsSorted rows)
