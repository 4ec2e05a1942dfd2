-- ===== src/Memory/Order.antt =====
-- The order in which the eviction of src/fabri/memory/pruning.py picks entries.
use fabri.Prelude.{
  ℕ, zero, suc, Bool, true, false, not, List, [], ◌∷◌, ◌++◌, take, drop, filter, Dict, All,
  All-drop, All-kept, All-map, All-append, All-filter, ◌≡◌, ◌⊎◌, sym, ◌∙◌, arith, Bool-cases, inl,
  inr,
}
use fabri.Memory.Entry.{Entry}
use fabri.Memory.Evict.{Scoring, is_protected, insert_by, sort_by, values, candidates}

module _ {T : Type 0} (s : Scoring T) where
  All-insert_by :
      (P : Entry T → Type 0) (e : Entry T) (es : List (Entry T))
      → P e
      → All P es
      → All P (insert_by s e es)
  unfolding insert_by
  All-insert_by P e [] here h = (here, tt)
  All-insert_by P e (f ∷ fs) here h = elim (Bool-cases (s.less (s.score f) (s.score e))) [
    | inl lower ↦ rw lower (h.0, All-insert_by P e fs here h.1)
    | inr higher ↦ rw higher (here, h)
  ]

  All-sort_by : (P : Entry T → Type 0) (es : List (Entry T)) → All P es → All P (sort_by s es)
  unfolding sort_by
  All-sort_by P [] h = tt
  All-sort_by P (e ∷ es) h = All-insert_by P e (sort_by s es) h.0 (All-sort_by P es h.1)

  -- The order of the scores: what `<` on floats that are numbers is known to be.
  pub record IsOrder : Type 0 where
    pub asymmetric : (a b : s.Score) → s.less a b ≡ true → s.less b a ≡ false
    pub transitive :
        (a b c : s.Score) → s.less b a ≡ false → s.less c b ≡ false → s.less c a ≡ false

  abbrev IsAtLeast : Entry T → Entry T → Type 0
  IsAtLeast e f = s.less (s.score f) (s.score e) ≡ false

  -- Each entry has a score that is at most those of the entries after it.
  abbrev IsSorted : List (Entry T) → Type 0
  IsSorted [] = Unit
  IsSorted (e ∷ es) = All (IsAtLeast e) es × IsSorted es

  module _ (o : IsOrder) where
    insert_by-IsSorted :
        (e : Entry T) (es : List (Entry T)) → IsSorted es → IsSorted (insert_by s e es)
    unfolding insert_by
    insert_by-IsSorted e [] h = (tt, tt)
    insert_by-IsSorted e (f ∷ fs) h = elim (Bool-cases (s.less (s.score f) (s.score e))) [
      | inl lower ↦ rw lower (
        All-insert_by (IsAtLeast f) e fs (o.asymmetric (s.score f) (s.score e) lower) h.0,
        insert_by-IsSorted e fs h.1,
      )
      | inr higher ↦ rw higher (
        (
          higher,
          All-map (IsAtLeast f) (IsAtLeast e)
              (λ g m. o.transitive (s.score e) (s.score f) (s.score g) higher m) fs h.0,
        ),
        h,
      )
    ]

    sort_by-IsSorted : (es : List (Entry T)) → IsSorted (sort_by s es)
    unfolding sort_by
    sort_by-IsSorted [] = tt
    sort_by-IsSorted (e ∷ es) = insert_by-IsSorted e (sort_by s es) (sort_by-IsSorted es)

  -- One entry is evicted before another: it is not strategic and the other is, or both are or both are
  -- not and its score is at most that of the other.
  abbrev pub IsBefore : Entry T → Entry T → Type 0
  IsBefore e f =
      ((is_protected e ≡ false) × (is_protected f ≡ true))
      ⊎ ((is_protected e ≡ is_protected f) × (s.less (s.score f) (s.score e) ≡ false))

  abbrev IsRanked : List (Entry T) → Type 0
  IsRanked [] = Unit
  IsRanked (e ∷ es) = All (IsBefore e) es × IsRanked es

  -- Entries of one kind are ranked by their scores.
  IsRanked-kind :
      (b : Bool) (es : List (Entry T))
      → All (λ e. is_protected e ≡ b) es
      → IsSorted es
      → IsRanked es
  IsRanked-kind b [] k h = tt
  IsRanked-kind b (e ∷ es) k h = (ranked_after es k.1 h.0, IsRanked-kind b es k.1 h.1)
    where
      ranked_after :
          (fs : List (Entry T))
          → All (λ f. is_protected f ≡ b) fs
          → All (IsAtLeast e) fs
          → All (IsBefore e) fs
      ranked_after [] l m = tt
      ranked_after (f ∷ fs) l m = (inr (k.0 ∙ sym l.0, m.0), ranked_after fs l.1 m.1)

  IsRanked-append :
      (es fs : List (Entry T))
      → All (λ e. is_protected e ≡ false) es
      → All (λ e. is_protected e ≡ true) fs
      → IsRanked es
      → IsRanked fs
      → IsRanked (es ++ fs)
  IsRanked-append [] fs p q h k = k
  IsRanked-append (e ∷ es) fs p q h k = (
    All-append (IsBefore e) es fs h.0
        (All-map (λ f. is_protected f ≡ true) (IsBefore e) (λ f m. inl (p.0, m)) fs q),
    IsRanked-append es fs p.1 q h.1 k,
  )

  candidates-IsRanked : IsOrder → (store : Dict (Entry T)) → IsRanked (candidates s store)
  unfolding candidates
  candidates-IsRanked o store =
      IsRanked-append (sort_by s easy) (sort_by s hard) is_easy is_hard
        (IsRanked-kind false (sort_by s easy) is_easy (sort_by-IsSorted o easy))
        (IsRanked-kind true (sort_by s hard) is_hard (sort_by-IsSorted o hard))
    where
      easy : List (Entry T)
      easy = filter (λ e. not (is_protected e)) (values store)

      hard : List (Entry T)
      hard = filter is_protected (values store)

      is_easy : All (λ e. is_protected e ≡ false) (sort_by s easy)
      is_easy =
          All-sort_by (λ e. is_protected e ≡ false) easy
            (All-map (λ e. not (is_protected e) ≡ true) (λ e. is_protected e ≡ false)
              (λ e h. ground (arith, h)) easy
              (All-filter (λ e. not (is_protected e)) (values store)))

      is_hard : All (λ e. is_protected e ≡ true) (sort_by s hard)
      is_hard =
          All-sort_by (λ e. is_protected e ≡ true) hard (All-filter is_protected (values store))

  take-IsRanked :
      (n : ℕ) (es : List (Entry T))
      → IsRanked es
      → All (λ e. All (IsBefore e) (drop n es)) (take n es)
  take-IsRanked zero es h = tt
  take-IsRanked (suc n) [] h = tt
  take-IsRanked (suc n) (e ∷ es) h = (All-drop (IsBefore e) n es h.0, take-IsRanked n es h.1)

  -- What holds of every entry of a store holds of every candidate.
  pub All-candidates :
      (P : Entry T → Type 0) (store : Dict (Entry T))
      → All P (values store)
      → All P (candidates s store)
  unfolding candidates
  All-candidates P store h =
      let easy = filter (λ e. not (is_protected e)) (values store) in
      let hard = filter is_protected (values store) in
      All-append P (sort_by s easy) (sort_by s hard)
        (All-sort_by P easy (All-kept P (λ e. not (is_protected e)) (values store) h))
        (All-sort_by P hard (All-kept P is_protected (values store) h))

  -- The first candidates come before each of the others.
  pub take_candidates :
      IsOrder
      → (n : ℕ) (store : Dict (Entry T))
      → All (λ e. All (IsBefore e) (drop n (candidates s store))) (take n (candidates s store))
  take_candidates o n store = take-IsRanked n (candidates s store) (candidates-IsRanked o store)
