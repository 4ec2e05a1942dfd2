-- ===== src/Planner/Order.antt =====
-- `topological_order` of src/fabri/core/planner.py: a permutation of the indices, in the order of
-- the dependencies where these have no cycle.
use fabri.Prelude.{
  ℕ, zero, suc, ◌+◌, ◌≤◌, ◌<◌, Bool, true, false, not, ◌&&◌, List, [], ◌∷◌, ◌++◌, append_nil, ◌≡◌,
  refl, sym, ap, ◌∙◌, if◌then◌else◌, eqb, ltb, length, length-append, filter, arith, Bool-cases,
  inl, inr,
}
use fabri.Indices.{
  elem, count, range, elem-range, elem-append, elem-filter, count-is_nodup, is_nodup,
  is_nodup-append, is_nodup-filter, is_nodup-range_from, get_or, pigeonhole,
}
use fabri.Planner.Defs.{
  PlanItem, Queue, turn, visit, loop, graph_of, start, settle, topological_order,
}
use fabri.Planner.Edges.{deps_of, graph_of-IsGraph, deps_from-lt}
use fabri.Planner.Turns.{unmet, unmet-nil, unmet-pos, IsOrdered, IsQueue, visit-IsQueue}

-- Distinct indices of a plan are at most as many as its items, and with as many none is missing.
module _ (n : ℕ) (xs : List ℕ) (nodup : is_nodup xs ≡ true)
    (within : (c : ℕ) → elem c xs ≡ true → c < n) where
  full : n ≤ length xs → (c : ℕ) → c < n → elem c xs ≡ true
  full long c h = elim (Bool-cases (elem c xs)) [
    | inl m ↦ m
    | inr m ↦ absurd (
        omega (
          arith,
          pigeonhole n (c ∷ xs) (ground arith) (λ a k. elim (Bool-cases (eqb c a)) [
            | inl e ↦ ground arith
            | inr e ↦ within a (ground arith)
          ]),
        ))
  ]

abbrev queue : List ℕ → List ℕ → List ℕ → Queue
queue indeg ready order = record { indeg = indeg; ready = ready; order = order }

module _ (items : List PlanItem) where
  start-IsQueue : IsQueue items (start items)
  unfolding start
  start-IsQueue =
      let g = graph_of-IsGraph items in
      let n = length items in
      let indeg = (graph_of items).indeg in
      let free = λ (i : ℕ). eqb (get_or indeg i 0) 0 in
      record {
        seen = record {
          size = g.size;
          nodup = is_nodup-filter free (range n) (is_nodup-range_from 0 n);
          settled = λ c. ground (arith, elem-filter free c (range n), elem-range c n);
        };
        counts = λ c. g.counted c ∙ sym (unmet-nil (deps_of items c));
        ordered = tt;
      }

  loop_idle :
      (fuel : ℕ) (children : List (List ℕ)) (indeg order : List ℕ)
      → loop fuel children (queue indeg [] order) ≡ queue indeg [] order
  unfolding loop turn
  loop_idle zero children indeg order = refl
  loop_idle (suc fuel) children indeg order = loop_idle fuel children indeg order

  seen_short : (q : Queue) → IsQueue items q → length (q.order ++ q.ready) ≤ length items
  seen_short q v =
      pigeonhole (length items) (q.order ++ q.ready) v.seen.nodup
        (λ a m. ground (arith, v.seen.settled a))

  -- With as much fuel as indices that are not placed, the loop ends by its test.
  loop-IsQueue :
      (fuel : ℕ) (indeg ready order : List ℕ)
      → IsQueue items (queue indeg ready order)
      → length items ≤ length order + fuel
      → IsQueue items (loop fuel (graph_of items).children (queue indeg ready order))
        × ((loop fuel (graph_of items).children (queue indeg ready order)).ready ≡ [])
  unfolding loop turn visit
  loop-IsQueue fuel indeg [] order v h =
      rw (loop_idle fuel (graph_of items).children indeg order) (v, refl)
  loop-IsQueue zero indeg (i ∷ rest) order v h =
      absurd
        (omega (arith, seen_short (queue indeg (i ∷ rest) order) v, length-append order (i ∷ rest)))
  loop-IsQueue (suc fuel) indeg (i ∷ rest) order v h =
      let q = visit (graph_of items).children i rest (queue indeg (i ∷ rest) order) in
      loop-IsQueue fuel q.indeg q.ready q.order
        (visit-IsQueue items (graph_of items) (graph_of-IsGraph items) i rest indeg order v)
        (omega (arith, length-append order (i ∷ [])))

  -- What the loop has placed when it ends.
  abbrev placed : List ℕ
  placed = (settle items).order

  settle-IsQueue : IsQueue items (settle items) × ((settle items).ready ≡ [])
  unfolding settle start
  settle-IsQueue =
      loop-IsQueue (length items) (start items).indeg (start items).ready [] start-IsQueue
        (omega arith)

  elem-placed :
      (c : ℕ) → elem c placed ≡ (ltb c (length items) && eqb (unmet placed (deps_of items c)) 0)
  elem-placed c =
      let (v, idle) = settle-IsQueue in
      ground (
        arith,
        v.seen.settled c,
        v.counts c,
        ap (λ (r : List ℕ). elem c (placed ++ r)) idle,
        ap (elem c) (append_nil placed),
      )

  nodup-placed : is_nodup placed ≡ true
  nodup-placed =
      let (v, idle) = settle-IsQueue in
      let same : placed ++ (settle items).ready ≡ placed =
        ap (λ (r : List ℕ). placed ++ r) idle ∙ append_nil placed in
      sym (ap is_nodup same) ∙ v.seen.nodup

  abbrev left_over : List ℕ
  left_over = filter (λ i. not (elem i placed)) (range (length items))

  -- The order holds every index of the plan exactly once, and no other number.
  pub count-topological_order :
      (c : ℕ) → count c (topological_order items) ≡ (if ltb c (length items) then 1 else 0)
  unfolding topological_order
  count-topological_order c = elim (Bool-cases (eqb (length placed) (length items))) [
    | inl e ↦ rw e (
        ground (
          arith,
          count-is_nodup c placed nodup-placed,
          elem-placed c,
          full (length items) placed nodup-placed (λ a m. ground (arith, elem-placed a))
              (ground arith) c,
        ))
    | inr e ↦ rw e (
        ground (
          arith,
          count-is_nodup c (placed ++ left_over) (
              is_nodup-append placed left_over nodup-placed
                (is_nodup-filter (λ i. not (elem i placed)) (range (length items))
                  (is_nodup-range_from 0 (length items)))
                (λ a m.
                  ground (arith, elem-filter (λ i. not (elem i placed)) a (range (length items))))),
          elem-append c placed left_over,
          elem-filter (λ i. not (elem i placed)) c (range (length items)),
          elem-range c (length items),
          elem-placed c,
        ))
  ]

  -- Where the dependencies have a rank, no index is left over.
  all_placed :
      (rank : ℕ → ℕ)
      → ((c d : ℕ) → elem d (deps_of items c) ≡ true → rank d < rank c)
      → (k c : ℕ) → rank c < k
      → c < length items
      → elem c placed ≡ true
  all_placed rank falls zero c h within = absurd (omega arith)
  all_placed rank falls (suc k) c h within =
      elim (Bool-cases (eqb (unmet placed (deps_of items c)) 0)) [
        | inl e ↦ ground (arith, elem-placed c)
        | inr e ↦
            let (d, m, missing) = unmet-pos placed (deps_of items c) (ground arith) in
            ground (
              arith,
              falls c d m,
              deps_from-lt (length items) 0 items c d m,
              all_placed rank falls k d,
            )
      ]

  -- Where the dependencies on other items of the plan have no cycle, so that some rank falls along
  -- them, each index stands after all the items that it depends on.
  pub topological_order-IsOrdered :
      (rank : ℕ → ℕ)
      → ((c d : ℕ) → elem d (deps_of items c) ≡ true → rank d < rank c)
      → IsOrdered (deps_of items) [] (topological_order items)
  unfolding topological_order
  topological_order-IsOrdered rank falls = elim (Bool-cases (eqb (length placed) (length items))) [
    | inl e ↦ rw e ((settle-IsQueue).0.ordered)
    | inr e ↦ rw (e, nothing_left, append_nil placed) ((settle-IsQueue).0.ordered)
  ]
    where
      none_of :
          (p : ℕ → Bool) (xs : List ℕ)
          → ((a : ℕ) → elem a xs ≡ true → p a ≡ false)
          → filter p xs ≡ []
      none_of p [] h = refl
      none_of p (x ∷ xs) h = rw (h x (ground arith)) (none_of p xs (λ a m. h a (ground arith)))

      nothing_left : left_over ≡ []
      nothing_left =
          none_of (λ i. not (elem i placed)) (range (length items))
            (λ a m.
              ground (arith, all_placed rank falls (suc (rank a)) a, elem-range a (length items)))
