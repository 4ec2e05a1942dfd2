-- ===== src/Waves/Plan.antt =====
-- What a plan of src/fabri/builder/waves.py is, and when there is none.
use fabri.Prelude.{
  suc, ◌<◌, String, true, false, not, ◌&&◌, List, [], ◌∷◌, ◌≡◌, ◌≢◌, refl, sym, ap, ◌∙◌, eqb, ltb,
  length, elem, count, is_nodup, arith, filter, All-elem, elem-filter, filter-congr, filter-none,
  filter-some, count-is_nodup, Bool-cases, inl, inr, ok, err, Result-cases, ok≢err, dedup, sorted,
}
use fabri.Waves.Defs.{
  Node, Wave, WaveError, cycle, duplicate_ids, Graph, Layering, indeg_at, children_at, empty_graph,
  add_nodes, ids, start, conclude, is_done, rounds, plan_nodes,
}
use fabri.Waves.Graph.{deps_of, IsGraph, add_nodes-IsGraph}
use fabri.Waves.Release.{unmet, unmet-none, unmet-pos}
use fabri.Waves.Layers.{wave_ids, IsLayered, is_next, IsLayering}
use fabri.Waves.Rounds.{rounds-IsLayering}

indeg_at-empty_graph : (c : String) (order : List String) → indeg_at c (empty_graph order).indeg ≡ 0
unfolding empty_graph
indeg_at-empty_graph c [] = refl
indeg_at-empty_graph c (i ∷ order) = ground (arith, indeg_at-empty_graph c order)

children_at-empty_graph :
    (d : String) (order : List String) → children_at d (empty_graph order).children ≡ []
unfolding empty_graph
children_at-empty_graph d [] = refl
children_at-empty_graph d (i ∷ order) = ground (arith, children_at-empty_graph d order)

filter-true : (xs : List String) → filter (λ i. true) xs ≡ xs
filter-true [] = refl
filter-true (x ∷ xs) = ap (λ r. x ∷ r) (filter-true xs)

module _ (prefix : String) (nodes : List Node) (g : Graph) (distinct : is_nodup (ids nodes) ≡ true)
    (built : add_nodes (ids nodes) nodes (empty_graph (ids nodes)) ≡ ok g) where
  graph : IsGraph (ids nodes) nodes (empty_graph (ids nodes)) g
  graph = add_nodes-IsGraph (ids nodes) nodes (empty_graph (ids nodes)) g built

  noted : (d c : String) → count c (children_at d g.children) ≡ count d (deps_of c nodes)
  noted d c = graph.noted d c ∙ rw (children_at-empty_graph d (ids nodes)) (omega arith)

  counted : (c : String) → indeg_at c g.indeg ≡ unmet (λ d. false) (deps_of c nodes)
  counted c =
      omega
        (arith, graph.counted c, indeg_at-empty_graph c (ids nodes), unmet-none (deps_of c nodes))

  start-IsLayering : IsLayering (ids nodes) (λ c. deps_of c nodes) g.children (start (ids nodes) g)
  unfolding start
  start-IsLayering = record {
    counts = counted;
    ready =
        filter-congr (λ i. eqb (indeg_at i g.indeg) 0)
          (is_next (ids nodes) (λ c. deps_of c nodes) g.children []) (ids nodes)
          (λ c m. ground (arith, counted c));
    met = λ c h. absurd (cc);
    declared = λ c h. absurd (cc);
    nodup = refl;
    placed = omega (arith, ap length (filter-true (ids nodes)));
    layered = tt;
  }

  -- The state in which the loop ends.
  abbrev pub last : Layering
  last = rounds (suc (length (ids nodes))) prefix (ids nodes) g.children (start (ids nodes) g)

  last-IsLayering :
      IsLayering (ids nodes) (λ c. deps_of c nodes) g.children last × (is_done last.ready ≡ true)
  last-IsLayering =
      rounds-IsLayering prefix (ids nodes) (λ c. deps_of c nodes) g.children distinct noted
        (suc (length (ids nodes))) (start (ids nodes) g)
        (unfold start in omega (arith, ap length (filter-true (ids nodes)))) start-IsLayering

  -- At the end an id that is not placed has a dependency that is not met.
  left_unmet :
      (c : String)
      → elem c (ids nodes) ≡ true
      → elem c (wave_ids last.waves) ≡ false
      → 0 < unmet (λ d. elem d (wave_ids last.waves)) (deps_of c nodes)
  left_unmet c m n =
      let v = last-IsLayering.0 in
      ground (
        arith,
        none_ready last.ready last-IsLayering.1,
        ap (elem c) v.ready,
        elem-filter (is_next (ids nodes) (λ x. deps_of x nodes) g.children (wave_ids last.waves)) c
            (ids nodes),
      )
    where
      none_ready : (is : List String) → is_done is ≡ true → elem c is ≡ false
      none_ready [] h = refl
      none_ready (i ∷ is) h = absurd (cc)

  -- What stays behind: the ids whose count is not zero.
  abbrev pub stuck_ids : List String
  stuck_ids = filter (λ i. ltb 0 (indeg_at i last.indeg)) (ids nodes)

  pub elem-stuck :
      (c : String)
      → elem c stuck_ids ≡ (
          ltb 0 (unmet (λ d. elem d (wave_ids last.waves)) (deps_of c nodes)) && elem c (ids nodes))
  elem-stuck c =
      elem-filter (λ i. ltb 0 (indeg_at i last.indeg)) c (ids nodes)
      ∙ rw (last-IsLayering.0.counts c)

  pub stuck-dep :
      (c : String)
      → elem c stuck_ids ≡ true
      → (d : String) × (elem d (deps_of c nodes) ≡ true) × (elem d stuck_ids ≡ true)
  stuck-dep c h =
      let (d, m, n) =
        unmet-pos (λ x. elem x (wave_ids last.waves)) (deps_of c nodes)
          (ground (arith, elem-stuck c)) in
      let known =
        All-elem (λ x. (elem x (ids nodes) ≡ true) × (x ≢ c)) d (deps_of c nodes)
          (graph.are_known c) m in
      (d, m, ground (arith, elem-stuck d, known.0, left_unmet d known.0 n))

  pub stuck-some :
      eqb last.placed (length (ids nodes)) ≡ false → (c : String) × (elem c stuck_ids ≡ true)
  stuck-some h =
      let v = last-IsLayering.0 in
      let (c, m, n) =
        filter-some (λ i. not (elem i (wave_ids last.waves))) (ids nodes)
          (ground (arith, v.placed)) in
      (c, ground (arith, elem-stuck c, left_unmet c m (ground arith)))

  pub plan_nodes-last : plan_nodes prefix nodes ≡ conclude (ids nodes) last
  unfolding plan_nodes
  plan_nodes-last = rw (distinct, built)

-- A plan comes from distinct ids and checked edges.
pub record Planned (prefix : String) (nodes : List Node) (ws : List Wave) : Type 0 where
  pub distinct : is_nodup (ids nodes) ≡ true
  pub g : Graph
  pub built : add_nodes (ids nodes) nodes (empty_graph (ids nodes)) ≡ ok g
  pub waves : (last prefix nodes g distinct built).waves ≡ ws
  pub placed : (last prefix nodes g distinct built).placed ≡ length (ids nodes)

pub plan_nodes-duplicate :
    (prefix : String) (nodes : List Node)
    → is_nodup (ids nodes) ≡ false
    → plan_nodes prefix nodes
      ≡ err (duplicate_ids (sorted (dedup (filter (λ i. ltb 1 (count i (ids nodes))) (ids nodes)))))
unfolding plan_nodes
plan_nodes-duplicate prefix nodes h = rw h

pub plan_nodes-refused :
    (prefix : String) (nodes : List Node) (e : WaveError)
    → is_nodup (ids nodes) ≡ true
    → add_nodes (ids nodes) nodes (empty_graph (ids nodes)) ≡ err e
    → plan_nodes prefix nodes ≡ err e
unfolding plan_nodes
plan_nodes-refused prefix nodes e h k = rw (h, k)

conclude-ok :
    (order : List String) (s : Layering) (ws : List Wave)
    → conclude order s ≡ ok ws
    → (s.waves ≡ ws) × (s.placed ≡ length order)
unfolding conclude
conclude-ok order s ws h = ground arith

pub conclude-cycle :
    (order stuck : List String) (s : Layering)
    → conclude order s ≡ err (cycle stuck)
    → (eqb s.placed (length order) ≡ false)
      × (stuck ≡ sorted (filter (λ i. ltb 0 (indeg_at i s.indeg)) order))
unfolding conclude
conclude-cycle order stuck s h = ground arith

pub Planned-of_ok :
    (prefix : String) (nodes : List Node) (ws : List Wave)
    → plan_nodes prefix nodes ≡ ok ws
    → Planned prefix nodes ws
Planned-of_ok prefix nodes ws h = elim (Bool-cases (is_nodup (ids nodes))) [
  | inr twice ↦ absurd (ok≢err _ h (plan_nodes-duplicate prefix nodes twice))
  | inl distinct ↦ elim (Result-cases (add_nodes (ids nodes) nodes (empty_graph (ids nodes)))) [
    | inr (e, refused) ↦ absurd (ok≢err _ h (plan_nodes-refused prefix nodes e distinct refused))
    | inl (g, built) ↦
        let (same, all_placed) =
          conclude-ok (ids nodes) (last prefix nodes g distinct built) ws
            (sym (plan_nodes-last prefix nodes g distinct built) ∙ h) in
        record { distinct = distinct; g = g; built = built; waves = same; placed = all_placed }
  ]
]

-- Every declared id stands in a plan exactly once, and no other id does.
pub count-plan_nodes :
    (prefix : String) (nodes : List Node) (ws : List Wave) (c : String)
    → plan_nodes prefix nodes ≡ ok ws
    → count c (wave_ids ws) ≡ count c (ids nodes)
count-plan_nodes prefix nodes ws c h =
    let p = Planned-of_ok prefix nodes ws h in
    let v = (last-IsLayering prefix nodes p.g p.distinct p.built).0 in
    rw (← p.waves) (
      ground (
        arith,
        count-is_nodup c (ids nodes) p.distinct,
        count-is_nodup c (wave_ids (last prefix nodes p.g p.distinct p.built).waves) v.nodup,
        v.declared c,
        v.placed,
        p.placed,
        filter-none (λ i. not (elem i (wave_ids (last prefix nodes p.g p.distinct p.built).waves)))
            c (ids nodes),
      ))

-- In a plan all that an item depends on stands in an earlier wave.
pub plan_nodes-IsLayered :
    (prefix : String) (nodes : List Node) (ws : List Wave)
    → plan_nodes prefix nodes ≡ ok ws
    → IsLayered (λ c. deps_of c nodes) [] ws
plan_nodes-IsLayered prefix nodes ws h =
    let p = Planned-of_ok prefix nodes ws h in
    rw (← p.waves) (last-IsLayering prefix nodes p.g p.distinct p.built).0.layered
