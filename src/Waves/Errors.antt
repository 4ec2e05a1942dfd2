-- ===== src/Waves/Errors.antt =====
-- When src/fabri/builder/waves.py refuses a plan, and when it cannot.
use fabri.Prelude.{
  ℕ, zero, suc, ◌<◌, String, true, false, ◌==◌, List, [], ◌∷◌, ◌≡◌, ◌≢◌, refl, sym, ◌∙◌, eqb,
  length, elem, is_nodup, arith, All, Bool-cases, inl, inr, filter, ltb, ◌⊎◌, ok, err, Result-cases,
  >>=-eq-err, sorted, elem-sorted,
}
use fabri.Waves.Defs.{
  Layering, Node, Wave, cycle, Graph, indeg_at, empty_graph, edge, add_edges, add_nodes, ids,
  conclude, plan_nodes,
}
use fabri.Waves.Graph.{deps_of}
use fabri.Waves.Plan.{
  last, stuck_ids, elem-stuck, stuck-dep, stuck-some, plan_nodes-last, plan_nodes-duplicate,
  plan_nodes-refused, conclude-cycle,
}

-- The ids that a cycle error names: there are some, each is declared, and each depends on one of them.
pub record IsCycle (nodes : List Node) (stuck : List String) : Type 0 where
  pub some_id : String
  pub listed : elem some_id stuck ≡ true
  pub declared : (c : String) → elem c stuck ≡ true → elem c (ids nodes) ≡ true
  pub chained :
      (c : String)
      → elem c stuck ≡ true
      → (d : String) × (elem d (deps_of c nodes) ≡ true) × (elem d stuck ≡ true)

-- An error on an edge names no cycle.
add_edges-ne-cycle :
    (known : List String) (id : String) (deps : List String) (g : Graph) (stuck : List String)
    → add_edges known id deps g ≢ err (cycle stuck)
unfolding add_edges
add_edges-ne-cycle known id [] g stuck = ground arith
add_edges-ne-cycle known id (d ∷ deps) g stuck =
    ground (arith, add_edges-ne-cycle known id deps (edge id d g) stuck)

add_nodes-ne-cycle :
    (known : List String) (nodes : List Node) (g : Graph) (stuck : List String)
    → add_nodes known nodes g ≡ err (cycle stuck)
    → ⊥
unfolding add_nodes
add_nodes-ne-cycle known [] g stuck h = absurd (cc)
add_nodes-ne-cycle known (n ∷ ns) g stuck h =
    elim (>>=-eq-err (add_edges known n.id n.depends_on g) (add_nodes known ns) h) [
      | inl e ↦ add_edges-ne-cycle known n.id n.depends_on g stuck e
      | inr (g', _, rest) ↦ add_nodes-ne-cycle known ns g' stuck rest
    ]

stuck-IsCycle :
    (prefix : String) (nodes : List Node) (stuck : List String) (g : Graph)
    (distinct : is_nodup (ids nodes) ≡ true)
    (built : add_nodes (ids nodes) nodes (empty_graph (ids nodes)) ≡ ok g)
    → (eqb (last prefix nodes g distinct built).placed (length (ids nodes)) ≡ false)
      × (stuck ≡ sorted (stuck_ids prefix nodes g distinct built))
    → IsCycle nodes stuck
stuck-IsCycle prefix nodes stuck g distinct built (short, names) = rw names (record {
  some_id = some_stuck.0;
  listed = elem-sorted some_stuck.0 left ∙ some_stuck.1;
  declared = λ c m. ground (arith, elem-sorted c left, elem-stuck prefix nodes g distinct built c);
  chained = λ c m.
      let (d, dep, s) = stuck-dep prefix nodes g distinct built c (sym (elem-sorted c left) ∙ m) in
      (d, dep, elem-sorted d left ∙ s);
})
  where
    left : List String
    left = stuck_ids prefix nodes g distinct built

    some_stuck : (c : String) × (elem c left ≡ true)
    some_stuck = stuck-some prefix nodes g distinct built short

-- A cycle error names some declared ids, each of which depends on one of them.
pub plan_nodes-IsCycle :
    (prefix : String) (nodes : List Node) (stuck : List String)
    → plan_nodes prefix nodes ≡ err (cycle stuck)
    → IsCycle nodes stuck
plan_nodes-IsCycle prefix nodes stuck h = elim (Bool-cases (is_nodup (ids nodes))) [
  | inr twice ↦ absurd (cc (h, plan_nodes-duplicate prefix nodes twice))
  | inl distinct ↦ elim (Result-cases (add_nodes (ids nodes) nodes (empty_graph (ids nodes)))) [
    | inr (e, refused) ↦ absurd (
        add_nodes-ne-cycle (ids nodes) nodes (empty_graph (ids nodes)) stuck
          (cc (h, refused, plan_nodes-refused prefix nodes e distinct refused)))
    | inl (g, built) ↦ stuck-IsCycle prefix nodes stuck g distinct built (
        conclude-cycle (ids nodes) stuck (last prefix nodes g distinct built)
          (sym (plan_nodes-last prefix nodes g distinct built) ∙ h))
  ]
]

conclude-cases :
    (order : List String) (s : Layering)
    → ((ws : List Wave) × (conclude order s ≡ ok ws))
      ⊎ ((stuck : List String) × (conclude order s ≡ err (cycle stuck)))
unfolding conclude
conclude-cases order s = elim (Bool-cases (eqb s.placed (length order))) [
  | inl e ↦ inl (s.waves, rw e)
  | inr e ↦ inr (sorted (filter (λ i. ltb 0 (indeg_at i s.indeg)) order), rw e)
]

-- `rank` puts all that an item depends on below it, so the dependencies have no cycle.
abbrev pub IsRanked : (String → ℕ) → List Node → Type 0
IsRanked rank nodes = (c d : String) → elem d (deps_of c nodes) ≡ true → rank d < rank c

IsCycle-unranked :
    (rank : String → ℕ) (nodes : List Node) (stuck : List String)
    → IsRanked rank nodes
    → IsCycle nodes stuck
    → (n : ℕ) (c : String) → rank c < n
    → elem c stuck ≡ true
    → ⊥
IsCycle-unranked rank nodes stuck r v zero c lt m = absurd (omega arith)
IsCycle-unranked rank nodes stuck r v (suc n) c lt m =
    let (d, dep, s) = v.chained c m in
    IsCycle-unranked rank nodes stuck r v n d (omega (arith, r c d dep)) s

-- Every dependency is declared and is not the item itself.
abbrev HasTargets : List String → List Node → Type 0
HasTargets known = All (λ n. All (λ d. (elem d known ≡ true) × ((d == n.id) ≡ false)) n.depends_on)

add_edges-total :
    (known : List String) (id : String) (deps : List String) (g : Graph)
    → All (λ d. (elem d known ≡ true) × ((d == id) ≡ false)) deps
    → (g' : Graph) × (add_edges known id deps g ≡ ok g')
unfolding add_edges
add_edges-total known id [] g h = (g, refl)
add_edges-total known id (d ∷ deps) g h =
    let (g', e) = add_edges-total known id deps (edge id d g) h.1 in (g', rw (h.0.1, h.0.0) e)

add_nodes-total :
    (known : List String) (nodes : List Node) (g : Graph)
    → HasTargets known nodes
    → (g' : Graph) × (add_nodes known nodes g ≡ ok g')
unfolding add_nodes
add_nodes-total known [] g h = (g, refl)
add_nodes-total known (n ∷ ns) g h =
    let (g₁, e) = add_edges-total known n.id n.depends_on g h.0 in
    let (g', e') = add_nodes-total known ns g₁ h.1 in (g', rw e e')

-- Distinct items with declared dependencies and no cycle have a plan.
pub plan_nodes-total :
    (prefix : String) (nodes : List Node) (rank : String → ℕ)
    → is_nodup (ids nodes) ≡ true
    → HasTargets (ids nodes) nodes
    → IsRanked rank nodes
    → (ws : List Wave) × (plan_nodes prefix nodes ≡ ok ws)
plan_nodes-total prefix nodes rank distinct targets ranked =
    let (g, built) = add_nodes-total (ids nodes) nodes (empty_graph (ids nodes)) targets in
    elim (conclude-cases (ids nodes) (last prefix nodes g distinct built)) [
      | inl (ws, e) ↦ (ws, plan_nodes-last prefix nodes g distinct built ∙ e)
      | inr (stuck, e) ↦
          let v =
            plan_nodes-IsCycle prefix nodes stuck
              (plan_nodes-last prefix nodes g distinct built ∙ e) in
          absurd (
            IsCycle-unranked rank nodes stuck ranked v (suc (rank v.some_id)) v.some_id
              (omega arith) v.listed)
    ]
