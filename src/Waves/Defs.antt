-- ===== src/Waves/Defs.antt =====
-- The data and the functions of src/fabri/builder/waves.py.
use fabri.Prelude.{
  ℕ, zero, suc, ◌+◌, ◌-◌, String, Bool, true, false, not, ◌==◌, Option, List, [], ◌∷◌, ◌++◌, map,
  Result, ok, err, ◌>>=◌, ◌>>◌, raise_if, traverse, Dict, lookup, insert, if◌then◌else◌, eqb, ltb,
  length, elem, count, filter, is_nodup, dedup, or_else, is_blank, sorted,
}

-- An item's `id` as the caller gives it: absent, a text, or another value with its `str()`.
pub data RawId : Type 0 where
  missing : RawId
  text other : String → RawId

-- A mapping or an object with `id` and `depends_on`, each dependency by its `str()`.
pub record RawItem : Type 0 where
  pub id : RawId
  pub depends_on : Option (List String)

pub record Node : Type 0 where
  pub id : String
  pub depends_on : List String

-- The tag `f"{group_prefix}{n}"`, by its two parts.
pub record Group : Type 0 where
  pub prefix : String
  pub index : ℕ

pub record Wave : Type 0 where
  pub group : Group
  pub ids : List String

pub data WaveError : Type 0 where
  missing_id : WaveError
  duplicate_ids : List String → WaveError
  self_dependency : String → WaveError
  unknown_dependency : String → String → WaveError
  cycle : List String → WaveError

pub record SpawnDescriptor : Type 0 where
  pub id : String
  pub parallel_group : Group

-- The body of the loop of `_normalize`.
unfoldable normalize_item : RawItem → Result WaveError Node
normalize_item item = elim item.id [
  | missing ↦ err missing_id
  | text s ↦
      if is_blank s
      then err missing_id
      else ok (record { id = s; depends_on = or_else item.depends_on [] })
  | other s ↦ ok (record { id = s; depends_on = or_else item.depends_on [] })
]

unfoldable normalize : List RawItem → Result WaveError (List Node)
unfolding normalize_item traverse is_blank
normalize items = traverse normalize_item items

abbrev pub ids : List Node → List String
ids nodes = map (λ n. n.id) nodes

-- The two dictionaries of `plan_waves`.
pub record Graph : Type 0 where
  pub indeg : Dict ℕ
  pub children : Dict (List String)

-- `indeg[i]` and `children[i]`; each id of an item is a key of both.
abbrev pub indeg_at : String → Dict ℕ → ℕ
indeg_at i m = or_else (lookup i m) 0

abbrev pub children_at : String → Dict (List String) → List String
children_at i m = or_else (lookup i m) []

unfoldable pub empty_graph : List String → Graph
empty_graph order = record { indeg = map (λ i. (i, 0)) order; children = map (λ i. (i, [])) order }

abbrev pub edge : String → String → Graph → Graph
edge id dep g = record {
  indeg = insert id (indeg_at id g.indeg + 1) g.indeg;
  children = insert dep (children_at dep g.children ++ id ∷ []) g.children;
}

unfoldable pub add_edge : List String → String → String → Graph → Result WaveError Graph
add_edge known id dep g = do
  raise_if (dep == id) (self_dependency id)
  raise_if (not (elem dep known)) (unknown_dependency id dep)
  ok (edge id dep g)

unfoldable pub add_edges : List String → String → List String → Graph → Result WaveError Graph
unfolding add_edge
add_edges known id [] g = ok g
add_edges known id (dep ∷ deps) g = do g' ← add_edge known id dep g; add_edges known id deps g'

unfoldable pub add_nodes : List String → List Node → Graph → Result WaveError Graph
unfolding add_edges
add_nodes known [] g = ok g
add_nodes known (node ∷ nodes) g = do
  g' ← add_edges known node.id node.depends_on g
  add_nodes known nodes g'

-- `indeg[child] -= 1`, and the child is freed when that gives 0. A count below zero is kept at zero
-- here: no test of the loop tells the two apart.
unfoldable pub release : String → Dict ℕ × List String → Dict ℕ × List String
release child (indeg, freed) = (
  insert child (indeg_at child indeg - 1) indeg,
  if eqb (indeg_at child indeg) 1 then child ∷ freed else freed,
)

unfoldable pub release_all : List String → Dict ℕ × List String → Dict ℕ × List String
unfolding release
release_all [] s = s
release_all (child ∷ rest) s = release_all rest (release child s)

-- The two inner loops of a round: every child of every ready item.
unfoldable pub finish_all :
    Dict (List String) → List String → Dict ℕ × List String → Dict ℕ × List String
unfolding release_all
finish_all children [] s = s
finish_all children (i ∷ rest) s = finish_all children rest (release_all (children_at i children) s)

pub record Layering : Type 0 where
  pub waves : List Wave
  pub placed : ℕ
  pub indeg : Dict ℕ
  pub ready : List String

abbrev pub wave_of : String → ℕ → List String → Wave
wave_of prefix n ready = record { group = record { prefix = prefix; index = n }; ids = ready }

-- One turn of `while ready`.
unfoldable pub round : String → List String → Dict (List String) → Layering → Layering
unfolding finish_all
round prefix order children s =
    let (indeg, freed) = finish_all children s.ready (s.indeg, []) in
    record {
      waves = s.waves ++ wave_of prefix (length s.waves + 1) s.ready ∷ [];
      placed = s.placed + length s.ready;
      indeg = indeg;
      ready = filter (λ i. elem i freed) order;
    }

abbrev pub is_done : List String → Bool
is_done [] = true
is_done (i ∷ rest) = false

-- `while ready`, on fuel.
unfoldable pub rounds : ℕ → String → List String → Dict (List String) → Layering → Layering
unfolding round
rounds zero prefix order children s = s
rounds (suc fuel) prefix order children s = elim (is_done s.ready) [
  | true ↦ s
  | false ↦ rounds fuel prefix order children (round prefix order children s)
]

unfoldable pub start : List String → Graph → Layering
start order g = record {
  waves = [];
  placed = 0;
  indeg = g.indeg;
  ready = filter (λ i. eqb (indeg_at i g.indeg) 0) order;
}

-- What the loop leaves, as the function reports it.
unfoldable pub conclude : List String → Layering → Result WaveError (List Wave)
unfolding sorted
conclude order s =
    if eqb s.placed (length order)
    then ok s.waves
    else err (cycle (sorted (filter (λ i. ltb 0 (indeg_at i s.indeg)) order)))

-- The layering of the nodes, with one round of fuel more than there are items.
unfoldable layer : String → List Node → Graph → Result WaveError (List Wave)
unfolding rounds start conclude
layer prefix nodes g =
    conclude (ids nodes)
      (rounds (suc (length (ids nodes))) prefix (ids nodes) g.children (start (ids nodes) g))

unfoldable pub plan_nodes : String → List Node → Result WaveError (List Wave)
unfolding layer add_nodes empty_graph sorted
plan_nodes prefix nodes =
    if is_nodup (ids nodes)
    then (do g ← add_nodes (ids nodes) nodes (empty_graph (ids nodes)); layer prefix nodes g)
    else err
        (duplicate_ids (sorted (dedup (filter (λ i. ltb 1 (count i (ids nodes))) (ids nodes)))))

-- `plan_waves`; without items the loops do nothing and no wave is made.
unfoldable pub plan_waves : String → List RawItem → Result WaveError (List Wave)
unfolding normalize plan_nodes
plan_waves prefix items = do nodes ← normalize items; plan_nodes prefix nodes

unfoldable pub descriptors_of : Wave → List String → List SpawnDescriptor
descriptors_of w [] = []
descriptors_of w (i ∷ rest) = record { id = i; parallel_group = w.group } ∷ descriptors_of w rest

unfoldable pub spawn_descriptors : List Wave → List SpawnDescriptor
unfolding descriptors_of
spawn_descriptors [] = []
spawn_descriptors (w ∷ ws) = descriptors_of w w.ids ++ spawn_descriptors ws
