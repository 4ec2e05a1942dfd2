-- ===== src/Planner/Defs.antt =====
-- src/fabri/core/planner.py: `plan`, the reading of the planner's reply, and `topological_order`.
use fabri.Prelude.{
  ℕ, zero, suc, ◌+◌, ◌-◌, String, Bool, not, ◌&&◌, Option, none, some, List, [], ◌∷◌, ◌++◌,
  if◌then◌else◌, eqb, ltb, length, take, filter, or_else, strip, is_empty,
}
use fabri.Value.{Value, Items, bool, num, str, seq, mapping, nil, cons, get_field}
use fabri.Indices.{elem, range, replicate, get_or, set}

-- The dependencies are indices: `_as_int_list` lets no negative one through.
pub record PlanItem : Type 0 where
  pub goal : String
  pub artifacts : List String
  pub depends_on : List ℕ
  pub tool_hints : List String

-- `json.loads`, which is `none` where it raises, and the two regular expressions: the text without
-- its code fences, and the span from the first `{` to the last `}`.
pub record Json : Type 0 where
  pub loads : String → Option Value
  pub unfence : String → String
  pub braces : String → Option String

-- `_as_str_list`.
abbrev strings : Items → List String
strings nil = []
strings (cons (str s) vs) = s ∷ strings vs
strings (cons v vs) = strings vs

unfoldable pub as_str_list : Value → List String
as_str_list (seq vs) = strings vs
as_str_list v = []

-- `_as_int_list`: a Python `bool` is an `int`, and stands for 0 or 1 as an index.
abbrev indices : Items → List ℕ
indices nil = []
indices (cons (num n) vs) = n ∷ indices vs
indices (cons (bool b) vs) = (if b then 1 else 0) ∷ indices vs
indices (cons v vs) = indices vs

unfoldable pub as_int_list : Value → List ℕ
as_int_list (seq vs) = indices vs
as_int_list v = []

-- One entry of the reply: it is skipped where it has no goal.
unfoldable pub item_of : Value → List PlanItem → List PlanItem
unfolding as_str_list as_int_list get_field is_empty
item_of (mapping fs) rest = elim (get_field "goal" fs) [
  | str goal ↦
      if is_empty (strip goal)
      then rest
      else record {
        goal = strip goal;
        artifacts = as_str_list (get_field "artifacts" fs);
        depends_on = as_int_list (get_field "depends_on" fs);
        tool_hints = as_str_list (get_field "tool_hints" fs);
      }
        ∷ rest
  | _ ↦ rest
]
item_of v rest = rest

unfoldable pub items_of : Items → List PlanItem
unfolding item_of
items_of nil = []
items_of (cons v vs) = item_of v (items_of vs)

-- `_extract_json_object`.
unfoldable pub extract_json_object : Json → String → Option Value
unfolding strip
extract_json_object json t = elim (json.loads (json.unfence (strip t))) [
  | some v ↦ some v
  | none ↦ elim (json.loads t) [
    | some v ↦ some v
    | none ↦ elim (json.braces t) [ some block ↦ json.loads block | none ↦ none ]
  ]
]

-- `_parse_plan`.
unfoldable pub items_field : Value → List PlanItem
unfolding items_of get_field
items_field (mapping fs) = elim (get_field "items" fs) [ seq vs ↦ items_of vs | _ ↦ [] ]
items_field v = []

unfoldable pub parse_plan : Json → String → List PlanItem
unfolding extract_json_object items_field
parse_plan json t = elim (extract_json_object json t) [ some v ↦ items_field v | none ↦ [] ]

abbrev pub default_max_plan_items : ℕ
default_max_plan_items = 8

-- `plan`, on the final text of the model's reply.
abbrev pub or_task : String → List PlanItem → List PlanItem
or_task task [] = record { goal = task; artifacts = []; depends_on = []; tool_hints = [] } ∷ []
or_task task (item ∷ items) = item ∷ items

unfoldable pub plan : Json → String → ℕ → Option String → List PlanItem
unfolding parse_plan strip
plan json task max_items final_text =
    take max_items (or_task task (parse_plan json (strip (or_else final_text ""))))

-- The lists `indeg` and `children`.
pub record Graph : Type 0 where
  pub indeg : List ℕ
  pub children : List (List ℕ)

-- `0 <= dep < n and dep != i`.
abbrev pub is_edge : ℕ → ℕ → ℕ → Bool
is_edge n i dep = ltb dep n && not (eqb dep i)

unfoldable pub add_dep : ℕ → ℕ → ℕ → Graph → Graph
add_dep n i dep g =
    if is_edge n i dep
    then record {
      indeg = set g.indeg i (get_or g.indeg i 0 + 1);
      children = set g.children dep (get_or g.children dep [] ++ i ∷ []);
    }
    else g

unfoldable pub add_deps : ℕ → ℕ → List ℕ → Graph → Graph
unfolding add_dep
add_deps n i [] g = g
add_deps n i (dep ∷ deps) g = add_deps n i deps (add_dep n i dep g)

-- The loop over `enumerate(items)`, from an index on.
unfoldable pub add_items : ℕ → ℕ → List PlanItem → Graph → Graph
unfolding add_deps
add_items n i [] g = g
add_items n i (item ∷ items) g = add_items n (suc i) items (add_deps n i item.depends_on g)

unfoldable pub graph_of : List PlanItem → Graph
unfolding add_items
graph_of items =
    let n = length items in
    add_items n 0 items (record { indeg = replicate n 0; children = replicate n [] })

-- The state of the `while`.
pub record Queue : Type 0 where
  pub indeg : List ℕ
  pub ready : List ℕ
  pub order : List ℕ

-- `indeg[c] -= 1` and the test that it has come down to 0.
unfoldable pub release : ℕ → List ℕ → List ℕ → List ℕ × List ℕ
release c indeg ready =
    let left = get_or indeg c 0 in
    (set indeg c (left - 1), if eqb left 1 then ready ++ c ∷ [] else ready)

unfoldable pub release_all : List ℕ → List ℕ → List ℕ → List ℕ × List ℕ
unfolding release
release_all [] indeg ready = (indeg, ready)
release_all (c ∷ cs) indeg ready =
    release_all cs (release c indeg ready).0 (release c indeg ready).1

-- One turn, at the first ready index.
unfoldable pub visit : List (List ℕ) → ℕ → List ℕ → Queue → Queue
unfolding release_all
visit children i rest q =
    let (indeg, ready) = release_all (get_or children i []) q.indeg rest in
    record { indeg = indeg; ready = ready; order = q.order ++ i ∷ [] }

unfoldable pub turn : List (List ℕ) → Queue → List ℕ → Queue
unfolding visit
turn children q [] = q
turn children q (i ∷ rest) = visit children i rest q

unfoldable pub loop : ℕ → List (List ℕ) → Queue → Queue
unfolding turn
loop zero children q = q
loop (suc fuel) children q = loop fuel children (turn children q q.ready)

-- The indices that nothing waits for, and the loop on one unit of fuel for each item.
unfoldable pub start : List PlanItem → Queue
unfolding graph_of
start items =
    let indeg = (graph_of items).indeg in
    record {
      indeg = indeg;
      ready = filter (λ i. eqb (get_or indeg i 0) 0) (range (length items));
      order = [];
    }

unfoldable pub settle : List PlanItem → Queue
unfolding loop start
settle items = loop (length items) (graph_of items).children (start items)

unfoldable pub topological_order : List PlanItem → List ℕ
unfolding settle
topological_order items =
    let order = (settle items).order in
    let n = length items in
    if eqb (length order) n then order else order ++ filter (λ i. not (elem i order)) (range n)
