-- ===== src/Decide/Tree/Graph.antt =====
-- `_validate_graph` of src/fabri/decide/tree.py.
use fabri.Prelude.{
  ℕ, zero, suc, String, not, ◌==◌, none, some, List, [], ◌∷◌, ◌++◌, Result, ok, err, ◌>>=◌, ◌>>◌,
  raise_if, if◌then◌else◌, ltb, length, elem, max_of, Dict, lookup, insert, keys,
}
use fabri.Decide.Tree.Config.{
  max_depth, Target, node, leaf, TreeNode, TreeError, start_missing, target_missing, cycle,
  too_deep, key_error, out_of_fuel,
}

-- The names of the nodes that a node's branches lead to.
abbrev pub node_targets : Dict Target → List String
node_targets [] = []
node_targets ((k, node n) ∷ rest) = n ∷ node_targets rest
node_targets ((k, leaf fs) ∷ rest) = node_targets rest

-- The first loop of `_validate_graph`: every node that a branch names exists.
unfoldable pub check_branches : List String → String → Dict Target → Result TreeError (Unit {0})
check_branches names at [] = ok tt
check_branches names at ((k, node n) ∷ rest) = do
  raise_if (not (elem n names)) (target_missing at k n)
  check_branches names at rest
check_branches names at ((k, leaf fs) ∷ rest) = check_branches names at rest

unfoldable pub check_targets : List String → Dict TreeNode → Result TreeError (Unit {0})
unfolding check_branches
check_targets names [] = ok tt
check_targets names ((k, n) ∷ rest) = do
  check_branches names n.name n.branches
  check_targets names rest

-- `on_path[on_path.index(name):]`.
abbrev pub from_first : String → List String → List String
from_first name [] = []
from_first name (x ∷ xs) = if x == name then x ∷ xs else from_first name xs

-- `walk` on the branches of a node, one after another: their depths, and the memo that they leave.
unfoldable pub walk_each :
    (String → Dict ℕ → Result TreeError (ℕ × Dict ℕ))
    → List String
    → Dict ℕ
    → Result TreeError (List ℕ × Dict ℕ)
walk_each walk [] depth = ok ([], depth)
walk_each walk (n ∷ ns) depth = do
  first ← walk n depth
  rest ← walk_each walk ns first.1
  ok (first.0 ∷ rest.0, rest.1)

-- `walk`: `on_path` is the path that leads to the node, `depth` the memo.
unfoldable pub walk :
    ℕ → Dict TreeNode → List String → String → Dict ℕ → Result TreeError (ℕ × Dict ℕ)
unfolding walk_each
walk zero nodes on_path name depth = err (out_of_fuel name)
walk (suc fuel) nodes on_path name depth =
    let inner = walk_each (walk fuel nodes (on_path ++ name ∷ [])) in
    if elem name on_path
    then err (cycle (from_first name on_path ++ name ∷ []))
    else elim (lookup name depth) [
      | some d ↦ ok (d, depth)
      | none ↦ elim (lookup name nodes) [
        | none ↦ err (key_error name)
        | some n ↦ do
          below ← inner (node_targets n.branches) depth
          ok (suc (max_of below.0), insert name (suc (max_of below.0)) below.1)
      ]
    ]

-- One more than the number of nodes: a path does not repeat a node.
abbrev pub walk_fuel : Dict TreeNode → ℕ
walk_fuel nodes = suc (length (keys nodes))

unfoldable pub walk_names : Dict TreeNode → List String → Dict ℕ → Result TreeError (Dict ℕ)
unfolding walk
walk_names nodes [] depth = ok depth
walk_names nodes (n ∷ ns) depth = do
  r ← walk (walk_fuel nodes) nodes [] n depth
  walk_names nodes ns r.1

-- The last test: the depth of the start.
unfoldable pub check_depth : String → Dict ℕ → Result TreeError (Unit {0})
check_depth start depth = elim (lookup start depth) [
  | none ↦ err (key_error start)
  | some d ↦ if ltb max_depth d then err (too_deep d) else ok tt
]

-- `_validate_graph`.
unfoldable pub validate_graph : String → Dict TreeNode → Result TreeError (Unit {0})
unfolding check_targets walk_names check_depth
validate_graph start nodes = do
  raise_if (not (elem start (keys nodes))) (start_missing start)
  check_targets (keys nodes) nodes
  depth ← walk_names nodes (keys nodes) []
  check_depth start depth
