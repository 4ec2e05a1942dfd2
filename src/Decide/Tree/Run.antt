-- ===== src/Decide/Tree/Run.antt =====
-- `from_yaml` and `run` of src/fabri/decide/tree.py.
use fabri.Prelude.{
  ℕ, zero, suc, String, none, some, List, [], ◌∷◌, ◌++◌, map, Result, ok, err, ◌>>=◌, ◌>>◌,
  if◌then◌else◌, length, Dict, lookup, is_empty,
}
use fabri.Value.{Value, str, mapping, Fields, field, get_field, entries}
use fabri.Decide.Question.{Question, answer_key}
use fabri.Decide.Answer.{Float, Answer}
use fabri.Decide.Tree.Config.{
  max_depth, Target, node, leaf, TreeNode, TreeError, not_a_mapping, no_nodes, no_start,
  parse_nodes,
}
use fabri.Decide.Tree.Graph.{validate_graph}

pub record Tree : Type 0 where
  pub start : String
  pub nodes : Dict TreeNode

-- `DecisionTree.from_yaml` of a mapping, up to the decider and the name.
unfoldable parse_start : Value → Result TreeError String
unfolding is_empty
parse_start (str s) = if is_empty s then err no_start else ok s
parse_start _ = err no_start

abbrev node_fields : Value → Result TreeError Fields
node_fields (mapping (field k v fs)) = ok (field k v fs)
node_fields _ = err no_nodes

unfoldable load_tree : Value → Result TreeError Tree
unfolding validate_graph parse_nodes parse_start get_field entries
load_tree (mapping config) = do
  raw_nodes ← node_fields (get_field "nodes" config)
  start ← parse_start (get_field "start" config)
  nodes ← parse_nodes [] (entries raw_nodes)
  validate_graph start nodes
  ok (record { start = start; nodes = nodes })
load_tree _ = err not_a_mapping

pub data RunError : Type 0 where
  decider_failed no_answer unusable_answer no_branch : String → RunError
  run_key_error : String → RunError
  depth_exceeded : RunError

pub record TreeResult (R : Type 0) : Type 0 where
  pub path : List (Answer R)
  pub leaf : Fields
  pub cost_usd : R
  pub latency_ms : R
  pub nodes : List String

module _ {R : Type 0} (F : Float R) where
  open F use {zero_f, add}

  -- What the decider returns at each call: the calls are counted, as it may answer differently.
  abbrev pub Decider : Type 0
  Decider = ℕ → Question → Result String (Dict (Answer R))

  -- `sum` of floats.
  abbrev sum_f : R → List R → R
  sum_f acc [] = acc
  sum_f acc (x ∷ xs) = sum_f (add acc x) xs

  abbrev pub finish : List (Answer R) → List String → Fields → TreeResult R
  finish path visited fs = record {
    path = path;
    leaf = fs;
    cost_usd = sum_f zero_f (map (λ a. a.cost_usd) path);
    latency_ms = sum_f zero_f (map (λ a. a.latency_ms) path);
    nodes = visited;
  }

  -- The branch that an answer takes.
  unfoldable pub take_branch : TreeNode → String → Answer R → Result RunError Target
  unfolding answer_key
  take_branch n current a = elim a.error [
    | some e ↦ err (unusable_answer current)
    | none ↦ elim a.value [
      | none ↦ err (unusable_answer current)
      | some v ↦ elim (lookup (answer_key v) n.branches) [
        | none ↦ err (no_branch current)
        | some t ↦ ok t
      ]
    ]
  ]

  -- One node: the answer to its question, and where that leads.
  unfoldable pub ask_node : Decider → ℕ → TreeNode → String → Result RunError (Answer R × Target)
  unfolding take_branch
  ask_node decide call n current = elim (decide call n.question) [
    | err e ↦ err (decider_failed e)
    | ok answers ↦ elim (lookup n.question.key answers) [
      | none ↦ err (no_answer current)
      | some a ↦ do t ← take_branch n current a; ok (a, t)
    ]
  ]

  -- The loop of `run`: `left` turns are left.
  unfoldable pub run_loop :
      ℕ
      → Decider
      → Dict TreeNode
      → List (Answer R)
      → List String
      → String
      → Result RunError (TreeResult R)
  unfolding ask_node
  run_loop zero decide nodes path visited current = err depth_exceeded
  run_loop (suc left) decide nodes path visited current = elim (lookup current nodes) [
    | none ↦ err (run_key_error current)
    | some n ↦ elim (ask_node decide (length path) n current) [
      | err e ↦ err e
      | ok (a, t) ↦ elim t [
        | leaf fs ↦ ok (finish (path ++ a ∷ []) (visited ++ current ∷ []) fs)
        | node next ↦ run_loop left decide nodes (path ++ a ∷ []) (visited ++ current ∷ []) next
      ]
    ]
  ]

  -- `DecisionTree.run`.
  unfoldable pub run_tree : Decider → Tree → Result RunError (TreeResult R)
  unfolding run_loop
  run_tree decide tree = run_loop max_depth decide tree.nodes [] [] tree.start
