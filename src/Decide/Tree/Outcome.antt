-- ===== src/Decide/Tree/Outcome.antt =====
-- How `run` of src/fabri/decide/tree.py ends on a tree that `_validate_graph` accepts.
use fabri.Prelude.{
  ℕ, zero, suc, ◌≤◌, String, some, List, [], ◌∷◌, ◌++◌, append_assoc, Result, ok, err, ◌≡◌, ◌∙◌,
  length, Dict, lookup, All-elem, arith, inl, inr, Result-cases,
}
use fabri.Value.{Fields}
use fabri.Decide.Answer.{Float, Answer}
use fabri.Decide.Tree.Config.{max_depth, TreeNode, node, leaf}
use fabri.Decide.Tree.Graph.{node_targets, validate_graph}
use fabri.Decide.Tree.Memo.{IsMemo, Below}
use fabri.Decide.Tree.Safe.{validate_graph-IsValidated}
use fabri.Decide.Tree.Run.{
  Tree, RunError, TreeResult, Decider, ask_node, run_loop, run_tree, finish,
}
use fabri.Decide.Tree.Runs.{
  IsAnswerError, Takes, Follows, last, step, lookup-node_targets, ask_node-Takes,
  ask_node-IsAnswerError, loop_err, loop_leaf, loop_node,
}

-- How the loop of `run` ends, `path` and `visited` being what it has so far.
pub data Outcome (R : Type 0) (F : Float R) (nodes : Dict TreeNode) (left : ℕ)
    (path : List (Answer R)) (visited : List String) (c : String)
    (res : Result RunError (TreeResult R)) : Type 0 where
  reached :
      (p : List (Answer R)) (v : List String) (fs : Fields)
      → res ≡ ok (finish F (path ++ p) (visited ++ v) fs)
      → length v ≤ left
      → Follows R nodes fs c p v
      → Outcome R F nodes left path visited c res
  failed :
      (e : RunError) → res ≡ err e → IsAnswerError e → Outcome R F nodes left path visited c res

module _ {R : Type 0} (F : Float R) (decide : Decider F) (nodes : Dict TreeNode) (depth : Dict ℕ)
    (memo : IsMemo nodes depth) where
  Outcome-step :
      (left : ℕ) (path : List (Answer R)) (visited : List String) (c next : String) (n : TreeNode)
      (a : Answer R) (res res' : Result RunError (TreeResult R))
      → res ≡ res'
      → lookup c nodes ≡ some n
      → Takes R n a (node next)
      → Outcome R F nodes left (path ++ a ∷ []) (visited ++ c ∷ []) next res'
      → Outcome R F nodes (suc left) path visited c res
  Outcome-step left path visited c next n a res res' same found takes (failed e h bad) =
      failed e (same ∙ h) bad
  Outcome-step left path visited c next n a res res' same found takes
        (reached p v fs h short follows) =
      let moved = rw (append_assoc path (a ∷ []) p, append_assoc visited (c ∷ []) v) at h in
      reached (a ∷ p) (c ∷ v) fs (same ∙ moved) (ground arith) (step n a next found takes follows)

  run_loop-Outcome :
      (left : ℕ) (path : List (Answer R)) (visited : List String) (c : String) (d : ℕ)
      → lookup c depth ≡ some d
      → d ≤ left
      → Outcome R F nodes left path visited c (run_loop F left decide nodes path visited c)
  run_loop-Outcome zero path visited c d held within =
      absurd (let p = (memo c d held).positive in omega arith)
  run_loop-Outcome (suc left) path visited c d held within =
      let entry = memo c d held in
      let n = entry.at in
      elim (Result-cases (ask_node F decide (length path) n c)) [
        | inr (e, bad) ↦
            failed e (loop_err F decide nodes left path visited c n entry.found e bad)
              (ask_node-IsAnswerError F decide (length path) n c e bad)
        | inl ((a, leaf fs), asked) ↦
            reached (a ∷ []) (c ∷ []) fs
              (loop_leaf F decide nodes left path visited c n entry.found a fs asked) (omega arith)
              (last n a entry.found (ask_node-Takes F decide (length path) n c a (leaf fs) asked))
        | inl ((a, node next), asked) ↦
            let takes = ask_node-Takes F decide (length path) n c a (node next) asked in
            let (k, at, lower) =
              All-elem (Below depth d) next (node_targets n.branches) entry.below
                (lookup-node_targets _ next n.branches takes.branch) in
            Outcome-step left path visited c next n a _ _
              (loop_node F decide nodes left path visited c n entry.found a next asked) entry.found
              takes
              (run_loop-Outcome left (path ++ a ∷ []) (visited ++ c ∷ []) next k at (omega arith))
      ]

-- On a tree that `_validate_graph` accepts, `run` either ends at a leaf, having visited at most
-- `max_depth` nodes, each by the branch that the answer of the one before takes, or it ends with an
-- error that lies with a decider or its answers: it never exceeds the depth and never looks up a node
-- that is not there.
pub run_tree-Outcome :
    {R : Type 0} (F : Float R) (decide : Decider F) (tree : Tree)
    → validate_graph tree.start tree.nodes ≡ ok tt
    → Outcome R F tree.nodes max_depth [] [] tree.start (run_tree F decide tree)
unfolding run_tree
run_tree-Outcome F decide tree h =
    let v = validate_graph-IsValidated tree.start tree.nodes h in
    run_loop-Outcome F decide tree.nodes v.depth v.memo max_depth [] [] tree.start v.height
      v.at_start v.within
