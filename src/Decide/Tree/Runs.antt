-- ===== src/Decide/Tree/Runs.antt =====
-- A tree that `_validate_graph` of src/fabri/decide/tree.py accepts is walked by `run` to a leaf or to
-- an answer that is missing or unusable, within `max_depth` nodes.
use fabri.Prelude.{
  ℕ, suc, String, true, none, some, List, [], ◌∷◌, ◌++◌, ok, err, ◌>>=◌, ◌≡◌, ◌⊎◌, sym, subst,
  subst₂, >>=-eq-ok, >>=-eq-err, ◌∙◌, length, elem, Dict, lookup, arith, eq_iff, inl, inr,
  Option-cases, Result-cases,
}
use fabri.Value.{Fields}
use fabri.Decide.Question.{AnswerValue, answer_key}
use fabri.Decide.Answer.{Float, Answer}
use fabri.Decide.Tree.Config.{TreeNode, Target, node, leaf}
use fabri.Decide.Tree.Graph.{node_targets}
use fabri.Decide.Tree.Run.{
  RunError, decider_failed, no_answer, unusable_answer, no_branch, depth_exceeded, run_key_error,
  Decider, take_branch, ask_node, run_loop, finish,
}

-- An error that lies with the answers, not with the tree.
abbrev pub IsAnswerError : RunError → Type 0
IsAnswerError depth_exceeded = ⊥
IsAnswerError (run_key_error n) = ⊥
IsAnswerError _ = Unit

-- The answer of a node takes one of its branches.
pub record Takes (R : Type 0) (n : TreeNode) (a : Answer R) (t : Target) : Type 0 where
  pub value : AnswerValue
  pub fine : a.error ≡ none
  pub given : a.value ≡ some value
  pub branch : lookup (answer_key value) n.branches ≡ some t

-- A run from a node: each answer takes a branch to the next node, and the last one to the leaf.
pub data Follows (R : Type 0) (nodes : Dict TreeNode) (fs : Fields)
    : String → List (Answer R) → List String → Type 0 where
  last :
      {c : String} (n : TreeNode) (a : Answer R)
      → lookup c nodes ≡ some n
      → Takes R n a (leaf fs)
      → Follows R nodes fs c (a ∷ []) (c ∷ [])
  step :
      {c : String} (n : TreeNode) (a : Answer R) (next : String) {path : List (Answer R)}
      {visited : List String}
      → lookup c nodes ≡ some n
      → Takes R n a (node next)
      → Follows R nodes fs next path visited
      → Follows R nodes fs c (a ∷ path) (c ∷ visited)

pub lookup-node_targets :
    (k n : String) (branches : Dict Target)
    → lookup k branches ≡ some (node n)
    → elem n (node_targets branches) ≡ true
lookup-node_targets k n [] h = absurd (cc)
lookup-node_targets k n ((j, node m) ∷ rest) h =
    ground (arith, lookup-node_targets k n rest, eq_iff m n)
lookup-node_targets k n ((j, leaf fs) ∷ rest) h = ground (arith, lookup-node_targets k n rest)

module _ {R : Type 0} (F : Float R) (decide : Decider F) where
  take_branch-Takes :
      (n : TreeNode) (c : String) (a : Answer R) (t : Target)
      → take_branch F n c a ≡ ok t
      → Takes R n a t
  unfolding take_branch
  take_branch-Takes n c a t h = elim (Option-cases a.error) [
    | inr (x, bad) ↦ absurd (ground arith)
    | inl fine ↦ elim (Option-cases a.value) [
      | inl gone ↦ absurd (ground arith)
      | inr (v, given) ↦ record { value = v; fine = fine; given = given; branch = ground arith }
    ]
  ]

  take_branch-IsAnswerError :
      (n : TreeNode) (c : String) (a : Answer R) (e : RunError)
      → take_branch F n c a ≡ err e
      → (e ≡ unusable_answer c) ⊎ (e ≡ no_branch c)
  unfolding take_branch
  take_branch-IsAnswerError n c a e h = elim (Option-cases a.error) [
    | inr (x, bad) ↦ inl (ground arith)
    | inl fine ↦ elim (Option-cases a.value) [
      | inl gone ↦ inl (ground arith)
      | inr (v, given) ↦ inr (ground arith)
    ]
  ]

  asked :
      (call : ℕ) (n : TreeNode) (c : String) (answers : Dict (Answer R)) (b : Answer R)
      → decide call n.question ≡ ok answers
      → lookup n.question.key answers ≡ some b
      → ask_node F decide call n c ≡ (take_branch F n c b >>= λ t. ok (b, t))
  unfolding ask_node
  asked call n c answers b p q = rw (p, ask_node) (rw (q, ask_node))

  -- An answer that the decider gave to the node's question.
  pub ask_node-Takes :
      (call : ℕ) (n : TreeNode) (c : String) (a : Answer R) (t : Target)
      → ask_node F decide call n c ≡ ok (a, t)
      → Takes R n a t
  unfolding ask_node
  ask_node-Takes call n c a t h = elim (Result-cases (decide call n.question)) [
    | inr (e, bad) ↦ absurd (ground arith)
    | inl (answers, given) ↦ elim (Option-cases (lookup n.question.key answers)) [
      | inl gone ↦ absurd (ground arith)
      | inr (b, found) ↦
          let (t', took, rest) =
            >>=-eq-ok (take_branch F n c b) (λ x. ok (b, x))
              (sym (asked call n c answers b given found) ∙ h) in
          let this : b ≡ a = ground arith in
          let that : t' ≡ t = ground arith in
          subst₂ (Takes R n) this that (take_branch-Takes n c b t' took)
    ]
  ]

  pub ask_node-IsAnswerError :
      (call : ℕ) (n : TreeNode) (c : String) (e : RunError)
      → ask_node F decide call n c ≡ err e
      → IsAnswerError e
  unfolding ask_node
  ask_node-IsAnswerError call n c e h = elim (Result-cases (decide call n.question)) [
    | inr (x, bad) ↦ let same : decider_failed x ≡ e = ground arith in subst IsAnswerError same tt
    | inl (answers, given) ↦ elim (Option-cases (lookup n.question.key answers)) [
      | inl gone ↦ let same : no_answer c ≡ e = ground arith in subst IsAnswerError same tt
      | inr (b, found) ↦
          elim (>>=-eq-err (take_branch F n c b) (λ x. ok (b, x))
            (sym (asked call n c answers b given found) ∙ h)) [
              | inr (t, _, fine) ↦ absurd (cc)
              | inl bad ↦ elim (take_branch-IsAnswerError n c b e bad) [
                | inl x ↦ subst IsAnswerError (sym x) tt
                | inr x ↦ subst IsAnswerError (sym x) tt
              ]
            ]
    ]
  ]

  module _ (nodes : Dict TreeNode) (left : ℕ) (path : List (Answer R)) (visited : List String)
      (c : String) where
    module _ (n : TreeNode) (found : lookup c nodes ≡ some n) where
      pub loop_err :
          (e : RunError)
          → ask_node F decide (length path) n c ≡ err e
          → run_loop F (suc left) decide nodes path visited c ≡ err e
      unfolding run_loop
      loop_err e h = rw (found, run_loop) (rw (h, run_loop))

      pub loop_leaf :
          (a : Answer R) (fs : Fields)
          → ask_node F decide (length path) n c ≡ ok (a, leaf fs)
          → run_loop F (suc left) decide nodes path visited c
            ≡ ok (finish F (path ++ a ∷ []) (visited ++ c ∷ []) fs)
      unfolding run_loop
      loop_leaf a fs h = rw (found, run_loop) (rw (h, run_loop))

      pub loop_node :
          (a : Answer R) (next : String)
          → ask_node F decide (length path) n c ≡ ok (a, node next)
          → run_loop F (suc left) decide nodes path visited c
            ≡ run_loop F left decide nodes (path ++ a ∷ []) (visited ++ c ∷ []) next
      unfolding run_loop
      loop_node a next h = rw (found, run_loop) (rw (h, run_loop))
