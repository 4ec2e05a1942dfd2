-- ===== src/Decide/Tree/Depth.antt =====
-- The depth of a tree of src/fabri/decide/tree.py, by the chains of its nodes.
use fabri.Prelude.{
  ℕ, zero, suc, ◌≤◌, String, true, some, List, [], ◌∷◌, ◌≡◌, subst, elem, Dict, lookup, All,
  All-elem, Any, arith, eq_iff, inl, inr,
}
use fabri.Decide.Tree.Config.{TreeNode}
use fabri.Decide.Tree.Graph.{node_targets}
use fabri.Decide.Tree.Memo.{Below, IsMemo}

-- A chain of nodes, of a length, that begins at a node and goes along branches.
pub data Chain (nodes : Dict TreeNode) : ℕ → String → Type 0 where
  ends : (n : String) (at : TreeNode) → lookup n nodes ≡ some at → Chain nodes 1 n
  goes_on :
      (d : ℕ) (n t : String) (at : TreeNode)
      → lookup n nodes ≡ some at
      → elem t (node_targets at.branches) ≡ true
      → Chain nodes d t
      → Chain nodes (suc d) n

-- The longest chain from a node.
pub record IsHeight (nodes : Dict TreeNode) (n : String) (d : ℕ) : Type 0 where
  pub attained : Chain nodes d n
  pub greatest : (e : ℕ) → Chain nodes e n → e ≤ d

module _ (nodes : Dict TreeNode) (depth : Dict ℕ) (memo : IsMemo nodes depth) where
  Chain-le : (e : ℕ) (n : String) → Chain nodes e n → (d : ℕ) → lookup n depth ≡ some d → e ≤ d
  Chain-le e n (ends m at f) d h = let p = (memo m d h).positive in omega arith
  Chain-le e n (goes_on e' m t at f b c) d h =
      let entry = memo m d h in
      let same : entry.at ≡ at = ground (arith, entry.found, f) in
      let (x, held, lt) =
        All-elem (Below depth d) t (node_targets at.branches)
          (subst (λ a. All (Below depth d) (node_targets a.branches)) same entry.below) b in
      omega (arith, Chain-le e' t c x held)

  any_target :
      (ts : List String) (d : ℕ)
      → Any (λ t. (e : ℕ) × (lookup t depth ≡ some e) × (d ≡ suc e)) ts
      → (t : String) × (e : ℕ) × (elem t ts ≡ true) × (lookup t depth ≡ some e) × (d ≡ suc e)
  any_target [] d h = absurd h
  any_target (t ∷ ts) d (inl (e, f, g)) = (t, e, ground (arith, eq_iff t t), f, g)
  any_target (t ∷ ts) d (inr h) =
      let (u, e, m, f, g) = any_target ts d h in (u, e, ground (arith, m), f, g)

  Chain-of : (fuel d : ℕ) (n : String) → d ≤ fuel → lookup n depth ≡ some d → Chain nodes d n
  Chain-of zero d n le h = let p = (memo n d h).positive in absurd (omega arith)
  Chain-of (suc fuel) d n le h =
      let entry = memo n d h in
      elim entry.tight [
        | inl one ↦ rw one (ends n entry.at entry.found)
        | inr any ↦
            let (t, e, m, f, g) = any_target (node_targets entry.at.branches) d any in
            rw g (goes_on e n t entry.at entry.found m (Chain-of fuel e t (omega (arith, g)) f))
      ]

  pub IsHeight-of : (n : String) (d : ℕ) → lookup n depth ≡ some d → IsHeight nodes n d
  IsHeight-of n d h = record {
    attained = Chain-of d d n (omega arith) h;
    greatest = λ e c. Chain-le e n c d h;
  }
