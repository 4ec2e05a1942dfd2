-- ===== src/Decide/Tree/Safe.antt =====
-- What `_validate_graph` of src/fabri/decide/tree.py accepts, and what its errors say.
use fabri.Prelude.{
  ℕ, ◌≤◌, ◌<◌, String, true, false, some, List, [], ◌∷◌, ok, err, >>=-eq-ok, >>=-eq-err, ok≢err,
  ◌≡◌, ◌⊎◌, refl, subst, ◌∙◌, if◌then◌else◌, ltb, elem, Dict, lookup, keys, All, All-elem, Any,
  arith, Bool-cases, inl, inr, Result-cases,
}
use fabri.Decide.Tree.Config.{
  max_depth, TreeNode, TreeError, Target, node, leaf, start_missing, target_missing, too_deep,
}
use fabri.Decide.Tree.Graph.{
  walk, walk_fuel, walk_names, check_targets, check_branches, check_depth, validate_graph,
}
use fabri.Decide.Tree.Memo.{IsMemo, walk-Walked}
use fabri.Decide.Tree.Depth.{IsHeight, IsHeight-of}
use fabri.Decide.Tree.Cycles.{IsGenuine, walk_names_error}

-- What the walks from all names leave.
record WalkedNames (nodes : Dict TreeNode) (ns : List String) (old new : Dict ℕ) : Type 0 where
  memo : IsMemo nodes new
  keeps : (n : String) (d : ℕ) → lookup n old ≡ some d → lookup n new ≡ some d
  held : All (λ n. (d : ℕ) × (lookup n new ≡ some d)) ns

walk_names-WalkedNames :
    (nodes : Dict TreeNode) (ns : List String) (old new : Dict ℕ)
    → IsMemo nodes old
    → walk_names nodes ns old ≡ ok new
    → WalkedNames nodes ns old new
unfolding walk_names
walk_names-WalkedNames nodes [] old new m h =
    let same : old ≡ new = ground arith in
    subst (WalkedNames nodes [] old) same (record { memo = m; keeps = λ n d e. e; held = tt })
walk_names-WalkedNames nodes (n ∷ ns) old new m h =
    let (r, e, rest) =
      >>=-eq-ok (walk (walk_fuel nodes) nodes [] n old) (λ r. walk_names nodes ns r.1) h in
    let one = walk-Walked (walk_fuel nodes) nodes [] n old r.0 r.1 m e in
    let more = walk_names-WalkedNames nodes ns r.1 new one.memo rest in
    record {
      memo = more.memo;
      keeps = λ k d x. more.keeps k d (one.extends.keeps k d x);
      held = ((r.0, more.keeps n r.0 one.held), more.held);
    }

-- What `_validate_graph` accepts: the branches lead to nodes, and a memo of all nodes puts the start
-- within the depth that is allowed.
pub record IsValidated (start : String) (nodes : Dict TreeNode) : Type 0 where
  pub depth : Dict ℕ
  pub memo : IsMemo nodes depth
  pub height : ℕ
  pub at_start : lookup start depth ≡ some height
  pub within : height ≤ max_depth

check_depth-at :
    (start : String) (depth : Dict ℕ) (d : ℕ)
    → lookup start depth ≡ some d
    → check_depth start depth ≡ (if ltb max_depth d then err (too_deep d) else ok tt)
unfolding check_depth
check_depth-at start depth d h = rw (h, check_depth)

validate_graph-cases :
    (start : String) (nodes : Dict TreeNode)
    → elem start (keys nodes) ≡ true
    → check_targets (keys nodes) nodes ≡ ok tt
    → (depth : Dict ℕ) (d : ℕ) → walk_names nodes (keys nodes) [] ≡ ok depth
    → lookup start depth ≡ some d
    → validate_graph start nodes ≡ (if ltb max_depth d then err (too_deep d) else ok tt)
unfolding validate_graph
validate_graph-cases start nodes a b depth d e f = rw (a, b, e) (check_depth-at start depth d f)

-- The node of a name has a branch of a key to the node of another name.
abbrev HasBranches : Dict Target → String → String → Type 0
HasBranches branches k n = Any (λ b. b ≡ (k, node n)) branches

abbrev pub HasBranch : Dict TreeNode → String → String → String → Type 0
HasBranch nodes at k n = Any (λ p. (p.1.name ≡ at) × HasBranches p.1.branches k n) nodes

-- Why `_validate_graph` refuses a tree.
pub data IsExplained (start : String) (nodes : Dict TreeNode) (e : TreeError) : Type 0 where
  no_start_node :
      e ≡ start_missing start → elem start (keys nodes) ≡ false → IsExplained start nodes e
  dangling :
      (at k n : String)
      → e ≡ target_missing at k n
      → HasBranch nodes at k n
      → elem n (keys nodes) ≡ false
      → IsExplained start nodes e
  looped : IsGenuine nodes e → IsExplained start nodes e
  deep :
      (d : ℕ) → e ≡ too_deep d → IsHeight nodes start d → max_depth < d → IsExplained start nodes e

no_start :
    (start : String) (nodes : Dict TreeNode)
    → elem start (keys nodes) ≡ false
    → validate_graph start nodes ≡ err (start_missing start)
unfolding validate_graph
no_start start nodes h = rw h

bad_targets :
    (start : String) (nodes : Dict TreeNode) (e : TreeError)
    → elem start (keys nodes) ≡ true
    → check_targets (keys nodes) nodes ≡ err e
    → validate_graph start nodes ≡ err e
unfolding validate_graph
bad_targets start nodes e a b = rw (a, b)

bad_walk :
    (start : String) (nodes : Dict TreeNode) (e : TreeError)
    → elem start (keys nodes) ≡ true
    → check_targets (keys nodes) nodes ≡ ok tt
    → walk_names nodes (keys nodes) [] ≡ err e
    → validate_graph start nodes ≡ err e
unfolding validate_graph
bad_walk start nodes e a b c = rw (a, b, c)

check_branches-dangling :
    (names : List String) (at : String) (branches : Dict Target) (e : TreeError)
    → check_branches names at branches ≡ err e
    → (k n : String) × (e ≡ target_missing at k n)
      × HasBranches branches k n
      × (elem n names ≡ false)
unfolding check_branches
check_branches-dangling names at [] e h = absurd (cc)
check_branches-dangling names at ((k, node n) ∷ rest) e h = elim (Bool-cases (elem n names)) [
  | inl there ↦
      let (j, x, p, b, q) = check_branches-dangling names at rest e (ground arith) in
      (j, x, p, inr b, q)
  | inr gone ↦ (k, n, ground arith, inl refl, gone)
]
check_branches-dangling names at ((k, leaf fs) ∷ rest) e h =
    let (j, x, p, b, q) = check_branches-dangling names at rest e h in (j, x, p, inr b, q)

check_targets-dangling :
    (names : List String) (nodes : Dict TreeNode) (e : TreeError)
    → check_targets names nodes ≡ err e
    → (at k n : String) × (e ≡ target_missing at k n)
      × HasBranch nodes at k n
      × (elem n names ≡ false)
unfolding check_targets
check_targets-dangling names [] e h = absurd (cc)
check_targets-dangling names ((k, n) ∷ rest) e h =
    elim (>>=-eq-err (check_branches names n.name n.branches) (λ _. check_targets names rest) h) [
      | inl here ↦
          let (j, x, p, b, q) = check_branches-dangling names n.name n.branches e here in
          (n.name, j, x, p, inl (refl, b), q)
      | inr (_, _, there) ↦
          let (at, j, x, p, b, q) = check_targets-dangling names rest e there in
          (at, j, x, p, inr b, q)
    ]

validate_graph_outcome :
    (start : String) (nodes : Dict TreeNode)
    → ((validate_graph start nodes ≡ ok tt) × IsValidated start nodes)
      ⊎ ((e : TreeError) × (validate_graph start nodes ≡ err e) × IsExplained start nodes e)
validate_graph_outcome start nodes = elim (Bool-cases (elem start (keys nodes))) [
  | inr absent ↦ inr (start_missing start, no_start start nodes absent, no_start_node refl absent)
  | inl present ↦ elim (Result-cases (check_targets (keys nodes) nodes)) [
    | inr (e, bad) ↦
        let (at, k, n, p, b, q) = check_targets-dangling (keys nodes) nodes e bad in
        inr (e, bad_targets start nodes e present bad, dangling at k n p b q)
    | inl (_, checked) ↦ elim (Result-cases (walk_names nodes (keys nodes) [])) [
      | inr (e, bad) ↦ inr (
        e,
        bad_walk start nodes e present checked bad,
        looped (walk_names_error nodes e checked bad),
      )
      | inl (depth, walked) ↦
          let w =
            walk_names-WalkedNames nodes (keys nodes) [] depth (λ n d h. absurd (cc)) walked in
          let (d, held) =
            All-elem (λ n. (d : ℕ) × (lookup n depth ≡ some d)) start (keys nodes) w.held present in
          let same = validate_graph-cases start nodes present checked depth d walked held in
          elim (Bool-cases (ltb max_depth d)) [
            | inl deeper ↦ inr (
              too_deep d,
              same ∙ rw deeper,
              deep d refl (IsHeight-of nodes depth w.memo start d held) (ground arith),
            )
            | inr shallow ↦ inl (
              same ∙ rw shallow,
              record {
                depth = depth;
                memo = w.memo;
                height = d;
                at_start = held;
                within = ground arith;
              },
            )
          ]
    ]
  ]
]

-- Each error of `_validate_graph` is true of the tree: the start is missing; or the named branch of
-- the named node leads to a node that is missing; or the named nodes are a loop of branches; or the
-- reported depth, which is that of the longest chain of nodes from the start, is above the limit. It
-- never runs out of fuel and never looks up a node that is not there.
pub validate_graph-IsExplained :
    (start : String) (nodes : Dict TreeNode) (e : TreeError)
    → validate_graph start nodes ≡ err e
    → IsExplained start nodes e
validate_graph-IsExplained start nodes e h = elim (validate_graph_outcome start nodes) [
  | inl (fine, _) ↦ absurd (ok≢err _ fine h)
  | inr (x, bad, why) ↦ let same : x ≡ e = cc in subst (IsExplained start nodes) same why
]

pub validate_graph-IsValidated :
    (start : String) (nodes : Dict TreeNode)
    → validate_graph start nodes ≡ ok tt
    → IsValidated start nodes
validate_graph-IsValidated start nodes h = elim (validate_graph_outcome start nodes) [
  | inl (_, v) ↦ v
  | inr (x, bad, why) ↦ absurd (ok≢err _ h bad)
]
