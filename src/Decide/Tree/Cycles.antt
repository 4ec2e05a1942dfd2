-- ===== src/Decide/Tree/Cycles.antt =====
-- The errors of `walk` in src/fabri/decide/tree.py: each is a cycle of branches.
use fabri.Prelude.{
  ℕ, zero, suc, ◌+◌, ◌<◌, String, true, false, ◌==◌, none, some, List, [], ◌∷◌, ◌++◌, Result, ok,
  err, ◌>>=◌, >>=-eq-ok, >>=-eq-err, ok≢err, ◌≡◌, refl, sym, ◌∙◌, ap, length, length-append, elem,
  max_of, Dict, lookup, insert, keys, lookup-has_key, is_nodup, is_nodup-append, pigeonhole, All,
  All-of_elem, All-elem, All-lookup, arith, eq_iff, Bool-cases, inl, inr, Option-cases,
}
use fabri.Decide.Tree.Config.{TreeNode, TreeError, cycle, Target, node, leaf}
use fabri.Decide.Tree.Graph.{
  node_targets, from_first, walk_each, walk, walk_fuel, walk_names, check_branches, check_targets,
}
use fabri.Decide.Tree.Memo.{walk-new, walk-known, elem-snoc}

-- Where the branches of the node with a name lead.
abbrev targets_at : Dict TreeNode → String → List String
targets_at nodes n = elim (lookup n nodes) [ none ↦ [] | some at ↦ node_targets at.branches ]

pub targets_at-found :
    (nodes : Dict TreeNode) (n : String) (at : TreeNode)
    → lookup n nodes ≡ some at
    → targets_at nodes n ≡ node_targets at.branches
targets_at-found nodes n at h = rw (h, targets_at)

-- Each name but the last has a branch to the next.
abbrev IsChain : Dict TreeNode → List String → Type 0
IsChain nodes [] = Unit
IsChain nodes (x ∷ []) = Unit
IsChain nodes (x ∷ y ∷ rest) = (elem y (targets_at nodes x) ≡ true) × IsChain nodes (y ∷ rest)

-- A chain of at least one branch that ends where it began.
pub record IsLoop (nodes : Dict TreeNode) (ids : List String) : Type 0 where
  pub first : String
  pub between : List String
  pub closed : ids ≡ first ∷ (between ++ first ∷ [])
  pub chain : IsChain nodes ids

abbrev pub IsGenuine : Dict TreeNode → TreeError → Type 0
IsGenuine nodes e = (ids : List String) × (e ≡ cycle ids) × IsLoop nodes ids

IsChain-tail :
    (nodes : Dict TreeNode) (x : String) (xs : List String)
    → IsChain nodes (x ∷ xs)
    → IsChain nodes xs
IsChain-tail nodes x [] h = tt
IsChain-tail nodes x (y ∷ xs) h = h.1

IsChain-from_first :
    (nodes : Dict TreeNode) (n : String) (xs ys : List String)
    → IsChain nodes (xs ++ ys)
    → IsChain nodes (from_first n xs ++ ys)
IsChain-from_first nodes n [] ys h = h
IsChain-from_first nodes n (x ∷ xs) ys h = elim (Bool-cases (x == n)) [
  | inl e ↦ rw e h
  | inr e ↦ rw e (IsChain-from_first nodes n xs ys (IsChain-tail nodes x (xs ++ ys) h))
]

IsChain-snoc :
    (nodes : Dict TreeNode) (xs : List String) (x y : String)
    → IsChain nodes (xs ++ x ∷ [])
    → elem y (targets_at nodes x) ≡ true
    → IsChain nodes ((xs ++ x ∷ []) ++ y ∷ [])
IsChain-snoc nodes [] x y h e = (e, tt)
IsChain-snoc nodes (a ∷ []) x y h e = (h.0, (e, tt))
IsChain-snoc nodes (a ∷ b ∷ xs) x y h e = (h.0, IsChain-snoc nodes (b ∷ xs) x y h.1 e)

from_first-elem :
    (n : String) (xs : List String)
    → elem n xs ≡ true
    → (rest : List String) × (from_first n xs ≡ n ∷ rest)
from_first-elem n [] h = absurd (cc)
from_first-elem n (x ∷ xs) h = elim (Bool-cases (x == n)) [
  | inl e ↦ (xs, rw e (ap (λ a. a ∷ xs) ((eq_iff x n).0 e)))
  | inr e ↦ rw e (from_first-elem n xs (ground arith))
]

walk_each-err :
    (f : String → Dict ℕ → Result TreeError (ℕ × Dict ℕ)) (ns : List String) (old : Dict ℕ)
    (e : TreeError)
    → walk_each f ns old ≡ err e
    → (t : String) × (mid : Dict ℕ) × (elem t ns ≡ true) × (f t mid ≡ err e)
unfolding walk_each
walk_each-err f [] old e h = absurd (cc)
walk_each-err f (n ∷ ns) old e h =
    elim (>>=-eq-err (f n old)
      (λ r. walk_each f ns r.1 >>= λ (s : List ℕ × Dict ℕ). ok (r.0 ∷ s.0, s.1)) h) [
        | inl here ↦ (n, old, ground (arith, eq_iff n n), here)
        | inr (r, _, h') ↦
            elim (>>=-eq-err (walk_each f ns r.1) (λ (s : List ℕ × Dict ℕ). ok (r.0 ∷ s.0, s.1))
              h') [
                | inl there ↦
                    let (t, mid, m, bad) = walk_each-err f ns r.1 e there in
                    (t, mid, ground arith, bad)
                | inr (s, _, fine) ↦ absurd (cc)
              ]
      ]

on_path :
    (fuel : ℕ) (nodes : Dict TreeNode) (path : List String) (n : String) (old : Dict ℕ)
    (e : TreeError)
    → elem n path ≡ true
    → walk (suc fuel) nodes path n old ≡ err e
    → e ≡ cycle (from_first n path ++ n ∷ [])
unfolding walk
on_path fuel nodes path n old e on h = ground arith

module _ (nodes : Dict TreeNode)
    (closed : (n : String) → All (λ t. elem t (keys nodes) ≡ true) (targets_at nodes n)) where
  -- What is known where `walk` is called on a node: the path to it is a chain of distinct nodes, and
  -- the fuel is enough for the nodes that are not on it.
  pub record IsCall (fuel : ℕ) (path : List String) (n : String) : Type 0 where
    pub here : elem n (keys nodes) ≡ true
    pub nodup : is_nodup path ≡ true
    pub known : (a : String) → elem a path ≡ true → elem a (keys nodes) ≡ true
    pub fuelled : length (keys nodes) < length path + fuel
    pub chain : IsChain nodes (path ++ n ∷ [])

  inner-IsCall :
      (fuel : ℕ) (path : List String) (n t : String)
      → IsCall (suc fuel) path n
      → elem n path ≡ false
      → elem t (targets_at nodes n) ≡ true
      → IsCall fuel (path ++ n ∷ []) t
  inner-IsCall fuel path n t c off m = record {
    here = All-elem (λ a. elem a (keys nodes) ≡ true) t (targets_at nodes n) (closed n) m;
    nodup =
        is_nodup-append path (n ∷ []) c.nodup (ground arith) (λ a k. ground (arith, eq_iff n a));
    known = λ a k. ground (arith, elem-snoc a n path, c.known a, c.here, eq_iff n a);
    fuelled = omega (arith, c.fuelled, length-append path (n ∷ []));
    chain = IsChain-snoc nodes path n t c.chain m;
  }

  pub walk-IsGenuine :
      (fuel : ℕ) (path : List String) (n : String) (old : Dict ℕ) (e : TreeError)
      → IsCall fuel path n
      → walk fuel nodes path n old ≡ err e
      → IsGenuine nodes e
  walk-IsGenuine zero path n old e c h =
      absurd (omega (arith, c.fuelled, pigeonhole path (keys nodes) c.nodup c.known))
  walk-IsGenuine (suc fuel) path n old e c h = elim (Bool-cases (elem n path)) [
    | inl on ↦
        let (rest, e₁) = from_first-elem n path on in
        (
          from_first n path ++ n ∷ [],
          on_path fuel nodes path n old e on h,
          record {
            first = n;
            between = rest;
            closed = rw e₁;
            chain = IsChain-from_first nodes n path (n ∷ []) c.chain;
          },
        )
    | inr off ↦ elim (Option-cases (lookup n old)) [
      | inr (d, known) ↦ absurd (ok≢err _ (walk-known fuel nodes path n old d off known) h)
      | inl absent ↦ elim (Option-cases (lookup n nodes)) [
        | inl missing ↦ absurd (ground (arith, c.here, lookup-has_key n nodes))
        | inr (at, found) ↦
            let bad = sym (walk-new fuel nodes path n old at off absent found) ∙ h in
            elim (>>=-eq-err
              (walk_each (walk fuel nodes (path ++ n ∷ [])) (node_targets at.branches) old)
              (λ (b : List ℕ × Dict ℕ). ok (suc (max_of b.0), insert n (suc (max_of b.0)) b.1))
              bad) [
                | inr (b, _, fine) ↦ absurd (cc)
                | inl inside ↦
                    let (t, mid, m, bad_t) =
                      walk_each-err (walk fuel nodes (path ++ n ∷ [])) (node_targets at.branches)
                        old e inside in
                    walk-IsGenuine fuel (path ++ n ∷ []) t mid e
                      (inner-IsCall fuel path n t c off
                        (ap (elem t) (targets_at-found nodes n at found) ∙ m))
                      bad_t
              ]
      ]
    ]
  ]

check_branches-known :
    (names : List String) (at : String) (branches : Dict Target)
    → check_branches names at branches ≡ ok tt
    → All (λ t. elem t names ≡ true) (node_targets branches)
unfolding check_branches
check_branches-known names at [] h = tt
check_branches-known names at ((k, node n) ∷ rest) h =
    (ground arith, check_branches-known names at rest (ground arith))
check_branches-known names at ((k, leaf fs) ∷ rest) h = check_branches-known names at rest h

check_targets-known :
    (names : List String) (nodes : Dict TreeNode)
    → check_targets names nodes ≡ ok tt
    → All (λ p. All (λ t. elem t names ≡ true) (node_targets p.1.branches)) nodes
unfolding check_targets
check_targets-known names [] h = tt
check_targets-known names ((k, n) ∷ rest) h =
    let (_, one, more) =
      >>=-eq-ok (check_branches names n.name n.branches) (λ _. check_targets names rest) h in
    (check_branches-known names n.name n.branches one, check_targets-known names rest more)

-- After the first loop of `_validate_graph` the branches of every node lead to nodes.
pub closed_of_check :
    (nodes : Dict TreeNode)
    → check_targets (keys nodes) nodes ≡ ok tt
    → (n : String) → All (λ t. elem t (keys nodes) ≡ true) (targets_at nodes n)
closed_of_check nodes h n = elim (Option-cases (lookup n nodes)) [
  | inl e ↦ rw (e, targets_at) tt
  | inr (at, e) ↦ rw (targets_at-found nodes n at e) (
      All-lookup (λ v. All (λ t. elem t (keys nodes) ≡ true) (node_targets v.branches)) n at nodes
        (check_targets-known (keys nodes) nodes h) e)
]

walk_names-IsGenuine :
    (nodes : Dict TreeNode)
    → ((n : String) → All (λ t. elem t (keys nodes) ≡ true) (targets_at nodes n))
    → (ns : List String) (depth : Dict ℕ) (e : TreeError) → All (λ n. elem n (keys nodes) ≡ true) ns
    → walk_names nodes ns depth ≡ err e
    → IsGenuine nodes e
unfolding walk_names
walk_names-IsGenuine nodes closed [] depth e k h = absurd (cc)
walk_names-IsGenuine nodes closed (n ∷ ns) depth e k h =
    elim (>>=-eq-err (walk (walk_fuel nodes) nodes [] n depth) (λ r. walk_names nodes ns r.1) h) [
      | inl here ↦
          walk-IsGenuine nodes closed (walk_fuel nodes) [] n depth e
            (record {
              here = k.0;
              nodup = refl;
              known = λ a m. absurd (cc);
              fuelled = omega arith;
              chain = tt;
            })
            here
      | inr (r, _, rest) ↦ walk_names-IsGenuine nodes closed ns r.1 e k.1 rest
    ]

-- An error of the walks of `_validate_graph` is a cycle, and the names that it lists are a chain of
-- branches that ends where it began: the fuel suffices, and no node is looked up in vain.
pub walk_names_error :
    (nodes : Dict TreeNode) (e : TreeError)
    → check_targets (keys nodes) nodes ≡ ok tt
    → walk_names nodes (keys nodes) [] ≡ err e
    → IsGenuine nodes e
walk_names_error nodes e checked h =
    walk_names-IsGenuine nodes (closed_of_check nodes checked) (keys nodes) [] e
      (All-of_elem (λ n. elem n (keys nodes) ≡ true) (keys nodes) (λ a m. m)) h
