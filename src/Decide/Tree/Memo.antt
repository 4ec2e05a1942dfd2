-- ===== src/Decide/Tree/Memo.antt =====
-- The memo of `walk` in src/fabri/decide/tree.py: what it holds is above what its branches hold.
use fabri.Prelude.{
  ℕ, zero, suc, ◌<◌, String, true, false, ◌==◌, ◌||◌, none, some, List, [], ◌∷◌, ◌++◌, Result, ok,
  ◌>>=◌, >>=-eq-ok, ◌≡◌, refl, sym, subst₂, ◌∙◌, elem, elem-append, max_of, Dict, lookup, insert,
  lookup-insert, All, All-map, Any, Any-map, ◌⊎◌, max, leb, arith, eq_iff, Bool-cases, inl, inr,
  Option-cases,
}
use fabri.Decide.Tree.Config.{TreeNode, TreeError}
use fabri.Decide.Tree.Graph.{node_targets, walk_each, walk}

-- What the memo holds of a node that a branch leads to.
abbrev pub Below : Dict ℕ → ℕ → String → Type 0
Below depth d t = (e : ℕ) × (lookup t depth ≡ some e) × (e < d)

-- A depth that one of the nodes reaches, with one more on top, or the depth of a node without any.
abbrev pub Reaches : Dict ℕ → ℕ → List String → Type 0
Reaches depth d ts = (d ≡ 1) ⊎ Any (λ t. (e : ℕ) × (lookup t depth ≡ some e) × (d ≡ suc e)) ts

pub record Entry (nodes : Dict TreeNode) (depth : Dict ℕ) (n : String) (d : ℕ) : Type 0 where
  pub at : TreeNode
  pub found : lookup n nodes ≡ some at
  pub positive : 0 < d
  pub below : All (Below depth d) (node_targets at.branches)
  pub tight : Reaches depth d (node_targets at.branches)

abbrev pub IsMemo : Dict TreeNode → Dict ℕ → Type 0
IsMemo nodes depth = (n : String) (d : ℕ) → lookup n depth ≡ some d → Entry nodes depth n d

-- A walk extends the memo, and not at the nodes of the path that leads to it.
pub record Extends (path : List String) (old new : Dict ℕ) : Type 0 where
  pub keeps : (n : String) (d : ℕ) → lookup n old ≡ some d → lookup n new ≡ some d
  pub spares : (n : String) → elem n path ≡ true → lookup n new ≡ lookup n old

Extends-refl : (path : List String) (depth : Dict ℕ) → Extends path depth depth
Extends-refl path depth = record { keeps = λ n d h. h; spares = λ n h. refl }

Extends-trans :
    (path : List String) (a b c : Dict ℕ) → Extends path a b → Extends path b c → Extends path a c
Extends-trans path a b c p q = record {
  keeps = λ n d h. q.keeps n d (p.keeps n d h);
  spares = λ n h. q.spares n h ∙ p.spares n h;
}

Reaches-Extends :
    {path : List String} {old new : Dict ℕ} (d : ℕ) (ts : List String)
    → Extends path old new
    → Reaches old d ts
    → Reaches new d ts
Reaches-Extends d ts x (inl one) = inl one
Reaches-Extends {old = old} {new = new} d ts x (inr h) = inr (
    Any-map (λ t. (e : ℕ) × (lookup t old ≡ some e) × (d ≡ suc e))
      (λ t. (e : ℕ) × (lookup t new ≡ some e) × (d ≡ suc e)) (λ t (e, f, g). (e, x.keeps t e f, g))
      ts h)

Entry-Extends :
    {nodes : Dict TreeNode} {path : List String} {old new : Dict ℕ} {n : String} {d : ℕ}
    → Extends path old new
    → Entry nodes old n d
    → Entry nodes new n d
Entry-Extends {old = old} {new = new} {d = d} x v = record {
  at = v.at;
  found = v.found;
  positive = v.positive;
  below =
      All-map (Below old d) (Below new d) (λ t (e, f, lt). (e, x.keeps t e f, lt))
        (node_targets v.at.branches) v.below;
  tight = Reaches-Extends d (node_targets v.at.branches) x v.tight;
}

-- What a walk to a node gives.
pub record Walked (nodes : Dict TreeNode) (path : List String) (n : String) (old : Dict ℕ) (d : ℕ)
    (new : Dict ℕ) : Type 0 where
  pub memo : IsMemo nodes new
  pub extends : Extends path old new
  pub held : lookup n new ≡ some d

-- The same of a row of walks, with their greatest depth.
pub record WalkedEach (nodes : Dict TreeNode) (path ns : List String) (old : Dict ℕ) (ds : List ℕ)
    (new : Dict ℕ) : Type 0 where
  pub memo : IsMemo nodes new
  pub extends : Extends path old new
  pub held : All (Below new (suc (max_of ds))) ns
  pub tight : Reaches new (suc (max_of ds)) ns

-- The greatest of some depths, one of which may be above the others.
Reaches-max :
    (depth : Dict ℕ) (n : String) (a b : ℕ) (ns : List String)
    → lookup n depth ≡ some a
    → Reaches depth (suc b) ns
    → Reaches depth (suc (max a b)) (n ∷ ns)
Reaches-max depth n a b ns h r = elim (Bool-cases (leb b a)) [
  | inl high ↦ inr (inl (a, h, ground (arith, high)))
  | inr low ↦ elim r [
    | inl one ↦ absurd (ground (arith, one, low))
    | inr there ↦ inr (
        inr (
          Any-map (λ t. (e : ℕ) × (lookup t depth ≡ some e) × (suc b ≡ suc e))
            (λ t. (e : ℕ) × (lookup t depth ≡ some e) × (suc (max a b) ≡ suc e))
            (λ t (e, f, g). (e, f, ground (arith, g, low))) ns there))
  ]
]

module _ (nodes : Dict TreeNode) (path : List String)
    (f : String → Dict ℕ → Result TreeError (ℕ × Dict ℕ))
    (each : (n : String) (old : Dict ℕ) (d : ℕ) (new : Dict ℕ)
      → IsMemo nodes old
      → f n old ≡ ok (d, new)
      → Walked nodes path n old d new) where
  pub walk_each-WalkedEach :
      (ns : List String) (old : Dict ℕ) (ds : List ℕ) (new : Dict ℕ)
      → IsMemo nodes old
      → walk_each f ns old ≡ ok (ds, new)
      → WalkedEach nodes path ns old ds new
  unfolding walk_each
  walk_each-WalkedEach [] old ds new m h =
      let none_below : [] ≡ ds = ground arith in
      let same : old ≡ new = ground arith in
      subst₂ (WalkedEach nodes path [] old) none_below same
        (record { memo = m; extends = Extends-refl path old; held = tt; tight = inl refl })
  walk_each-WalkedEach (n ∷ ns) old ds new m h =
      let (first, e, h₁) =
        >>=-eq-ok (f n old)
          (λ r. walk_each f ns r.1 >>= λ (s : List ℕ × Dict ℕ). ok (r.0 ∷ s.0, s.1)) h in
      let (rest, e', h₂) = >>=-eq-ok (walk_each f ns first.1) (λ s. ok (first.0 ∷ s.0, s.1)) h₁ in
      let one = each n old first.0 first.1 m e in
      let more = walk_each-WalkedEach ns first.1 rest.0 rest.1 one.memo e' in
      let heads : first.0 ∷ rest.0 ≡ ds = ground arith in
      let ends : rest.1 ≡ new = ground arith in
      rw (← heads, ← ends)
        (record {
          memo = more.memo;
          extends = Extends-trans path old first.1 rest.1 one.extends more.extends;
          held = (
            (first.0, more.extends.keeps n first.0 one.held, omega arith),
            All-map (Below rest.1 (suc (max_of rest.0)))
                (Below rest.1 (suc (max_of (first.0 ∷ rest.0))))
                (λ t (x, y, lt). (x, y, omega arith)) ns more.held,
          );
          tight =
              Reaches-max rest.1 n first.0 (max_of rest.0) ns
                (more.extends.keeps n first.0 one.held) more.tight;
        })

pub walk-new :
    (fuel : ℕ) (nodes : Dict TreeNode) (path : List String) (n : String) (old : Dict ℕ)
    (at : TreeNode)
    → elem n path ≡ false
    → lookup n old ≡ none
    → lookup n nodes ≡ some at
    → walk (suc fuel) nodes path n old ≡ (
        walk_each (walk fuel nodes (path ++ n ∷ [])) (node_targets at.branches) old >>= λ below.
        ok (suc (max_of below.0), insert n (suc (max_of below.0)) below.1))
unfolding walk
walk-new fuel nodes path n old at p q r = rw (p, q, r)

pub walk-known :
    (fuel : ℕ) (nodes : Dict TreeNode) (path : List String) (n : String) (old : Dict ℕ) (d : ℕ)
    → elem n path ≡ false
    → lookup n old ≡ some d
    → walk (suc fuel) nodes path n old ≡ ok (d, old)
unfolding walk
walk-known fuel nodes path n old d p q = rw (p, q)

pub elem-snoc : (a b : String) (xs : List String) → elem a (xs ++ b ∷ []) ≡ (elem a xs || (b == a))
elem-snoc a b xs = ground (arith, elem-append a xs (b ∷ []))

-- The entry that a walk adds.
module _ (nodes : Dict TreeNode) (path : List String) (n : String) (old mid : Dict ℕ) (ds : List ℕ)
    (at : TreeNode) (off : elem n path ≡ false) (absent : lookup n old ≡ none)
    (found : lookup n nodes ≡ some at)
    (w : WalkedEach nodes (path ++ n ∷ []) (node_targets at.branches) old ds mid) where
  absent_mid : lookup n mid ≡ none
  absent_mid = w.extends.spares n (ground (arith, elem-snoc n n path, eq_iff n n)) ∙ absent

  added : Extends path mid (insert n (suc (max_of ds)) mid)
  added = record {
    keeps =
        λ m d h. ground (arith, lookup-insert n m (suc (max_of ds)) mid, eq_iff n m, absent_mid);
    spares = λ m h. ground (arith, lookup-insert n m (suc (max_of ds)) mid, eq_iff n m);
  }

  all : Extends path old (insert n (suc (max_of ds)) mid)
  all = Extends-trans path old mid (insert n (suc (max_of ds)) mid) before added
    where
      before : Extends path old mid
      before = record {
        keeps = w.extends.keeps;
        spares = λ m h. w.extends.spares m (ground (arith, elem-snoc m n path));
      }

  entry : Entry nodes (insert n (suc (max_of ds)) mid) n (suc (max_of ds))
  entry =
      Entry-Extends added
        (record { at = at; found = found; positive = omega arith; below = w.held; tight = w.tight })

  new-Walked : Walked nodes path n old (suc (max_of ds)) (insert n (suc (max_of ds)) mid)
  new-Walked = record {
    memo = λ m d h. elim (Bool-cases (n == m)) [
      | inl same ↦
          let here : suc (max_of ds) ≡ d =
            ground (arith, lookup-insert n m (suc (max_of ds)) mid) in
          subst₂ (Entry nodes (insert n (suc (max_of ds)) mid)) ((eq_iff n m).0 same) here entry
      | inr other ↦
          Entry-Extends added (w.memo m d (ground (arith, lookup-insert n m (suc (max_of ds)) mid)))
    ];
    extends = all;
    held = ground (arith, lookup-insert n n (suc (max_of ds)) mid, eq_iff n n);
  }

pub walk-Walked :
    (fuel : ℕ) (nodes : Dict TreeNode) (path : List String) (n : String) (old : Dict ℕ) (d : ℕ)
    (new : Dict ℕ)
    → IsMemo nodes old
    → walk fuel nodes path n old ≡ ok (d, new)
    → Walked nodes path n old d new
walk-Walked zero nodes path n old d new m h = absurd (unfold walk in cc h)
walk-Walked (suc fuel) nodes path n old d new m h = elim (Bool-cases (elem n path)) [
  | inl on ↦ absurd (unfold walk in ground arith)
  | inr off ↦ elim (Option-cases (lookup n old)) [
    | inr (e, known) ↦
        let same = sym (walk-known fuel nodes path n old e off known) ∙ h in
        let this : e ≡ d = ground arith in
        let that : old ≡ new = ground arith in
        subst₂ (Walked nodes path n old) this that
          (record { memo = m; extends = Extends-refl path old; held = known })
    | inl absent ↦ elim (Option-cases (lookup n nodes)) [
      | inl missing ↦ absurd (unfold walk in ground arith)
      | inr (at, found) ↦
          let (below, e, last) =
            >>=-eq-ok (walk_each (walk fuel nodes (path ++ n ∷ [])) (node_targets at.branches) old)
              (λ b. ok (suc (max_of b.0), insert n (suc (max_of b.0)) b.1))
              (sym (walk-new fuel nodes path n old at off absent found) ∙ h) in
          let this : suc (max_of below.0) ≡ d = ground arith in
          let that : insert n (suc (max_of below.0)) below.1 ≡ new = ground arith in
          subst₂ (Walked nodes path n old) this that (
            new-Walked nodes path n old below.1 below.0 at off absent found (
              walk_each-WalkedEach nodes (path ++ n ∷ []) (walk fuel nodes (path ++ n ∷ []))
                (walk-Walked fuel nodes (path ++ n ∷ [])) (node_targets at.branches) old below.0
                below.1 m e))
    ]
  ]
]
