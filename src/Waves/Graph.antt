-- ===== src/Waves/Graph.antt =====
-- What `add_nodes` puts into the two dictionaries of src/fabri/builder/waves.py.
use fabri.Prelude.{
  ℕ, ◌+◌, String, true, false, ◌==◌, List, [], ◌∷◌, ◌++◌, ok, ◌≡◌, ◌≢◌, subst, Dict, insert,
  if◌then◌else◌, length, length-append, elem, count, count-append, All, All-append, arith, eq_iff,
  lookup-insert, >>=-eq-ok, Bool-cases, inl, inr,
}
use fabri.Waves.Defs.{Node, Graph, indeg_at, children_at, edge, add_edge, add_edges, add_nodes}

-- All that the items with an id depend on.
abbrev pub deps_of : String → List Node → List String
deps_of c [] = []
deps_of c (n ∷ ns) = if n.id == c then n.depends_on ++ deps_of c ns else deps_of c ns

pub indeg_at-insert :
    (k j : String) (v : ℕ) (m : Dict ℕ)
    → indeg_at j (insert k v m) ≡ (if k == j then v else indeg_at j m)
indeg_at-insert k j v m = ground (arith, lookup-insert k j v m)

pub children_at-insert :
    (k j : String) (v : List String) (m : Dict (List String))
    → children_at j (insert k v m) ≡ (if k == j then v else children_at j m)
children_at-insert k j v m = ground (arith, lookup-insert k j v m)

-- One edge is checked, counted at the item and noted at the dependency.
pub record Added (known deps : List String) (id : String) (g g' : Graph) : Type 0 where
  pub counted :
      (c : String) → indeg_at c g'.indeg ≡ indeg_at c g.indeg + (if id == c then length deps else 0)
  pub noted :
      (d c : String)
      → count c (children_at d g'.children)
        ≡ count c (children_at d g.children) + (if id == c then count d deps else 0)
  pub are_known : All (λ d. (elem d known ≡ true) × (d ≢ id)) deps

edge-Added :
    (known : List String) (id dep : String) (g : Graph)
    → elem dep known ≡ true
    → (dep == id) ≡ false
    → Added known (dep ∷ []) id g (edge id dep g)
edge-Added known id dep g k n = record {
  counted =
      λ c. ground (arith, indeg_at-insert id c (indeg_at id g.indeg + 1) g.indeg, eq_iff id c);
  noted = λ d c. noted d c;
  are_known = ((k, λ e. ground (arith, eq_iff dep id)), tt);
}
  where
    noted :
        (d c : String)
        → count c (children_at d (edge id dep g).children)
          ≡ count c (children_at d g.children) + (if id == c then count d (dep ∷ []) else 0)
    noted d c =
        rw (children_at-insert dep d (children_at dep g.children ++ id ∷ []) g.children)
          (ground (arith, count-append c (children_at dep g.children) (id ∷ []), eq_iff dep d))

add_edge-Added :
    (known : List String) (id dep : String) (g g' : Graph)
    → add_edge known id dep g ≡ ok g'
    → Added known (dep ∷ []) id g g'
unfolding add_edge
add_edge-Added known id dep g g' h =
    let e : edge id dep g ≡ g' = ground arith in
    subst (Added known (dep ∷ []) id g) e (edge-Added known id dep g (ground arith) (ground arith))

Added-trans :
    (known ds es : List String) (id : String) (f g h : Graph)
    → Added known ds id f g
    → Added known es id g h
    → Added known (ds ++ es) id f h
Added-trans known ds es id f g h p q = record {
  counted = λ c. ground (arith, p.counted c, q.counted c, length-append ds es);
  noted = λ d c. ground (arith, p.noted d c, q.noted d c, count-append d ds es);
  are_known = All-append (λ d. (elem d known ≡ true) × (d ≢ id)) ds es p.are_known q.are_known;
}

Added-nil : (known : List String) (id : String) (g : Graph) → Added known [] id g g
Added-nil known id g = record {
  counted = λ c. ground arith;
  noted = λ d c. ground arith;
  are_known = tt;
}

pub add_edges-Added :
    (known : List String) (id : String) (deps : List String) (g g' : Graph)
    → add_edges known id deps g ≡ ok g'
    → Added known deps id g g'
unfolding add_edges
add_edges-Added known id [] g g' h =
    let e : g ≡ g' = cc in subst (Added known [] id g) e (Added-nil known id g)
add_edges-Added known id (dep ∷ deps) g g' h =
    let (g₁, one, rest) = >>=-eq-ok (add_edge known id dep g) (add_edges known id deps) h in
    Added-trans known (dep ∷ []) deps id g g₁ g'
      (unfold add_edge in add_edge-Added known id dep g g₁ one)
      (add_edges-Added known id deps g₁ g' rest)

-- After `add_nodes` a count is the number of dependencies, and the children are the reversed edges.
pub record IsGraph (known : List String) (nodes : List Node) (g g' : Graph) : Type 0 where
  pub counted : (c : String) → indeg_at c g'.indeg ≡ indeg_at c g.indeg + length (deps_of c nodes)
  pub noted :
      (d c : String)
      → count c (children_at d g'.children)
        ≡ count c (children_at d g.children) + count d (deps_of c nodes)
  pub are_known : (c : String) → All (λ d. (elem d known ≡ true) × (d ≢ c)) (deps_of c nodes)

add_node-IsGraph :
    (known : List String) (n : Node) (ns : List Node) (f g h : Graph)
    → Added known n.depends_on n.id f g
    → IsGraph known ns g h
    → IsGraph known (n ∷ ns) f h
add_node-IsGraph known n ns f g h p q = record {
  counted =
      λ c. ground (arith, p.counted c, q.counted c, length-append n.depends_on (deps_of c ns));
  noted =
      λ d c. ground (arith, p.noted d c, q.noted d c, count-append d n.depends_on (deps_of c ns));
  are_known = are_known;
}
  where
    are_known : (c : String) → All (λ d. (elem d known ≡ true) × (d ≢ c)) (deps_of c (n ∷ ns))
    are_known c = elim (Bool-cases (n.id == c)) [
      | inl e ↦ rw e (
          All-append (λ d. (elem d known ≡ true) × (d ≢ c)) n.depends_on (deps_of c ns)
            (rw ((eq_iff n.id c).0 e) at p.are_known) (q.are_known c))
      | inr e ↦ rw e (q.are_known c)
    ]

pub add_nodes-IsGraph :
    (known : List String) (nodes : List Node) (g g' : Graph)
    → add_nodes known nodes g ≡ ok g'
    → IsGraph known nodes g g'
unfolding add_nodes
add_nodes-IsGraph known [] g g' h =
    let e : g ≡ g' = cc in
    subst (IsGraph known [] g) e
      (record { counted = λ c. omega arith; noted = λ d c. omega arith; are_known = λ c. tt })
add_nodes-IsGraph known (n ∷ ns) g g' h =
    let (g₁, one, rest) = >>=-eq-ok (add_edges known n.id n.depends_on g) (add_nodes known ns) h in
    add_node-IsGraph known n ns g g₁ g'
      (unfold add_edges in add_edges-Added known n.id n.depends_on g g₁ one)
      (add_nodes-IsGraph known ns g₁ g' rest)
