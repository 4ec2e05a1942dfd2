-- ===== src/Planner/Edges.antt =====
-- What the first loop of `topological_order` in src/fabri/core/planner.py puts into its two lists.
use fabri.Prelude.{
  ℕ, suc, ◌+◌, ◌≤◌, ◌<◌, true, List, [], ◌∷◌, ◌++◌, ◌≡◌, refl, ap, ◌∙◌, if◌then◌else◌, eqb, length,
  filter, arith, Bool-cases, inl, inr,
}
use fabri.Indices.{
  elem, count, count-append, replicate, get_or, set, length-set, length-replicate, get_or-set,
  get_or-replicate, elem-filter,
}
use fabri.Planner.Defs.{PlanItem, Graph, is_edge, add_dep, add_deps, add_items, graph_of}

-- The dependencies of an item that are other items: those that the loop does not skip.
abbrev pub deps_from : ℕ → ℕ → List PlanItem → ℕ → List ℕ
deps_from n i [] c = []
deps_from n i (item ∷ items) c =
    if eqb i c then filter (is_edge n i) item.depends_on else deps_from n (suc i) items c

abbrev pub deps_of : List PlanItem → ℕ → List ℕ
deps_of items c = deps_from (length items) 0 items c

deps_from-below : (n i : ℕ) (items : List PlanItem) (c : ℕ) → c < i → deps_from n i items c ≡ []
deps_from-below n i [] c h = refl
deps_from-below n i (item ∷ items) c h = ground (arith, deps_from-below n (suc i) items c)

pub deps_from-lt :
    (n i : ℕ) (items : List PlanItem) (c d : ℕ) → elem d (deps_from n i items c) ≡ true → d < n
deps_from-lt n i [] c d m = absurd (cc)
deps_from-lt n i (item ∷ items) c d m = elim (Bool-cases (eqb i c)) [
  | inl e ↦ ground (arith, elem-filter (is_edge n i) d item.depends_on)
  | inr e ↦ deps_from-lt n (suc i) items c d (ground arith)
]

pub deps_from-past :
    (n i : ℕ) (items : List PlanItem) (c : ℕ) → i + length items ≤ c → deps_from n i items c ≡ []
deps_from-past n i [] c h = refl
deps_from-past n i (item ∷ items) c h = ground (arith, deps_from-past n (suc i) items c)

abbrev pub indeg_at : Graph → ℕ → ℕ
indeg_at g c = get_or g.indeg c 0

abbrev pub children_at : Graph → ℕ → List ℕ
children_at g d = get_or g.children d []

-- Edges to the item `c` from `deps c` are counted at the item and noted at the dependency.
pub record Added (n : ℕ) (deps : ℕ → List ℕ) (g g' : Graph) : Type 0 where
  pub counted : (c : ℕ) → indeg_at g' c ≡ indeg_at g c + length (deps c)
  pub noted : (d c : ℕ) → count c (children_at g' d) ≡ count c (children_at g d) + count d (deps c)
  pub indeg_size : length g.indeg ≡ n → length g'.indeg ≡ n
  pub children_size : length g.children ≡ n → length g'.children ≡ n

abbrev only : ℕ → List ℕ → ℕ → List ℕ
only i deps c = if eqb i c then deps else []

module _ (n : ℕ) where
  add_dep-Added :
      (i dep : ℕ) (g : Graph)
      → length g.indeg ≡ n
      → length g.children ≡ n
      → i < n
      → Added n (only i (filter (is_edge n i) (dep ∷ []))) g (add_dep n i dep g)
  unfolding add_dep
  add_dep-Added i dep g p q h = elim (Bool-cases (is_edge n i dep)) [
    | inl e ↦ rw e (record {
      counted = λ c. ground (arith, get_or-set g.indeg i c (get_or g.indeg i 0 + 1) 0);
      noted = λ d c. noted e d c;
      indeg_size = λ s. length-set g.indeg i (get_or g.indeg i 0 + 1) ∙ s;
      children_size = λ s. length-set g.children dep (get_or g.children dep [] ++ i ∷ []) ∙ s;
    })
    | inr e ↦ rw e (record {
      counted = λ c. ground arith;
      noted = λ d c. ground arith;
      indeg_size = λ s. s;
      children_size = λ s. s;
    })
  ]
    where
      noted :
          is_edge n i dep ≡ true
          → (d c : ℕ)
          → count c (get_or (set g.children dep (get_or g.children dep [] ++ i ∷ [])) d [])
            ≡ count c (children_at g d) + count d (only i (dep ∷ []) c)
      noted e d c =
          rw (get_or-set g.children dep d (get_or g.children dep [] ++ i ∷ []) [])
            (ground (arith, count-append c (get_or g.children dep []) (i ∷ [])))

  add_deps-Added :
      (i : ℕ) (deps : List ℕ) (g : Graph)
      → length g.indeg ≡ n
      → length g.children ≡ n
      → i < n
      → Added n (only i (filter (is_edge n i) deps)) g (add_deps n i deps g)
  unfolding add_deps
  add_deps-Added i [] g p q h = record {
    counted = λ c. ground arith;
    noted = λ d c. ground arith;
    indeg_size = λ s. s;
    children_size = λ s. s;
  }
  add_deps-Added i (dep ∷ deps) g p q h =
      let a = add_dep-Added i dep g p q h in
      let b = add_deps-Added i deps (add_dep n i dep g) (a.indeg_size p) (a.children_size q) h in
      record {
        counted = λ c. ground (arith, a.counted c, b.counted c);
        noted = λ d c. ground (arith, a.noted d c, b.noted d c);
        indeg_size = λ s. b.indeg_size (a.indeg_size s);
        children_size = λ s. b.children_size (a.children_size s);
      }

  add_items-Added :
      (i : ℕ) (items : List PlanItem) (g : Graph)
      → length g.indeg ≡ n
      → length g.children ≡ n
      → i + length items ≤ n
      → Added n (deps_from n i items) g (add_items n i items g)
  unfolding add_items
  add_items-Added i [] g p q h = record {
    counted = λ c. omega arith;
    noted = λ d c. omega arith;
    indeg_size = λ s. s;
    children_size = λ s. s;
  }
  add_items-Added i (item ∷ items) g p q h =
      let a = add_deps-Added i item.depends_on g p q (omega arith) in
      let b =
        add_items-Added (suc i) items (add_deps n i item.depends_on g) (a.indeg_size p)
          (a.children_size q) (omega arith) in
      record {
        counted = λ c. ground (arith, a.counted c, b.counted c, deps_from-below n (suc i) items c);
        noted = λ d c. ground (arith, a.noted d c, b.noted d c, deps_from-below n (suc i) items c);
        indeg_size = λ s. b.indeg_size (a.indeg_size s);
        children_size = λ s. b.children_size (a.children_size s);
      }

-- The lists of a plan: `indeg` has the number of dependencies, `children` the items that wait.
pub record IsGraph (items : List PlanItem) (g : Graph) : Type 0 where
  pub counted : (c : ℕ) → indeg_at g c ≡ length (deps_of items c)
  pub noted : (d c : ℕ) → count c (children_at g d) ≡ count d (deps_of items c)
  pub size : length g.indeg ≡ length items

pub graph_of-IsGraph : (items : List PlanItem) → IsGraph items (graph_of items)
unfolding graph_of
graph_of-IsGraph items =
    let n = length items in
    let g : Graph = record { indeg = replicate n 0; children = replicate n [] } in
    let a =
      add_items-Added n 0 items g (length-replicate n 0) (length-replicate n []) (omega arith) in
    record {
      counted = λ c. omega (arith, a.counted c, get_or-replicate {A = ℕ} n c 0);
      noted = λ d c.
          omega (arith, a.noted d c, ap (λ l. count c l) (get_or-replicate {A = List ℕ} n d []));
      size = a.indeg_size (length-replicate n 0);
    }
