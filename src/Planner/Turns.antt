-- ===== src/Planner/Turns.antt =====
-- What a turn of `while ready` in src/fabri/core/planner.py does: the indices that are placed or
-- ready are those on which nothing is left to wait for, once each.
use fabri.Prelude.{
  ℕ, suc, ◌+◌, ◌-◌, ◌≤◌, ◌<◌, true, false, ◌&&◌, List, [], ◌∷◌, ◌++◌, append_assoc, ◌≡◌, refl, ◌∙◌,
  if◌then◌else◌, eqb, ltb, length, All, All-map, arith, Bool-cases, inl, inr,
}
use fabri.Indices.{
  elem, count, elem-append, elem→count, is_nodup, is_nodup-append, get_or, set, length-set,
  get_or-set, get_or-past, is_nodup-middle, All-of_elem,
}
use fabri.Planner.Defs.{PlanItem, Graph, Queue, release, release_all, visit}
use fabri.Planner.Edges.{deps_of, IsGraph, deps_from-past}

-- How many of a list of dependencies are not placed.
abbrev pub unmet : List ℕ → List ℕ → ℕ
unmet placed [] = 0
unmet placed (d ∷ ds) = if elem d placed then unmet placed ds else suc (unmet placed ds)

unmet-snoc :
    (i : ℕ) (placed ds : List ℕ)
    → elem i placed ≡ false
    → unmet placed ds ≡ unmet (placed ++ i ∷ []) ds + count i ds
unmet-snoc i placed [] h = omega arith
unmet-snoc i placed (d ∷ ds) h =
    ground (arith, unmet-snoc i placed ds h, elem-append d placed (i ∷ []))

pub unmet-nil : (ds : List ℕ) → unmet [] ds ≡ length ds
unmet-nil [] = refl
unmet-nil (d ∷ ds) = omega (arith, unmet-nil ds)

unmet-zero :
    (placed : List ℕ) (d : ℕ) (ds : List ℕ)
    → unmet placed ds ≡ 0
    → elem d ds ≡ true
    → elem d placed ≡ true
unmet-zero placed d [] h m = absurd (cc)
unmet-zero placed d (e ∷ ds) h m = ground (arith, unmet-zero placed d ds)

pub unmet-pos :
    (placed ds : List ℕ)
    → 0 < unmet placed ds
    → (d : ℕ) × (elem d ds ≡ true) × (elem d placed ≡ false)
unmet-pos placed [] h = absurd (omega arith)
unmet-pos placed (e ∷ ds) h = elim (Bool-cases (elem e placed)) [
  | inl m ↦ let (d, p, q) = unmet-pos placed ds (ground arith) in (d, ground arith, q)
  | inr m ↦ (e, ground arith, m)
]

-- A list holds exactly the indices with a count of 0, once each.
pub record IsSettled (n : ℕ) (indeg seen : List ℕ) : Type 0 where
  pub size : length indeg ≡ n
  pub nodup : is_nodup seen ≡ true
  pub settled : (c : ℕ) → elem c seen ≡ (ltb c n && eqb (get_or indeg c 0) 0)

module _ (n : ℕ) (placed : List ℕ) where
  release-IsSettled :
      (c : ℕ) (indeg ready : List ℕ)
      → c < n
      → IsSettled n indeg (placed ++ ready)
      → IsSettled n (release c indeg ready).0 (placed ++ (release c indeg ready).1)
  unfolding release
  release-IsSettled c indeg ready h s = elim (Bool-cases (eqb (get_or indeg c 0) 1)) [
    | inl e ↦
        rw (e, ← append_assoc placed ready (c ∷ []))
          (record {
            size = length-set indeg c (get_or indeg c 0 - 1) ∙ s.size;
            nodup =
                is_nodup-append (placed ++ ready) (c ∷ []) s.nodup refl
                  (λ a m. ground (arith, s.settled a));
            settled = λ a. ground (
              arith,
              s.settled a,
              s.size,
              elem-append a (placed ++ ready) (c ∷ []),
              get_or-set indeg c a (get_or indeg c 0 - 1) 0,
            );
          })
    | inr e ↦ rw e (record {
      size = length-set indeg c (get_or indeg c 0 - 1) ∙ s.size;
      nodup = s.nodup;
      settled =
          λ a. ground (arith, s.settled a, s.size, get_or-set indeg c a (get_or indeg c 0 - 1) 0);
    })
  ]

  release_all-IsSettled :
      (cs indeg ready : List ℕ)
      → All (λ c. c < n) cs
      → IsSettled n indeg (placed ++ ready)
      → IsSettled n (release_all cs indeg ready).0 (placed ++ (release_all cs indeg ready).1)
  unfolding release_all
  release_all-IsSettled [] indeg ready h s = s
  release_all-IsSettled (c ∷ cs) indeg ready h s =
      release_all-IsSettled cs (release c indeg ready).0 (release c indeg ready).1 h.1
        (release-IsSettled c indeg ready h.0 s)

get_or-release_all :
    (c : ℕ) (cs indeg ready : List ℕ)
    → get_or (release_all cs indeg ready).0 c 0 ≡ get_or indeg c 0 - count c cs
unfolding release_all release
get_or-release_all c [] indeg ready = omega arith
get_or-release_all c (x ∷ cs) indeg ready =
    let left = get_or indeg x 0 in
    let next = if eqb left 1 then ready ++ x ∷ [] else ready in
    ground (
      arith,
      get_or-release_all c cs (set indeg x (left - 1)) next,
      get_or-set indeg x c (left - 1) 0,
      get_or-past indeg c 0,
    )

-- All that an index depends on stands before it.
abbrev pub IsOrdered : (ℕ → List ℕ) → List ℕ → List ℕ → Type 0
IsOrdered deps before [] = Unit
IsOrdered deps before (i ∷ order) =
    All (λ d. elem d before ≡ true) (deps i) × IsOrdered deps (before ++ i ∷ []) order

IsOrdered-snoc :
    (deps : ℕ → List ℕ) (i : ℕ) (before order : List ℕ)
    → IsOrdered deps before order
    → All (λ d. elem d (before ++ order) ≡ true) (deps i)
    → IsOrdered deps before (order ++ i ∷ [])
IsOrdered-snoc deps i before [] h k = (
  All-map (λ d. elem d (before ++ []) ≡ true) (λ d. elem d before ≡ true)
      (λ d m. ground (arith, elem-append d before [])) (deps i) k,
  tt,
)
IsOrdered-snoc deps i before (x ∷ order) h k = (
  h.0,
  IsOrdered-snoc deps i (before ++ x ∷ []) order h.1 (rw (append_assoc before (x ∷ []) order) k),
)

pub record IsQueue (items : List PlanItem) (q : Queue) : Type 0 where
  pub seen : IsSettled (length items) q.indeg (q.order ++ q.ready)
  pub counts : (c : ℕ) → get_or q.indeg c 0 ≡ unmet q.order (deps_of items c)
  pub ordered : IsOrdered (deps_of items) [] q.order

module _ (items : List PlanItem) (g : Graph) (ok : IsGraph items g) where
  child-lt : (i c : ℕ) → elem c (get_or g.children i []) ≡ true → c < length items
  child-lt i c m = elim (Bool-cases (ltb c (length items))) [
    | inl h ↦ ground arith
    | inr h ↦ absurd (
        omega
          (arith, ok.noted i c, elem→count c (get_or g.children i []) m, none_past (ground arith)))
  ]
    where
      none_past : length items ≤ c → count i (deps_of items c) ≡ 0
      none_past h = rw (deps_from-past (length items) 0 items c (omega arith))

  pub visit-IsQueue :
      (i : ℕ) (rest indeg order : List ℕ)
      → IsQueue items (record { indeg = indeg; ready = i ∷ rest; order = order })
      → IsQueue items
          (visit g.children i rest (record { indeg = indeg; ready = i ∷ rest; order = order }))
  unfolding visit
  visit-IsQueue i rest indeg order v =
      let new = is_nodup-middle i order rest v.seen.nodup in
      let children = get_or g.children i [] in
      record {
        seen =
            release_all-IsSettled (length items) (order ++ i ∷ []) children indeg rest
              (All-of_elem (λ c. c < length items) children (child-lt i))
              (rw (append_assoc order (i ∷ []) rest) v.seen);
        counts = λ c. omega (
          arith,
          get_or-release_all c children indeg rest,
          v.counts c,
          ok.noted i c,
          unmet-snoc i order (deps_of items c) new,
        );
        ordered = IsOrdered-snoc (deps_of items) i [] order v.ordered (
            All-of_elem (λ d. elem d order ≡ true) (deps_of items i)
              (λ d m.
                unmet-zero order d (deps_of items i)
                  (ground (arith, v.counts i, v.seen.settled i, elem-append i order (i ∷ rest)))
                  m));
      }
