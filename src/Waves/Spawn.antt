-- ===== src/Waves/Spawn.antt =====
-- The spawn sequence of src/fabri/builder/waves.py: what an item depends on is spawned before it,
-- in a group with a smaller number.
use fabri.Prelude.{
  ℕ, zero, suc, ◌+◌, ◌<◌, String, true, ◌==◌, List, [], ◌∷◌, ◌++◌, ◌≡◌, refl, ap₂, map-append, ap,
  ◌∙◌, length, elem, elem-append, arith, eq_iff, All, All-map, Any, Any-append_left,
  Any-append_right, Any-map, Bool-cases, inl, inr, ok, map, append_assoc, append_nil, count, ◌≤◌,
  Dict,
}
use fabri.Waves.Defs.{
  Node, Wave, wave_of, Layering, SpawnDescriptor, start, round, rounds, is_done, ids, plan_nodes,
  descriptors_of, spawn_descriptors,
}
use fabri.Waves.Graph.{deps_of}
use fabri.Waves.Layers.{wave_ids, IsLayered}
use fabri.Waves.Plan.{count-plan_nodes, Planned-of_ok, plan_nodes-IsLayered}

-- Waves carry the prefix and are numbered one after another.
abbrev IsNumbered : String → ℕ → List Wave → Type 0
IsNumbered prefix k [] = Unit
IsNumbered prefix k (w ∷ ws) =
    (w.group ≡ record { prefix = prefix; index = k }) × IsNumbered prefix (suc k) ws

IsNumbered-snoc :
    (prefix : String) (k : ℕ) (ws : List Wave) (is : List String)
    → IsNumbered prefix k ws
    → IsNumbered prefix k (ws ++ wave_of prefix (length ws + k) is ∷ [])
IsNumbered-snoc prefix k [] is h = (ground arith, tt)
IsNumbered-snoc prefix k (w ∷ ws) is h =
    let e : length ws + suc k ≡ length (w ∷ ws) + k = omega arith in
    (h.0, rw e at (IsNumbered-snoc prefix (suc k) ws is h.1))

rounds-IsNumbered :
    (fuel : ℕ) (prefix : String) (order : List String) (children : Dict (List String))
    (s : Layering)
    → IsNumbered prefix 1 s.waves
    → IsNumbered prefix 1 (rounds fuel prefix order children s).waves
unfolding rounds round
rounds-IsNumbered zero prefix order children s h = h
rounds-IsNumbered (suc fuel) prefix order children s h = elim (Bool-cases (is_done s.ready)) [
  | inl done ↦ rw (done, rounds) h
  | inr more ↦
      rw (more, rounds)
        (rounds-IsNumbered fuel prefix order children (round prefix order children s)
          (IsNumbered-snoc prefix 1 s.waves s.ready h))
]

pub plan_nodes-IsNumbered :
    (prefix : String) (nodes : List Node) (ws : List Wave)
    → plan_nodes prefix nodes ≡ ok ws
    → IsNumbered prefix 1 ws
plan_nodes-IsNumbered prefix nodes ws h =
    let p = Planned-of_ok prefix nodes ws h in
    rw (← p.waves) (
      rounds-IsNumbered (suc (length (ids nodes))) prefix (ids nodes) p.g.children
        (start (ids nodes) p.g) (unfold start in tt))

-- The sequence has the ids of the plan in their order.
pub ids-spawn_descriptors : (ws : List Wave) → map (λ x. x.id) (spawn_descriptors ws) ≡ wave_ids ws
unfolding spawn_descriptors
ids-spawn_descriptors [] = refl
ids-spawn_descriptors (w ∷ ws) =
    map-append (λ x. x.id) (descriptors_of w w.ids) (spawn_descriptors ws)
    ∙ ap₂ (λ xs ys. xs ++ ys) (ids-descriptors_of w w.ids) (ids-spawn_descriptors ws)
  where
    ids-descriptors_of : (v : Wave) (is : List String) → map (λ x. x.id) (descriptors_of v is) ≡ is
    ids-descriptors_of v [] = refl
    ids-descriptors_of v (i ∷ is) = ap (λ r. i ∷ r) (ids-descriptors_of v is)

-- A descriptor of `d` stands in a list, in a group below `k`.
abbrev Spawned : List SpawnDescriptor → String → ℕ → Type 0
Spawned xs d k = Any (λ y. (y.id ≡ d) × (y.parallel_group.index < k)) xs

-- All that an item depends on is spawned before it, in a group below its own.
abbrev pub IsOrdered : (String → List String) → List SpawnDescriptor → List SpawnDescriptor → Type 0
IsOrdered deps before [] = Unit
IsOrdered deps before (x ∷ xs) =
    All (λ d. Spawned before d x.parallel_group.index) (deps x.id)
    × IsOrdered deps (before ++ x ∷ []) xs

-- A complete sequence in order: each declared id has one descriptor and no other id has any.
pub record IsSpawnOrder (nodes : List Node) (xs : List SpawnDescriptor) : Type 0 where
  pub ordered : IsOrdered (λ c. deps_of c nodes) [] xs
  pub complete : (c : String) → count c (map (λ x. x.id) xs) ≡ count c (ids nodes)

Spawned-grow :
    (xs ys : List SpawnDescriptor) (d : String) (k m : ℕ)
    → k ≤ m
    → Spawned xs d k
    → Spawned (xs ++ ys) d m
Spawned-grow xs ys d k m le h =
    Any-append_left (λ y. (y.id ≡ d) × (y.parallel_group.index < m)) xs ys
      (Any-map (λ y. (y.id ≡ d) × (y.parallel_group.index < k))
        (λ y. (y.id ≡ d) × (y.parallel_group.index < m)) (λ y p. (p.0, omega arith)) xs h)

Spawned-descriptors_of :
    (w : Wave) (is : List String) (d : String) (k : ℕ)
    → w.group.index ≡ k
    → elem d is ≡ true
    → Spawned (descriptors_of w is) d (suc k)
unfolding descriptors_of
Spawned-descriptors_of w [] d k e m = absurd (cc)
Spawned-descriptors_of w (i ∷ is) d k e m = elim (Bool-cases (i == d)) [
  | inl same ↦ inl ((eq_iff i d).0 same, omega arith)
  | inr other ↦ inr (Spawned-descriptors_of w is d k e (ground arith))
]

module _ (deps : String → List String) where
  IsOrdered-append :
      (xs ys before : List SpawnDescriptor)
      → IsOrdered deps before xs
      → IsOrdered deps (before ++ xs) ys
      → IsOrdered deps before (xs ++ ys)
  IsOrdered-append [] ys before h k = rw append_nil at k
  IsOrdered-append (x ∷ xs) ys before h k =
      (h.0, IsOrdered-append xs ys (before ++ x ∷ []) h.1 (rw append_assoc k))

  -- The descriptors of one wave, after those of the waves before it.
  IsOrdered-descriptors_of :
      (w : Wave) (is seen : List String) (before : List SpawnDescriptor)
      → ((d : String) → elem d seen ≡ true → Spawned before d w.group.index)
      → All (λ i. All (λ d. elem d seen ≡ true) (deps i)) is
      → IsOrdered deps before (descriptors_of w is)
  unfolding descriptors_of
  IsOrdered-descriptors_of w [] seen before ready h = tt
  IsOrdered-descriptors_of w (i ∷ is) seen before ready h =
      let k = w.group.index in
      let x : SpawnDescriptor = record { id = i; parallel_group = w.group } in
      (
        All-map (λ d. elem d seen ≡ true) (λ d. Spawned before d k) ready (deps i) h.0,
        IsOrdered-descriptors_of w is seen (before ++ x ∷ [])
            (λ d m. Spawned-grow before (x ∷ []) d k k (omega arith) (ready d m)) h.1,
      )

  IsOrdered-spawn_descriptors :
      (prefix : String) (ws : List Wave) (before : List SpawnDescriptor) (seen : List String)
      (k : ℕ)
      → IsNumbered prefix k ws
      → IsLayered deps seen ws
      → ((d : String) → elem d seen ≡ true → Spawned before d k)
      → IsOrdered deps before (spawn_descriptors ws)
  unfolding spawn_descriptors
  IsOrdered-spawn_descriptors prefix [] before seen k n l ready = tt
  IsOrdered-spawn_descriptors prefix (w ∷ ws) before seen k n l ready =
      let index : w.group.index ≡ k = ap (λ g. g.index) n.0 in
      IsOrdered-append here (spawn_descriptors ws) before
        (IsOrdered-descriptors_of w w.ids seen before (λ d m. rw index (ready d m)) l.0)
        (IsOrdered-spawn_descriptors prefix ws (before ++ here) (seen ++ w.ids) (suc k) n.1 l.1
          later)
    where
      here : List SpawnDescriptor
      here = descriptors_of w w.ids

      later : (d : String) → elem d (seen ++ w.ids) ≡ true → Spawned (before ++ here) d (suc k)
      later d m = elim (Bool-cases (elem d seen)) [
        | inl old ↦ Spawned-grow before here d k (suc k) (omega arith) (ready d old)
        | inr new ↦
            Any-append_right (λ y. (y.id ≡ d) × (y.parallel_group.index < suc k)) before here
              (Spawned-descriptors_of w w.ids d k (ap (λ g. g.index) n.0)
                (ground (arith, elem-append d seen w.ids)))
      ]

-- The spawn sequence of a plan has a descriptor for each declared id, one for each, and for no other
-- id; all that an item depends on stands before it in the sequence, in a group with a smaller number.
pub spawn_descriptors-IsSpawnOrder :
    (prefix : String) (nodes : List Node) (ws : List Wave)
    → plan_nodes prefix nodes ≡ ok ws
    → IsSpawnOrder nodes (spawn_descriptors ws)
spawn_descriptors-IsSpawnOrder prefix nodes ws h = record {
  ordered =
      IsOrdered-spawn_descriptors (λ c. deps_of c nodes) prefix ws [] [] 1
        (plan_nodes-IsNumbered prefix nodes ws h) (plan_nodes-IsLayered prefix nodes ws h)
        (λ d m. absurd (cc));
  complete = λ c. rw (ids-spawn_descriptors ws) (count-plan_nodes prefix nodes ws c h);
}
