-- ===== src/Waves/Tests.antt =====
-- Runs of src/fabri/builder/waves.py on a small plan.
use fabri.Prelude.{
  ℕ, String, ◌==◌, true, none, some, List, [], ◌∷◌, ok, err, ◌≡◌, refl, if◌then◌else◌, count, elem,
  arith, eq_iff, Bool-cases, inl, inr,
}
use fabri.Waves.Defs.{
  Node, Wave, WaveError, RawId, ids, plan_nodes, plan_waves, spawn_descriptors, cycle,
}
use fabri.Waves.Layers.{IsLayered, wave_ids}
use fabri.Waves.Graph.{deps_of}
use fabri.Waves.Plan.{count-plan_nodes, plan_nodes-IsLayered}
use fabri.Waves.Errors.{IsCycle, IsRanked, plan_nodes-IsCycle, plan_nodes-total}
use fabri.Waves.Spawn.{IsSpawnOrder, spawn_descriptors-IsSpawnOrder}

abbrev node : String → List String → Node
node i deps = record { id = i; depends_on = deps }

abbrev wave : ℕ → List String → Wave
wave n is = record { group = record { prefix = "wave_"; index = n }; ids = is }

-- Two items on which a third depends, and a fourth that depends on the third and the first.
abbrev diamond : List Node
diamond = node "d" ("c" ∷ "a" ∷ []) ∷ node "a" [] ∷ node "c" ("a" ∷ "b" ∷ []) ∷ node "b" [] ∷ []

abbrev diamond_waves : List Wave
diamond_waves = wave 1 ("a" ∷ "b" ∷ []) ∷ wave 2 ("c" ∷ []) ∷ wave 3 ("d" ∷ []) ∷ []

-- Two items that depend on one another, and one that depends on them.
abbrev loop : List Node
loop = node "a" ("b" ∷ []) ∷ node "b" ("a" ∷ []) ∷ node "c" ("a" ∷ []) ∷ []

diamond_plan : plan_nodes "wave_" diamond ≡ ok diamond_waves
unfolding plan_nodes
diamond_plan = refl

loop_plan : plan_nodes "wave_" loop ≡ err (cycle ("a" ∷ "b" ∷ "c" ∷ []))
unfolding plan_nodes
loop_plan = refl

raw_plan :
    plan_waves "w" (
      record { id = RawId.text "x"; depends_on = none }
      ∷ record { id = RawId.other "7"; depends_on = some ("x" ∷ []) }
      ∷ [])
    ≡ ok (
        record { group = record { prefix = "w"; index = 1 }; ids = "x" ∷ [] }
        ∷ record { group = record { prefix = "w"; index = 2 }; ids = "7" ∷ [] }
        ∷ [])
unfolding plan_waves
raw_plan = refl

blank_plan :
    plan_waves "w" (record { id = RawId.text "  "; depends_on = none } ∷ [])
    ≡ err WaveError.missing_id
unfolding plan_waves
blank_plan = refl

plan_nodes-IsLayered_example : IsLayered (λ c. deps_of c diamond) [] diamond_waves
plan_nodes-IsLayered_example = plan_nodes-IsLayered "wave_" diamond diamond_waves diamond_plan

count-plan_nodes_example : count "c" (wave_ids diamond_waves) ≡ count "c" (ids diamond)
count-plan_nodes_example = count-plan_nodes "wave_" diamond diamond_waves "c" diamond_plan

plan_nodes-IsCycle_example : IsCycle loop ("a" ∷ "b" ∷ "c" ∷ [])
plan_nodes-IsCycle_example = plan_nodes-IsCycle "wave_" loop ("a" ∷ "b" ∷ "c" ∷ []) loop_plan

spawn_descriptors-IsSpawnOrder_example : IsSpawnOrder diamond (spawn_descriptors diamond_waves)
spawn_descriptors-IsSpawnOrder_example =
    spawn_descriptors-IsSpawnOrder "wave_" diamond diamond_waves diamond_plan

-- One item on which another depends.
abbrev pair : List Node
pair = node "b" ("a" ∷ []) ∷ node "a" [] ∷ []

abbrev level : String → ℕ
level s = if "b" == s then 1 else 0

pair_deps : (c : String) → deps_of c pair ≡ (if "b" == c then "a" ∷ [] else [])
pair_deps c = elim (Bool-cases ("b" == c)) [
  | inl is_b ↦ elim (Bool-cases ("a" == c)) [
    | inl is_a ↦ rw (is_b, is_a) refl
    | inr not_a ↦ rw (is_b, not_a) refl
  ]
  | inr not_b ↦ elim (Bool-cases ("a" == c)) [
    | inl is_a ↦ rw (not_b, is_a) refl
    | inr not_a ↦ rw (not_b, not_a) refl
  ]
]

level-IsRanked : IsRanked level pair
level-IsRanked c d h =
    let dep : elem d (if "b" == c then "a" ∷ [] else []) ≡ true = rw (pair_deps c) at h in
    elim (Bool-cases ("b" == c)) [
      | inr not_b ↦ absurd (ground arith)
      | inl is_b ↦
          let same : ("a" == d) ≡ true = ground arith in
          rw (is_b, ← (eq_iff "a" d).0 same) (omega arith)
    ]

plan_nodes-total_example : (ws : List Wave) × (plan_nodes "wave_" pair ≡ ok ws)
plan_nodes-total_example =
    plan_nodes-total "wave_" pair level refl (((refl, refl), tt), (tt, tt)) level-IsRanked
