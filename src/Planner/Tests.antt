-- ===== src/Planner/Tests.antt =====
-- Tests of the plans of src/fabri/core/planner.py, and the theorems on concrete plans.
use fabri.Prelude.{
  ℕ, zero, suc, ◌<◌, String, true, none, some, List, [], ◌∷◌, ◌≡◌, refl, if◌then◌else◌, eqb,
  is_empty, arith,
}
use fabri.Value.{Value, str, num, neg, bool, seq, mapping, nil, cons, end, field, text}
use fabri.Indices.{elem, count}
use fabri.Planner.Defs.{PlanItem, Json, plan, topological_order}
use fabri.Planner.Edges.{deps_of, deps_from-past}
use fabri.Planner.Turns.{IsOrdered}
use fabri.Planner.Order.{count-topological_order, topological_order-IsOrdered}

abbrev item : String → List ℕ → PlanItem
item goal deps = record { goal = goal; artifacts = []; depends_on = deps; tool_hints = [] }

-- Items 0 and 2 wait, item 2 twice for the same one; 7 is no index and 1 is the item itself.
abbrev game : List PlanItem
game = item "shop" (1 ∷ 2 ∷ []) ∷ item "map" (7 ∷ 1 ∷ []) ∷ item "keeper" (1 ∷ 1 ∷ []) ∷ []

abbrev loop_of_two : List PlanItem
loop_of_two = item "a" (1 ∷ []) ∷ item "b" (0 ∷ []) ∷ item "c" [] ∷ []

order-game : topological_order game ≡ 1 ∷ 2 ∷ 0 ∷ []
unfolding topological_order
order-game = refl

-- Only the unvisited tail is in the declared order.
order-loop_of_two : topological_order loop_of_two ≡ 2 ∷ 0 ∷ 1 ∷ []
unfolding topological_order
order-loop_of_two = refl

count-topological_order_example : count 0 (topological_order loop_of_two) ≡ 1
count-topological_order_example = count-topological_order loop_of_two 0

abbrev rank : ℕ → ℕ
rank i = if eqb i 0 then 2 else if eqb i 2 then 1 else 0

falls : (c d : ℕ) → elem d (deps_of game c) ≡ true → rank d < rank c
falls zero d h = ground arith
falls (suc zero) d h = ground arith
falls (suc (suc zero)) d h = ground arith
falls (suc (suc (suc c))) d h = ground (arith, deps_from-past 3 0 game (suc (suc (suc c))))

topological_order-IsOrdered_example : IsOrdered (deps_of game) [] (topological_order game)
topological_order-IsOrdered_example = topological_order-IsOrdered game rank falls

abbrev reply : Value
reply = mapping (
    field (text "items")
      (seq (
        cons
          (mapping (
            field (text "goal") (str " draw the map ") (
              field (text "depends_on") (seq (cons (num 3) (cons (neg 0) (cons (bool true) nil))))
                end)))
          (cons (mapping (field (text "goal") (str "  ") end)) (cons (num 1) nil))))
      end)

abbrev json : Json
json = record {
  loads = λ t. if is_empty t then none else some reply;
  unfence = λ t. t;
  braces = λ t. none;
}

plan-reply : plan json "play" 8 (some " {} ") ≡ item "draw the map" (3 ∷ 1 ∷ []) ∷ []
unfolding plan
plan-reply = refl

plan-no_reply : plan json "play" 8 none ≡ item "play" [] ∷ []
unfolding plan
plan-no_reply = refl
