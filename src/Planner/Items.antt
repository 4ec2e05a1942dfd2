-- ===== src/Planner/Items.antt =====
-- What `plan` of src/fabri/core/planner.py makes of any reply.
use fabri.Prelude.{
  ℕ, zero, suc, ◌≤◌, ◌<◌, String, false, Option, none, some, List, [], ◌∷◌, ◌≡◌, if◌then◌else◌,
  length, take, length-take, or_else, strip, is_empty, All, arith, Bool-cases, inl, inr,
}
use fabri.Value.{Value, Items, null, bool, num, neg, str, seq, mapping, nil, cons, get_field}
use fabri.Planner.Defs.{
  PlanItem, Json, as_str_list, as_int_list, item_of, items_of, extract_json_object, items_field,
  parse_plan, or_task, plan,
}

-- The item has something to do.
abbrev HasGoal : PlanItem → Type 0
HasGoal item = is_empty item.goal ≡ false

item_of-HasGoal :
    (v : Value) (rest : List PlanItem) → All HasGoal rest → All HasGoal (item_of v rest)
unfolding item_of
item_of-HasGoal (mapping fs) rest h = by_goal (get_field "goal" fs)
  where
    by_goal :
        (goal : Value)
        → All HasGoal (elim goal [
          | str goal ↦
              if is_empty (strip goal)
              then rest
              else record {
                goal = strip goal;
                artifacts = as_str_list (get_field "artifacts" fs);
                depends_on = as_int_list (get_field "depends_on" fs);
                tool_hints = as_str_list (get_field "tool_hints" fs);
              }
                ∷ rest
          | _ ↦ rest
        ])
    by_goal (str goal) = elim (Bool-cases (is_empty (strip goal))) [
      | inl e ↦ rw e h
      | inr e ↦ rw e (e, h)
    ]
    by_goal null = h
    by_goal (bool b) = h
    by_goal (num n) = h
    by_goal (neg n) = h
    by_goal (seq vs) = h
    by_goal (mapping gs) = h
item_of-HasGoal null rest h = h
item_of-HasGoal (bool b) rest h = h
item_of-HasGoal (num n) rest h = h
item_of-HasGoal (neg n) rest h = h
item_of-HasGoal (str s) rest h = h
item_of-HasGoal (seq vs) rest h = h

items_of-HasGoal : (vs : Items) → All HasGoal (items_of vs)
unfolding items_of
items_of-HasGoal nil = tt
items_of-HasGoal (cons v vs) = item_of-HasGoal v (items_of vs) (items_of-HasGoal vs)

items_field-HasGoal : (v : Value) → All HasGoal (items_field v)
unfolding items_field
items_field-HasGoal (mapping fs) = by_items (get_field "items" fs)
  where
    by_items : (v : Value) → All HasGoal (elim v [ seq vs ↦ items_of vs | _ ↦ [] ])
    by_items (seq vs) = items_of-HasGoal vs
    by_items null = tt
    by_items (bool b) = tt
    by_items (num n) = tt
    by_items (neg n) = tt
    by_items (str s) = tt
    by_items (mapping gs) = tt
items_field-HasGoal null = tt
items_field-HasGoal (bool b) = tt
items_field-HasGoal (num n) = tt
items_field-HasGoal (neg n) = tt
items_field-HasGoal (str s) = tt
items_field-HasGoal (seq vs) = tt

parse_plan-HasGoal : (json : Json) (t : String) → All HasGoal (parse_plan json t)
unfolding parse_plan
parse_plan-HasGoal json t = by_object (extract_json_object json t)
  where
    by_object : (o : Option Value) → All HasGoal (elim o [ some v ↦ items_field v | none ↦ [] ])
    by_object none = tt
    by_object (some v) = items_field-HasGoal v

All-take {ℓ κ} : {A : Type ℓ} (P : A → Type κ) (n : ℕ) (xs : List A) → All P xs → All P (take n xs)
All-take P zero xs h = tt
All-take P (suc n) [] h = tt
All-take P (suc n) (x ∷ xs) h = (h.0, All-take P n xs h.1)

-- For a task that is not empty and a positive limit, any reply of the model gives a plan of at
-- least one item and at most as many as the limit, each with a goal that is not empty.
pub plan-IsUsable :
    (json : Json) (task : String) (max_items : ℕ) (final_text : Option String)
    → is_empty task ≡ false
    → 0 < max_items
    → (0 < length (plan json task max_items final_text))
      × (length (plan json task max_items final_text) ≤ max_items)
      × All (λ item. is_empty item.goal ≡ false) (plan json task max_items final_text)
unfolding plan
plan-IsUsable json task max_items final_text h k =
    let items = parse_plan json (strip (or_else final_text "")) in
    (
      omega (arith, length-take max_items (or_task task items), some_item items),
      omega (arith, length-take max_items (or_task task items)),
      All-take HasGoal max_items (or_task task items)
          (all_goals items (parse_plan-HasGoal json (strip (or_else final_text "")))),
    )
  where
    some_item : (items : List PlanItem) → 0 < length (or_task task items)
    some_item [] = omega arith
    some_item (item ∷ items) = omega arith

    all_goals : (items : List PlanItem) → All HasGoal items → All HasGoal (or_task task items)
    all_goals [] g = (h, tt)
    all_goals (item ∷ items) g = g
