-- ===== src/Agent/Items.antt =====
-- The items of a plan in src/fabri/core/agent.py share the steps of the run.
use fabri.Prelude.{
  ℕ, ◌+◌, ◌/◌, ◌≤◌, max, String, false, ◌||◌, Option, none, some, List, [], ◌∷◌, ◌≡◌, eqb, length,
  arith, Bool-cases, inl, inr,
}
use fabri.Planner.Defs.{PlanItem}
use fabri.Agent.Defs.{Env}
use fabri.Agent.Steps.{Loop, Exit, returned, raised_protocol, raised_key, run_step_loop}
use fabri.Agent.Plan.{
  item_message, item_budget, item_at, user_text, Run, Attempted, finished, protocol_raised,
  key_raised, add_item, add_text, item_text, conclude_item, run_items,
}
use fabri.Agent.Complete.{Finishes}
use fabri.Agent.Bounds.{IsExit, run_step_loop-IsExit}

item_budget-le :
    (remaining left : ℕ) → eqb remaining 0 ≡ false → item_budget remaining left ≤ remaining
unfolding item_budget
item_budget-le remaining left h = ground (arith, quotient-le remaining (max 1 left))
  where
    quotient-le : (m n : ℕ) → m / n ≤ m
    quotient-le m n = grind arith

module _ {W F : Type 0} (env : Env W F) (max_cost : Option F) where
  -- The steps that are made and those that are left are the limit.
  abbrev pub Within : ℕ → Run env max_cost → Type 0
  Within n r = r.step_count + r.steps_remaining ≤ n

  add_text-Within :
      (n : ℕ) (item : PlanItem) (index : ℕ) (o : Option String) (r : Run env max_cost)
      → Within n r
      → Within n (add_text env max_cost item index o r)
  unfolding add_text
  add_text-Within n item index none r w = w
  add_text-Within n item index (some t) r w = w

  conclude_item-Within :
      (n : ℕ) (item : PlanItem) (index : ℕ) (l : Loop env max_cost) (r : Run env max_cost)
      → l.item.steps_used ≤ r.steps_remaining
      → Within n r
      → Within n (conclude_item env max_cost item index l r)
  unfolding conclude_item add_item
  conclude_item-Within n item index l r h w = elim (Bool-cases l.item.is_failed) [
    | inl e ↦ rw e (omega arith)
    | inr e ↦ rw e (
        add_text-Within n item index (item_text env max_cost l.item) (add_item env max_cost l r)
          (omega arith))
  ]

  abbrev pub IsRun : ℕ → Attempted env max_cost (Run env max_cost) → Type 0
  IsRun n (finished r) = Within n r
  IsRun n protocol_raised = Unit
  IsRun n key_raised = ⊥

  pub run_items-IsRun :
      Finishes env
      → (n : ℕ) (items : List PlanItem) (order : List ℕ) (r : Run env max_cost) → Within n r
      → IsRun n (run_items env max_cost items order r)
  unfolding run_items
  run_items-IsRun fin n items [] r w = w
  run_items-IsRun fin n items (i ∷ order) r w =
      elim (Bool-cases (eqb r.steps_remaining 0 || r.is_failed)) [
        | inl stop ↦ rw stop w
        | inr more ↦ rw more (
            after
              (run_step_loop env max_cost (user_text (item_message (item_at items i) r.completed))
                (item_budget r.steps_remaining (length (i ∷ order))) r.account r.world)
              (run_step_loop-IsExit env max_cost fin
                (user_text (item_message (item_at items i) r.completed))
                (item_budget r.steps_remaining (length (i ∷ order))) r.account r.world)
              (item_budget-le r.steps_remaining (length (i ∷ order)) (ground arith))
              (λ r' w'. run_items-IsRun fin n items order r' w'))
      ]
    where
      after :
          (e : Exit env max_cost)
          → IsExit env max_cost (item_budget r.steps_remaining (length (i ∷ order))) e
          → item_budget r.steps_remaining (length (i ∷ order)) ≤ r.steps_remaining
          → ((r' : Run env max_cost)
              → Within n r'
              → IsRun n (run_items env max_cost items order r'))
          → IsRun n (elim e [
            | returned l ↦
                run_items env max_cost items order
                  (conclude_item env max_cost (item_at items i) i l r)
            | raised_protocol l ↦ protocol_raised
            | raised_key ↦ key_raised
          ])
      after (returned l) h b later =
          later (conclude_item env max_cost (item_at items i) i l r)
            (conclude_item-Within n (item_at items i) i l r (omega (arith, h.0, b)) w)
      after (raised_protocol l) h b later = tt
      after raised_key h b later = h
