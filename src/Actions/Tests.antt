-- ===== src/Actions/Tests.antt =====
-- Runs of src/fabri/orchestrator/action_execution.py on two role files.
use fabri.Prelude.{
  is_empty, ℕ, String, true, false, ◌==◌, Option, none, some, List, [], ◌∷◌, ok, err, ◌≡◌, refl,
  if◌then◌else◌, eqb, Dict, All,
}
use fabri.Value.{Value, num, str, mapping, Fields, field, end, text, Items}
use fabri.Actions.Defs.{ActionError, PlannedChange, role_paths}
use fabri.Actions.Apply.{Disk, AppliedAction, applied, apply_actions}
use fabri.Actions.Sound.{IsSound}
use fabri.Actions.Effects.{Keeps}
use fabri.Actions.Outcome.{
  Recovery, IsWritten, apply_actions-Keeps, apply_actions-Recovery, apply_actions-IsWritten,
}

abbrev config : ℕ → Fields
config cap = field (text "llm") (mapping (field (text "max_tokens") (num cap) end)) end

abbrev load : String → Option Value
load t = if t == "cap: 100" then some (mapping (config 100)) else none

abbrev dump : Fields → String
dump (field k (mapping (field j (num n) end)) end) = if eqb n 200 then "cap: 200" else "cap: 100"
dump _ = ""

-- A disk whose writes work, and one whose second write fails.
abbrev good_disk : Disk
good_disk = record { load = load; dump = dump; fails = λ n. false; restored = λ p t. t }

abbrev bad_disk : Disk
bad_disk = record good_disk { fails = λ n. eqb n 1 }

abbrev entry : String → String → Fields
entry name path = field (text "name") (str name) (field (text "config") (str path) end)

abbrev entries : List Fields
entries = entry "a" "a.yaml" ∷ entry "b" "b.yaml" ∷ []

abbrev step : String → Value
step role = mapping (
    field (text "capability") (str "configure_role") (
      field (text "args_template")
        (mapping (field (text "role") (str role) (field (text "max_tokens") (num 200) end))) end))

abbrev resolution : Fields
resolution =
    field (text "problem_signature")
      (mapping (field (text "configured_cap") (num 100) (field (text "retry_cap") (num 200) end)))
      (field (text "scope")
        (mapping (
          field (text "roles") (Value.seq (Items.cons (str "a") (Items.cons (str "b") Items.nil)))
            end))
        (field (text "steps") (Value.seq (Items.cons (step "a") (Items.cons (step "b") Items.nil)))
          (field (text "policy")
            (mapping (
              field (text "idempotent") (Value.bool true)
                (field (text "max_attempts") (num 1) end)))
            end)))

abbrev files : Dict String
files = ("a.yaml", "cap: 100") ∷ ("b.yaml", "cap: 100") ∷ ("c.yaml", "kept") ∷ []

abbrev files_after : Dict String
files_after = ("a.yaml", "cap: 200") ∷ ("b.yaml", "cap: 200") ∷ ("c.yaml", "kept") ∷ []

abbrev action : String → String → AppliedAction
action role path = record {
  role = role;
  config_path = path;
  previous_max_tokens = 100;
  new_max_tokens = 200;
}

abbrev actions : List AppliedAction
actions = action "a" "a.yaml" ∷ action "b" "b.yaml" ∷ []

all_applied : apply_actions good_disk (resolution ∷ []) entries files ≡ (ok actions, files_after)
unfolding apply_actions is_empty
all_applied = refl

rolled_back :
    apply_actions bad_disk (resolution ∷ []) entries files ≡ (err ActionError.not_persisted, files)
unfolding apply_actions is_empty
rolled_back = refl

apply_actions-Keeps_example : Keeps bad_disk files [] files
apply_actions-Keeps_example =
    apply_actions-Keeps bad_disk (resolution ∷ []) entries files ActionError.not_persisted files
      (λ p t. refl) rolled_back

apply_actions-Recovery_example :
    (paths : Dict String) × (role_paths entries ≡ ok paths)
    × All (Recovery good_disk (resolution ∷ []) entries files paths) actions
    × Keeps good_disk files ("a.yaml" ∷ "b.yaml" ∷ []) files_after
apply_actions-Recovery_example =
    apply_actions-Recovery good_disk (resolution ∷ []) entries files actions files_after all_applied

apply_actions-IsWritten_example :
    (paths : Dict String) × (role_paths entries ≡ ok paths)
    × All
        (λ a.
          (c : PlannedChange) × (applied c ≡ a)
          × IsSound load (resolution ∷ []) paths files c
          × IsWritten good_disk files_after c)
        actions
apply_actions-IsWritten_example =
    apply_actions-IsWritten good_disk (resolution ∷ []) entries files actions files_after refl
      all_applied
