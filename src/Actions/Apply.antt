-- ===== src/Actions/Apply.antt =====
-- `apply_safe_memory_actions` of src/fabri/orchestrator/action_execution.py: plan, merge by role, write,
-- and restore what was written when a write fails.
use fabri.Prelude.{
  ℕ, String, Bool, Option, none, some, List, [], ◌∷◌, ◌++◌, map, Result, ok, err, ◌>>=◌,
  if◌then◌else◌, eqb, length, Dict, lookup, insert,
}
use fabri.Value.{Value, Fields}
use fabri.Actions.Defs.{
  ActionError, conflict, not_persisted, PlannedChange, role_paths, plan_resolution,
}

pub record AppliedAction : Type 0 where
  pub role : String
  pub config_path : String
  pub previous_max_tokens : ℕ
  pub new_max_tokens : ℕ

-- The standard library and the disk: `yaml.safe_load`, `yaml.safe_dump`, which writes of the run fail,
-- and the text that a restoring `write_text` leaves in a file.
pub record Disk : Type 0 where
  pub load : String → Option Value
  pub dump : Fields → String
  pub fails : ℕ → Bool
  pub restored : String → String → String

-- `_plan_resolution` of each resolution.
unfoldable pub plan_all :
    (String → Option Value)
    → Dict String
    → Dict String
    → List Fields
    → Result ActionError (List PlannedChange)
unfolding plan_resolution
plan_all load files paths [] = ok []
plan_all load files paths (r ∷ rest) = do
  changes ← plan_resolution load files paths r
  more ← plan_all load files paths rest
  ok (changes ++ more)

-- One turn of the loop over the planned changes: the first change of a role stays.
unfoldable pub merge_change :
    PlannedChange → Dict PlannedChange → Result ActionError (Dict PlannedChange)
merge_change change by_role = elim (lookup change.role by_role) [
  | none ↦ ok (insert change.role change by_role)
  | some existing ↦
      if eqb existing.new_max_tokens change.new_max_tokens
      then ok by_role
      else err (conflict change.role)
]

unfoldable pub merge_changes :
    List PlannedChange → Dict PlannedChange → Result ActionError (Dict PlannedChange)
unfolding merge_change
merge_changes [] by_role = ok by_role
merge_changes (change ∷ rest) by_role = do
  by_role' ← merge_change change by_role
  merge_changes rest by_role'

abbrev pub applied : PlannedChange → AppliedAction
applied change = record {
  role = change.role;
  config_path = change.path;
  previous_max_tokens = change.previous_max_tokens;
  new_max_tokens = change.new_max_tokens;
}

-- `planned`, before anything is written.
unfoldable pub plan :
    Disk → Dict String → List Fields → List Fields → Result ActionError (List PlannedChange)
unfolding plan_all merge_changes role_paths
plan disk files resolutions entries = do
  paths ← role_paths entries
  raw ← plan_all disk.load files paths resolutions
  by_role ← merge_changes raw []
  ok (map (λ p. p.1) by_role)

-- The restoring loop, on the written changes from the last to the first.
unfoldable pub restore : Disk → List PlannedChange → Dict String → Dict String
restore disk [] files = files
restore disk (change ∷ rest) files =
    restore disk rest (insert change.path (disk.restored change.path change.original_text) files)

-- The writing loop: `written` are the changes that it has written, the last one first. A write that
-- fails leaves the file as it is.
unfoldable pub write_all :
    Disk
    → List PlannedChange
    → List PlannedChange
    → Dict String
    → Result ActionError (Unit {0}) × Dict String
unfolding restore
write_all disk [] written files = (ok tt, files)
write_all disk (change ∷ rest) written files =
    let next =
      write_all disk rest (change ∷ written) (insert change.path (disk.dump change.config) files) in
    if disk.fails (length written) then (err not_persisted, restore disk written files) else next

abbrev finish :
    List PlannedChange
    → Result ActionError (Unit {0}) × Dict String
    → Result ActionError (List AppliedAction) × Dict String
finish planned (ok u, files) = (ok (map applied planned), files)
finish planned (err e, files) = (err e, files)

-- `apply_safe_memory_actions`, with the files that it leaves.
unfoldable pub apply_actions :
    Disk
    → List Fields
    → List Fields
    → Dict String
    → Result ActionError (List AppliedAction) × Dict String
unfolding plan write_all
apply_actions disk resolutions entries files = elim (plan disk files resolutions entries) [
  | err e ↦ (err e, files)
  | ok planned ↦ finish planned (write_all disk planned [] files)
]
