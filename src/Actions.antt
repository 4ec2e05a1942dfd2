-- ===== src/Actions.antt =====
-- src/fabri/orchestrator/action_execution.py: remembered recoveries raise a role's token cap, all of
-- them or none.
pub mod Defs
pub mod Apply
pub mod Sound
pub mod Effects
pub mod Outcome
mod Tests
