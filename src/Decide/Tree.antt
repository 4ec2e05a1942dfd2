-- ===== src/Decide/Tree.antt =====
-- src/fabri/decide/tree.py: decision trees, from their config to a run.
pub mod Config
pub mod Branches
pub mod Graph
pub mod Run
mod Memo
mod Depth
mod Cycles
pub mod Safe
pub mod Report
pub mod Runs
pub mod Outcome
