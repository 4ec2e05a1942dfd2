-- ===== src/Planner.antt =====
-- src/fabri/core/planner.py: from the reply of the planner to the order in which its items are run.
pub mod Defs
mod Edges
mod Turns
mod Order
mod Items
mod Tests
