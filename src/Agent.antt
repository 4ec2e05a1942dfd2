-- ===== src/Agent.antt =====
-- src/fabri/core/agent.py: the loop around the language model and its tools, for runs without
-- a narrator.
pub mod Defs
mod Calls
mod Turn
mod Dispatch
mod Steps
mod Plan
mod Attempt
mod Structured
mod Answers
mod Resolved
mod Repair
mod Repaired
mod Complete
mod Bounds
mod Items
mod Result
mod Talk
mod Paired
mod Tests
