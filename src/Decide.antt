-- ===== src/Decide.antt =====
-- src/fabri/decide: typed questions, a cascade of two deciders, and decision trees.
pub mod Question
pub mod Shapes
pub mod Shares
pub mod Answer
pub mod Cascade
pub mod Tree
mod Tests
