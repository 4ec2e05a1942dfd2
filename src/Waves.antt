-- ===== src/Waves.antt =====
-- src/fabri/builder/waves.py: items with dependencies are layered into waves by Kahn's algorithm,
-- one wave to a level.
pub mod Defs
mod Graph
mod Release
mod Layers
mod Rounds
pub mod Plan
pub mod Errors
pub mod Spawn
mod Tests
