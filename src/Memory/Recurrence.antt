-- ===== src/Memory/Recurrence.antt =====
-- src/fabri/memory/recurrence.py: when a stored recovery fits the state of a run, and how far it is
-- trusted.
pub mod Signature
pub mod Applicable
pub mod Confidence
pub mod Fits
pub mod Banded
mod Tests
