-- ===== src/Service/RunStore.antt =====
-- src/fabri/service/run_store.py: the index of runs, a table with the primary key `session_id`.
pub mod Defs
pub mod History
pub mod Ended
pub mod Order
pub mod Listing
pub mod Index
pub mod Totals
pub mod Tests
