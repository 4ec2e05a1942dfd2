-- ===== src/Memory.antt =====
-- src/fabri/memory: the entries, and how new ones are merged, classified and evicted.
pub mod Entry
pub mod Payload
pub mod RoundTrip
pub mod Tier
pub mod Ingest
pub mod Merging
pub mod Stored
pub mod Evict
pub mod Evicted
pub mod Order
pub mod Lowest
pub mod Summaries
pub mod Guideline
mod Tests
mod PromotionTests
mod PayloadTests
pub mod Promotion
pub mod Promoted
pub mod Forgotten
pub mod Scan
pub mod Counted
pub mod Stale
pub mod Recurrence
pub mod Scopes
