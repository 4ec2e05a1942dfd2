-- ===== src/Memory/Guideline.antt =====
-- `ingest_guideline` of src/fabri/memory/pruning.py with the eviction that follows an insertion.
use fabri.Prelude.{ℕ, ◌≤◌, min, Option, none, some, length, Dict, ◌≡◌, sym, subst, ap, arith}
use fabri.Memory.Entry.{Entry}
use fabri.Memory.Ingest.{
  Env, Settings, Candidate, Disposition, merged, inserted, find_existing, ingest_locked,
}
use fabri.Memory.Stored.{IsStore, ingest_inserted, ingest_locked-Holds}
use fabri.Memory.Evict.{Scoring, Compressor, evict_if_needed}
use fabri.Memory.Evicted.{length-evict_if_needed}

module _ {T : Type 0} (env : Env T) (scores : Scoring T) (compressor : Option Compressor) where
  -- What follows the lock: only an insertion goes on to the eviction.
  unfoldable after_lock :
      Option ℕ → Disposition × Entry T × Dict (Entry T) → Entry T × Dict (Entry T)
  after_lock none (d, e, store) = (e, store)
  after_lock (some max_entries) (merged, e, store) = (e, store)
  after_lock (some max_entries) (inserted, e, store) =
      (e, (evict_if_needed env scores compressor max_entries store).1)

  -- `ingest_guideline`.
  unfoldable pub ingest_guideline :
      Settings → Option ℕ → Candidate → Dict (Entry T) → Entry T × Dict (Entry T)
  unfolding after_lock ingest_locked evict_if_needed
  ingest_guideline s max_entries c store = after_lock max_entries (ingest_locked env s c store)

-- With a limit, the plain eviction and a store whose entries stand under their ids, once each, a
-- candidate that is merged into no entry leaves at most as many entries as the limit allows.
pub ingest_guideline_bound :
    {T : Type 0} (env : Env T) (scores : Scoring T) (s : Settings) (max_entries : ℕ) (c : Candidate)
    (store : Dict (Entry T))
    → IsStore env store
    → find_existing env c store ≡ none
    → length (ingest_guideline env scores none s (some max_entries) c store).1 ≤ max_entries
unfolding ingest_guideline after_lock
ingest_guideline_bound env scores s max_entries c store v new =
    let kept = ingest_inserted env s c store new in
    let sound = (ingest_locked-Holds env s c store v).0 in
    let sized =
      (length-evict_if_needed env scores max_entries (ingest_locked env s c store).2 sound).0 in
    subst (λ r. length (after_lock env scores none (some max_entries) r).1 ≤ max_entries) (sym kept)
      (let size = ap (λ r. length (evict_if_needed env scores none max_entries r.2).1) kept in
        let bound = ap (λ r. min (length r.2) max_entries) kept in omega arith)
