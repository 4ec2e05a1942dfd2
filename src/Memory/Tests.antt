-- ===== src/Memory/Tests.antt =====
-- Runs of src/fabri/memory/pruning.py on a small store. The ids of the tests are the texts, the times
-- and the scores are numbers.
use fabri.Prelude.{
  ℕ, ◌+◌, ◌≤◌, min, String, true, none, some, [], ◌∷◌, ltb, length, Dict, lookup, ◌≡◌, refl, arith,
}
use fabri.Value.{end}
use fabri.Memory.Entry.{Entry, entry_id}
use fabri.Memory.Tier.{strip_length}
use fabri.Memory.Ingest.{
  Env, Settings, Candidate, find_existing, merge_entry, ingest_locked, remove,
}
use fabri.Memory.Merging.{IsMerged, merge_entry-IsMerged}
use fabri.Memory.Stored.{IsStore, Holds, ingest_locked-Holds}
use fabri.Memory.Evict.{Scoring, Compressor, no_text, evict_if_needed, summarize_strategic}
use fabri.Memory.Evicted.{length-evict_if_needed}
use fabri.Memory.Order.{IsOrder}
use fabri.Memory.Lowest.{IsEviction, evict_if_needed-IsEviction}
use fabri.Memory.Summaries.{summarize_strategic_lost}
use fabri.Memory.Stale.{Ages, find_stale_guidelines}
use fabri.Memory.Guideline.{ingest_guideline, ingest_guideline_bound}

abbrev entry : String → String → ℕ → Entry ℕ
entry text kind hits = record {
  text = text;
  kind = kind;
  session_ids = "s1" ∷ [];
  tags = [];
  tools = "grep" ∷ [];
  hit_count = hits;
  created_at = 0;
  model_version = "minilm-l6-v2";
  domain = "generic";
  outcome = "failure";
  agent_id = none;
  task_embedding_hash = none;
  dedup_key = none;
  producer_agent_id = none;
  scope = "agent";
  verification = "unverified";
  tier = "retrieve";
  resolution = none;
  source_session_ids = "s1" ∷ [];
  source_event_ids = [];
  applicability = [];
  do_not_reuse_when = [];
  payload = end;
}

abbrev env : Env ℕ
env = record {
  digest = λ ns text. text;
  now = 7;
  domain_of = λ text tools. "generic";
  find_similar = λ store text kind. lookup text store;
  find_by_dedup_key = λ store key kind. none;
}

abbrev settings : Settings
settings = record { promotion_threshold_sessions = 2; tiering_enabled = true }

abbrev candidate : String → Candidate
candidate text = record {
  text = text;
  session_id = "s2";
  tags = [];
  tools = "sed" ∷ [];
  kind = "tactical";
  dedup_key = none;
  producer_agent_id = some "worker";
  scope = "agent";
  verification = "tool_verified";
  source_event_ids = "e1" ∷ [];
  applicability = [];
  do_not_reuse_when = [];
  tier = none;
  resolution = none;
}

abbrev store : Dict (Entry ℕ)
store =
    ("b", entry "b" "strategic" 1)
    ∷ ("a", entry "a" "tactical" 5)
    ∷ ("c", entry "c" "tactical" 2)
    ∷ []

abbrev by_hits : Scoring ℕ
by_hits = record { Score = ℕ; score = λ e. e.hit_count; less = ltb }

store-IsStore : IsStore env store
unfolding entry_id
store-IsStore = record { under_id = (refl, (refl, (refl, tt))); distinct = refl }

promoted : (merge_entry settings (candidate "a") (entry "a" "tactical" 5)).kind ≡ "strategic"
unfolding merge_entry
promoted = refl

now_core : (merge_entry settings (candidate "a") (entry "a" "tactical" 5)).tier ≡ "core"
unfolding merge_entry strip_length
now_core = refl

one_evicted :
    evict_if_needed env by_hits none 2 store
    ≡ (1, ("b", entry "b" "strategic" 1) ∷ ("a", entry "a" "tactical" 5) ∷ [])
unfolding evict_if_needed
one_evicted = refl

merge_entry-IsMerged_example :
    IsMerged settings
      (candidate "a")
      (entry "a" "tactical" 5)
      (merge_entry settings (candidate "a") (entry "a" "tactical" 5))
merge_entry-IsMerged_example =
    merge_entry-IsMerged settings (candidate "a") (entry "a" "tactical" 5)

ingest_locked-Holds_example :
    Holds env
      (ingest_locked env settings (candidate "a") store).2
      (ingest_locked env settings (candidate "a") store).1
ingest_locked-Holds_example = ingest_locked-Holds env settings (candidate "a") store store-IsStore

length-evict_if_needed_example :
    (length (evict_if_needed env by_hits none 2 store).1 ≡ min 3 2)
    × (length (evict_if_needed env by_hits none 2 store).1
          + (evict_if_needed env by_hits none 2 store).0
        ≡ 3)
length-evict_if_needed_example = length-evict_if_needed env by_hits 2 store store-IsStore

by_hits-IsOrder : IsOrder by_hits
by_hits-IsOrder = record {
  asymmetric = λ a b h. ground (arith, h);
  transitive = λ a b c h k. ground (arith, h, k);
}

evict_if_needed-IsEviction_example :
    IsEviction env by_hits store (evict_if_needed env by_hits none 2 store).1
evict_if_needed-IsEviction_example =
    evict_if_needed-IsEviction env by_hits 2 store by_hits-IsOrder store-IsStore

abbrev silent : Compressor
silent = record { reply = λ t. no_text; capped = λ t. t }

summarize_strategic_lost_example :
    summarize_strategic env silent (entry "b" "strategic" 1) store
    ≡ remove (entry_id env.digest (entry "b" "strategic" 1)) store
summarize_strategic_lost_example =
    summarize_strategic_lost env silent (entry "b" "strategic" 1) store refl refl refl

nothing_similar : find_existing env (candidate "d") store ≡ none
unfolding find_existing
nothing_similar = refl

ingest_guideline_bound_example :
    length (ingest_guideline env by_hits none settings (some 3) (candidate "d") store).1 ≤ 3
ingest_guideline_bound_example =
    ingest_guideline_bound env by_hits settings 3 (candidate "d") store store-IsStore
      nothing_similar

abbrev by_age : Ages ℕ ℕ
by_age = record { age = λ e. e.created_at; less = ltb }

stale-store : length (find_stale_guidelines env by_age 2 0 ("tactical" ∷ []) (some 1) store) ≡ 1
unfolding find_stale_guidelines
stale-store = refl
