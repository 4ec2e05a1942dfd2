-- ===== src/Memory/PromotionTests.antt =====
-- Runs of src/fabri/memory/global_promotion.py on three organizations.
use fabri.Prelude.{ℕ, String, false, none, some, List, [], ◌∷◌, ok, lookup, All, ◌≡◌, refl}
use fabri.Value.{end}
use fabri.Memory.Entry.{Entry, entry_id}
use fabri.Memory.Ingest.{Env}
use fabri.Memory.Stored.{IsStore}
use fabri.Memory.Promotion.{
  Collections, candidates_collection, sibling, approve, list_candidates, promoted_entry,
  with_status, upsert_in, forget_org,
}
use fabri.Memory.Promoted.{IsApproved, approve-IsApproved}
use fabri.Memory.Forgotten.{IsClean, forget_org-IsClean}
use fabri.Memory.Scan.{Cleaner, scan_orgs}
use fabri.Memory.Counted.{IsCounted, scan_orgs-IsCounted}

abbrev entry : String → List String → Entry ℕ
entry text orgs = record {
  text = text;
  kind = "tactical";
  session_ids = orgs;
  tags = [];
  tools = [];
  hit_count = 1;
  created_at = 0;
  model_version = "minilm-l6-v2";
  domain = "generic";
  outcome = "failure";
  agent_id = none;
  task_embedding_hash = none;
  dedup_key = none;
  producer_agent_id = none;
  scope = "agent";
  verification = "unverified";
  tier = "unclassified";
  resolution = none;
  source_session_ids = orgs;
  source_event_ids = [];
  applicability = [];
  do_not_reuse_when = [];
  payload = end;
}

abbrev env : Env ℕ
env = record {
  digest = λ ns text. text;
  now = 7;
  domain_of = λ text tools. "generic";
  find_similar = λ store text kind. lookup text store;
  find_by_dedup_key = λ store key kind. none;
}

abbrev shared : Entry ℕ
shared = entry "read the error first" ("x" ∷ "y" ∷ "z" ∷ [])

abbrev rare : Entry ℕ
rare = entry "restart it" ("x" ∷ [])

abbrev memory : Collections ℕ
memory =
    ("fabri_o_x", ("read the error first", entry "read the error first" ("s" ∷ [])) ∷ [])
    ∷ ("fabri_global_candidates", ("read the error first", shared) ∷ ("restart it", rare) ∷ [])
    ∷ []

only_shared :
    list_candidates env 3 (some "pending") memory
    ≡ record {
      id = "read the error first";
      text = "read the error first";
      source_count = 3;
      status = "pending";
    }
      ∷ []
unfolding list_candidates
only_shared = refl

abbrev approved : Collections ℕ
approved =
    upsert_in env candidates_collection (with_status env "approved" shared)
      (upsert_in env "fabri_global" (promoted_entry env shared) memory)

one_approval :
    approve env 3 "fabri_global" "read the error first" memory
    ≡ ok (promoted_entry env shared, approved)
unfolding approve
one_approval = refl

approve-IsApproved_example :
    IsApproved env 3 "fabri_global" "read the error first" memory
      (promoted_entry env shared)
      approved
approve-IsApproved_example =
    approve-IsApproved env 3 "fabri_global" "read the error first" memory approved
      (promoted_entry env shared) refl one_approval

candidates-IsStore : IsStore env (sibling candidates_collection memory)
unfolding entry_id
candidates-IsStore = record { under_id = (refl, (refl, tt)); distinct = refl }

forget_org-IsClean_example :
    (lookup "fabri_o_x" (forget_org env 3 "fabri_o_x" "x" memory).1 ≡ none)
    × All
        (λ p. IsClean env 3 "x" p.1)
        (sibling candidates_collection (forget_org env 3 "fabri_o_x" "x" memory).1)
forget_org-IsClean_example = forget_org-IsClean env 3 "x" "fabri_o_x" memory refl candidates-IsStore

abbrev plain : Cleaner
plain = record {
  scrub = λ t names. t;
  rewrite = none;
  is_hollow = λ t. false;
  leaks = λ t names. false;
}

scan_orgs-IsCounted_example : IsCounted env plain 3 memory (scan_orgs env plain 3 memory).0
scan_orgs-IsCounted_example = scan_orgs-IsCounted env plain 3 memory
