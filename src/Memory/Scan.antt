-- ===== src/Memory/Scan.antt =====
-- `scan_orgs` of src/fabri/memory/global_promotion.py: what recurs across organizations is counted under
-- their hashes.
use fabri.Prelude.{
  ℕ, zero, suc, ◌+◌, String, Bool, false, not, ◌==◌, ◌||◌, Option, none, some, List, [], ◌∷◌,
  if◌then◌else◌, ltb, filter, is_empty, Dict, insert, keys,
}
use fabri.Value.{Value, str, seq, find_field, get_field, items}
use fabri.Memory.Entry.{Entry}
use fabri.Memory.Tier.{text_length}
use fabri.Memory.Ingest.{Env, Settings, Candidate, ingest_locked}
use fabri.Memory.Promotion.{Collections, candidates_collection, sibling, iterate, starts_with}

pub record ScanReport : Type 0 where
  pub orgs_scanned : ℕ
  pub lessons_seen : ℕ
  pub ingested : ℕ
  pub skipped_unclean : ℕ
  pub skipped_other : ℕ

-- `scrub`, the rewriting by a language model where it is asked for, the test of `placeholder_ratio`,
-- and `leak_check`.
pub record Cleaner : Type 0 where
  pub scrub : String → List String → String
  pub rewrite : Option (String → Option String)
  pub is_hollow : String → Bool
  pub leaks : String → List String → Bool

abbrev org_prefix : String
org_prefix = "fabri_o_"

-- `name[len(ORG_PREFIX):]`.
unfoldable text_drop : ℕ → String → String
text_drop zero s = s
text_drop (suc n) String.[] = String.[]
text_drop (suc n) (String.◌∷◌ c s) = text_drop n s

unfoldable pub hash_of : String → String
unfolding text_drop text_length
hash_of name = text_drop (text_length org_prefix) name

abbrev min_text_chars : ℕ
min_text_chars = 20

-- The texts of `payload.get("aliases") or []`.
unfoldable texts : List Value → List String
texts [] = []
texts (str s ∷ vs) = s ∷ texts vs
texts (v ∷ vs) = texts vs

abbrev aliases_from : Value → List String
aliases_from (seq vs) = texts (items vs)
aliases_from _ = []

abbrev is_user : Option Value → Bool
is_user (some (str s)) = s == "user"
is_user _ = false

module _ {T : Type 0} (env : Env T) (cleaner : Cleaner) (min_orgs : ℕ) where
  unfoldable aliases_of : Entry T → List String
  unfolding get_field items texts
  aliases_of e = aliases_from (get_field "aliases" e.payload)

  -- A lesson that is not fed to the candidates: of another kind, set aside, or of a user.
  unfoldable pub is_other : Entry T → Bool
  unfolding find_field
  is_other e =
      not (e.kind == "tactical" || (e.kind == "strategic" || e.kind == "success_pattern"))
      || (e.tier == "quarantine"
          || (e.verification == "contradicted" || is_user (find_field "memory_scope" e.payload)))

  -- The text that is fed to the candidates.
  unfoldable clean_text : Entry T → String
  unfolding aliases_of is_empty
  clean_text e =
      let text = cleaner.scrub e.text (aliases_of e) in
      elim cleaner.rewrite [
        | none ↦ text
        | some rewrite ↦ elim (rewrite text) [
          | none ↦ text
          | some t ↦ if is_empty t then text else cleaner.scrub t (aliases_of e)
        ]
      ]

  unfoldable pub is_unclean : Entry T → Bool
  unfolding clean_text text_length
  is_unclean e =
      ltb (text_length (clean_text e)) min_text_chars
      || (cleaner.is_hollow (clean_text e) || cleaner.leaks (clean_text e) (aliases_of e))

  -- The call of `ingest_guideline` with the hash of the organization as the session.
  abbrev lesson : String → String → Candidate
  lesson org text = record {
    text = text;
    session_id = org;
    tags = [];
    tools = [];
    kind = "tactical";
    dedup_key = none;
    producer_agent_id = none;
    scope = "agent";
    verification = "unverified";
    source_event_ids = [];
    applicability = [];
    do_not_reuse_when = [];
    tier = none;
    resolution = none;
  }

  abbrev scan_settings : Settings
  scan_settings = record { promotion_threshold_sessions = min_orgs; tiering_enabled = false }

  -- One turn of the inner loop.
  unfoldable pub scan_entry :
      String → Entry T → ScanReport × Dict (Entry T) → ScanReport × Dict (Entry T)
  unfolding is_other is_unclean clean_text ingest_locked
  scan_entry org e (report, store) =
      let seen = record report { lessons_seen = report.lessons_seen + 1 } in
      if is_other e
      then (record seen { skipped_other = report.skipped_other + 1 }, store)
      else if is_unclean e
      then (record seen { skipped_unclean = report.skipped_unclean + 1 }, store)
      else (
        record seen { ingested = report.ingested + 1 },
        (ingest_locked env scan_settings (lesson org (clean_text e)) store).2,
      )

  unfoldable pub scan_entries :
      String → List (Entry T) → ScanReport × Dict (Entry T) → ScanReport × Dict (Entry T)
  unfolding scan_entry
  scan_entries org [] s = s
  scan_entries org (e ∷ es) s = scan_entries org es (scan_entry org e s)

  -- The outer loop, over the names of the organizations' collections.
  unfoldable pub scan_names :
      Collections T → List String → ScanReport × Dict (Entry T) → ScanReport × Dict (Entry T)
  unfolding scan_entries iterate hash_of
  scan_names w [] s = s
  scan_names w (name ∷ names) (report, store) = scan_names w names (
      scan_entries (hash_of name) (iterate (sibling name w))
        (record report { orgs_scanned = report.orgs_scanned + 1 }, store))

  abbrev pub org_names : Collections T → List String
  org_names w = filter (λ n. starts_with n org_prefix) (keys w)

  -- `scan_orgs`.
  unfoldable pub scan_orgs : Collections T → ScanReport × Collections T
  unfolding scan_names starts_with
  scan_orgs w =
      let empty : ScanReport = record {
        orgs_scanned = 0;
        lessons_seen = 0;
        ingested = 0;
        skipped_unclean = 0;
        skipped_other = 0;
      } in
      let r = scan_names w (org_names w) (empty, sibling candidates_collection w) in
      (r.0, insert candidates_collection r.1 w)
