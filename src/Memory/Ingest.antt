-- ===== src/Memory/Ingest.antt =====
-- `ingest_guideline` of src/fabri/memory/pruning.py, up to the eviction that follows an insertion. The
-- store is a dictionary of entries by their ids, which are read and written under the lock.
use fabri.Prelude.{
  ℕ, ◌+◌, String, Bool, not, ◌==◌, ◌&&◌, ◌||◌, Option, none, some, List, [], ◌∷◌, ◌++◌,
  if◌then◌else◌, ltb, leb, elem, filter, or_else, Dict, insert, is_some,
}
use fabri.Value.{Fields, end}
use fabri.Memory.Entry.{Entry, sync_aliases, entry_id, embedding_model_version}
use fabri.Memory.Tier.{tier_rank, verification_rank, classify_tier, distinct, text_length}

-- The arguments that describe the candidate. Each list that the caller may leave out is empty then.
pub record Candidate : Type 0 where
  pub text : String
  pub session_id : String
  pub tags : List String
  pub tools : List String
  pub kind : String
  pub dedup_key : Option String
  pub producer_agent_id : Option String
  pub scope : String
  pub verification : String
  pub source_event_ids : List String
  pub applicability : List String
  pub do_not_reuse_when : List String
  pub tier : Option String
  pub resolution : Option Fields

pub record Settings : Type 0 where
  pub promotion_threshold_sessions : ℕ
  pub tiering_enabled : Bool

-- What the ids are made of and what is read besides the store: the digest, the clock, `_classify_domain`
-- of the retrieval, and the two searches of the store, which may ask for a kind.
pub record Env (T : Type 0) : Type 0 where
  pub digest : String → String → String
  pub now : T
  pub domain_of : String → List String → String
  pub find_similar : Dict (Entry T) → String → Option String → Option (Entry T)
  pub find_by_dedup_key : Dict (Entry T) → String → Option String → Option (Entry T)

pub data Disposition : Type 0 where
  merged inserted : Disposition

-- `if x not in xs: xs.append(x)`.
abbrev pub add_missing : List String → String → List String
add_missing xs x = if elem x xs then xs else xs ++ x ∷ []

-- The loop of these over several texts.
unfoldable pub add_all_missing : List String → List String → List String
add_all_missing xs [] = xs
add_all_missing xs (y ∷ ys) = add_all_missing (add_missing xs y) ys

-- The greater of two values by a rank; the present one where the ranks agree.
abbrev pub raise_to : (String → ℕ) → String → String → String
raise_to rank old new = if ltb (rank old) (rank new) then new else old

abbrev is_whole_run : String → Bool
is_whole_run kind = kind == "success_pattern" || kind == "postmortem"

abbrev outcome_of : String → String
outcome_of kind =
    if kind == "success_pattern"
    then "success"
    else if kind == "tactical" || kind == "strategic"
    then "failure"
    else "unknown"

module _ {T : Type 0} where
  abbrev pub remove : String → Dict (Entry T) → Dict (Entry T)
  remove k store = filter (λ p. not (p.0 == k)) store

  -- The entry that the candidate is merged into, if there is one.
  unfoldable pub find_existing : Env T → Candidate → Dict (Entry T) → Option (Entry T)
  find_existing env c store =
      let by_kind = if is_whole_run c.kind then some c.kind else none in
      let similar = env.find_similar store c.text by_kind in
      elim c.dedup_key [
        | none ↦ similar
        | some key ↦ elim (env.find_by_dedup_key store key by_kind) [
          | none ↦ similar
          | some e ↦ some e
        ]
      ]

  -- The changes that a merge makes to the entry before its tier is looked at.
  unfoldable pub merge_fields : Settings → Candidate → Entry T → Entry T
  unfolding add_all_missing verification_rank text_length
  merge_fields s c e =
      let sessions = add_missing e.session_ids c.session_id in
      record e {
        session_ids = sessions;
        source_session_ids = add_missing e.source_session_ids c.session_id;
        source_event_ids = add_all_missing e.source_event_ids c.source_event_ids;
        applicability = add_all_missing e.applicability c.applicability;
        do_not_reuse_when = add_all_missing e.do_not_reuse_when c.do_not_reuse_when;
        producer_agent_id =
            if is_some e.producer_agent_id then e.producer_agent_id else c.producer_agent_id;
        agent_id = if is_some e.producer_agent_id then e.agent_id else c.producer_agent_id;
        resolution = if is_some c.resolution then c.resolution else e.resolution;
        verification = raise_to verification_rank e.verification c.verification;
        hit_count = e.hit_count + 1;
        tools = add_all_missing e.tools c.tools;
        text = if ltb (text_length e.text) (text_length c.text) then c.text else e.text;
        kind =
            if leb s.promotion_threshold_sessions (distinct sessions) then "strategic" else e.kind;
      }

  -- The tier of a merged entry: it only rises.
  unfoldable pub merge_tier : Settings → Option String → Entry T → Entry T
  unfolding tier_rank classify_tier
  merge_tier s (some tier) e = record e { tier = raise_to tier_rank e.tier tier }
  merge_tier s none e =
      if s.tiering_enabled
      then record e { tier = raise_to tier_rank e.tier (classify_tier e) }
      else e

  unfoldable pub merge_entry : Settings → Candidate → Entry T → Entry T
  unfolding merge_fields merge_tier
  merge_entry s c e = merge_tier s c.tier (merge_fields s c e)

  -- `store.upsert(entry)`, and the deletion of the point that the entry had before.
  unfoldable pub replace_entry : Env T → Entry T → Entry T → Dict (Entry T) → Dict (Entry T)
  unfolding entry_id
  replace_entry env old new store =
      let stored = insert (entry_id env.digest new) new store in
      if entry_id env.digest new == entry_id env.digest old
      then stored
      else remove (entry_id env.digest old) stored

  -- The entry of a candidate that is merged into no other.
  unfoldable pub new_entry : Env T → Settings → Candidate → Entry T
  unfolding sync_aliases classify_tier
  new_entry env s c =
      let made = sync_aliases (record {
        text = c.text;
        kind = c.kind;
        session_ids = c.session_id ∷ [];
        tags = c.tags;
        tools = c.tools;
        hit_count = 1;
        created_at = env.now;
        model_version = embedding_model_version;
        domain = if c.kind == "postmortem" then "generic" else env.domain_of c.text c.tools;
        outcome = outcome_of c.kind;
        agent_id = c.producer_agent_id;
        task_embedding_hash = none;
        dedup_key = c.dedup_key;
        producer_agent_id = c.producer_agent_id;
        scope = c.scope;
        verification = c.verification;
        tier = or_else c.tier "unclassified";
        resolution = c.resolution;
        source_session_ids = c.session_id ∷ [];
        source_event_ids = c.source_event_ids;
        applicability = c.applicability;
        do_not_reuse_when = c.do_not_reuse_when;
        payload = end;
      }) in
      if not (is_some c.tier) && s.tiering_enabled
      then record made { tier = classify_tier made }
      else made

  -- What is done under the lock.
  unfoldable pub ingest_locked :
      Env T → Settings → Candidate → Dict (Entry T) → Disposition × Entry T × Dict (Entry T)
  unfolding find_existing merge_entry replace_entry new_entry entry_id
  ingest_locked env s c store = elim (find_existing env c store) [
    | some e ↦ (merged, merge_entry s c e, replace_entry env e (merge_entry s c e) store)
    | none ↦ (
      inserted,
      new_entry env s c,
      insert (entry_id env.digest (new_entry env s c)) (new_entry env s c) store,
    )
  ]
