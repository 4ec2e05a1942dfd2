-- ===== src/Memory/Payload.antt =====
-- src/fabri/memory/schema.py: what an entry is stored as, and how it is read back.
use fabri.Prelude.{ℕ, String, Option, none, some, List, [], ok, err, Result, or_else}
use fabri.Value.{Fields, end}
use fabri.Memory.Entry.{Entry, sync_aliases, embedding_model_version}

-- A payload with the keys of an entry. A key that is missing is `none`; the texts that may be null
-- are options of their own.
pub record Payload (T : Type 0) : Type 0 where
  pub text : Option String
  pub kind : Option String
  pub session_ids : Option (List String)
  pub tags : Option (List String)
  pub tools : Option (List String)
  pub hit_count : Option ℕ
  pub created_at : Option T
  pub model_version : Option String
  pub domain : Option String
  pub outcome : Option String
  pub agent_id : Option (Option String)
  pub task_embedding_hash : Option (Option String)
  pub dedup_key : Option (Option String)
  pub producer_agent_id : Option (Option String)
  pub scope : Option String
  pub verification : Option String
  pub tier : Option String
  pub resolution : Option (Option Fields)
  pub source_session_ids : Option (List String)
  pub source_event_ids : Option (List String)
  pub applicability : Option (List String)
  pub do_not_reuse_when : Option (List String)
  pub payload : Option Fields

-- The `KeyError` of a required key.
pub data PayloadError : Type 0 where
  no_text no_kind : PayloadError

-- `payload.get(key, payload.get(other, default))`.
abbrev pub first_key {ℓ} : {A : Type ℓ} → Option A → Option A → A → A
first_key a b d = or_else a (or_else b d)

module _ {T : Type 0} where
  -- `to_payload`.
  unfoldable pub to_payload : Entry T → Payload T
  to_payload e = record {
    text = some e.text;
    kind = some e.kind;
    session_ids = some e.session_ids;
    tags = some e.tags;
    tools = some e.tools;
    hit_count = some e.hit_count;
    created_at = some e.created_at;
    model_version = some e.model_version;
    domain = some e.domain;
    outcome = some e.outcome;
    agent_id = some e.agent_id;
    task_embedding_hash = some e.task_embedding_hash;
    dedup_key = some e.dedup_key;
    producer_agent_id = some e.producer_agent_id;
    scope = some e.scope;
    verification = some e.verification;
    tier = some e.tier;
    resolution = some e.resolution;
    source_session_ids = some e.source_session_ids;
    source_event_ids = some e.source_event_ids;
    applicability = some e.applicability;
    do_not_reuse_when = some e.do_not_reuse_when;
    payload = some e.payload;
  }

  -- The arguments of the constructor in `from_payload`, at a time for a payload without one.
  unfoldable pub fields_of : T → String → String → Payload T → Entry T
  fields_of now t k p = record {
    text = t;
    kind = k;
    session_ids = first_key p.session_ids p.source_session_ids [];
    tags = or_else p.tags [];
    tools = or_else p.tools [];
    hit_count = or_else p.hit_count 1;
    created_at = or_else p.created_at now;
    model_version = or_else p.model_version embedding_model_version;
    domain = or_else p.domain "generic";
    outcome = or_else p.outcome "unknown";
    agent_id = first_key p.agent_id p.producer_agent_id none;
    task_embedding_hash = or_else p.task_embedding_hash none;
    dedup_key = or_else p.dedup_key none;
    producer_agent_id = first_key p.producer_agent_id p.agent_id none;
    scope = or_else p.scope "agent";
    verification = or_else p.verification "unverified";
    tier = or_else p.tier "unclassified";
    resolution = or_else p.resolution none;
    source_session_ids = first_key p.source_session_ids p.session_ids [];
    source_event_ids = or_else p.source_event_ids [];
    applicability = or_else p.applicability [];
    do_not_reuse_when = or_else p.do_not_reuse_when [];
    payload = or_else p.payload end;
  }

  -- `from_payload`.
  unfoldable pub from_payload : T → Payload T → Result PayloadError (Entry T)
  unfolding fields_of sync_aliases
  from_payload now p = elim p.text [
    | none ↦ err no_text
    | some t ↦ elim p.kind [ none ↦ err no_kind | some k ↦ ok (sync_aliases (fields_of now t k p)) ]
  ]
