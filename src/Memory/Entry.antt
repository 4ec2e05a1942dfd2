-- ===== src/Memory/Entry.antt =====
-- src/fabri/memory/schema.py: memory entries and their ids. Times are a type `T`.
use fabri.Prelude.{ℕ, String, ◌==◌, Option, none, some, List, ◌++◌, if◌then◌else◌, dedup, is_empty}
use fabri.Value.{Fields}

pub record Entry (T : Type 0) : Type 0 where
  pub text : String
  pub kind : String
  pub session_ids : List String
  pub tags : List String
  pub tools : List String
  pub hit_count : ℕ
  pub created_at : T
  pub model_version : String
  pub domain : String
  pub outcome : String
  pub agent_id : Option String
  pub task_embedding_hash : Option String
  pub dedup_key : Option String
  pub producer_agent_id : Option String
  pub scope : String
  pub verification : String
  pub tier : String
  pub resolution : Option Fields
  pub source_session_ids : List String
  pub source_event_ids : List String
  pub applicability : List String
  pub do_not_reuse_when : List String
  pub payload : Fields

abbrev pub embedding_model_version : String
embedding_model_version = "minilm-l6-v2"

-- `a or b` for texts that may be missing: an empty text counts as missing.
abbrev pub first_of : Option String → Option String → Option String
first_of none b = b
first_of (some s) b = if is_empty s then b else some s

-- `_ID_NAMESPACE.get(kind, "failure")`.
unfoldable pub namespace : String → String
namespace kind =
    if kind == "success_pattern"
    then "success"
    else if kind == "postmortem"
    then "postmortem"
    else if kind == "convention"
    then "convention"
    else "failure"

module _ {T : Type 0} where
  -- `MemoryEntry.__post_init__`, on the fields that the constructor was given.
  unfoldable pub sync_aliases : Entry T → Entry T
  unfolding is_empty
  sync_aliases e =
      let sessions = dedup (e.source_session_ids ++ e.session_ids) in
      let producer = first_of e.producer_agent_id e.agent_id in
      record e {
        source_session_ids = sessions;
        session_ids = sessions;
        producer_agent_id = producer;
        agent_id = producer;
      }

  -- `MemoryEntry.id`: `digest` makes the id from the namespace and the text, by `strip`, `lower`, SHA-256
  -- and `uuid.UUID`.
  unfoldable pub entry_id : (String → String → String) → Entry T → String
  unfolding namespace
  entry_id digest e = digest (namespace e.kind) e.text
