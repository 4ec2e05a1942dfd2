-- ===== src/Memory/PayloadTests.antt =====
-- Tests of the payloads of src/fabri/memory/schema.py.
use fabri.Prelude.{ℕ, none, some, [], ◌∷◌, ok, err, ◌≡◌, refl}
use fabri.Value.{end}
use fabri.Memory.Entry.{Entry, sync_aliases}
use fabri.Memory.Payload.{Payload, no_kind, to_payload, from_payload}
use fabri.Memory.RoundTrip.{from_payload-to_payload}

abbrev bare : Payload ℕ
bare = record {
  text = some "retry once";
  kind = some "tactical";
  session_ids = some ("s1" ∷ "s1" ∷ []);
  tags = none;
  tools = none;
  hit_count = none;
  created_at = none;
  model_version = none;
  domain = none;
  outcome = none;
  agent_id = some (some "writer");
  task_embedding_hash = none;
  dedup_key = none;
  producer_agent_id = none;
  scope = none;
  verification = none;
  tier = none;
  resolution = none;
  source_session_ids = none;
  source_event_ids = none;
  applicability = none;
  do_not_reuse_when = none;
  payload = none;
}

abbrev lesson : Entry ℕ
lesson = record {
  text = "retry once";
  kind = "tactical";
  session_ids = "s1" ∷ "s2" ∷ [];
  tags = [];
  tools = "shell" ∷ [];
  hit_count = 2;
  created_at = 7;
  model_version = "minilm-l6-v2";
  domain = "code";
  outcome = "failure";
  agent_id = some "writer";
  task_embedding_hash = none;
  dedup_key = none;
  producer_agent_id = none;
  scope = "agent";
  verification = "unverified";
  tier = "retrieve";
  resolution = none;
  source_session_ids = "s2" ∷ [];
  source_event_ids = [];
  applicability = [];
  do_not_reuse_when = [];
  payload = end;
}

-- Missing keys get the defaults, and the old names of the sessions and the agent count.
bare-sessions :
    from_payload 9 bare
    ≡ ok (record lesson {
      session_ids = "s1" ∷ [];
      tools = [];
      hit_count = 1;
      created_at = 9;
      domain = "generic";
      outcome = "unknown";
      producer_agent_id = some "writer";
      tier = "unclassified";
      source_session_ids = "s1" ∷ [];
    })
unfolding from_payload
bare-sessions = refl

no_kind-error : from_payload 9 (record bare { kind = none }) ≡ err no_kind
unfolding from_payload
no_kind-error = refl

from_payload-to_payload_example :
    (from_payload 9 (to_payload (sync_aliases lesson)) ≡ ok (sync_aliases lesson))
    × (from_payload 9 (record (to_payload (sync_aliases lesson)) {
      source_session_ids = none;
      producer_agent_id = none;
    })
        ≡ ok (sync_aliases lesson))
    × (from_payload 9
          (record (to_payload (sync_aliases lesson)) { session_ids = none; agent_id = none })
        ≡ ok (sync_aliases lesson))
from_payload-to_payload_example = from_payload-to_payload 9 lesson
