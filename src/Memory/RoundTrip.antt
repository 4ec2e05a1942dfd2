-- ===== src/Memory/RoundTrip.antt =====
-- What is stored of an entry of src/fabri/memory/schema.py is read back as the same entry.
use fabri.Prelude.{
  List, String, Option, none, some, ◌++◌, ok, ◌≡◌, refl, ap, ap₂, dedup_twice, is_empty, arith,
}
use fabri.Memory.Entry.{Entry, first_of, sync_aliases}
use fabri.Memory.Payload.{to_payload, from_payload}

first_of_twice : (a b : Option String) → first_of (first_of a b) (first_of a b) ≡ first_of a b
unfolding is_empty
first_of_twice none none = refl
first_of_twice none (some t) = ground arith
first_of_twice (some s) none = ground arith
first_of_twice (some s) (some t) = ground arith

module _ {T : Type 0} where
  -- An entry that has been made has synchronized aliases.
  sync_aliases_twice : (e : Entry T) → sync_aliases (sync_aliases e) ≡ sync_aliases e
  unfolding sync_aliases
  sync_aliases_twice e =
      ap₂
        (λ (s : List String) (p : Option String). record e {
          source_session_ids = s;
          session_ids = s;
          producer_agent_id = p;
          agent_id = p;
        })
        (dedup_twice (e.source_session_ids ++ e.session_ids))
        (first_of_twice e.producer_agent_id e.agent_id)

  -- Every entry that the constructor can make is read back from its payload as it was, whatever the
  -- time, also from a payload of before the new names of the sessions and the agent, or of after the
  -- old ones.
  pub from_payload-to_payload :
      (now : T) (e : Entry T)
      → (from_payload now (to_payload (sync_aliases e)) ≡ ok (sync_aliases e))
        × (from_payload now (record (to_payload (sync_aliases e)) {
          source_session_ids = none;
          producer_agent_id = none;
        })
            ≡ ok (sync_aliases e))
        × (from_payload now
              (record (to_payload (sync_aliases e)) { session_ids = none; agent_id = none })
            ≡ ok (sync_aliases e))
  unfolding to_payload from_payload
  from_payload-to_payload now e =
      (ap ok (sync_aliases_twice e), ap ok (sync_aliases_twice e), ap ok (sync_aliases_twice e))
