-- ===== src/Memory/Scopes/Context.antt =====
-- src/fabri/memory/scopes.py: the guarded calls of stores, inside `scope_context` and `admin_access`,
-- and the stores of a `ScopedMemory`.
use fabri.Prelude.{
  String, Bool, true, false, ◌==◌, ◌||◌, Option, none, some, List, [], ◌∷◌, ◌++◌, if◌then◌else◌,
  is_empty, Result, ok, err,
}
use fabri.Memory.Scopes.Guard.{
  MemoryScope, Refusal, user_collection_name, org_collection_name, check_collection_access,
}

-- A call of a guarded method, on a store with its collection and the scope that it is bound to; and
-- the blocks of the two context managers.
mutual
  pub data Action : Type 0 where
    call : Option MemoryScope → String → Action
    in_scope : Option MemoryScope → Actions → Action
    with_admin : Actions → Action

  pub data Actions : Type 0 where
    finish : Actions
    next : Action → Actions → Actions

-- A call that was made, with the scope in force.
pub record Access : Type 0 where
  pub bound : Option MemoryScope
  pub active : Option MemoryScope
  pub collection : String

-- The calls that were made, and the exception that ended them.
pub record Trace : Type 0 where
  pub accesses : List Access
  pub refusal : Option Refusal

pub record ScopedMemory : Type 0 where
  pub scope : MemoryScope
  pub global_collection : String

pub data StoreError : Type 0 where
  unknown_tag promotion_only no_hash : StoreError

-- The collection of a known tag; both names are made, whichever is asked for.
abbrev named : ScopedMemory → String → Option String → Option String → Result StoreError String
named m tag (some u) (some o) =
    ok (if tag == "user" then u else if tag == "org" then o else m.global_collection)
named m tag _ _ = err no_hash

-- `force or classified`.
abbrev chosen : Option String → String → String
unfolding is_empty
chosen none classified = classified
chosen (some t) classified = if is_empty t then classified else t

abbrev tagged : String → Result StoreError String → Result StoreError (String × String)
tagged tag (ok c) = ok (tag, c)
tagged tag (err e) = err e

module _ (normalize : String → String) (digest : String → String → String) where
  -- `guarded`: the call is made where the check does not raise.
  abbrev pub traced : Option MemoryScope → Option MemoryScope → String → Option Refusal → Trace
  traced active bound c none = record {
    accesses = record { bound = bound; active = active; collection = c } ∷ [];
    refusal = none;
  }
  traced active bound c (some r) = record { accesses = []; refusal = some r }

  unfoldable pub guarded : Option MemoryScope → Bool → Option MemoryScope → String → Trace
  unfolding check_collection_access
  guarded active is_admin bound c =
      traced active bound c (check_collection_access normalize digest active is_admin bound c)

  -- What follows is done where no exception was raised.
  abbrev pub continue : List Access → Option Refusal → Trace → Trace
  continue accesses none rest = record {
    accesses = accesses ++ rest.accesses;
    refusal = rest.refusal;
  }
  continue accesses (some r) rest = record { accesses = accesses; refusal = some r }

  abbrev and_then : Trace → Trace → Trace
  and_then first rest = continue first.accesses first.refusal rest

  unfoldable mutual
    unfolding guarded

    pub run_action : Option MemoryScope → Bool → Action → Trace
    run_action active is_admin (call bound c) = guarded active is_admin bound c
    run_action active is_admin (in_scope scope actions) = run_actions scope is_admin actions
    run_action active is_admin (with_admin actions) = run_actions active true actions

    pub run_actions : Option MemoryScope → Bool → Actions → Trace
    run_actions active is_admin finish = record { accesses = []; refusal = none }
    run_actions active is_admin (next a actions) =
        and_then (run_action active is_admin a) (run_actions active is_admin actions)

  -- `ScopedMemory.store`, which opens the collection of a tag, bound to the scope.
  unfoldable pub store : ScopedMemory → String → Result StoreError String
  unfolding user_collection_name org_collection_name
  store m tag =
      if (tag == "user") || ((tag == "org") || (tag == "global"))
      then named m tag (user_collection_name normalize digest m.scope.user_id)
          (org_collection_name normalize digest m.scope.org_id)
      else err unknown_tag

  -- `ScopedMemory.route`, where `classified` is the scope that `classify` finds.
  unfoldable pub route : ScopedMemory → String → Option String → Result StoreError (String × String)
  unfolding store chosen
  route m classified force =
      let tag = chosen force classified in
      if (tag == "user") || (tag == "org") then tagged tag (store m tag) else err promotion_only

  -- The call with which `annotate` stores an entry.
  abbrev pub upsert_in : ScopedMemory → String → Action
  upsert_in m c = in_scope (some m.scope) (next (call (some m.scope) c) finish)

-- Whether an operator's access is asked for.
unfoldable mutual
  pub uses_admin : Action → Bool
  uses_admin (call bound c) = false
  uses_admin (in_scope scope actions) = use_admin actions
  uses_admin (with_admin actions) = true

  pub use_admin : Actions → Bool
  use_admin finish = false
  use_admin (next a actions) = uses_admin a || use_admin actions
