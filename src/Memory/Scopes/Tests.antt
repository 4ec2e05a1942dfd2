-- ===== src/Memory/Scopes/Tests.antt =====
-- Tests of src/fabri/memory/scopes.py, and the theorem on concrete calls.
use fabri.Prelude.{String, true, false, none, some, [], ◌∷◌, ◌≡◌, refl, ok, err, All}
use fabri.Memory.Scopes.Guard.{
  MemoryScope, wrong_bound, no_scope, not_owned, make_scope, names, check_collection_access,
}
use fabri.Memory.Scopes.Context.{
  call, in_scope, Actions, finish, next, run_actions, ScopedMemory, promotion_only, route,
  upsert_in, use_admin,
}
use fabri.Memory.Scopes.Isolated.{IsIsolated, run_actions-IsIsolated}

abbrev normalize : String → String
normalize s = s

abbrev digest : String → String → String
digest kind s = s

abbrev scope : String → String → MemoryScope
scope user org = record { user_id = user; org_id = org; project_id = none; aliases = [] }

abbrev alice : MemoryScope
alice = scope "alice" "acme"

abbrev bob : MemoryScope
bob = scope "bob" "acme"

-- Alice's own collections, the one of another user, and what would come after.
abbrev actions : Actions
actions =
    next
      (in_scope (some alice) (
        next (call none "fabri_u_alice") (
          next (call (some alice) "fabri_o_acme")
            (next (call none "fabri_global") (next (call none "fabri_u_bob") finish)))))
      (next (call none "fabri_global") finish)

refused : run_actions normalize digest none false actions ≡ record {
  accesses =
      record { bound = none; active = some alice; collection = "fabri_u_alice" }
      ∷ record { bound = some alice; active = some alice; collection = "fabri_o_acme" }
      ∷ record { bound = none; active = some alice; collection = "fabri_global" }
      ∷ [];
  refusal = some (not_owned "fabri_u_bob");
}
unfolding run_actions
refused = refl

-- Without a scope, with a store of another scope, and as an operator.
no_scope_refused :
    check_collection_access normalize digest none false none "fabri_u_bob"
    ≡ some (no_scope "fabri_u_bob")
unfolding check_collection_access
no_scope_refused = refl

bound_refused :
    check_collection_access normalize digest (some alice) false (some bob) "fabri_u_bob"
    ≡ some wrong_bound
unfolding check_collection_access
bound_refused = refl

operator_passes : check_collection_access normalize digest none true none "fabri_u_bob" ≡ none
unfolding check_collection_access
operator_passes = refl

abbrev memory : ScopedMemory
memory = record { scope = alice; global_collection = "fabri_global" }

route_user : route normalize digest memory "user" none ≡ ok ("user", "fabri_u_alice")
unfolding route
route_user = refl

route_global : route normalize digest memory "user" (some "global") ≡ err promotion_only
unfolding route
route_global = refl

-- A global collection that is configured as that of another user is refused.
foreign_refused :
    run_actions normalize digest none false
      (next (upsert_in normalize digest memory "fabri_u_bob") finish)
    ≡ record { accesses = []; refusal = some (not_owned "fabri_u_bob") }
unfolding run_actions
foreign_refused = refl

scope_names : names alice ≡ "alice" ∷ "acme" ∷ []
unfolding names
scope_names = refl

blank_scope : make_scope (scope " " "acme") ≡ none
unfolding make_scope
blank_scope = refl

run_actions-IsIsolated_example :
    All
      (IsIsolated normalize digest (λ kind s t h. h))
      (run_actions normalize digest none false actions).accesses
unfolding use_admin
run_actions-IsIsolated_example =
    run_actions-IsIsolated normalize digest (λ kind s t h. h) none actions refl
