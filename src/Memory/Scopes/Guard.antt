-- ===== src/Memory/Scopes/Guard.antt =====
-- src/fabri/memory/scopes.py: the names of the collections, and `check_collection_access`.
use fabri.Prelude.{
  String, Bool, true, false, not, ◌==◌, ◌&&◌, ◌||◌, Option, none, some, List, [], ◌∷◌,
  if◌then◌else◌, filter, is_blank, is_empty, str_append, starts_with,
}

abbrev pub user_prefix : String
user_prefix = "fabri_u_"

abbrev pub org_prefix : String
org_prefix = "fabri_o_"

-- `MemoryScope`.
pub record MemoryScope : Type 0 where
  pub user_id : String
  pub org_id : String
  pub project_id : Option String
  pub aliases : List String

-- `__post_init__`: the ids are not blank, or it raises.
unfoldable pub make_scope : MemoryScope → Option MemoryScope
unfolding is_blank
make_scope s = if is_blank s.user_id || is_blank s.org_id then none else some s

-- `==` on scopes, which compares the fields.
abbrev same_option : Option String → Option String → Bool
same_option none none = true
same_option (some s) (some t) = s == t
same_option _ _ = false

abbrev same_list : List String → List String → Bool
same_list [] [] = true
same_list (x ∷ xs) (y ∷ ys) = (x == y) && same_list xs ys
same_list _ _ = false

unfoldable pub same_scope : MemoryScope → MemoryScope → Bool
same_scope s t =
    (s.user_id == t.user_id)
    && ((s.org_id == t.org_id)
        && (same_option s.project_id t.project_id && same_list s.aliases t.aliases))

-- `names`: what is taken out of texts that leave the scope.
unfoldable pub names : MemoryScope → List String
unfolding is_blank
names s =
    filter (λ n. not (is_blank n))
      (s.user_id
        ∷ s.org_id
        ∷ (elim s.project_id [ none ↦ s.aliases | some p ↦ append s.aliases p ]))
  where
    append : List String → String → List String
    append [] p = if is_empty p then [] else p ∷ []
    append (x ∷ xs) p = x ∷ append xs p

-- `is_scoped_collection`.
unfoldable pub is_scoped : String → Bool
unfolding starts_with
is_scoped c = starts_with user_prefix c || starts_with org_prefix c

-- Why a call is refused: a `ScopeViolation`, or the `ValueError` of an id without a hash.
pub data Refusal : Type 0 where
  wrong_bound empty_id : Refusal
  no_scope not_owned : String → Refusal

-- `normalize` is `strip` and `lower`, and `digest` the hexadecimal digest of a kind and an id.
module _ (normalize : String → String) (digest : String → String → String) where
  unfoldable pub hash_id : String → String → Option String
  unfolding is_empty
  hash_id kind raw =
      let norm = normalize raw in if is_empty norm then none else some (digest kind norm)

  abbrev pub prefixed : String → Option String → Option String
  unfolding str_append
  prefixed prefix none = none
  prefixed prefix (some h) = some (str_append prefix h)

  unfoldable pub user_collection_name : String → Option String
  unfolding hash_id prefixed
  user_collection_name user_id = prefixed user_prefix (hash_id "user" user_id)

  unfoldable pub org_collection_name : String → Option String
  unfolding hash_id prefixed
  org_collection_name org_id = prefixed org_prefix (hash_id "org" org_id)

  -- `collection in scope.allowed_collections`, where both names are made.
  unfoldable pub is_allowed : Option String → Option String → String → Option Bool
  is_allowed (some u) (some o) c = some ((c == u) || (c == o))
  is_allowed _ _ c = none

  unfoldable pub in_allowed : MemoryScope → String → Option Bool
  unfolding is_allowed user_collection_name org_collection_name
  in_allowed s c = is_allowed (user_collection_name s.user_id) (org_collection_name s.org_id) c

  -- The tests on the scope that a call has in effect.
  abbrev pub refuse : String → Option Bool → Option Refusal
  refuse c none = some empty_id
  refuse c (some true) = none
  refuse c (some false) = some (not_owned c)

  unfoldable pub check_effective : Option MemoryScope → String → Option Refusal
  unfolding in_allowed
  check_effective none c = some (no_scope c)
  check_effective (some s) c = refuse c (in_allowed s c)

  -- The scope of the store, where it has one, or the one in force.
  unfoldable pub check_scopes : Option MemoryScope → Option MemoryScope → String → Option Refusal
  unfolding check_effective same_scope
  check_scopes none active c = check_effective active c
  check_scopes (some b) none c = check_effective (some b) c
  check_scopes (some b) (some a) c =
      if same_scope b a then check_effective (some b) c else some wrong_bound

  -- `check_collection_access`, with the scope in force and whether an operator has access.
  unfoldable pub check_collection_access :
      Option MemoryScope → Bool → Option MemoryScope → String → Option Refusal
  unfolding is_scoped check_scopes
  check_collection_access active is_admin bound c =
      if not (is_scoped c) then none else if is_admin then none else check_scopes bound active c
