-- ===== src/Tools/Policy.antt =====
-- src/fabri/tools/policy.py. `fnmatch.fnmatchcase`, the host that `urlparse` finds, lower case, and what
-- Python does on texts and on values that are no texts are parameters.
use fabri.Prelude.{
  zero, suc, String, Bool, true, false, not, ◌&&◌, ◌||◌, Option, none, some, List, [], ◌∷◌, ◌++◌,
  map, Result, ok, err, ◌>>=◌, ◌>>◌, raise_if, traverse, if◌then◌else◌, elem, all, any, is_empty,
}
use fabri.Value.{
  Key, text, Value, null, bool, num, neg, str, seq, mapping, Fields, nil, cons, end, field, is_null,
  as_mapping, as_seq, find_field, items, entries,
}
use fabri.Tools.Approval.{Approval, check_approval, stricter}

pub data PolicyError : Type 0 where
  not_a_policy unknown_keys unknown_kinds bad_floor bad_grants not_iterable : PolicyError
  no_grant : String → String → PolicyError
  kind_refused host_refused : String → PolicyError

abbrev pub source_kinds : List String
source_kinds = "openapi" ∷ "mcp" ∷ "http" ∷ "python" ∷ []

abbrev policy_keys : List String
policy_keys =
    "allow" ∷ "allowed_kinds" ∷ "allowed_hosts" ∷ "allow_delete" ∷ "python_modules"
    ∷ "dry_run_header" ∷ "approval_floor" ∷ "credential_grants" ∷ []

-- The classes of the floor are those that `check_approval` lets through.
pub record ToolPolicy : Type 0 where
  pub allow : Option (List String)
  pub allowed_kinds : List String
  pub allowed_hosts : Option (List String)
  pub allow_delete : Bool
  pub python_modules : Option (List String)
  pub dry_run_header : Value
  pub approval_floor : List (String × Approval)
  pub credential_grants : Option (List (String × List String))

abbrev pub default_policy : ToolPolicy
default_policy = record {
  allow = none;
  allowed_kinds = "openapi" ∷ "http" ∷ [];
  allowed_hosts = none;
  allow_delete = false;
  python_modules = some [];
  dry_run_header = null;
  approval_floor = [];
  credential_grants = none;
}

abbrev permissive : Option (List String) → ToolPolicy
permissive allow = record default_policy {
  allow = allow;
  allowed_kinds = source_kinds;
  allow_delete = true;
  python_modules = none;
}

abbrev with_allow : Option (List String) → ToolPolicy → ToolPolicy
with_allow allow p = record p { allow = allow }

-- The standard library: `fnmatchcase` of a name and a pattern, the host of a url if it has one, `lower`,
-- the module path with dots for colons, the test `module == p or module.startswith(p.rstrip(".") + ".")`,
-- the lines of a policy text that are not blank and no comments, `str` of a value that is no text and of
-- a key, and what `for x in value` goes over.
pub record Python : Type 0 where
  pub matches : String → String → Bool
  pub host_of : String → Option String
  pub lower : String → String
  pub dots : String → String
  pub is_under : String → String → Bool
  pub lines : String → List String
  pub str_of : Value → String
  pub key_of : Key → String
  pub elements : Value → Option (List Value)

-- `bool(v)`.
unfoldable pub truthy : Value → Bool
unfolding is_empty
truthy null = false
truthy (bool b) = b
truthy (num zero) = false
truthy (num (suc n)) = true
truthy (neg n) = true
truthy (str s) = not (is_empty s)
truthy (seq nil) = false
truthy (seq (cons v vs)) = true
truthy (mapping end) = false
truthy (mapping (field k v fs)) = true

module _ (py : Python) where
  open py use {matches, host_of, lower, dots, is_under, lines, str_of, key_of, elements}

  abbrev name_allowed : ToolPolicy → String → List String → Bool
  name_allowed p name aliases = elim p.allow [
    | none ↦ true
    | some patterns ↦ any (λ n. any (matches n) patterns) (name ∷ aliases)
  ]

  -- A pattern of the floor that a name or an alias matches.
  abbrev pub applies : String → List String → String × Approval → Bool
  applies name aliases entry = any (λ n. matches n entry.0) (name ∷ aliases)

  abbrev raise_found : Option Approval → Approval → Approval
  raise_found none value = value
  raise_found (some found) value = stricter found value

  -- The loop of `floor_for`.
  unfoldable pub floor_from :
      String → List String → Option Approval → List (String × Approval) → Option Approval
  floor_from name aliases found [] = found
  floor_from name aliases found (entry ∷ rest) =
      floor_from name aliases
        (if applies name aliases entry then some (raise_found found entry.1) else found) rest

  unfoldable pub floor_for : ToolPolicy → String → List String → Option Approval
  unfolding floor_from
  floor_for p name aliases = floor_from name aliases none p.approval_floor

  unfoldable pub granted : String → List (String × List String) → List String
  granted source [] = []
  granted source ((pattern, refs) ∷ rest) =
      if matches source pattern then refs ++ granted source rest else granted source rest

  unfoldable pub grants_for : ToolPolicy → String → Option (List String)
  unfolding granted
  grants_for p source = elim p.credential_grants [
    | none ↦ none
    | some grants ↦ some (granted source grants)
  ]

  unfoldable pub check_refs : String → List String → List String → Result PolicyError (Unit {0})
  check_refs source grants [] = ok tt
  check_refs source grants (ref ∷ refs) = do
    raise_if (not (any (matches ref) grants)) (no_grant source ref)
    check_refs source grants refs

  unfoldable pub check_secret_refs :
      ToolPolicy → String → List String → Result PolicyError (Unit {0})
  unfolding grants_for check_refs
  check_secret_refs p source refs = elim (grants_for p source) [
    | none ↦ ok tt
    | some grants ↦ check_refs source grants refs
  ]

  abbrev kind_allowed : ToolPolicy → String → Bool
  kind_allowed p kind = elem kind p.allowed_kinds

  -- `host_allowed` of a url that is given; an empty one is always allowed.
  unfoldable host_allowed : ToolPolicy → String → Bool
  unfolding is_empty
  host_allowed p url = elim p.allowed_hosts [
    | none ↦ true
    | some hosts ↦ is_empty url || elim (host_of url) [
      | none ↦ false
      | some h ↦
          not (is_empty (lower h)) && any (λ pattern. matches (lower h) (lower pattern)) hosts
    ]
  ]

  abbrev module_allowed : ToolPolicy → String → Bool
  module_allowed p dotted = elim p.python_modules [
    | none ↦ true
    | some modules ↦ any (is_under (dots dotted)) modules
  ]

  abbrev pub check_kind : ToolPolicy → String → Result PolicyError (Unit {0})
  check_kind p kind = raise_if (not (kind_allowed p kind)) (kind_refused kind)

  unfoldable check_host : ToolPolicy → String → Result PolicyError (Unit {0})
  unfolding host_allowed
  check_host p url = raise_if (not (host_allowed p url)) (host_refused url)

  -- `tuple(str(x) for x in value)`.
  abbrev text_or_str : Value → String
  text_or_str (str s) = s
  text_or_str v = str_of v

  -- `tup`: a key that is missing keeps the default, and `None` lifts the limit.
  unfoldable pub tup :
      String → Option (List String) → Fields → Result PolicyError (Option (List String))
  unfolding find_field
  tup key base fields = elim (find_field key fields) [
    | none ↦ ok base
    | some v ↦ if is_null v then ok none else elim (elements v) [
      | none ↦ err not_iterable
      | some vs ↦ ok (some (map text_or_str vs))
    ]
  ]

  abbrev pub known_kind : Value → Result PolicyError String
  known_kind (str s) = if elem s source_kinds then ok s else err unknown_kinds
  known_kind _ = err unknown_kinds

  -- `tuple(kinds or ())`, all of them known.
  unfoldable pub kinds_of : ToolPolicy → Fields → Result PolicyError (List String)
  unfolding find_field traverse truthy
  kinds_of base fields = elim (find_field "allowed_kinds" fields) [
    | none ↦
        if all (λ k. elem k source_kinds) base.allowed_kinds
        then ok base.allowed_kinds
        else err unknown_kinds
    | some v ↦
        if truthy v
        then elim (elements v) [ none ↦ err not_iterable | some vs ↦ traverse known_kind vs ]
        else ok []
  ]

  abbrev name_of : Key → String
  name_of (text s) = s
  name_of k = key_of k

  abbrev floor_entry : Key × Value → Result PolicyError (String × Approval)
  floor_entry (k, v) = elim (check_approval v) [ err e ↦ err bad_floor | ok a ↦ ok (name_of k, a) ]

  unfoldable pub floor_of : ToolPolicy → Fields → Result PolicyError (List (String × Approval))
  unfolding find_field traverse truthy check_approval entries
  floor_of base fields = elim (find_field "approval_floor" fields) [
    | none ↦ ok base.approval_floor
    | some v ↦
        if truthy v
        then elim (as_mapping v) [
          | none ↦ err bad_floor
          | some fs ↦ traverse floor_entry (entries fs)
        ]
        else ok []
  ]

  abbrev grant_entry : Key × Value → Result PolicyError (String × List String)
  grant_entry (k, v) = elim (as_seq v) [
    | none ↦ err bad_grants
    | some refs ↦ ok (name_of k, map text_or_str (items refs))
  ]

  unfoldable pub grants_of :
      ToolPolicy → Fields → Result PolicyError (Option (List (String × List String)))
  unfolding find_field traverse entries items
  grants_of base fields = elim (find_field "credential_grants" fields) [
    | none ↦ ok base.credential_grants
    | some v ↦ if is_null v then ok none else elim (as_mapping v) [
      | none ↦ err bad_grants
      | some fs ↦ do grants ← traverse grant_entry (entries fs); ok (some grants)
    ]
  ]

  abbrev or_value : Value → Option Value → Value
  or_value base none = base
  or_value base (some v) = v

  abbrev pub is_known_key : Key → Bool
  is_known_key (text s) = elem s policy_keys
  is_known_key k = false

  -- `from_data` of a mapping.
  unfoldable pub from_mapping : ToolPolicy → Fields → Result PolicyError ToolPolicy
  unfolding find_field kinds_of floor_of grants_of tup truthy entries
  from_mapping base fields = do
    raise_if (not (all (λ e. is_known_key e.0) (entries fields))) unknown_keys
    kinds ← kinds_of base fields
    floor ← floor_of base fields
    grants ← grants_of base fields
    allow ← tup "allow" base.allow fields
    hosts ← tup "allowed_hosts" base.allowed_hosts fields
    modules ← tup "python_modules" base.python_modules fields
    ok (record {
      allow = allow;
      allowed_kinds = kinds;
      allowed_hosts = hosts;
      allow_delete = truthy (or_value (bool base.allow_delete) (find_field "allow_delete" fields));
      python_modules = modules;
      dry_run_header = or_value base.dry_run_header (find_field "dry_run_header" fields);
      approval_floor = floor;
      credential_grants = grants;
    })

  -- `ToolPolicy.from_data`.
  unfoldable pub from_data : ToolPolicy → Value → Result PolicyError ToolPolicy
  unfolding from_mapping items
  from_data base (str s) = ok (with_allow (some (lines s)) base)
  from_data base (seq vs) = ok (with_allow (some (map text_or_str (items vs))) base)
  from_data base (mapping fs) = from_mapping base fs
  from_data base _ = err not_a_policy
