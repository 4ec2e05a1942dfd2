-- ===== src/Actions/Defs.antt =====
-- The data and the checks of src/fabri/orchestrator/action_execution.py, up to `_plan_resolution`. The
-- files are a dictionary from paths to texts, and `yaml.safe_load` is a parameter.
use fabri.Prelude.{
  ℕ, ◌*◌, String, Bool, true, false, not, ◌||◌, ◌==◌, Option, none, some, List, [], ◌∷◌, ◌++◌,
  Result, ok, err, ◌>>=◌, ◌>>◌, raise_if, if◌then◌else◌, eqb, ltb, leb, elem, traverse, Dict,
  lookup, insert, has_key, is_empty,
}
use fabri.Value.{
  Value, null, bool, num, neg, str, seq, mapping, Fields, get_field, set_field, items, nil, cons,
  as_mapping, as_seq,
}

pub data ActionError : Type 0 where
  duplicate_role unknown_role stale_role : String → ActionError
  unreadable malformed not_mapping : String → ActionError
  missing_parts no_steps unsafe_policy bad_signature unsafe_increase : ActionError
  unsupported bad_arguments mismatch : ActionError
  conflict : String → ActionError
  not_persisted : ActionError

pub record PlannedChange : Type 0 where
  pub role : String
  pub path : String
  pub original_text : String
  pub config : Fields
  pub previous_max_tokens : ℕ
  pub new_max_tokens : ℕ

-- One turn of the loop of `_role_paths`.
unfoldable add_role : Value → Value → Dict String → Result ActionError (Dict String)
add_role (str role) (str path) paths =
    if is_empty role
    then ok paths
    else if has_key role paths
    then err (duplicate_role role)
    else ok (insert role path paths)
add_role _ _ paths = ok paths

unfoldable role_paths_from : List Fields → Dict String → Result ActionError (Dict String)
unfolding add_role
role_paths_from [] paths = ok paths
role_paths_from (e ∷ rest) paths = do
  paths' ← add_role (get_field "name" e) (get_field "config" e) paths
  role_paths_from rest paths'

-- `_role_paths`.
unfoldable pub role_paths : List Fields → Result ActionError (Dict String)
unfolding role_paths_from
role_paths entries = role_paths_from entries []

-- A resolution's parts, each of its type.
pub record Parts : Type 0 where
  pub signature : Fields
  pub scope : Fields
  pub policy : Fields
  pub steps : List Value

unfoldable pub parts_of : Fields → Result ActionError Parts
unfolding get_field items
parts_of r = elim (as_mapping (get_field "problem_signature" r)) [
  | none ↦ err missing_parts
  | some signature ↦ elim (as_mapping (get_field "scope" r)) [
    | none ↦ err missing_parts
    | some scope ↦ elim (as_mapping (get_field "policy" r)) [
      | none ↦ err missing_parts
      | some policy ↦ elim (as_seq (get_field "steps" r)) [
        | none ↦ err no_steps
        | some nil ↦ err no_steps
        | some (cons step steps) ↦ ok (record {
          signature = signature;
          scope = scope;
          policy = policy;
          steps = items (cons step steps);
        })
      ]
    ]
  ]
]

-- `v == n` for an integer n: in Python `True` equals 1.
abbrev pub equals : Value → ℕ → Bool
equals (num m) n = eqb m n
equals (bool true) n = eqb 1 n
equals (bool false) n = eqb 0 n
equals _ n = false

abbrev pub is_true : Value → Bool
is_true (bool true) = true
is_true _ = false

unfoldable pub check_policy : Fields → Result ActionError (Unit {0})
unfolding get_field
check_policy policy =
    raise_if
      (not (is_true (get_field "idempotent" policy))
        || not (equals (get_field "max_attempts" policy) 1))
      unsafe_policy

-- The failing cap, the cap of the retry, and the roles that the action may change.
pub record Caps : Type 0 where
  pub configured_cap : ℕ
  pub retry_cap : ℕ
  pub roles : List String

abbrev text_of : Value → Result ActionError String
text_of (str s) = ok s
text_of _ = err bad_signature

unfoldable pub roles_of : Value → Result ActionError (List String)
unfolding traverse items
roles_of (seq vs) = traverse text_of (items vs)
roles_of _ = err bad_signature

-- `isinstance(v, int) and not isinstance(v, bool)`, with the number: a negative one is `none`.
abbrev pub as_int : Value → Option (Option ℕ)
as_int (num n) = some (some n)
as_int (neg n) = some none
as_int _ = none

-- The test of the increase. A negative cap never passes it: of a negative failing cap the double is
-- below it, and a negative retry is not above a failing cap that is not negative.
unfoldable pub check_increase : Option ℕ → Option ℕ → List String → Result ActionError Caps
check_increase none retry roles = err unsafe_increase
check_increase (some configured) none roles = err unsafe_increase
check_increase (some configured) (some retry) roles = do
  raise_if (leb retry configured || ltb (configured * 2) retry || ltb 32768 retry) unsafe_increase
  ok (record { configured_cap = configured; retry_cap = retry; roles = roles })

unfoldable pub safe_caps : Value → Value → List String → Result ActionError Caps
unfolding check_increase
safe_caps configured retry roles = elim (as_int configured) [
  | none ↦ err bad_signature
  | some c ↦ elim (as_int retry) [ none ↦ err bad_signature | some r ↦ check_increase c r roles ]
]

unfoldable pub caps_of : Fields → Fields → Result ActionError Caps
unfolding roles_of safe_caps get_field
caps_of signature scope = do
  roles ← roles_of (get_field "roles" scope)
  safe_caps (get_field "configured_cap" signature) (get_field "retry_cap" signature) roles

-- The arguments of a step: `configure_role` with a mapping.
unfoldable pub arguments_of : Value → Result ActionError Fields
unfolding get_field
arguments_of (mapping step) = elim (get_field "capability" step) [
  | str capability ↦
      if capability == "configure_role"
      then elim (as_mapping (get_field "args_template" step)) [
        | none ↦ err bad_arguments
        | some arguments ↦ ok arguments
      ]
      else err unsupported
  | null ↦ err unsupported
  | bool b ↦ err unsupported
  | num n ↦ err unsupported
  | neg n ↦ err unsupported
  | seq vs ↦ err unsupported
  | mapping fs ↦ err unsupported
]
arguments_of _ = err unsupported

-- The role and the cap of a step: the role is one of the action's and not one of an earlier step, and
-- the cap is that of the retry.
unfoldable pub role_of : Caps → List String → Value → Value → Result ActionError (String × ℕ)
role_of caps seen (str role) (num target) = do
  raise_if (not (elem role caps.roles) || elem role seen || not (eqb target caps.retry_cap))
      mismatch
  ok (role, target)
role_of caps seen _ _ = err mismatch

module _ (load : String → Option Value) (files : Dict String) where
  -- `_load_raw_config`; `load` is `yaml.safe_load`, without a value where the text is not YAML.
  unfoldable pub load_raw_config : String → Result ActionError (String × Fields)
  load_raw_config path = elim (lookup path files) [
    | none ↦ err (unreadable path)
    | some original ↦ elim (load original) [
      | none ↦ err (malformed path)
      | some v ↦ elim (as_mapping v) [
        | none ↦ err (not_mapping path)
        | some config ↦ ok (original, config)
      ]
    ]
  ]

  -- The config with the cap of the step, if it has the failing one.
  unfoldable pub raise_cap : String → ℕ → Caps → Fields → Result ActionError Fields
  unfolding get_field set_field
  raise_cap role target caps config = elim (as_mapping (get_field "llm" config)) [
    | none ↦ err (stale_role role)
    | some llm ↦
        if equals (get_field "max_tokens" llm) caps.configured_cap
        then ok (set_field "llm" (mapping (set_field "max_tokens" (num target) llm)) config)
        else err (stale_role role)
  ]

  abbrev pub path_of : String → Dict String → Result ActionError String
  path_of role paths = elim (lookup role paths) [
    | none ↦ err (unknown_role role)
    | some path ↦ ok path
  ]

  abbrev pub change_of : Caps → ℕ → String → String → String × Fields → Fields → PlannedChange
  change_of caps target role path read config = record {
    role = role;
    path = path;
    original_text = read.0;
    config = config;
    previous_max_tokens = caps.configured_cap;
    new_max_tokens = target;
  }

  -- The change of a role: its file is read, and its cap raised.
  unfoldable pub plan_role : Dict String → Caps → String × ℕ → Result ActionError PlannedChange
  unfolding load_raw_config raise_cap
  plan_role paths caps (role, target) = do
    path ← path_of role paths
    read ← load_raw_config path
    config ← raise_cap role target caps read.1
    ok (change_of caps target role path read config)

  -- One turn of the loop of `_plan_resolution`.
  unfoldable pub plan_step :
      Dict String → Caps → List String → Value → Result ActionError PlannedChange
  unfolding arguments_of role_of plan_role get_field
  plan_step paths caps seen step = do
    arguments ← arguments_of step
    asked ← role_of caps seen (get_field "role" arguments) (get_field "max_tokens" arguments)
    plan_role paths caps asked

  unfoldable pub plan_steps :
      Dict String → Caps → List String → List Value → Result ActionError (List PlannedChange)
  unfolding plan_step
  plan_steps paths caps seen [] = ok []
  plan_steps paths caps seen (step ∷ steps) = do
    change ← plan_step paths caps seen step
    changes ← plan_steps paths caps (seen ++ change.role ∷ []) steps
    ok (change ∷ changes)

  -- `_plan_resolution`.
  unfoldable pub plan_resolution : Dict String → Fields → Result ActionError (List PlannedChange)
  unfolding parts_of check_policy caps_of plan_steps
  plan_resolution paths r = do
    parts ← parts_of r
    check_policy parts.policy
    caps ← caps_of parts.signature parts.scope
    plan_steps paths caps [] parts.steps
