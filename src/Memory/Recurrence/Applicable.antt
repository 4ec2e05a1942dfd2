-- ===== src/Memory/Recurrence/Applicable.antt =====
-- src/fabri/memory/recurrence.py: `applicable`, the hard checks of a recovery.
use fabri.Prelude.{
  String, Bool, true, false, ◌&&◌, Option, none, some, List, [], ◌∷◌, if◌then◌else◌, is_empty,
  split_dots,
}
use fabri.Value.{
  Value, Items, Fields, str, seq, mapping, nil, cons, get_field, find_field, as_mapping, is_int,
  equal,
}

-- `_read_path`, below a value: `none` is `_MISSING`.
unfoldable pub read_components : Value → List String → Option Value
unfolding is_empty find_field
read_components v [] = some v
read_components v (c ∷ cs) = if is_empty c then none else elim (as_mapping v) [
  | none ↦ none
  | some fs ↦ elim (find_field c fs) [ none ↦ none | some w ↦ read_components w cs ]
]

unfoldable pub read_path : Fields → String → Option Value
unfolding read_components split_dots
read_path state path = read_components (mapping state) (split_dots path)

-- `precondition.get("op", "equals") == "equals"`.
abbrev op_is_equals : Fields → Bool
unfolding find_field equal
op_is_equals fs = elim (find_field "op" fs) [ none ↦ true | some op ↦ equal op (str "equals") ]

-- `_precondition_matches`.
unfoldable pub precondition_holds : Fields → Fields → Bool
unfolding get_field find_field read_path equal op_is_equals
precondition_holds fs state = elim (get_field "field" fs) [
  | str path ↦ elim (find_field "equals" fs) [
    | none ↦ false
    | some expected ↦
        op_is_equals fs && elim (read_path state path) [ none ↦ false | some v ↦ equal v expected ]
  ]
  | _ ↦ false
]

unfoldable pub precondition_matches : Value → Fields → Bool
unfolding precondition_holds
precondition_matches v state = elim (as_mapping v) [
  | none ↦ false
  | some fs ↦ precondition_holds fs state
]

unfoldable pub preconditions_match : Items → Fields → Bool
unfolding precondition_matches
preconditions_match nil state = true
preconditions_match (cons v vs) state = precondition_matches v state && preconditions_match vs state

-- The roles of the scope, if each is a text.
unfoldable pub role_names : Items → Option (List String)
role_names nil = some []
role_names (cons (str s) vs) = elim (role_names vs) [ none ↦ none | some names ↦ some (s ∷ names) ]
role_names (cons v vs) = none

-- The company and the agency of the scope are those of the state.
unfoldable pub same_place : String → Fields → Fields → Bool
unfolding get_field equal
same_place k scope state = elim (get_field k scope) [
  | str name ↦ equal (get_field k state) (str name)
  | _ ↦ false
]

-- Each role still has the failing cap.
unfoldable pub has_cap : Value → Fields → String → Bool
unfolding get_field equal
has_cap cap roles_config role = elim (as_mapping (get_field role roles_config)) [
  | none ↦ false
  | some config ↦ equal (get_field "max_tokens" config) cap
]

unfoldable pub all_have_cap : Value → Fields → List String → Bool
unfolding has_cap
all_have_cap cap roles_config [] = true
all_have_cap cap roles_config (role ∷ roles) =
    has_cap cap roles_config role && all_have_cap cap roles_config roles

abbrev pub is_some_list : List String → Bool
is_some_list [] = false
is_some_list (x ∷ xs) = true

unfoldable pub scope_roles : Fields → Option (List String)
unfolding get_field role_names
scope_roles scope = elim (get_field "roles" scope) [ seq vs ↦ role_names vs | _ ↦ none ]

-- The guards after the three parts of the resolution are found.
unfoldable pub scope_applies : Fields → Fields → Fields → Bool
unfolding scope_roles same_place all_have_cap get_field
scope_applies signature scope state = elim (scope_roles scope) [
  | none ↦ false
  | some roles ↦
      is_some_list roles
      && (same_place "company" scope state
          && (same_place "agency" scope state
              && (is_int (get_field "configured_cap" signature)
                  && elim (as_mapping (get_field "roles_config" state)) [
                    | none ↦ false
                    | some config ↦ all_have_cap (get_field "configured_cap" signature) config roles
                  ])))
]

-- `applicable`.
abbrev pub applies_with : Value → Value → Value → Fields → Bool
applies_with (mapping signature) (mapping scope) (seq preconditions) state =
    scope_applies signature scope state && preconditions_match preconditions state
applies_with _ _ _ state = false

unfoldable pub applicable : Fields → Fields → Bool
unfolding get_field scope_applies preconditions_match
applicable resolution state =
    applies_with (get_field "problem_signature" resolution) (get_field "scope" resolution)
      (get_field "preconditions" resolution) state
