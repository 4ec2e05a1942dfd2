-- ===== src/Memory/Recurrence/Fits.antt =====
-- What `applicable` of src/fabri/memory/recurrence.py has checked where it holds.
use fabri.Prelude.{
  ◌<◌, String, true, false, ◌&&◌, none, some, List, [], ◌∷◌, ◌≡◌, refl, ap, length, All, arith,
  eq_iff, Option-cases, inl, inr,
}
use fabri.Value.{
  Value, Items, Fields, null, bool, num, neg, str, seq, mapping, nil, cons, get_field, as_mapping,
  is_int, items, equal,
}
use fabri.Memory.Recurrence.Applicable.{
  precondition_matches, preconditions_match, scope_roles, same_place, has_cap, all_have_cap,
  scope_applies, applicable, applies_with, is_some_list,
}

-- The role's config is there and has the cap.
pub record HasCap (cap : Value) (roles_config : Fields) (role : String) : Type 0 where
  pub config : Fields
  pub is_there : get_field role roles_config ≡ mapping config
  pub is_cap : equal (get_field "max_tokens" config) cap ≡ true

-- A recovery fits: the scope names the company and the agency of the state and at least one role,
-- each role still has the failing cap, an integer, and each precondition holds.
pub record IsApplicable (resolution state : Fields) : Type 0 where
  pub signature : Fields
  pub scope : Fields
  pub preconditions : Items
  pub company : String
  pub agency : String
  pub roles : List String
  pub roles_config : Fields
  pub signature_there : get_field "problem_signature" resolution ≡ mapping signature
  pub scope_there : get_field "scope" resolution ≡ mapping scope
  pub preconditions_there : get_field "preconditions" resolution ≡ seq preconditions
  pub company_there : get_field "company" scope ≡ str company
  pub same_company : get_field "company" state ≡ str company
  pub agency_there : get_field "agency" scope ≡ str agency
  pub same_agency : get_field "agency" state ≡ str agency
  pub roles_there : scope_roles scope ≡ some roles
  pub some_role : 0 < length roles
  pub config_there : get_field "roles_config" state ≡ mapping roles_config
  pub cap_is_int : is_int (get_field "configured_cap" signature) ≡ true
  pub capped : All (HasCap (get_field "configured_cap" signature) roles_config) roles
  pub hold : All (λ v. precondition_matches v state ≡ true) (items preconditions)

equal-str : (v : Value) (s : String) → equal v (str s) ≡ true → v ≡ str s
unfolding equal
equal-str (str t) s h = ap str ((eq_iff t s).0 h)
equal-str null s h = absurd (cc)
equal-str (bool b) s h = absurd (cc)
equal-str (num n) s h = absurd (cc)
equal-str (neg n) s h = absurd (cc)
equal-str (seq vs) s h = absurd (cc)
equal-str (mapping fs) s h = absurd (cc)

same_place_lem :
    (k : String) (scope state : Fields)
    → same_place k scope state ≡ true
    → (name : String) × (get_field k scope ≡ str name) × (get_field k state ≡ str name)
unfolding same_place
same_place_lem k scope state h = by_name (get_field k scope) h
  where
    by_name :
        (v : Value)
        → elim v [ str name ↦ equal (get_field k state) (str name) | _ ↦ false ] ≡ true
        → (name : String) × (v ≡ str name) × (get_field k state ≡ str name)
    by_name (str name) e = (name, refl, equal-str (get_field k state) name e)
    by_name null e = absurd (cc)
    by_name (bool b) e = absurd (cc)
    by_name (num n) e = absurd (cc)
    by_name (neg n) e = absurd (cc)
    by_name (seq vs) e = absurd (cc)
    by_name (mapping fs) e = absurd (cc)

as_mapping_lem : (v : Value) (fs : Fields) → as_mapping v ≡ some fs → v ≡ mapping fs
as_mapping_lem (mapping gs) fs h = cc
as_mapping_lem null fs h = absurd (cc)
as_mapping_lem (bool b) fs h = absurd (cc)
as_mapping_lem (num n) fs h = absurd (cc)
as_mapping_lem (neg n) fs h = absurd (cc)
as_mapping_lem (str s) fs h = absurd (cc)
as_mapping_lem (seq vs) fs h = absurd (cc)

has_cap-HasCap :
    (cap : Value) (roles_config : Fields) (role : String)
    → has_cap cap roles_config role ≡ true
    → HasCap cap roles_config role
unfolding has_cap
has_cap-HasCap cap roles_config role h =
    elim (Option-cases (as_mapping (get_field role roles_config))) [
      | inl e ↦ absurd (ground (arith, e, h))
      | inr (config, e) ↦ record {
        config = config;
        is_there = as_mapping_lem (get_field role roles_config) config e;
        is_cap = ground (arith, e, h);
      }
    ]

all_have_cap-All :
    (cap : Value) (roles_config : Fields) (roles : List String)
    → all_have_cap cap roles_config roles ≡ true
    → All (HasCap cap roles_config) roles
unfolding all_have_cap
all_have_cap-All cap roles_config [] h = tt
all_have_cap-All cap roles_config (role ∷ roles) h = (
  has_cap-HasCap cap roles_config role (ground arith),
  all_have_cap-All cap roles_config roles (ground arith),
)

preconditions_match-All :
    (vs : Items) (state : Fields)
    → preconditions_match vs state ≡ true
    → All (λ v. precondition_matches v state ≡ true) (items vs)
unfolding preconditions_match items
preconditions_match-All nil state h = tt
preconditions_match-All (cons v vs) state h =
    (ground arith, preconditions_match-All vs state (ground arith))

module _ (resolution state signature scope : Fields) (preconditions : Items)
    (signature_there : get_field "problem_signature" resolution ≡ mapping signature)
    (scope_there : get_field "scope" resolution ≡ mapping scope)
    (preconditions_there : get_field "preconditions" resolution ≡ seq preconditions)
    (hold : preconditions_match preconditions state ≡ true) where
  scope_applies-IsApplicable :
      (roles : List String) (roles_config : Fields)
      → scope_roles scope ≡ some roles
      → get_field "roles_config" state ≡ mapping roles_config
      → (is_some_list roles
          && (same_place "company" scope state
              && (same_place "agency" scope state
                  && (is_int (get_field "configured_cap" signature)
                      && all_have_cap (get_field "configured_cap" signature) roles_config roles))))
        ≡ true
      → IsApplicable resolution state
  scope_applies-IsApplicable roles roles_config found config h =
      let (company, company_there, same_company) =
        same_place_lem "company" scope state (ground arith) in
      let (agency, agency_there, same_agency) =
        same_place_lem "agency" scope state (ground arith) in
      record {
        signature = signature;
        scope = scope;
        preconditions = preconditions;
        company = company;
        agency = agency;
        roles = roles;
        roles_config = roles_config;
        signature_there = signature_there;
        scope_there = scope_there;
        preconditions_there = preconditions_there;
        company_there = company_there;
        same_company = same_company;
        agency_there = agency_there;
        same_agency = same_agency;
        roles_there = found;
        some_role = some_role roles (ground arith);
        config_there = config;
        cap_is_int = ground arith;
        capped =
            all_have_cap-All (get_field "configured_cap" signature) roles_config roles
              (ground arith);
        hold = preconditions_match-All preconditions state hold;
      }
    where
      some_role : (roles : List String) → is_some_list roles ≡ true → 0 < length roles
      some_role [] e = absurd (cc)
      some_role (x ∷ xs) e = omega arith

  scope-IsApplicable : scope_applies signature scope state ≡ true → IsApplicable resolution state
  unfolding scope_applies
  scope-IsApplicable h = elim (Option-cases (scope_roles scope)) [
    | inl e ↦ absurd (ground (arith, e, h))
    | inr (roles, e) ↦ elim (Option-cases (as_mapping (get_field "roles_config" state))) [
      | inl f ↦ absurd (ground (arith, e, f, h))
      | inr (config, f) ↦
          scope_applies-IsApplicable roles config e
            (as_mapping_lem (get_field "roles_config" state) config f) (ground (arith, e, f, h))
    ]
  ]

pub applicable-IsApplicable :
    (resolution state : Fields) → applicable resolution state ≡ true → IsApplicable resolution state
unfolding applicable
applicable-IsApplicable resolution state h =
    by_parts (get_field "problem_signature" resolution) (get_field "scope" resolution)
      (get_field "preconditions" resolution) refl refl refl h
  where
    by_scope :
        (signature : Fields) (b c : Value)
        → get_field "problem_signature" resolution ≡ mapping signature
        → get_field "scope" resolution ≡ b
        → get_field "preconditions" resolution ≡ c
        → applies_with (mapping signature) b c state ≡ true
        → IsApplicable resolution state
    by_scope signature (mapping scope) (seq vs) p q r e =
        scope-IsApplicable resolution state signature scope vs p q r (ground arith) (ground arith)
    by_scope signature (mapping scope) null p q r e = absurd (cc)
    by_scope signature (mapping scope) (bool x) p q r e = absurd (cc)
    by_scope signature (mapping scope) (num x) p q r e = absurd (cc)
    by_scope signature (mapping scope) (neg x) p q r e = absurd (cc)
    by_scope signature (mapping scope) (str x) p q r e = absurd (cc)
    by_scope signature (mapping scope) (mapping x) p q r e = absurd (cc)
    by_scope signature null c p q r e = absurd (cc)
    by_scope signature (bool x) c p q r e = absurd (cc)
    by_scope signature (num x) c p q r e = absurd (cc)
    by_scope signature (neg x) c p q r e = absurd (cc)
    by_scope signature (str x) c p q r e = absurd (cc)
    by_scope signature (seq x) c p q r e = absurd (cc)

    by_parts :
        (a b c : Value)
        → get_field "problem_signature" resolution ≡ a
        → get_field "scope" resolution ≡ b
        → get_field "preconditions" resolution ≡ c
        → applies_with a b c state ≡ true
        → IsApplicable resolution state
    by_parts (mapping signature) b c p q r e = by_scope signature b c p q r e
    by_parts null b c p q r e = absurd (cc)
    by_parts (bool x) b c p q r e = absurd (cc)
    by_parts (num x) b c p q r e = absurd (cc)
    by_parts (neg x) b c p q r e = absurd (cc)
    by_parts (str x) b c p q r e = absurd (cc)
    by_parts (seq x) b c p q r e = absurd (cc)

pub applicable-no_signature :
    (resolution state : Fields)
    → as_mapping (get_field "problem_signature" resolution) ≡ none
    → applicable resolution state ≡ false
unfolding applicable
applicable-no_signature resolution state h = by_value (get_field "problem_signature" resolution) h
  where
    by_value :
        (v : Value)
        → as_mapping v ≡ none
        → applies_with v (get_field "scope" resolution) (get_field "preconditions" resolution) state
          ≡ false
    by_value null e = refl
    by_value (bool b) e = refl
    by_value (num n) e = refl
    by_value (neg n) e = refl
    by_value (str s) e = refl
    by_value (seq vs) e = refl
    by_value (mapping fs) e = absurd (cc)
