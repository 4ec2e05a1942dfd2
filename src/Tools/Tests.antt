-- ===== src/Tools/Tests.antt =====
-- Policies and classes of src/fabri/tools on small cases. A pattern of the tests matches its own text, and
-- "*" matches every text.
use fabri.Prelude.{
  ◌==◌, ◌||◌, Option, none, some, List, [], ◌∷◌, ok, err, filter, All, ◌≡◌, ◌↔◌, refl,
}
use fabri.Value.{text, Value, str, seq, Items, Fields, field, end}
use fabri.Tools.Approval.{write, always_approve}
use fabri.Tools.Policy.{
  Python, ToolPolicy, PolicyError, default_policy, applies, floor_for, check_secret_refs, from_data,
}
use fabri.Tools.Limits.{Strictest, floor_for-Strictest, IsGranted, check_secret_refs-IsGranted}

abbrev list_of : Value → Option (List Value)
list_of (seq (Items.cons v Items.nil)) = some (v ∷ [])
list_of _ = none

abbrev py : Python
py = record {
  matches = λ n p. p == "*" || n == p;
  host_of = λ u. some u;
  lower = λ s. s;
  dots = λ s. s;
  is_under = λ m p. m == p;
  lines = λ s. s ∷ [];
  str_of = λ v. "";
  key_of = λ k. "";
  elements = list_of;
}

abbrev policy : ToolPolicy
policy = record default_policy {
  approval_floor = ("*", write) ∷ ("crm", always_approve) ∷ [];
  credential_grants = some (("slack", "slack:acme" ∷ []) ∷ ("*", "shared" ∷ []) ∷ []);
}

crm_floor : floor_for py policy "crm" [] ≡ some always_approve
unfolding floor_for
crm_floor = refl

ungranted :
    check_secret_refs py policy "crm" ("slack:acme" ∷ [])
    ≡ err (PolicyError.no_grant "crm" "slack:acme")
unfolding check_secret_refs
ungranted = refl

floor_for-Strictest_example :
    Strictest
      (filter (applies py "crm" []) (("*", write) ∷ ("crm", always_approve) ∷ []))
      (floor_for py policy "crm" [])
floor_for-Strictest_example = floor_for-Strictest py "crm" [] policy

check_secret_refs-IsGranted_example :
    (check_secret_refs py policy "slack" ("shared" ∷ "slack:acme" ∷ []) ≡ ok tt)
    ↔ All
        (IsGranted py "slack" (("slack", "slack:acme" ∷ []) ∷ ("*", "shared" ∷ []) ∷ []))
        ("shared" ∷ "slack:acme" ∷ [])
check_secret_refs-IsGranted_example =
    check_secret_refs-IsGranted py "slack" policy
      (("slack", "slack:acme" ∷ []) ∷ ("*", "shared" ∷ []) ∷ []) ("shared" ∷ "slack:acme" ∷ []) refl

abbrev kinds_only : Fields
kinds_only = field (text "allowed_kinds") (seq (Items.cons (str "mcp") Items.nil)) end

kinds_read :
    from_data py policy (Value.mapping kinds_only)
    ≡ ok (record policy { allowed_kinds = "mcp" ∷ [] })
unfolding from_data
kinds_read = refl
