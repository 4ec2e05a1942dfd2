-- ===== src/Tools/Classes.antt =====
-- How the default classes of src/fabri/tools/approval.py compare.
use fabri.Prelude.{
  ◌≤◌, String, not, ◌==◌, ◌&&◌, ◌||◌, eqb, Option, List, elem, ◌≡◌, refl, arith, Bool-cases, inl,
  inr,
}
use fabri.Tools.Approval.{
  rank, verb_of, read_methods, is_risky, default_approval_for_method, safe_approval,
}

module _ (upper : String → String) (tokens : List String → List String) where
  -- The class for an operation is at least the default of its method. It is `read` exactly for the
  -- reading methods, and `always_approve` exactly for another method that is `DELETE` or whose names
  -- have a risky word.
  pub safe_approval_lem :
      (method : Option String) (names : List String)
      → let verb = verb_of upper tokens method in
        let class = safe_approval upper tokens method names in
        (rank (default_approval_for_method upper tokens method) ≤ rank class)
        × (eqb (rank class) 0 ≡ elem verb read_methods)
        × (eqb (rank class) 2
            ≡ (not (elem verb read_methods) && (verb == "DELETE" || is_risky (tokens names))))
  unfolding default_approval_for_method safe_approval
  safe_approval_lem method names =
      let verb = verb_of upper tokens method in
      elim (Bool-cases (elem verb read_methods)) [
        | inl reading ↦ rw reading (omega arith, refl, refl)
        | inr other ↦ elim (Bool-cases (verb == "DELETE")) [
          | inl deletes ↦ rw (other, deletes) (omega arith, refl, refl)
          | inr else_ ↦ elim (Bool-cases (is_risky (tokens names))) [
            | inl risky ↦ rw (other, else_, risky) (omega arith, refl, refl)
            | inr plain ↦ rw (other, else_, plain) (omega arith, refl, refl)
          ]
        ]
      ]
