-- ===== src/Decide/Tree/Branches.antt =====
-- What `_parse_branches` of src/fabri/decide/tree.py lets through.
use fabri.Prelude.{
  String, Bool, true, false, not, ◌==◌, List, [], ◌∷◌, ok, >>=-eq-ok, raise_if, raise_if-ok, ◌≡◌,
  subst, filter, elem, Dict, insert, keys, All, arith, Bool-cases, Option-cases, inl, inr,
}
use fabri.Value.{Key, Value, mapping, field, end, entries}
use fabri.Decide.Question.{QuestionKind, Question, side_key}
use fabri.Decide.Tree.Config.{
  Target, TreeError, parse_target, parse_branch, parse_all, parse_branches, answer_keys, is_nil,
}

All-insert :
    (P : String → Type 0) (k : String) (t : Target) (d : Dict Target)
    → P k
    → All P (keys d)
    → All P (keys (insert k t d))
All-insert P k t [] here rest = (here, tt)
All-insert P k t ((j, u) ∷ d) here rest = elim (Bool-cases (j == k)) [
  | inl same ↦ rw same (here, rest.1)
  | inr apart ↦ rw apart (rest.0, All-insert P k t d here rest.1)
]

-- A filter that drops everything: the test holds of nothing.
dropped :
    (f : String → Bool) (xs : List String)
    → not (is_nil (filter (λ a. not (f a)) xs)) ≡ false
    → All (λ a. f a ≡ true) xs
dropped f [] h = tt
dropped f (x ∷ xs) h = elim (Bool-cases (f x)) [
  | inl kept ↦ (kept, dropped f xs (ground arith))
  | inr lost ↦ absurd (ground arith)
]

abbrev IsAllowed : List String → String → Type 0
IsAllowed allowed k = elem k allowed ≡ true

module _ (name : String) (kind : QuestionKind) (allowed : List String) where
  parse_branch-IsAllowed :
      (branches out : Dict Target) (key : Key) (target : Value)
      → All (IsAllowed allowed) (keys branches)
      → parse_branch name kind allowed branches (key, target) ≡ ok out
      → All (IsAllowed allowed) (keys out)
  unfolding parse_branch
  parse_branch-IsAllowed branches out key target good h =
      elim (Bool-cases (elem (side_key key) allowed)) [
        | inr foreign ↦ absurd (ground arith)
        | inl there ↦ elim (Option-cases (parse_target target)) [
          | inl bad ↦ absurd (ground arith)
          | inr (t, read) ↦
              let same : insert (side_key key) t branches ≡ out = ground arith in
              subst (λ d. All (IsAllowed allowed) (keys d)) same
                (All-insert (IsAllowed allowed) (side_key key) t branches there good)
        ]
      ]

  parse_all-IsAllowed :
      (entries : List (Key × Value)) (branches out : Dict Target)
      → All (IsAllowed allowed) (keys branches)
      → parse_all name kind allowed branches entries ≡ ok out
      → All (IsAllowed allowed) (keys out)
  unfolding parse_all
  parse_all-IsAllowed [] branches out good h =
      let same : branches ≡ out = ground arith in
      subst (λ d. All (IsAllowed allowed) (keys d)) same good
  parse_all-IsAllowed ((k, v) ∷ rest) branches out good h =
      let (mid, here, there) = >>=-eq-ok (parse_branch name kind allowed branches (k, v)) _ h in
      parse_all-IsAllowed rest mid out (parse_branch-IsAllowed branches mid k v good here) there

abbrev pub IsComplete : List String → Dict Target → Type 0
IsComplete answers d = All (λ a. elem a (keys d) ≡ true) answers × All (IsAllowed answers) (keys d)

-- Branches that are read without an error are those of the question: every answer that it allows has
-- a branch, and every branch belongs to an answer that it allows.
pub parse_branches-IsComplete :
    (name : String) (q : Question) (raw : Value) (out : Dict Target)
    → parse_branches name q raw ≡ ok out
    → IsComplete (answer_keys q) out
unfolding parse_branches
parse_branches-IsComplete name q (mapping (field k v fs)) out h =
    let (branches, read, rest) =
      >>=-eq-ok (parse_all name q.kind (answer_keys q) [] (entries (field k v fs))) _ h in
    let (u, full, same) =
      >>=-eq-ok
        (raise_if (not (is_nil (filter (λ a. not (elem a (keys branches))) (answer_keys q)))) (
          TreeError.missing_branches name
            (filter (λ a. not (elem a (keys branches))) (answer_keys q))))
        _ rest in
    let all = dropped (λ a. elem a (keys branches)) (answer_keys q) (raise_if-ok _ _ u full) in
    subst (IsComplete (answer_keys q)) (cc) (
      all,
      parse_all-IsAllowed name q.kind (answer_keys q) (entries (field k v fs)) [] branches tt read,
    )
parse_branches-IsComplete name q (mapping end) out h = absurd (cc)
parse_branches-IsComplete name q Value.null l h = absurd (cc)
parse_branches-IsComplete name q (Value.str b) l h = absurd (cc)
parse_branches-IsComplete name q (Value.bool b) l h = absurd (cc)
parse_branches-IsComplete name q (Value.num n) l h = absurd (cc)
parse_branches-IsComplete name q (Value.neg n) l h = absurd (cc)
parse_branches-IsComplete name q (Value.seq n) l h = absurd (cc)
