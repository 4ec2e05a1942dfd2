-- ===== src/Decide/Shapes.antt =====
-- What the validation of src/fabri/decide/types.py lets through.
use fabri.Prelude.{
  ◌≤◌, String, true, false, not, ◌&&◌, Option, none, some, List, [], ◌∷◌, ok, >>=-eq-ok, raise_if,
  raise_if-ok, traverse, All-traverse, length-traverse, ◌≡◌, refl, subst, ◌∙◌, ap, ltb, leb, length,
  length-map, map, elem, is_nodup, is_blank, is_empty, All, arith, Bool-cases, inl, inr,
}
use fabri.Value.{
  Key, text, boolean, other, Value, null, str, bool, seq, mapping, field, end, items, entries,
  is_null,
}
use fabri.Decide.Question.{
  QuestionKind, choice, score, yesno, QuestionError, RawQuestion, Question, max_options, min_levels,
  max_levels, AnswerValue, given_levels, given_options, check_kind, check_instructions,
  check_option, check_level, check_side, check_choice, check_score, check_yesno, check_shape,
  make_question, allowed_values, allowed_for,
}

abbrev IsNamed : String × Value → Type 0
IsNamed o = is_empty o.0 ≡ false

abbrev IsLevel : String → Type 0
IsLevel l = is_empty l ≡ false

abbrev IsSide : String × Value → Type 0
IsSide o = elem o.0 ("true" ∷ "false" ∷ []) ≡ true

abbrev AreOptions : List (String × Value) → Type 0
AreOptions os = (1 ≤ length os) × (length os ≤ max_options) × All IsNamed os

abbrev AreLevels : List String → Type 0
AreLevels ls =
    (min_levels ≤ length ls) × (length ls ≤ max_levels) × All IsLevel ls × (is_nodup ls ≡ true)

abbrev AreSides : Option (List (String × Value)) → Type 0
AreSides none = Unit
AreSides (some os) = All IsSide os

-- The options and the levels that a kind of question has.
pub data IsShaped (q : Question) : Type 0 where
  of_choice :
      (os : List (String × Value))
      → q.kind ≡ choice
      → q.options ≡ some os
      → q.levels ≡ none
      → AreOptions os
      → IsShaped q
  of_score :
      (ls : List String)
      → q.kind ≡ score
      → q.levels ≡ some ls
      → q.options ≡ none
      → AreLevels ls
      → IsShaped q
  of_yesno : q.kind ≡ yesno → q.levels ≡ none → AreSides q.options → IsShaped q

pub record IsQuestion (q : Question) : Type 0 where
  pub keyed : is_empty q.key ≡ false
  pub instructed : is_blank q.instructions ≡ false
  pub shaped : IsShaped q

check_option-IsNamed : (o : Key × Value) (p : String × Value) → check_option o ≡ ok p → IsNamed p
unfolding check_option
check_option-IsNamed (text s, v) p h = elim (Bool-cases (is_empty s)) [
  | inl e ↦ absurd (ground arith)
  | inr e ↦ let same : (s, v) ≡ p = ground arith in subst IsNamed same e
]
check_option-IsNamed (boolean b, v) p h = absurd (cc)
check_option-IsNamed (other s, v) p h = absurd (cc)

check_level-IsLevel : (v : Value) (l : String) → check_level v ≡ ok l → IsLevel l
unfolding check_level
check_level-IsLevel (str s) l h = elim (Bool-cases (is_empty s)) [
  | inl e ↦ absurd (ground arith)
  | inr e ↦ let same : s ≡ l = ground arith in subst IsLevel same e
]
check_level-IsLevel null l h = absurd (cc)
check_level-IsLevel (bool b) l h = absurd (cc)
check_level-IsLevel (Value.num n) l h = absurd (cc)
check_level-IsLevel (Value.neg n) l h = absurd (cc)
check_level-IsLevel (seq n) l h = absurd (cc)
check_level-IsLevel (mapping n) l h = absurd (cc)

check_side-IsSide : (o : Key × Value) (p : String × Value) → check_side o ≡ ok p → IsSide p
unfolding check_side
check_side-IsSide (text s, v) p h = elim (Bool-cases (elem s ("true" ∷ "false" ∷ []))) [
  | inl e ↦ let same : (s, v) ≡ p = ground arith in subst IsSide same e
  | inr e ↦ absurd (ground arith)
]
check_side-IsSide (boolean b, v) p h = absurd (cc)
check_side-IsSide (other s, v) p h = absurd (cc)

check_choice-AreOptions :
    (v : Value) (os : List (String × Value)) → check_choice v ≡ ok os → AreOptions os
unfolding check_choice entries
check_choice-AreOptions (mapping (field k v fs)) os h =
    let (xs, a, rest) = >>=-eq-ok (traverse check_option (entries (field k v fs))) _ h in
    let (u, b, same) =
      >>=-eq-ok (raise_if (ltb max_options (length xs)) QuestionError.too_many_options) _ rest in
    let e : xs ≡ os = ground arith in
    let short = raise_if-ok _ _ u b in
    let n = length-traverse check_option (entries (field k v fs)) xs a in
    subst AreOptions e (
      omega (arith, n),
      ground (arith, short),
      All-traverse check_option IsNamed check_option-IsNamed (entries (field k v fs)) xs a,
    )
check_choice-AreOptions (mapping end) os h = absurd (cc)
check_choice-AreOptions null l h = absurd (cc)
check_choice-AreOptions (str b) l h = absurd (cc)
check_choice-AreOptions (bool b) l h = absurd (cc)
check_choice-AreOptions (Value.num n) l h = absurd (cc)
check_choice-AreOptions (Value.neg n) l h = absurd (cc)
check_choice-AreOptions (seq n) l h = absurd (cc)

check_score-AreLevels : (v : Value) (ls : List String) → check_score v ≡ ok ls → AreLevels ls
unfolding check_score
check_score-AreLevels (seq vs) ls h =
    let (u, a, rest) =
      >>=-eq-ok
        (raise_if (not (leb min_levels (length (items vs)) && leb (length (items vs)) max_levels))
          QuestionError.bad_level_count)
        _ h in
    let (xs, b, rest2) = >>=-eq-ok (traverse check_level (items vs)) _ rest in
    let (u2, c, same) =
      >>=-eq-ok (raise_if (not (is_nodup xs)) QuestionError.repeated_level) _ rest2 in
    let e : xs ≡ ls = ground arith in
    let sized = raise_if-ok _ _ u a in
    let fresh = raise_if-ok _ _ u2 c in
    let n = length-traverse check_level (items vs) xs b in
    subst AreLevels e (
      ground (arith, sized, n),
      ground (arith, sized, n),
      All-traverse check_level IsLevel check_level-IsLevel (items vs) xs b,
      ground (arith, fresh),
    )
check_score-AreLevels (mapping end) os h = absurd (cc)
check_score-AreLevels (mapping (field k v fs)) os h = absurd (cc)
check_score-AreLevels null l h = absurd (cc)
check_score-AreLevels (str b) l h = absurd (cc)
check_score-AreLevels (bool b) l h = absurd (cc)
check_score-AreLevels (Value.num n) l h = absurd (cc)
check_score-AreLevels (Value.neg n) l h = absurd (cc)

check_yesno-AreSides :
    (v : Value) (os : Option (List (String × Value))) → check_yesno v ≡ ok os → AreSides os
unfolding check_yesno
check_yesno-AreSides null os h = let same : none ≡ os = cc in subst AreSides same tt
check_yesno-AreSides (mapping fs) os h =
    let (xs, a, rest) = >>=-eq-ok (traverse check_side (entries fs)) _ h in
    let same : some xs ≡ os = cc in
    subst AreSides same (All-traverse check_side IsSide check_side-IsSide (entries fs) xs a)
check_yesno-AreSides (str b) l h = absurd (cc)
check_yesno-AreSides (bool b) l h = absurd (cc)
check_yesno-AreSides (Value.num n) l h = absurd (cc)
check_yesno-AreSides (Value.neg n) l h = absurd (cc)
check_yesno-AreSides (seq n) l h = absurd (cc)

abbrev IsMade : RawQuestion → String → Question → Type 0
IsMade raw s q = (q.key ≡ raw.key) × (q.instructions ≡ s) × IsShaped q

no_levels : (v : Value) → not (is_null v) ≡ false → given_levels v ≡ none
unfolding given_levels
no_levels null h = refl
no_levels (bool b) h = absurd (cc)
no_levels (Value.num n) h = absurd (cc)
no_levels (Value.neg n) h = absurd (cc)
no_levels (str s) h = absurd (cc)
no_levels (seq vs) h = absurd (cc)
no_levels (mapping fs) h = absurd (cc)

no_options : (v : Value) → not (is_null v) ≡ false → given_options v ≡ none
unfolding given_options
no_options null h = refl
no_options (bool b) h = absurd (cc)
no_options (Value.num n) h = absurd (cc)
no_options (Value.neg n) h = absurd (cc)
no_options (str s) h = absurd (cc)
no_options (seq vs) h = absurd (cc)
no_options (mapping fs) h = absurd (cc)

check_shape-IsMade :
    (raw : RawQuestion) (s : String) (k : QuestionKind) (q : Question)
    → check_shape raw s k ≡ ok q
    → IsMade raw s q
unfolding check_shape
check_shape-IsMade raw s choice q h =
    let (os, a, rest) = >>=-eq-ok (check_choice raw.options) _ h in
    let (u, b, same) =
      >>=-eq-ok (raise_if (not (is_null raw.levels)) QuestionError.levels_not_allowed) _ rest in
    let good = check_choice-AreOptions raw.options os a in
    subst (IsMade raw s) (cc)
      (refl, refl, of_choice os refl refl (no_levels raw.levels (raise_if-ok _ _ u b)) good)
check_shape-IsMade raw s score q h =
    let (ls, a, rest) = >>=-eq-ok (check_score raw.levels) _ h in
    let (u, b, same) =
      >>=-eq-ok (raise_if (not (is_null raw.options)) QuestionError.options_not_allowed) _ rest in
    let good = check_score-AreLevels raw.levels ls a in
    subst (IsMade raw s) (cc)
      (refl, refl, of_score ls refl refl (no_options raw.options (raise_if-ok _ _ u b)) good)
check_shape-IsMade raw s yesno q h =
    let (os, a, rest) = >>=-eq-ok (check_yesno raw.options) _ h in
    let (u, b, same) =
      >>=-eq-ok (raise_if (not (is_null raw.levels)) QuestionError.levels_not_allowed) _ rest in
    let good = check_yesno-AreSides raw.options os a in
    subst (IsMade raw s) (cc)
      (refl, refl, of_yesno refl (no_levels raw.levels (raise_if-ok _ _ u b)) good)

check_instructions-is_blank :
    (v : Value) (s : String) → check_instructions v ≡ ok s → is_blank s ≡ false
unfolding check_instructions
check_instructions-is_blank (str r) s h = elim (Bool-cases (is_blank r)) [
  | inl e ↦ absurd (ground arith)
  | inr e ↦ let same : r ≡ s = ground arith in subst (λ x. is_blank x ≡ false) same e
]
check_instructions-is_blank null l h = absurd (cc)
check_instructions-is_blank (bool b) l h = absurd (cc)
check_instructions-is_blank (Value.num n) l h = absurd (cc)
check_instructions-is_blank (Value.neg n) l h = absurd (cc)
check_instructions-is_blank (seq n) l h = absurd (cc)
check_instructions-is_blank (mapping n) l h = absurd (cc)

-- A question that passes the validation has a key, instructions that are not blank, and exactly the
-- fields of its kind: 1 to 255 options with names that are not empty, or 2 to 10 different levels
-- that are not empty, or sides that are all "true" or "false"; and no levels or options beside them.
pub make_question-IsQuestion :
    (raw : RawQuestion) (q : Question) → make_question raw ≡ ok q → IsQuestion q
unfolding make_question
make_question-IsQuestion raw q h =
    let (u, a, rest) = >>=-eq-ok (raise_if (is_empty raw.key) QuestionError.bad_key) _ h in
    let (k, b, rest2) = >>=-eq-ok (check_kind raw.kind) _ rest in
    let (s, c, rest3) = >>=-eq-ok (check_instructions raw.instructions) _ rest2 in
    let (same_key, same_text, good) = check_shape-IsMade raw s k q rest3 in
    record {
      keyed = ap is_empty same_key ∙ raise_if-ok _ _ u a;
      instructed = ap is_blank same_text ∙ check_instructions-is_blank raw.instructions s c;
      shaped = good;
    }

-- A question that passes the validation allows at least one answer, and at most as many as there may
-- be options.
pub make_question_allowed :
    (raw : RawQuestion) (q : Question)
    → make_question raw ≡ ok q
    → (1 ≤ length (allowed_values q)) × (length (allowed_values q) ≤ max_options)
unfolding allowed_values allowed_for
make_question_allowed raw q h = elim (make_question-IsQuestion raw q h).shaped [
  | of_choice os k o l good ↦
      rw (k, o)
        (rw (length-map AnswerValue.name (map (λ p. p.0) os), length-map (λ p. p.0) os)
          (good.0, good.1))
  | of_score ls k l o good ↦
      rw (k, l)
        (rw (length-map AnswerValue.name ls)
          (let a = good.0 in let b = good.1 in (omega arith, omega arith)))
  | of_yesno k l good ↦ rw k (omega arith, omega arith)
]
