-- ===== src/Decide/Question.antt =====
-- The questions of src/fabri/decide/types.py and their validation.
use fabri.Prelude.{
  ℕ, zero, suc, ◌+◌, ◌/◌, ◌%◌, String, Bool, true, false, not, ◌==◌, ◌&&◌, Option, none, some, List,
  [], ◌∷◌, map, Result, ok, err, ◌>>=◌, ◌>>◌, raise_if, traverse, if◌then◌else◌, ltb, leb, length,
  elem, is_nodup, is_blank, is_empty,
}
use fabri.Value.{
  Key, text, boolean, other, Value, null, str, bool, seq, mapping, Fields, field, end, find_field,
  get_field, set_field, items, entries, is_null,
}

pub data QuestionKind : Type 0 where
  choice score yesno : QuestionKind

pub data QuestionError : Type 0 where
  bad_key unknown_kind bad_instructions needs_options boolean_option bad_option : QuestionError
  too_many_options levels_not_allowed bad_level_count boolean_level bad_level : QuestionError
  repeated_level options_not_allowed bad_sides not_a_mapping : QuestionError

-- The arguments of the constructor, before they are validated; `None` is `null`.
pub record RawQuestion : Type 0 where
  pub key : String
  pub kind : Value
  pub instructions : Value
  pub options : Value
  pub levels : Value

-- A question: `options` by name with their descriptions, `levels` in order.
pub record Question : Type 0 where
  pub key : String
  pub kind : QuestionKind
  pub instructions : String
  pub options : Option (List (String × Value))
  pub levels : Option (List String)

abbrev pub max_options : ℕ
max_options = 255

abbrev pub min_levels : ℕ
min_levels = 2

abbrev pub max_levels : ℕ
max_levels = 10

unfoldable pub check_kind : Value → Result QuestionError QuestionKind
check_kind (str s) =
    if s == "choice"
    then ok choice
    else if s == "score"
    then ok score
    else if s == "yesno"
    then ok yesno
    else err unknown_kind
check_kind _ = err unknown_kind

unfoldable pub check_instructions : Value → Result QuestionError String
check_instructions (str s) = if is_blank s then err bad_instructions else ok s
check_instructions _ = err bad_instructions

unfoldable pub check_option : Key × Value → Result QuestionError (String × Value)
check_option (boolean b, v) = err boolean_option
check_option (text s, v) = if is_empty s then err bad_option else ok (s, v)
check_option (other s, v) = err bad_option

unfoldable pub check_level : Value → Result QuestionError String
check_level (bool b) = err boolean_level
check_level (str s) = if is_empty s then err bad_level else ok s
check_level _ = err bad_level

-- The options of a choice question.
unfoldable pub check_choice : Value → Result QuestionError (List (String × Value))
unfolding check_option traverse entries
check_choice (mapping end) = err needs_options
check_choice (mapping (field k v fs)) = do
  options ← traverse check_option (entries (field k v fs))
  raise_if (ltb max_options (length options)) too_many_options
  ok options
check_choice _ = err needs_options

-- The levels of a score question.
unfoldable pub check_score : Value → Result QuestionError (List String)
unfolding check_level traverse items
check_score (seq vs) = do
  raise_if (not (leb min_levels (length (items vs)) && leb (length (items vs)) max_levels))
      bad_level_count
  levels ← traverse check_level (items vs)
  raise_if (not (is_nodup levels)) repeated_level
  ok levels
check_score _ = err bad_level_count

unfoldable pub check_side : Key × Value → Result QuestionError (String × Value)
check_side (text s, v) = if elem s ("true" ∷ "false" ∷ []) then ok (s, v) else err bad_sides
check_side (k, v) = err bad_sides

-- The sides of a yesno question, which may be left out.
unfoldable pub check_yesno : Value → Result QuestionError (Option (List (String × Value)))
unfolding check_side traverse entries
check_yesno null = ok none
check_yesno (mapping fs) = do sides ← traverse check_side (entries fs); ok (some sides)
check_yesno _ = err bad_sides

-- The fields that the constructor was given, of a kind that has none: `None` is none, and of another
-- value the texts in it are kept, as far as it has any.
abbrev texts_in : List Value → List String
texts_in [] = []
texts_in (str s ∷ vs) = s ∷ texts_in vs
texts_in (v ∷ vs) = texts_in vs

unfoldable pub given_levels : Value → Option (List String)
unfolding items
given_levels null = none
given_levels (seq vs) = some (texts_in (items vs))
given_levels _ = some []

abbrev named_in : List (Key × Value) → List (String × Value)
named_in [] = []
named_in ((text s, v) ∷ rest) = (s, v) ∷ named_in rest
named_in ((k, v) ∷ rest) = named_in rest

unfoldable pub given_options : Value → Option (List (String × Value))
unfolding entries
given_options null = none
given_options (mapping fs) = some (named_in (entries fs))
given_options _ = some []

abbrev question_of :
    RawQuestion
    → QuestionKind
    → String
    → Option (List (String × Value))
    → Option (List String)
    → Question
question_of raw kind instructions options levels = record {
  key = raw.key;
  kind = kind;
  instructions = instructions;
  options = options;
  levels = levels;
}

-- The part of `__post_init__` that the kind selects.
unfoldable pub check_shape : RawQuestion → String → QuestionKind → Result QuestionError Question
unfolding check_choice check_score check_yesno given_levels given_options
check_shape raw instructions choice = do
  options ← check_choice raw.options
  raise_if (not (is_null raw.levels)) levels_not_allowed
  ok (question_of raw choice instructions (some options) (given_levels raw.levels))
check_shape raw instructions score = do
  levels ← check_score raw.levels
  raise_if (not (is_null raw.options)) options_not_allowed
  ok (question_of raw score instructions (given_options raw.options) (some levels))
check_shape raw instructions yesno = do
  sides ← check_yesno raw.options
  raise_if (not (is_null raw.levels)) levels_not_allowed
  ok (question_of raw yesno instructions sides (given_levels raw.levels))

-- `Question.__post_init__`.
unfoldable pub make_question : RawQuestion → Result QuestionError Question
unfolding check_kind check_instructions check_shape is_empty
make_question raw = do
  raise_if (is_empty raw.key) bad_key
  kind ← check_kind raw.kind
  instructions ← check_instructions raw.instructions
  check_shape raw instructions kind

-- An answer's value: the name of an option or a level, or a boolean.
pub data AnswerValue : Type 0 where
  name : String → AnswerValue
  flag : Bool → AnswerValue

abbrev pub names : Option (List (String × Value)) → List String
names none = []
names (some options) = map (λ p. p.0) options

abbrev levels_of : Option (List String) → List String
levels_of none = []
levels_of (some levels) = levels

unfoldable pub allowed_for : QuestionKind → Question → List AnswerValue
allowed_for choice q = map name (names q.options)
allowed_for score q = map name (levels_of q.levels)
allowed_for yesno q = flag true ∷ flag false ∷ []

-- `Question.allowed_values`.
unfoldable pub allowed_values : Question → List AnswerValue
unfolding allowed_for
allowed_values q = allowed_for q.kind q

-- `_side_key` on a key of a mapping and on an answer.
unfoldable pub side_key : Key → String
side_key (text s) = s
side_key (boolean true) = "true"
side_key (boolean false) = "false"
side_key (other s) = s

unfoldable pub answer_key : AnswerValue → String
answer_key (name s) = s
answer_key (flag true) = "true"
answer_key (flag false) = "false"

-- `{_side_key(k): v for k, v in options.items()}`: of two keys that become one the later value stays,
-- in the earlier place.
unfoldable side_fields : Fields → List (Key × Value) → Fields
unfolding set_field side_key
side_fields out [] = out
side_fields out ((k, v) ∷ rest) = side_fields (set_field (side_key k) v out) rest

unfoldable yesno_options : Value → Value → Value
unfolding side_fields entries
yesno_options (str kind) (mapping fs) =
    if kind == "yesno" then mapping (side_fields end (entries fs)) else mapping fs
yesno_options kind options = options

-- `data.get("instructions", "")`.
abbrev instructions_or_empty : Option Value → Value
instructions_or_empty none = str ""
instructions_or_empty (some v) = v

-- `Question.from_dict`.
unfoldable pub question_from_dict : String → Value → Result QuestionError Question
unfolding make_question yesno_options get_field find_field
question_from_dict key (mapping d) = make_question (record {
  key = key;
  kind = get_field "kind" d;
  instructions = instructions_or_empty (find_field "instructions" d);
  options = yesno_options (get_field "kind" d) (get_field "options" d);
  levels = get_field "levels" d;
})
question_from_dict key _ = err not_a_mapping

-- `split_evenly`: the remainder goes to the first shares.
abbrev share : ℕ → ℕ → ℕ → ℕ
share base rem i = base + (if ltb i rem then 1 else 0)

unfoldable pub shares_from : ℕ → ℕ → ℕ → ℕ → List ℕ
shares_from base rem i zero = []
shares_from base rem i (suc n) = share base rem i ∷ shares_from base rem (suc i) n

unfoldable pub split_evenly : ℕ → ℕ → List ℕ
unfolding shares_from
split_evenly total n = elim n [
  | zero ↦ []
  | suc k ↦ shares_from (total / suc k) (total % suc k) 0 (suc k)
]
