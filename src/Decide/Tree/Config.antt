-- ===== src/Decide/Tree/Config.antt =====
-- The nodes of src/fabri/decide/tree.py, and `_parse_branches`.
use fabri.Prelude.{
  ℕ, zero, String, Bool, true, false, not, ◌==◌, ◌&&◌, Option, none, some, List, [], ◌∷◌, map,
  Result, ok, err, ◌>>=◌, ◌>>◌, raise_if, if◌then◌else◌, filter, elem, Dict, insert, keys,
}
use fabri.Value.{
  Key, text, boolean, other, Value, str, mapping, Fields, field, end, nil, get_field, entries,
}
use fabri.Decide.Question.{
  QuestionError, QuestionKind, yesno, Question, allowed_values, answer_key, side_key,
  question_from_dict,
}

abbrev pub max_depth : ℕ
max_depth = 16

-- Where a branch leads: to a node, or to a leaf with its mapping.
pub data Target : Type 0 where
  node : String → Target
  leaf : Fields → Target

pub record TreeNode : Type 0 where
  pub name : String
  pub question : Question
  pub branches : Dict Target

pub data TreeError : Type 0 where
  not_a_mapping no_nodes no_start : TreeError
  node_not_mapping no_branches boolean_branch : String → TreeError
  bad_question : String → QuestionError → TreeError
  undeclared_branch bad_target : String → String → TreeError
  missing_branches : String → List String → TreeError
  start_missing : String → TreeError
  target_missing : String → String → String → TreeError
  cycle : List String → TreeError
  too_deep : ℕ → TreeError
  -- `KeyError` at `nodes[name]`, and fuel that is used up; neither happens
  key_error out_of_fuel : String → TreeError

abbrev is_yesno : QuestionKind → Bool
is_yesno yesno = true
is_yesno _ = false

abbrev is_boolean : Key → Bool
is_boolean (boolean b) = true
is_boolean _ = false

-- The target of a branch: a name, or `{leaf: {...}}` with no other key.
unfoldable pub parse_target : Value → Option Target
parse_target (str s) = some (node s)
parse_target (mapping (field (text k) (mapping fs) end)) =
    if k == "leaf" then some (leaf fs) else none
parse_target _ = none

unfoldable pub parse_branch :
    String → QuestionKind → List String → Dict Target → Key × Value → Result TreeError (Dict Target)
unfolding parse_target side_key
parse_branch name kind allowed branches (key, target) = do
  raise_if (not (is_yesno kind) && is_boolean key) (boolean_branch name)
  raise_if (not (elem (side_key key) allowed)) (undeclared_branch name (side_key key))
  elim (parse_target target) [
    | none ↦ err (bad_target name (side_key key))
    | some t ↦ ok (insert (side_key key) t branches)
  ]

unfoldable pub parse_all :
    String
    → QuestionKind
    → List String
    → Dict Target
    → List (Key × Value)
    → Result TreeError (Dict Target)
unfolding parse_branch
parse_all name kind allowed branches [] = ok branches
parse_all name kind allowed branches (e ∷ rest) = do
  branches' ← parse_branch name kind allowed branches e
  parse_all name kind allowed branches' rest

abbrev pub is_nil : List String → Bool
is_nil [] = true
is_nil (x ∷ xs) = false

-- The answers of a question as keys of branches.
abbrev pub answer_keys : Question → List String
answer_keys q = map answer_key (allowed_values q)

-- `_parse_branches`.
unfoldable pub parse_branches : String → Question → Value → Result TreeError (Dict Target)
unfolding parse_all entries
parse_branches name q (mapping (field k v fs)) = do
  branches ← parse_all name q.kind (answer_keys q) [] (entries (field k v fs))
  let missing = filter (λ a. not (elem a (keys branches))) (answer_keys q)
  raise_if (not (is_nil missing)) (missing_branches name missing)
  ok branches
parse_branches name q _ = err (no_branches name)

abbrev question_error : String → Result QuestionError Question → Result TreeError Question
question_error name (ok q) = ok q
question_error name (err e) = err (bad_question name e)

-- `raw.get("question") or {}`: a value that counts as false is an empty mapping.
abbrev question_block : Value → Value
question_block Value.null = mapping end
question_block (Value.bool false) = mapping end
question_block (Value.num zero) = mapping end
question_block (str String.[]) = mapping end
question_block (Value.seq nil) = mapping end
question_block v = v

unfoldable parse_node : String → Value → Result TreeError TreeNode
unfolding parse_branches get_field question_from_dict
parse_node name (mapping raw) = do
  question ←
      question_error name (question_from_dict name (question_block (get_field "question" raw)))
  branches ← parse_branches name question (get_field "branches" raw)
  ok (record { name = name; question = question; branches = branches })
parse_node name _ = err (node_not_mapping name)

-- `str(name)` of a node's key.
abbrev name_of : Key → String
name_of (text s) = s
name_of (boolean true) = "True"
name_of (boolean false) = "False"
name_of (other s) = s

unfoldable pub parse_nodes : Dict TreeNode → List (Key × Value) → Result TreeError (Dict TreeNode)
unfolding parse_node
parse_nodes nodes [] = ok nodes
parse_nodes nodes ((k, v) ∷ rest) = do
  n ← parse_node (name_of k) v
  parse_nodes (insert (name_of k) n nodes) rest
