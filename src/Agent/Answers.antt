-- ===== src/Agent/Answers.antt =====
-- The answers of the model to `_finalize_structured` of src/fabri/core/agent.py, and the values that they
-- have.
use fabri.Prelude.{String, Option, none, some, List, [], ◌∷◌, ◌++◌, ◌≡◌, refl, Result, ok, err}
use fabri.Value.{Value}
use fabri.Agent.Defs.{user, assistant, plain, Message, Reply, response, llm_error, Env}
use fabri.Agent.Steps.{non_empty}
use fabri.Agent.Structured.{
  Selection, Conventions, Schema, apply_selection, Verdict, valid, bad_branch, bad_schema,
  select_branch, check_conventions, judge_parsed, judge,
}

module _ (schema : Schema) where
  -- A value that an answer has without errors, or that value with the fields of a branch that it
  -- selects.
  pub data IsAccepted (t : String) : Value → Type 0 where
    parsed : (v : Value) → schema.parse (schema.visible t) ≡ (v, []) → IsAccepted t v
    applied :
        (v : Value) (c : Conventions) (selection : Selection)
        → schema.parse (schema.visible t) ≡ (v, [])
        → schema.conventions ≡ some c
        → c.validate v ≡ ok selection
        → IsAccepted t (apply_selection selection v)

  -- What a verdict on an answer says of its value.
  abbrev pub IsSound : String → Verdict → Type 0
  IsSound t (valid v status) = IsAccepted t v
  IsSound t (bad_branch v e) = IsAccepted t v
  IsSound t (bad_schema v errors) = Unit

  select_branch-IsSound :
      (t : String) (v : Value) (c : Conventions) (r : Result (Option String) Selection)
      → schema.parse (schema.visible t) ≡ (v, [])
      → schema.conventions ≡ some c
      → c.validate v ≡ r
      → IsSound t (select_branch v r)
  unfolding select_branch
  select_branch-IsSound t v c (ok selection) p q h = applied v c selection p q h
  select_branch-IsSound t v c (err reason) p q h = parsed v p

  check_conventions-IsSound :
      (t : String) (v : Value) (o : Option Conventions)
      → schema.parse (schema.visible t) ≡ (v, [])
      → schema.conventions ≡ o
      → IsSound t (check_conventions o v)
  unfolding check_conventions
  check_conventions-IsSound t v none p q = parsed v p
  check_conventions-IsSound t v (some c) p q = select_branch-IsSound t v c (c.validate v) p q refl

  judge_parsed-IsSound :
      (t : String) (r : Value × List String)
      → schema.parse (schema.visible t) ≡ r
      → IsSound t (judge_parsed schema.conventions r)
  unfolding judge_parsed
  judge_parsed-IsSound t (v, []) p = check_conventions-IsSound t v schema.conventions p refl
  judge_parsed-IsSound t (v, e ∷ errors) p = tt

  pub judge-IsSound : (t : String) → IsSound t (judge schema t)
  unfolding judge
  judge-IsSound t = judge_parsed-IsSound t (schema.parse (schema.visible t)) refl

-- The text of a reply before the texts that were said earlier.
abbrev pub push : Option String → List String → List String
push none ts = ts
push (some t) ts = t ∷ ts

abbrev pub text_of : Reply → Option String
text_of (response r) = non_empty r.final_text
text_of (llm_error reason usage) = none

-- The messages with an answer and what the model is told of it.
abbrev pub told : List Message → String → String → List Message
told messages t corrective =
    messages
    ++ record { role = assistant; content = plain t }
      ∷ record { role = user; content = plain corrective }
      ∷ []

module _ {W F : Type 0} (env : Env W F) (candidate : String) (begin : List Message)
    (start : W) where
  -- The model's answers, the last one first, after some corrective calls of the model.
  pub data Conversation : List Message → W → List String → Type 0 where
    opened : Conversation begin start (candidate ∷ [])
    replied :
        (messages : List Message) (world : W) (t corrective : String) (ts : List String)
        → Conversation messages world (t ∷ ts)
        → Conversation
            (told messages t corrective)
            (env.llm_step (told messages t corrective) world).1
            (push (text_of (env.llm_step (told messages t corrective) world).0) (t ∷ ts))
