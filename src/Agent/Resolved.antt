-- ===== src/Agent/Resolved.antt =====
-- What `_finalize_structured` of src/fabri/core/agent.py returns under the strategy `strict`.
use fabri.Prelude.{
  ℕ, zero, suc, ◌+◌, ◌≤◌, String, true, false, ◌==◌, Option, none, some, List, [], ◌∷◌, Any, ◌≡◌,
  refl, Result, ok, err, ltb, leb, leb→lt, ltb→lt, arith, Bool-cases, inl, inr, ◌⊎◌,
}
use fabri.Value.{Value}
use fabri.Agent.Defs.{
  Message, Reply, response, llm_error, Env, Account, accumulate, budget_breached,
}
use fabri.Agent.Steps.{non_empty}
use fabri.Agent.Structured.{
  Schema, retry_limit, Verdict, valid, bad_branch, bad_schema, judge, Attempts, Final, resolve,
  Asked, again, done, take_text, take_reply, ask, attempt, run_attempts, finalize_structured,
}
use fabri.Agent.Answers.{
  IsAccepted, IsSound, judge-IsSound, push, text_of, Conversation, opened, replied,
}

module _ (schema : Schema) where
  module _ {W F : Type 0} (env : Env W F) (max_cost : Option F) (candidate : String)
      (begin : List Message) (start : W) where
    abbrev limit : ℕ
    limit = schema.response_retries + retry_limit schema.conventions

    abbrev pub AnyAccepted : List String → Value → Type 0
    AnyAccepted ts v = Any (λ t. IsAccepted schema t v) ts

    -- The counts, the conversation, and the value that is kept once a branch was refused.
    record IsBegun (s : Attempts env max_cost schema) : Type 0 where
      counted : s.calls ≡ s.schema_retries + s.convention_retries
      schema_within : s.schema_retries ≤ schema.response_retries
      convention_within : s.convention_retries ≤ retry_limit schema.conventions
      older : List String
      conversation : Conversation env candidate begin start s.messages s.world (s.text ∷ older)
      kept : (s.convention_retries ≡ 0) ⊎ AnyAccepted older s.last_valid

    -- The same after a call, before its text is taken.
    record IsReplied (o : Option String) (s : Attempts env max_cost schema) : Type 0 where
      counted : s.calls ≡ s.schema_retries + s.convention_retries
      schema_within : s.schema_retries ≤ schema.response_retries
      convention_within : s.convention_retries ≤ retry_limit schema.conventions
      older : List String
      conversation :
          Conversation env candidate begin start s.messages s.world (push o (s.text ∷ older))
      kept : (s.convention_retries ≡ 0) ⊎ AnyAccepted (s.text ∷ older) s.last_valid

    -- The value of a result, where it has one, is that of one of the answers.
    abbrev HasAccepted : List String → Result String Value → Type 0
    HasAccepted ts (ok v) = AnyAccepted ts v
    HasAccepted ts (err reason) = Unit

    pub record IsResolved (f : Final env max_cost schema) : Type 0 where
      pub answers : List String
      pub conversation : Conversation env candidate begin start f.messages f.world answers
      pub text_said : Any (λ t. t ≡ f.text) answers
      pub accepted : HasAccepted answers f.value
      pub within : f.calls ≤ limit

    abbrev IsAsked : Asked env max_cost schema → Type 0
    IsAsked (again s) = IsBegun s
    IsAsked (done f) = IsResolved f

    within_limit :
        (calls schema_retries convention_retries : ℕ)
        → calls ≡ schema_retries + convention_retries
        → schema_retries ≤ schema.response_retries
        → convention_retries ≤ retry_limit schema.conventions
        → calls ≤ limit
    within_limit calls schema_retries convention_retries c r k = omega (arith, c, r, k)

    keeps :
        (n : ℕ) (ts : List String) (v : Value)
        → (n ≡ 0) ⊎ AnyAccepted ts v
        → ltb 0 n ≡ true
        → AnyAccepted ts v
    keeps n ts v (inl z) h = absurd (omega (arith, z, ltb→lt 0 n h))
    keeps n ts v (inr a) h = a

    older_kept :
        (n : ℕ) (ts : List String) (v : Value) (t : String)
        → (n ≡ 0) ⊎ AnyAccepted ts v
        → (n ≡ 0) ⊎ AnyAccepted (t ∷ ts) v
    older_kept n ts v t (inl z) = inl z
    older_kept n ts v t (inr a) = inr (inr a)

    -- A strategy other than `warn` and `fallback` is strict.
    module _ (no_warn : (schema.error_strategy == "warn") ≡ false)
        (no_fallback : (schema.error_strategy == "fallback") ≡ false) where
      resolve-IsResolved :
          (s : Attempts env max_cost schema) (ts : List String)
          → Conversation env candidate begin start s.messages s.world ts
          → Any (λ t. t ≡ s.text) ts
          → s.calls ≤ limit
          → IsResolved (resolve env max_cost schema s)
      unfolding resolve
      resolve-IsResolved s ts c t h =
          rw (no_warn, no_fallback)
            (record { answers = ts; conversation = c; text_said = t; accepted = tt; within = h })

      take_text-IsAsked :
          (o : Option String) (s : Attempts env max_cost schema)
          → IsReplied o s
          → IsAsked (take_text env max_cost schema o s)
      unfolding take_text
      take_text-IsAsked none s b =
          resolve-IsResolved s (s.text ∷ b.older) b.conversation (inl refl) (
            within_limit s.calls s.schema_retries s.convention_retries b.counted b.schema_within
              b.convention_within)
      take_text-IsAsked (some t) s b =
          let size =
            within_limit s.calls s.schema_retries s.convention_retries b.counted b.schema_within
              b.convention_within in
          elim (Bool-cases (budget_breached env max_cost s.account)) [
            | inr e ↦ rw e (record {
              counted = b.counted;
              schema_within = b.schema_within;
              convention_within = b.convention_within;
              older = s.text ∷ b.older;
              conversation = b.conversation;
              kept = b.kept;
            })
            | inl e ↦ elim (Bool-cases (ltb 0 s.convention_retries)) [
              | inl k ↦
                  rw (e, k)
                    (record {
                      answers = t ∷ s.text ∷ b.older;
                      conversation = b.conversation;
                      text_said = inl refl;
                      accepted =
                          inr (keeps s.convention_retries (s.text ∷ b.older) s.last_valid b.kept k);
                      within = size;
                    })
              | inr k ↦
                  rw (e, k)
                    (resolve-IsResolved (record s { text = t }) (t ∷ s.text ∷ b.older)
                      b.conversation (inl refl) size)
            ]
          ]

      take_reply-IsAsked :
          (r : Reply) (s : Attempts env max_cost schema)
          → IsReplied (text_of r) s
          → IsAsked (take_reply env max_cost schema r s)
      unfolding take_reply
      take_reply-IsAsked (response r) s b =
          take_text-IsAsked (non_empty r.final_text)
            (record s { account = accumulate r.usage s.account })
            (record {
              counted = b.counted;
              schema_within = b.schema_within;
              convention_within = b.convention_within;
              older = b.older;
              conversation = b.conversation;
              kept = b.kept;
            })
      take_reply-IsAsked (llm_error reason usage) s b = record {
        answers = s.text ∷ b.older;
        conversation = b.conversation;
        text_said = inl refl;
        accepted = tt;
        within =
            within_limit s.calls s.schema_retries s.convention_retries b.counted b.schema_within
              b.convention_within;
      }

      -- After a corrective call, one more retry has been counted.
      ask-IsAsked :
          (corrective : String) (s : Attempts env max_cost schema) (older : List String)
          → suc s.calls ≡ s.schema_retries + s.convention_retries
          → s.schema_retries ≤ schema.response_retries
          → s.convention_retries ≤ retry_limit schema.conventions
          → Conversation env candidate begin start s.messages s.world (s.text ∷ older)
          → (s.convention_retries ≡ 0) ⊎ AnyAccepted (s.text ∷ older) s.last_valid
          → IsAsked (ask env max_cost schema corrective s)
      unfolding ask
      ask-IsAsked corrective s older c r k v a = take_reply-IsAsked _ _ (record {
        counted = c;
        schema_within = r;
        convention_within = k;
        older = older;
        conversation = replied s.messages s.world s.text corrective older v;
        kept = a;
      })

      attempt-IsAsked :
          (v : Verdict) (s : Attempts env max_cost schema)
          → IsSound schema s.text v
          → IsBegun s
          → IsAsked (attempt env max_cost schema v s)
      unfolding attempt
      attempt-IsAsked (valid v status) s a b = record {
        answers = s.text ∷ b.older;
        conversation = b.conversation;
        text_said = inl refl;
        accepted = inl a;
        within =
            within_limit s.calls s.schema_retries s.convention_retries b.counted b.schema_within
              b.convention_within;
      }
      attempt-IsAsked (bad_branch v e) s a b =
          elim (Bool-cases (leb (retry_limit schema.conventions) s.convention_retries)) [
            | inl h ↦ rw h (record {
              answers = s.text ∷ b.older;
              conversation = b.conversation;
              text_said = inl refl;
              accepted = inl a;
              within =
                  within_limit s.calls s.schema_retries s.convention_retries b.counted
                    b.schema_within b.convention_within;
            })
            | inr h ↦ rw h (
                ask-IsAsked _ _ b.older (omega (arith, b.counted)) b.schema_within
                  (omega (arith, leb→lt (retry_limit schema.conventions) s.convention_retries h))
                  b.conversation (inr (inl a)))
          ]
      attempt-IsAsked (bad_schema v errors) s a b = elim (Bool-cases (ltb 0 s.convention_retries)) [
        | inl k ↦ rw k (record {
          answers = s.text ∷ b.older;
          conversation = b.conversation;
          text_said = inl refl;
          accepted = inr (keeps s.convention_retries b.older s.last_valid b.kept k);
          within =
              within_limit s.calls s.schema_retries s.convention_retries b.counted b.schema_within
                b.convention_within;
        })
        | inr k ↦ elim (Bool-cases (leb schema.response_retries s.schema_retries)) [
          | inl h ↦
              rw (k, h)
                (resolve-IsResolved (record s { value = v; last_errors = errors })
                  (s.text ∷ b.older) b.conversation (inl refl)
                  (within_limit s.calls s.schema_retries s.convention_retries b.counted
                    b.schema_within b.convention_within))
          | inr h ↦
              rw (k, h)
                (ask-IsAsked _ _ b.older (omega (arith, b.counted))
                  (omega (arith, leb→lt schema.response_retries s.schema_retries h))
                  b.convention_within b.conversation
                  (older_kept s.convention_retries b.older s.last_valid s.text b.kept))
        ]
      ]

      run_attempts-IsResolved :
          (left : ℕ) (s : Attempts env max_cost schema)
          → IsBegun s
          → IsResolved (run_attempts env max_cost schema left s)
      unfolding run_attempts
      run_attempts-IsResolved zero s b =
          resolve-IsResolved s (s.text ∷ b.older) b.conversation (inl refl) (
            within_limit s.calls s.schema_retries s.convention_retries b.counted b.schema_within
              b.convention_within)
      run_attempts-IsResolved (suc left) s b =
          after (attempt env max_cost schema (judge schema s.text) s)
            (attempt-IsAsked (judge schema s.text) s (judge-IsSound schema s.text) b)
            (λ s' h. run_attempts-IsResolved left s' h)
        where
          after :
              (a : Asked env max_cost schema)
              → IsAsked a
              → ((s' : Attempts env max_cost schema)
                  → IsBegun s'
                  → IsResolved (run_attempts env max_cost schema left s'))
              → IsResolved
                  (elim a [ again s' ↦ run_attempts env max_cost schema left s' | done f ↦ f ])
          after (again s') h later = later s' h
          after (done f) h later = h

      -- Under a strategy other than `warn` and `fallback`, a run with a response schema ends with the
      -- messages and the world of a conversation: from the candidate on, each further answer is the
      -- model's reply to the messages with the answer before it and a corrective text. The final text
      -- is one of these answers. A value that is returned is one that one of them has without
      -- errors, or such a value with the fields of a branch that it validly selects. The model is
      -- asked again at most as often as the retries of the response and those of the conventions
      -- allow.
      pub finalize_structured-IsResolved :
          (account : Account F)
          → IsResolved (finalize_structured env max_cost schema candidate begin account start)
      unfolding finalize_structured
      finalize_structured-IsResolved account = run_attempts-IsResolved (suc limit) _ (record {
        counted = refl;
        schema_within = omega arith;
        convention_within = omega arith;
        older = [];
        conversation = opened;
        kept = inl refl;
      })
