-- ===== src/Decide/Cascade/Answers.antt =====
-- What `CascadeDecider.decide` of src/fabri/decide/cascade.py answers, and what it charges.
use fabri.Prelude.{
  ℕ, ◌+◌, String, Bool, true, false, Option, none, some, List, [], ◌∷◌, map, if◌then◌else◌, filter,
  elem, is_nodup, Dict, lookup, insert, or_else, All, All-zip, All-map, sum, map-congr, ◌≡◌, refl,
  sym, arith, eq_iff, ◌∙◌, ap, Bool-cases, inl, inr, Result, ok, err, Result-cases, ok≢err, ◌⊎◌,
  ◌↔◌,
}
use fabri.Decide.Question.{Question}
use fabri.Decide.Answer.{Float, Answer}
use fabri.Decide.Cascade.{
  Thresholds, CascadeError, fallback_failed, Merge, no_answer, charge, merge_all, copy_primary,
  needs_fallback, escalated, question_keys, is_nil, ask_fallback, decide, answers_of, error_of,
}
use fabri.Decide.Cascade.Merging.{
  All-question_keys, from_fallback, from_primary, answer_for, merge_all-out, escalated_exactly,
}

-- A call of a decider.
abbrev pub Ask : Type 0 → Type 0
Ask R = List Question → Result String (Dict (Answer R))

abbrev pub keyed : {R : Type 0} → (Question → Answer R) → Question → String × Answer R
keyed f q = (q.key, f q)

decide_lem :
    {R : Type 0} (F : Float R) (t : Thresholds R) (wall : R) (primary fallback : Ask R)
    (qs : List Question)
    → decide F t wall primary fallback qs ≡ (
        if is_nil (escalated F t (answers_of F (primary qs)) qs)
        then ok (copy_primary F (answers_of F (primary qs)) qs [])
        else ask_fallback F wall
            (primary qs)
            fallback
            qs
            (escalated F t (answers_of F (primary qs)) qs))
unfolding decide
decide_lem F t wall primary fallback [] = refl
decide_lem F t wall primary fallback (q ∷ qs) = refl

-- With distinct keys every question finds its answer.
lookup-keyed :
    {R : Type 0} (f : Question → Answer R) (qs : List Question)
    → is_nodup (question_keys qs) ≡ true
    → All (λ q. lookup q.key (map (keyed f) qs) ≡ some (f q)) qs
lookup-keyed f [] h = tt
lookup-keyed f (x ∷ qs) h = (
  ground (arith, eq_iff x.key x.key),
  All-zip (λ q. elem q.key (question_keys qs) ≡ true)
      (λ q. lookup q.key (map (keyed f) qs) ≡ some (f q))
      (λ q. lookup q.key (map (keyed f) (x ∷ qs)) ≡ some (f q))
      (λ q m e. ground (arith, eq_iff x.key q.key)) qs
      (All-question_keys (question_keys qs) qs (λ a m. m)) (lookup-keyed f qs (ground arith)),
)

kept_cases :
    {R : Type 0} (F : Float R) (t : Thresholds R) (q : Question) (d : Answer R)
    (o : Option (Answer R))
    → needs_fallback F t q o ≡ false
    → (o ≡ some (or_else o d)) × (needs_fallback F t q (some (or_else o d)) ≡ false)
kept_cases F t q d none h = absurd (unfold needs_fallback in cc h)
kept_cases F t q d (some a) h = (refl, h)

-- The tokens of an answer that may be missing.
abbrev tokens_in : {R : Type 0} → Option (Answer R) → ℕ
tokens_in none = 0
tokens_in (some a) = a.input_tokens

abbrev tokens_out : {R : Type 0} → Option (Answer R) → ℕ
tokens_out none = 0
tokens_out (some a) = a.output_tokens

charged_tokens :
    {R : Type 0} (F : Float R) (wall : R) (q : Question) (first o : Option (Answer R))
    → ((charge F wall first (or_else o (no_answer F q))).input_tokens
        ≡ tokens_in first + tokens_in o)
      × ((charge F wall first (or_else o (no_answer F q))).output_tokens
          ≡ tokens_out first + tokens_out o)
charged_tokens F wall q none none = omega arith
charged_tokens F wall q none (some a) = omega arith
charged_tokens F wall q (some x) none = omega arith
charged_tokens F wall q (some x) (some a) = omega arith

module _ {R : Type 0} (F : Float R) (t : Thresholds R) (wall : R) (primary fallback : Ask R)
    (qs : List Question) where
  -- The answers of the primary, the questions that go to the fallback, and its answers.
  abbrev pub first : Dict (Answer R)
  first = answers_of F (primary qs)

  abbrev pub hard : List Question
  hard = escalated F t first qs

  abbrev pub second : Dict (Answer R)
  second = answers_of F (fallback hard)

  abbrev is_hard : Question → Bool
  is_hard q = needs_fallback F t q (lookup q.key first)

  -- The fallback's answer with the primary's charges on it if the question is hard, and the primary's
  -- answer as it is if not.
  abbrev pub answer : Question → Answer R
  answer q =
      if is_hard q then from_fallback F wall first second q else from_primary F wall first second q

  -- Without escalated keys the loop copies the primary's answers.
  copy_primary-merge_all :
      (rest : List Question) (m : Merge F)
      → copy_primary F first rest m.out ≡ (merge_all F wall first [] rest m).out
  unfolding copy_primary merge_all
  copy_primary-merge_all [] m = refl
  copy_primary-merge_all (q ∷ rest) m =
      copy_primary-merge_all rest
        (record m { out = insert q.key (or_else (lookup q.key first) (no_answer F q)) m.out })

  merged :
      (esc : List String)
      → is_nodup (question_keys qs) ≡ true
      → (merge_all F wall first esc qs (record { fallback = second; out = [] })).out
        ≡ map (λ q. (q.key, answer_for F wall first second esc q)) qs
  merged esc nodup =
      merge_all-out F wall first second esc qs (record { fallback = second; out = [] }) nodup
        (λ k h. refl) (λ k h. refl)

  hard_answers :
      is_nodup (question_keys qs) ≡ true
      → map (keyed (answer_for F wall first second (question_keys hard))) qs ≡ map (keyed answer) qs
  hard_answers nodup =
      map-congr (keyed (answer_for F wall first second (question_keys hard))) (keyed answer) qs (
        All-map (λ q. elem q.key (question_keys hard) ≡ is_hard q)
          (λ q. keyed (answer_for F wall first second (question_keys hard)) q ≡ keyed answer q)
          (λ q e. rw e) qs (escalated_exactly is_hard qs nodup))

  none_hard : is_nil hard ≡ true → question_keys hard ≡ []
  none_hard h = go hard h
    where
      go : (xs : List Question) → is_nil xs ≡ true → question_keys xs ≡ []
      go [] e = refl
      go (x ∷ xs) e = absurd (cc)

  kept_answers :
      is_nodup (question_keys qs) ≡ true
      → is_nil hard ≡ true
      → copy_primary F first qs [] ≡ map (keyed answer) qs
  kept_answers nodup h =
      copy_primary-merge_all qs (record { fallback = second; out = [] })
      ∙ merged [] nodup
      ∙ ap (λ ks. map (keyed (answer_for F wall first second ks)) qs) (sym (none_hard h))
      ∙ hard_answers nodup

  asked_ok :
      {answers : Dict (Answer R)}
      → fallback hard ≡ ok answers
      → ask_fallback F wall (primary qs) fallback qs hard
        ≡ ok
            (merge_all F wall first
              (question_keys hard)
              qs
              (record { fallback = second; out = [] })).out
  unfolding ask_fallback
  asked_ok e = rw (e, ask_fallback)

  asked_err :
      {e : String}
      → fallback hard ≡ err e
      → ask_fallback F wall (primary qs) fallback qs hard
        ≡ err (fallback_failed (error_of F (primary qs)) e)
  unfolding ask_fallback
  asked_err e = rw (e, ask_fallback)

  -- An answer is `decide`'s outcome, and the error of a fallback that fails is the only one.
  decide_cases :
      is_nodup (question_keys qs) ≡ true
      → (decide F t wall primary fallback qs ≡ ok (map (keyed answer) qs))
        ⊎ ((e : String) × (is_nil hard ≡ false)
            × (fallback hard ≡ err e)
            × (decide F t wall primary fallback qs
                ≡ err (fallback_failed (error_of F (primary qs)) e)))
  decide_cases nodup = elim (Bool-cases (is_nil hard)) [
    | inl kept ↦
        inl (decide_lem F t wall primary fallback qs ∙ rw kept (ap ok (kept_answers nodup kept)))
    | inr asked ↦ elim (Result-cases (fallback hard)) [
      | inl (answers, e) ↦ inl (
          decide_lem F t wall primary fallback qs
          ∙ rw asked (asked_ok e ∙ ap ok (merged (question_keys hard) nodup ∙ hard_answers nodup)))
      | inr (e, failed) ↦
          inr (
            e,
            asked,
            failed,
            decide_lem F t wall primary fallback qs ∙ rw asked (asked_err failed),
          )
    ]
  ]

  -- What the fallback says of a question is what the answer says: the value, its probabilities and
  -- its confidence, the model, and the error. It is marked as escalated.
  pub record IsFallback (said a : Answer R) : Type 0 where
    pub is_marked : a.escalated ≡ true
    pub same_key : a.key ≡ said.key
    pub same_kind : a.kind ≡ said.kind
    pub same_value : a.value ≡ said.value
    pub same_probabilities : a.probabilities ≡ said.probabilities
    pub same_confidence : a.confidence ≡ said.confidence
    pub same_source : a.source ≡ said.source
    pub same_model : a.model ≡ said.model
    pub same_error : a.error ≡ said.error

  -- Each question has its answer. If it needs the fallback, that is the fallback's, or the one that
  -- stands for its missing answer; if not, it is the primary's as it is.
  abbrev pub IsAnswered : Dict (Answer R) → Question → Type 0
  IsAnswered out q =
      (a : Answer R) × (lookup q.key out ≡ some a)
      × (((needs_fallback F t q (lookup q.key first) ≡ true)
            × IsFallback (or_else (lookup q.key second) (no_answer F q)) a)
          ⊎ ((lookup q.key first ≡ some a) × (needs_fallback F t q (some a) ≡ false)))

  -- With distinct keys the answers that `decide` returns are these, one to a question, in order.
  pub decide-answers :
      (out : Dict (Answer R))
      → is_nodup (question_keys qs) ≡ true
      → decide F t wall primary fallback qs ≡ ok out
      → out ≡ map (keyed answer) qs
  decide-answers out nodup h = elim (decide_cases nodup) [
    | inl e ↦ cc
    | inr (why, _, _, e) ↦ absurd (ok≢err _ h e)
  ]

  map_keyed :
      (f : Answer R → ℕ) (rest : List Question)
      → map (λ p. f p.1) (map (keyed answer) rest) ≡ map (λ q. f (answer q)) rest
  map_keyed f [] = refl
  map_keyed f (q ∷ rest) = ap (λ r. f (answer q) ∷ r) (map_keyed f rest)

  charge-IsFallback :
      (o : Option (Answer R)) (said : Answer R) → IsFallback said (charge F wall o said)
  charge-IsFallback none said = record {
    is_marked = refl;
    same_key = refl;
    same_kind = refl;
    same_value = refl;
    same_probabilities = refl;
    same_confidence = refl;
    same_source = refl;
    same_model = refl;
    same_error = refl;
  }
  charge-IsFallback (some a) said = record {
    is_marked = refl;
    same_key = refl;
    same_kind = refl;
    same_value = refl;
    same_probabilities = refl;
    same_confidence = refl;
    same_source = refl;
    same_model = refl;
    same_error = refl;
  }

  answer_cases :
      (q : Question)
      → ((needs_fallback F t q (lookup q.key first) ≡ true)
          × IsFallback (or_else (lookup q.key second) (no_answer F q)) (answer q))
        ⊎ ((lookup q.key first ≡ some (answer q))
            × (needs_fallback F t q (some (answer q)) ≡ false))
  answer_cases q = elim (Bool-cases (is_hard q)) [
    | inl up ↦ inl (
      up,
      rw up
          (charge-IsFallback (lookup q.key first) (or_else (lookup q.key second) (no_answer F q))),
    )
    | inr kept ↦ inr (rw kept (kept_cases F t q (no_answer F q) (lookup q.key first) kept))
  ]

  kept_tokens :
      (q : Question) (o : Option (Answer R))
      → ((or_else o (no_answer F q)).input_tokens ≡ tokens_in o)
        × ((or_else o (no_answer F q)).output_tokens ≡ tokens_out o)
  kept_tokens q none = (refl, refl)
  kept_tokens q (some a) = (refl, refl)

  answer_tokens :
      (q : Question)
      → ((answer q).input_tokens
          ≡ tokens_in (lookup q.key first)
            + (if is_hard q then tokens_in (lookup q.key second) else 0))
        × ((answer q).output_tokens
            ≡ tokens_out (lookup q.key first)
              + (if is_hard q then tokens_out (lookup q.key second) else 0))
  answer_tokens q = elim (Bool-cases (is_hard q)) [
    | inl up ↦ rw up (charged_tokens F wall q (lookup q.key first) (lookup q.key second))
    | inr kept ↦ rw kept (omega (arith, kept_tokens q (lookup q.key first)))
  ]

  sum_tokens :
      (f g h : Question → ℕ) (p : Question → Bool) (rest : List Question)
      → ((q : Question) → f q ≡ g q + (if p q then h q else 0))
      → sum (map f rest) ≡ sum (map g rest) + sum (map h (filter p rest))
  sum_tokens f g h p [] e = omega arith
  sum_tokens f g h p (q ∷ rest) e = ground (arith, e q, sum_tokens f g h p rest e)

  -- With distinct keys a run of `decide` that returns answers every question. Where the primary's
  -- answer needs the fallback, the answer has the value, the probabilities, the confidence, the model
  -- and the error of the fallback's answer, or of the one that stands for it where it is missing, and
  -- is marked as escalated. Where it does not, the answer is the primary's as it is.
  pub decide-IsAnswered :
      (out : Dict (Answer R))
      → is_nodup (question_keys qs) ≡ true
      → decide F t wall primary fallback qs ≡ ok out
      → All (IsAnswered out) qs
  decide-IsAnswered out nodup h = rw (decide-answers out nodup h) (
      All-map (λ q. lookup q.key (map (keyed answer) qs) ≡ some (answer q))
        (IsAnswered (map (keyed answer) qs)) (λ q e. (answer q, e, answer_cases q)) qs
        (lookup-keyed answer qs nodup))

  -- With distinct keys no token is lost or counted twice: over the answers that `decide` returns, the
  -- input and output tokens are those of the primary's answers to the questions together with those
  -- of the fallback's answers to the escalated ones.
  pub decide_tokens :
      (out : Dict (Answer R))
      → is_nodup (question_keys qs) ≡ true
      → decide F t wall primary fallback qs ≡ ok out
      → (sum (map (λ p. p.1.input_tokens) out)
          ≡ sum (map (λ q. tokens_in (lookup q.key first)) qs)
            + sum (map (λ q. tokens_in (lookup q.key second)) hard))
        × (sum (map (λ p. p.1.output_tokens) out)
            ≡ sum (map (λ q. tokens_out (lookup q.key first)) qs)
              + sum (map (λ q. tokens_out (lookup q.key second)) hard))
  decide_tokens out nodup h = rw (decide-answers out nodup h) (
    ap sum (map_keyed (λ a. a.input_tokens) qs)
        ∙ sum_tokens (λ q. (answer q).input_tokens) (λ q. tokens_in (lookup q.key first))
            (λ q. tokens_in (lookup q.key second)) is_hard qs (λ q. (answer_tokens q).0),
    ap sum (map_keyed (λ a. a.output_tokens) qs)
        ∙ sum_tokens (λ q. (answer q).output_tokens) (λ q. tokens_out (lookup q.key first))
            (λ q. tokens_out (lookup q.key second)) is_hard qs (λ q. (answer_tokens q).1),
  )

  -- With distinct keys `decide` fails exactly if there is a question to escalate and the fallback
  -- fails on these; the error has that of the fallback, and that of the primary if there was one.
  pub decide_error :
      (e : CascadeError)
      → is_nodup (question_keys qs) ≡ true
      → (decide F t wall primary fallback qs ≡ err e) ↔ (
          (why : String) × (is_nil hard ≡ false)
          × (fallback hard ≡ err why)
          × (e ≡ fallback_failed (error_of F (primary qs)) why))
  decide_error e nodup = (
    λ h. elim (decide_cases nodup) [
      | inl fine ↦ absurd (ok≢err _ fine h)
      | inr (why, asked, failed, d) ↦ (why, asked, failed, cc)
    ],
    λ (why, asked, failed, same).
        decide_lem F t wall primary fallback qs ∙ rw (asked, same) (asked_err failed),
  )
