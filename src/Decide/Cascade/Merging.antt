-- ===== src/Decide/Cascade/Merging.antt =====
-- The answers that the loop of `CascadeDecider.decide` puts together, in src/fabri/decide/cascade.py.
use fabri.Prelude.{
  String, Bool, true, false, ◌==◌, ◌||◌, List, [], ◌∷◌, ◌++◌, map, append_assoc, append_nil,
  if◌then◌else◌, filter, elem, is_nodup, Dict, lookup, lookup-insert, insert-new, has_key, or_else,
  All, All-zip, ◌≡◌, sym, Bool-cases, inl, inr, arith, eq_iff, ◌∙◌, ap,
}
use fabri.Decide.Question.{Question}
use fabri.Decide.Answer.{Float, Answer}
use fabri.Decide.Cascade.{Merge, no_answer, charge, touch, merge_step, merge_all, question_keys}

pub All-question_keys :
    (ks : List String) (qs : List Question)
    → ((a : String) → elem a (question_keys qs) ≡ true → elem a ks ≡ true)
    → All (λ q. elem q.key ks ≡ true) qs
All-question_keys ks [] h = tt
All-question_keys ks (q ∷ qs) h = (
  h q.key (ground (arith, eq_iff q.key q.key)),
  All-question_keys ks qs (λ a m. h a (ground arith)),
)

elem-question_keys-filter :
    (p : Question → Bool) (a : String) (qs : List Question)
    → elem a (question_keys (filter p qs)) ≡ true
    → elem a (question_keys qs) ≡ true
elem-question_keys-filter p a [] h = h
elem-question_keys-filter p a (q ∷ qs) h = ground (arith, elem-question_keys-filter p a qs)

-- With distinct keys a question is escalated by its key exactly if it passes the test.
pub escalated_exactly :
    (p : Question → Bool) (qs : List Question)
    → is_nodup (question_keys qs) ≡ true
    → All (λ q. elem q.key (question_keys (filter p qs)) ≡ p q) qs
escalated_exactly p [] h = tt
escalated_exactly p (x ∷ qs) h = (
  ground (arith, eq_iff x.key x.key, elem-question_keys-filter p x.key qs),
  All-zip (λ q. elem q.key (question_keys qs) ≡ true)
      (λ q. elem q.key (question_keys (filter p qs)) ≡ p q)
      (λ q. elem q.key (question_keys (filter p (x ∷ qs))) ≡ p q)
      (λ q m e. ground (arith, eq_iff x.key q.key)) qs
      (All-question_keys (question_keys qs) qs (λ a m. m)) (escalated_exactly p qs (ground arith)),
)

module _ {R : Type 0} (F : Float R) (wall : R) (primary fallback : Dict (Answer R)) where
  -- The answer to an escalated question, and to one that is not.
  abbrev pub from_fallback : Question → Answer R
  from_fallback q =
      charge F wall (lookup q.key primary) (or_else (lookup q.key fallback) (no_answer F q))

  abbrev pub from_primary : Question → Answer R
  from_primary q = or_else (lookup q.key primary) (no_answer F q)

  abbrev pub answer_for : List String → Question → Answer R
  answer_for escalated_keys q =
      if elem q.key escalated_keys then from_fallback q else from_primary q

  has_key-snoc :
      (k j : String) (a : Answer R) (m : Dict (Answer R))
      → has_key j (m ++ (k, a) ∷ []) ≡ (has_key j m || (k == j))
  has_key-snoc k j a [] = ground arith
  has_key-snoc k j a ((i, b) ∷ m) = ground (arith, has_key-snoc k j a m)

  lookup-touch :
      (k j : String) (a : Answer R) (m : Dict (Answer R))
      → (k == j) ≡ false
      → lookup j (touch F k a m) ≡ lookup j m
  lookup-touch k j a m n = ground (arith, lookup-insert k j a m)

  step_out :
      (esc : List String) (q : Question) (m : Merge F)
      → lookup q.key m.fallback ≡ lookup q.key fallback
      → has_key q.key m.out ≡ false
      → (merge_step F wall primary esc q m).out ≡ m.out ++ (q.key, answer_for esc q) ∷ []
  unfolding merge_step
  step_out esc q m same fresh = elim (Bool-cases (elem q.key esc)) [
    | inl up ↦ rw (up, same) (insert-new q.key (from_fallback q) m.out fresh)
    | inr kept ↦ rw kept (insert-new q.key (from_primary q) m.out fresh)
  ]

  step_fallback :
      (esc : List String) (q : Question) (m : Merge F) (k : String)
      → (q.key == k) ≡ false
      → lookup k (merge_step F wall primary esc q m).fallback ≡ lookup k m.fallback
  unfolding merge_step
  step_fallback esc q m k n = elim (Bool-cases (elem q.key esc)) [
    | inl up ↦ rw up (
        lookup-touch q.key k
          (charge F wall (lookup q.key primary) (or_else (lookup q.key m.fallback) (no_answer F q)))
          m.fallback n)
    | inr kept ↦ rw kept
  ]

  not_out :
      (q : Question) (qs : List Question) (k : String) (a : Answer R) (out : Dict (Answer R))
      → (q.key == k) ≡ false
      → has_key k out ≡ false
      → has_key k (out ++ (q.key, a) ∷ []) ≡ false
  not_out q qs k a out n h = ground (arith, has_key-snoc q.key k a out)

  apart :
      (q : Question) (qs : List Question) (k : String)
      → is_nodup (question_keys (q ∷ qs)) ≡ true
      → elem k (question_keys qs) ≡ true
      → (q.key == k) ≡ false
  apart q qs k nodup h = ground (arith, eq_iff q.key k)

  -- The loop from any state that has not met the keys of the questions that are left.
  pub merge_all-out :
      (escalated_keys : List String) (qs : List Question) (m : Merge F)
      → is_nodup (question_keys qs) ≡ true
      → ((k : String) → elem k (question_keys qs) ≡ true → has_key k m.out ≡ false)
      → ((k : String) → elem k (question_keys qs) ≡ true → lookup k m.fallback ≡ lookup k fallback)
      → (merge_all F wall primary escalated_keys qs m).out
        ≡ m.out ++ map (λ q. (q.key, answer_for escalated_keys q)) qs
  unfolding merge_all
  merge_all-out esc [] m nodup fresh same = sym (append_nil m.out)
  merge_all-out esc (q ∷ qs) m nodup fresh same =
      let q_in : elem q.key (question_keys (q ∷ qs)) ≡ true = ground (arith, eq_iff q.key q.key) in
      let out = step_out esc q m (same q.key q_in) (fresh q.key q_in) in
      merge_all-out esc qs (merge_step F wall primary esc q m) (ground arith)
        (λ k h.
          ap (has_key k) out
          ∙ not_out q qs k (answer_for esc q) m.out (apart q qs k nodup h) (fresh k (ground arith)))
        (λ k h. step_fallback esc q m k (apart q qs k nodup h) ∙ same k (ground arith))
      ∙ ap (λ o. o ++ map (λ x. (x.key, answer_for esc x)) qs) out
      ∙ append_assoc m.out ((q.key, answer_for esc q) ∷ [])
          (map (λ x. (x.key, answer_for esc x)) qs)
