-- ===== src/Memory/Lowest.antt =====
-- Which entries the plain eviction of src/fabri/memory/pruning.py takes.
use fabri.Prelude.{
  ℕ, zero, suc, ◌-◌, String, true, false, not, ◌&&◌, ◌==◌, none, some, List, [], ◌∷◌, leb, length,
  take, drop, elem, elem→count, count→elem, Dict, lookup, has_key, lookup-has_key, keys, All,
  All-drop, All-map, All-take, All-zip, ◌≡◌, refl, sym, subst₂, ◌∙◌, arith, eq_iff, Bool-cases, inl,
  inr,
}
use fabri.Memory.Entry.{Entry, entry_id}
use fabri.Memory.Ingest.{Env, remove}
use fabri.Memory.Stored.{IsStore, elem-keys_remove, lookup-remove}
use fabri.Memory.Evict.{Scoring, values, candidates, to_delete, delete_all, evict_if_needed}
use fabri.Memory.Evicted.{entry_ids, count-candidates, evict-idle, evict-plain}
use fabri.Memory.Order.{IsOrder, IsBefore, All-candidates, take_candidates}

module _ {T : Type 0} (env : Env T) where
  has_key-delete_all :
      (es : List (Entry T)) (k : String) (store : Dict (Entry T))
      → has_key k (delete_all env es store) ≡ (not (elem k (entry_ids env es)) && has_key k store)
  unfolding delete_all
  has_key-delete_all [] k store = ground arith
  has_key-delete_all (e ∷ es) k store =
      let j = entry_id env.digest e in
      ground (
        arith,
        has_key-delete_all es k (remove j store),
        elem-keys_remove j k store,
        eq_iff j k,
        eq_iff k j,
      )

  lookup-delete_all :
      (es : List (Entry T)) (k : String) (store : Dict (Entry T))
      → elem k (entry_ids env es) ≡ false
      → lookup k (delete_all env es store) ≡ lookup k store
  unfolding delete_all
  lookup-delete_all [] k store h = refl
  lookup-delete_all (e ∷ es) k store h =
      let j = entry_id env.digest e in
      lookup-delete_all es k (remove j store) (ground arith)
      ∙ lookup-remove j k store (ground arith)

  -- The entry stands in the store under its id.
  abbrev IsHeld : Dict (Entry T) → Entry T → Type 0
  IsHeld store e = lookup (entry_id env.digest e) store ≡ some e

  values-IsHeld : (store : Dict (Entry T)) → IsStore env store → All (IsHeld store) (values store)
  values-IsHeld [] v = tt
  values-IsHeld ((k, e) ∷ store) v = (
    ground (arith, v.under_id.0, eq_iff k (entry_id env.digest e)),
    All-map (IsHeld store) (IsHeld ((k, e) ∷ store))
        (λ f h. ground (
          arith,
          h,
          v.distinct,
          lookup-has_key (entry_id env.digest f) store,
          eq_iff k (entry_id env.digest f),
        ))
        (values store)
        (values-IsHeld store
          (record { under_id = v.under_id.1; distinct = ground (arith, v.distinct) })),
  )

  -- An entry of a list, by its id.
  entry_of :
      (P : Entry T → Type 0) (k : String) (es : List (Entry T))
      → All P es
      → elem k (entry_ids env es) ≡ true
      → (e : Entry T) × P e × (entry_id env.digest e ≡ k)
  entry_of P k [] h m = absurd (cc)
  entry_of P k (e ∷ es) h m = elim (Bool-cases (entry_id env.digest e == k)) [
    | inl same ↦ (e, h.0, (eq_iff (entry_id env.digest e) k).0 same)
    | inr other ↦ entry_of P k es h.1 (ground arith)
  ]

  entry_ids-split :
      (n : ℕ) (es : List (Entry T)) (k : String)
      → elem k (entry_ids env es) ≡ true
      → elem k (entry_ids env (take n es)) ≡ false
      → elem k (entry_ids env (drop n es)) ≡ true
  entry_ids-split zero es k h m = h
  entry_ids-split (suc n) [] k h m = h
  entry_ids-split (suc n) (e ∷ es) k h m = entry_ids-split n es k (ground arith) (ground arith)

  module _ (s : Scoring T) where
    -- An eviction keeps entries as they are, and each entry that it takes comes before each that it
    -- keeps.
    pub record IsEviction (old new : Dict (Entry T)) : Type 0 where
      pub kept : (k : String) (e : Entry T) → lookup k new ≡ some e → lookup k old ≡ some e
      pub order :
          (k j : String) (e f : Entry T)
          → lookup k old ≡ some e
          → lookup k new ≡ none
          → lookup j new ≡ some f
          → IsBefore s e f

    delete_all-IsEviction :
        (n : ℕ) (store : Dict (Entry T))
        → IsOrder s
        → IsStore env store
        → IsEviction store (delete_all env (take n (candidates s store)) store)
    delete_all-IsEviction n store o v = record {
      kept = λ k e h. sym (lookup-delete_all gone k store (stays k e h)) ∙ h;
      order = λ k j e f there lost h.
          let m = taken k e there lost in
          let still = sym (lookup-delete_all gone j store (stays j f h)) ∙ h in
          let (x, (held, before), at_x) =
            entry_of (λ e. IsHeld store e × All (IsBefore s e) rest) k gone
              (All-zip (IsHeld store) (λ e. All (IsBefore s e) rest)
                (λ e. IsHeld store e × All (IsBefore s e) rest) (λ e a b. (a, b)) gone
                (All-take (IsHeld store) n (candidates s store) all_held)
                (take_candidates s o n store))
              m in
          let (y, (held_y, before_y), at_y) =
            entry_of (λ e. IsHeld store e × IsBefore s x e) j rest
              (All-zip (IsHeld store) (IsBefore s x) (λ e. IsHeld store e × IsBefore s x e)
                (λ e a b. (a, b)) rest (All-drop (IsHeld store) n (candidates s store) all_held)
                before)
              (entry_ids-split n (candidates s store) j (listed j f still) (stays j f h)) in
          let same_x : x ≡ e = ground (arith, held, at_x, there) in
          let same_y : y ≡ f = ground (arith, held_y, at_y, still) in
          subst₂ (IsBefore s) same_x same_y before_y;
    }
      where
        gone : List (Entry T)
        gone = take n (candidates s store)

        rest : List (Entry T)
        rest = drop n (candidates s store)

        all_held : All (IsHeld store) (candidates s store)
        all_held = All-candidates s (IsHeld store) store (values-IsHeld store v)

        -- What is left is not deleted, and what is lost is.
        stays :
            (k : String) (e : Entry T)
            → lookup k (delete_all env gone store) ≡ some e
            → elem k (entry_ids env gone) ≡ false
        stays k e h = ground (
          arith,
          h,
          has_key-delete_all gone k store,
          lookup-has_key k (delete_all env gone store),
        )

        taken :
            (k : String) (e : Entry T)
            → lookup k store ≡ some e
            → lookup k (delete_all env gone store) ≡ none
            → elem k (entry_ids env gone) ≡ true
        taken k e there lost = elim (Bool-cases (elem k (entry_ids env gone))) [
          | inl m ↦ m
          | inr out ↦ absurd (ground (arith, lookup-delete_all gone k store out, there, lost))
        ]

        listed :
            (k : String) (e : Entry T)
            → lookup k store ≡ some e
            → elem k (entry_ids env (candidates s store)) ≡ true
        listed k e there = count→elem k (entry_ids env (candidates s store)) (
            ground (
              arith,
              count-candidates env s store k v.under_id,
              lookup-has_key k store,
              there,
              elem→count k (keys store),
            ))

    -- Where the order of the scores is asymmetric and its complement transitive, the plain eviction of
    -- a store whose entries stand under their ids, once each, keeps entries as they are, and for each
    -- entry that it takes and each that it keeps, either the one that it takes is not strategic and
    -- the other is, or both are strategic or both are not and the one that it takes scores at most as
    -- much as the other.
    pub evict_if_needed-IsEviction :
        (max_entries : ℕ) (store : Dict (Entry T))
        → IsOrder s
        → IsStore env store
        → IsEviction store (evict_if_needed env s none max_entries store).1
    unfolding to_delete
    evict_if_needed-IsEviction max_entries store o v =
        elim (Bool-cases (leb (length store) max_entries)) [
          | inl fits ↦ rw (evict-idle env s max_entries store fits) (record {
            kept = λ k e h. h;
            order = λ k j e f there lost h. absurd (ground (arith, there, lost));
          })
          | inr over ↦
              rw (evict-plain env s max_entries store over)
                (delete_all-IsEviction (length store - max_entries) store o v)
        ]
