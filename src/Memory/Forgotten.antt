-- ===== src/Memory/Forgotten.antt =====
-- What `forget_org` of src/fabri/memory/global_promotion.py leaves of an organization.
use fabri.Prelude.{
  ℕ, String, true, false, not, ◌==◌, ◌||◌, none, List, [], ◌∷◌, ◌++◌, append_assoc, append_nil,
  if◌then◌else◌, elem, elem-append, All-append, filter, dedup, dedup_from, or_else, Dict, lookup,
  insert, lookup-insert, has_key, keys, is_nodup, All, ◌≡◌, refl, sym, subst, ap, ◌∙◌, arith,
  eq_iff, str_eq_comm, Bool-cases, Option-cases, lookup-has_key, inl, inr,
}
use fabri.Memory.Entry.{Entry, entry_id, sync_aliases}
use fabri.Memory.Ingest.{Env, remove}
use fabri.Memory.Stored.{IsStore}
use fabri.Memory.Promotion.{
  ForgetReport, Collections, candidates_collection, sibling, iterate, withdrawn, is_dropped,
  forget_entry, forget_entries, drop_collection, forget_org,
}

module _ {T : Type 0} (env : Env T) (min_orgs : ℕ) (org : String) where
  -- What the loop does to the entry under one id.
  abbrev kept : String × Entry T → List (String × Entry T)
  kept (k, stored) =
      let e = sync_aliases stored in
      if not (elem org e.session_ids)
      then (k, stored) ∷ []
      else if is_dropped env min_orgs org e
      then []
      else (k, withdrawn env org e) ∷ []

  abbrev all_kept : Dict (Entry T) → Dict (Entry T)
  all_kept [] = []
  all_kept (p ∷ store) = kept p ++ all_kept store

  insert-middle :
      (k : String) (new old : Entry T) (done rest : Dict (Entry T))
      → has_key k done ≡ false
      → insert k new (done ++ (k, old) ∷ rest) ≡ done ++ (k, new) ∷ rest
  insert-middle k new old [] rest h = ground (arith, eq_iff k k)
  insert-middle k new old ((j, e) ∷ done) rest h =
      ground (arith, insert-middle k new old done rest, eq_iff j k)

  remove-absent :
      (k : String) (store : Dict (Entry T)) → has_key k store ≡ false → remove k store ≡ store
  remove-absent k [] h = refl
  remove-absent k ((j, e) ∷ store) h = ground (arith, remove-absent k store, eq_iff j k)

  remove-middle :
      (k : String) (old : Entry T) (done rest : Dict (Entry T))
      → has_key k done ≡ false
      → has_key k rest ≡ false
      → remove k (done ++ (k, old) ∷ rest) ≡ done ++ rest
  remove-middle k old [] rest h g = ground (arith, eq_iff k k, remove-absent k rest g)
  remove-middle k old ((j, e) ∷ done) rest h g =
      ground (arith, remove-middle k old done rest, eq_iff j k)

  has_key-append :
      (a : String) (xs ys : Dict (Entry T)) → has_key a (xs ++ ys) ≡ (has_key a xs || has_key a ys)
  has_key-append a [] ys = refl
  has_key-append a ((j, e) ∷ xs) ys = ground (arith, has_key-append a xs ys)

  has_key-kept : (a k : String) (e : Entry T) → (k == a) ≡ false → has_key a (kept (k, e)) ≡ false
  has_key-kept a k stored h =
      let e = sync_aliases stored in
      elim (Bool-cases (elem org e.session_ids)) [
        | inr spared ↦ rw spared (ground (arith, h))
        | inl there ↦ elim (Bool-cases (is_dropped env min_orgs org e)) [
          | inl gone ↦ rw (there, gone) refl
          | inr stays ↦ rw (there, stays) (ground (arith, h))
        ]
      ]

  forget_step :
      (k : String) (stored : Entry T) (done rest : Dict (Entry T)) (report : ForgetReport)
      → k ≡ entry_id env.digest stored
      → has_key k done ≡ false
      → has_key k rest ≡ false
      → (forget_entry env min_orgs org (sync_aliases stored) (report, done ++ (k, stored) ∷ rest)).1
        ≡ (done ++ kept (k, stored)) ++ rest
  unfolding forget_entry entry_id sync_aliases
  forget_step k stored done rest report same a b =
      let e = sync_aliases stored in
      elim (Bool-cases (elem org e.session_ids)) [
        | inr spared ↦ rw spared (sym (append_assoc done ((k, stored) ∷ []) rest))
        | inl there ↦ elim (Bool-cases (is_dropped env min_orgs org e)) [
          | inl gone ↦
              rw (there, gone, ← same)
                (remove-middle k stored done rest a b ∙ ap (λ d. d ++ rest) (sym (append_nil done)))
          | inr stays ↦
              rw (there, stays, ← same)
                (insert-middle k (withdrawn env org e) stored done rest a
                  ∙ sym (append_assoc done ((k, withdrawn env org e) ∷ []) rest))
        ]
      ]

  forget_kept :
      (rest done : Dict (Entry T)) (report : ForgetReport)
      → is_nodup (keys rest) ≡ true
      → All (λ p. p.0 ≡ entry_id env.digest p.1) rest
      → ((a : String) → has_key a rest ≡ true → has_key a done ≡ false)
      → (forget_entries env min_orgs org (iterate rest) (report, done ++ rest)).1
        ≡ done ++ all_kept rest
  unfolding forget_entries iterate
  forget_kept [] done report d same fresh = refl
  forget_kept ((k, stored) ∷ rest) done report d same fresh =
      let s =
        forget_entry env min_orgs org (sync_aliases stored) (report, done ++ (k, stored) ∷ rest) in
      let one =
        forget_step k stored done rest report same.0 (fresh k (ground (arith, eq_iff k k)))
          (ground arith) in
      ap (λ st. (forget_entries env min_orgs org (iterate rest) (s.0, st)).1) one
      ∙ forget_kept rest (done ++ kept (k, stored)) s.0 (ground arith) same.1 (λ a m.
        let apart : (k == a) ≡ false = ground (arith, eq_iff k a) in
        has_key-append a done (kept (k, stored))
        ∙ ground (arith, fresh a, has_key-kept a k stored apart))
      ∙ append_assoc done (kept (k, stored)) (all_kept rest)

  -- No trace of the organization in a candidate.
  abbrev pub IsClean : Entry T → Type 0
  IsClean e = (elem org e.session_ids ≡ false) × (elem org e.source_session_ids ≡ false)

  elem-without : (xs : List String) → elem org (filter (λ s. not (s == org)) xs) ≡ false
  elem-without [] = refl
  elem-without (x ∷ xs) = ground (arith, elem-without xs)

  elem-dedup_from :
      (a : String) (seen xs : List String)
      → elem a xs ≡ true
      → (elem a seen || elem a (dedup_from seen xs)) ≡ true
  elem-dedup_from a seen [] h = absurd (cc)
  elem-dedup_from a seen (x ∷ xs) h =
      ground
        (arith, elem-dedup_from a (x ∷ seen) xs, elem-dedup_from a seen xs, eq_iff x a, eq_iff a x)

  elem-merged :
      (xs ys : List String)
      → elem org (dedup (xs ++ ys)) ≡ false
      → (elem org ys ≡ false) × (elem org xs ≡ false)
  elem-merged xs ys h =
      let both = elem-append org xs ys in
      let still = elem-dedup_from org [] (xs ++ ys) in
      (ground (arith, both, still, h), ground (arith, both, still, h))

  kept-IsClean : (k : String) (stored : Entry T) → All (λ p. IsClean p.1) (kept (k, stored))
  unfolding sync_aliases
  kept-IsClean k stored =
      let e = sync_aliases stored in
      elim (Bool-cases (elem org e.session_ids)) [
        | inr spared ↦
            rw spared (elem-merged stored.source_session_ids stored.session_ids spared, tt)
        | inl there ↦ elim (Bool-cases (is_dropped env min_orgs org e)) [
          | inl gone ↦ rw (there, gone) tt
          | inr stays ↦
              rw (there, stays) ((elem-without e.session_ids, elem-without e.session_ids), tt)
        ]
      ]

  all_kept-IsClean : (store : Dict (Entry T)) → All (λ p. IsClean p.1) (all_kept store)
  all_kept-IsClean [] = tt
  all_kept-IsClean ((k, stored) ∷ store) =
      All-append (λ p. IsClean p.1) (kept (k, stored)) (all_kept store) (kept-IsClean k stored)
        (all_kept-IsClean store)

  module _ (name : String) (w : Collections T) where
    -- What is left once the organization's own collection is dropped.
    abbrev remaining : Collections T
    remaining = drop_collection name w

    lookup-drop :
        (at : String) (v : Collections T)
        → lookup at (drop_collection name v) ≡ (if name == at then none else lookup at v)
    lookup-drop at [] = ground arith
    lookup-drop at ((j, c) ∷ v) =
        ground (arith, lookup-drop at v, eq_iff j name, eq_iff j at, eq_iff name at, eq_iff name j)

    lookup-dropped : lookup name remaining ≡ none
    lookup-dropped =
        lookup-drop name w
        ∙ (let self : (name == name) ≡ true = ground (arith, eq_iff name name) in rw self refl)

    forget_org-absent :
        has_key candidates_collection remaining ≡ false
        → (forget_org env min_orgs name org w).1 ≡ remaining
    unfolding forget_org
    forget_org-absent h = rw h refl

    forget_org-there :
        has_key candidates_collection remaining ≡ true
        → IsStore env (sibling candidates_collection remaining)
        → (forget_org env min_orgs name org w).1
          ≡ insert candidates_collection
              (all_kept (sibling candidates_collection remaining))
              remaining
    unfolding forget_org
    forget_org-there h v = rw h (
        ap (λ s. insert candidates_collection s remaining)
          (forget_kept (sibling candidates_collection remaining) [] _ v.distinct v.under_id
            (λ a m. refl)))

    -- Where the candidates stand under their ids, once each, and the organization's collection is not
    -- that of the candidates: once an organization is forgotten its collection is gone, and no
    -- candidate that is left names it as a source.
    pub forget_org-IsClean :
        (name == candidates_collection) ≡ false
        → IsStore env (sibling candidates_collection remaining)
        → (lookup name (forget_org env min_orgs name org w).1 ≡ none)
          × All
              (λ p. IsClean p.1)
              (sibling candidates_collection (forget_org env min_orgs name org w).1)
    forget_org-IsClean apart v = elim (Bool-cases (has_key candidates_collection remaining)) [
      | inr absent ↦ rw (forget_org-absent absent) (
        lookup-dropped,
        elim (Option-cases (lookup candidates_collection remaining)) [
          | inl none_there ↦ rw none_there tt
          | inr (c, found) ↦
              absurd (ground (arith, lookup-has_key candidates_collection remaining, absent, found))
        ],
      )
      | inl there ↦ rw (forget_org-there there v) (
        lookup-insert candidates_collection name
              (all_kept (sibling candidates_collection remaining)) remaining
            ∙ (let other : (candidates_collection == name) ≡ false =
                  str_eq_comm candidates_collection name ∙ apart in
                rw other lookup-dropped),
        subst (λ o. All (λ p. IsClean p.1) (or_else o []))
            (sym (
              lookup-insert candidates_collection candidates_collection
                (all_kept (sibling candidates_collection remaining)) remaining))
            (all_kept-IsClean (sibling candidates_collection remaining)),
      )
    ]
