-- ===== src/Memory/Evicted.antt =====
-- What the plain eviction of src/fabri/memory/pruning.py leaves.
use fabri.Prelude.{
  ℕ, zero, suc, ◌+◌, ◌-◌, ◌≤◌, min, String, Bool, true, false, not, ◌==◌, none, List, [], ◌∷◌, map,
  map-append, leb, length, length-append, length-take, length-map, take, filter, elem, count,
  count-append, elem→count, count→elem, count-is_nodup, is_nodup, Dict, has_key, keys, All, ◌≡◌,
  refl, sym, ap, ◌∙◌, arith, eq_iff, Bool-cases, inl, inr,
}
use fabri.Memory.Entry.{Entry, entry_id}
use fabri.Memory.Ingest.{Env, remove}
use fabri.Memory.Stored.{IsStore, elem-keys_remove, is_nodup-remove}
use fabri.Memory.Evict.{
  Scoring, is_protected, insert_by, sort_by, values, candidates, to_delete, delete_all,
  evict_if_needed,
}

-- A list in which no text is counted twice.
is_nodup-count : (xs : List String) → ((a : String) → count a xs ≤ 1) → is_nodup xs ≡ true
is_nodup-count [] h = refl
is_nodup-count (x ∷ xs) h =
    let one = h x in
    let rest = is_nodup-count xs (λ a. ground (arith, h a)) in
    ground (arith, one, rest, elem→count x xs, eq_iff x x)

elem-take : (n : ℕ) (a : String) (xs : List String) → elem a (take n xs) ≡ true → elem a xs ≡ true
elem-take zero a xs h = absurd (cc)
elem-take (suc n) a [] h = h
elem-take (suc n) a (x ∷ xs) h = ground (arith, elem-take n a xs)

is_nodup-take : (n : ℕ) (xs : List String) → is_nodup xs ≡ true → is_nodup (take n xs) ≡ true
is_nodup-take zero xs h = refl
is_nodup-take (suc n) [] h = h
is_nodup-take (suc n) (x ∷ xs) h = ground (arith, is_nodup-take n xs, elem-take n x xs)

module _ {T : Type 0} (env : Env T) where
  abbrev pub entry_ids : List (Entry T) → List String
  entry_ids es = map (entry_id env.digest) es

  count-insert_by :
      (s : Scoring T) (e : Entry T) (es : List (Entry T)) (a : String)
      → count a (entry_ids (insert_by s e es)) ≡ count a (entry_ids (e ∷ es))
  unfolding insert_by
  count-insert_by s e [] a = refl
  count-insert_by s e (f ∷ fs) a = ground (arith, count-insert_by s e fs a)

  count-sort_by :
      (s : Scoring T) (es : List (Entry T)) (a : String)
      → count a (entry_ids (sort_by s es)) ≡ count a (entry_ids es)
  unfolding sort_by
  count-sort_by s [] a = refl
  count-sort_by s (e ∷ es) a =
      ground (arith, count-insert_by s e (sort_by s es) a, count-sort_by s es a)

  count-filter :
      (p : Entry T → Bool) (es : List (Entry T)) (a : String)
      → count a (entry_ids (filter (λ e. not (p e)) es)) + count a (entry_ids (filter p es))
        ≡ count a (entry_ids es)
  count-filter p [] a = omega arith
  count-filter p (e ∷ es) a = ground (arith, count-filter p es a)

  entry_ids-values :
      (store : Dict (Entry T))
      → All (λ p. p.0 ≡ entry_id env.digest p.1) store
      → entry_ids (values store) ≡ keys store
  entry_ids-values [] h = refl
  entry_ids-values ((k, e) ∷ store) h = cc (h.0, entry_ids-values store h.1)

  pub count-candidates :
      (s : Scoring T) (store : Dict (Entry T)) (a : String)
      → All (λ p. p.0 ≡ entry_id env.digest p.1) store
      → count a (entry_ids (candidates s store)) ≡ count a (keys store)
  unfolding candidates
  count-candidates s store a h =
      let easy = filter (λ e. not (is_protected e)) (values store) in
      let hard = filter is_protected (values store) in
      ap (count a) (map-append (entry_id env.digest) (sort_by s easy) (sort_by s hard))
      ∙ count-append a (entry_ids (sort_by s easy)) (entry_ids (sort_by s hard))
      ∙ (let x = count-sort_by s easy a in
          let y = count-sort_by s hard a in
          let z = count-filter is_protected (values store) a in
          let w = ap (count a) (entry_ids-values store h) in omega arith)

  length-remove :
      (k : String) (store : Dict (Entry T))
      → is_nodup (keys store) ≡ true
      → has_key k store ≡ true
      → suc (length (remove k store)) ≡ length store
  length-remove k [] d h = absurd (cc)
  length-remove k ((j, e) ∷ store) d h = elim (Bool-cases (j == k)) [
    | inr apart ↦ rw apart (ap suc (length-remove k store (ground arith) (ground arith)))
    | inl same ↦
        let gone : has_key k store ≡ false = ground (arith, eq_iff j k) in
        rw same (ap suc (length-absent k store gone))
  ]
    where
      length-absent :
          (k : String) (store : Dict (Entry T))
          → has_key k store ≡ false
          → length (remove k store) ≡ length store
      length-absent k [] h = refl
      length-absent k ((j, e) ∷ store) h = ground (arith, length-absent k store)

  -- Deleting different entries that are there shortens the store by each of them.
  length-delete_all :
      (es : List (Entry T)) (store : Dict (Entry T))
      → is_nodup (keys store) ≡ true
      → is_nodup (entry_ids es) ≡ true
      → ((a : String) → elem a (entry_ids es) ≡ true → has_key a store ≡ true)
      → length (delete_all env es store) + length es ≡ length store
  unfolding delete_all
  length-delete_all [] store d f h = omega arith
  length-delete_all (e ∷ es) store d f h =
      let k = entry_id env.digest e in
      let here = length-remove k store d (h k (ground (arith, eq_iff k k))) in
      let rest =
        length-delete_all es (remove k store) (is_nodup-remove k store d) (ground arith)
          (λ a m. ground (arith, h a, elem-keys_remove k a store, eq_iff a k)) in
      omega arith

  length-insert_by :
      (s : Scoring T) (e : Entry T) (es : List (Entry T))
      → length (insert_by s e es) ≡ suc (length es)
  unfolding insert_by
  length-insert_by s e [] = refl
  length-insert_by s e (f ∷ fs) = ground (arith, length-insert_by s e fs)

  length-sort_by : (s : Scoring T) (es : List (Entry T)) → length (sort_by s es) ≡ length es
  unfolding sort_by
  length-sort_by s [] = refl
  length-sort_by s (e ∷ es) = length-insert_by s e (sort_by s es) ∙ ap suc (length-sort_by s es)

  length-filters :
      (p : Entry T → Bool) (es : List (Entry T))
      → length (filter (λ e. not (p e)) es) + length (filter p es) ≡ length es
  length-filters p [] = omega arith
  length-filters p (e ∷ es) = ground (arith, length-filters p es)

  length-candidates :
      (s : Scoring T) (store : Dict (Entry T)) → length (candidates s store) ≡ length store
  unfolding candidates
  length-candidates s store =
      let easy = filter (λ e. not (is_protected e)) (values store) in
      let hard = filter is_protected (values store) in
      length-append (sort_by s easy) (sort_by s hard)
      ∙ (let x = length-sort_by s easy in
          let y = length-sort_by s hard in
          let z = length-filters is_protected (values store) in
          let w = length-map (λ p. p.1) store in omega arith)

  module _ (s : Scoring T) (max_entries : ℕ) (store : Dict (Entry T)) where
    abbrev evicted : List (Entry T)
    evicted = to_delete s max_entries store

    length-evicted : length evicted ≡ length store - max_entries
    unfolding to_delete
    length-evicted =
        let a = length-take (length store - max_entries) (candidates s store) in
        let b = length-candidates s store in omega arith

    pub evict-plain :
        leb (length store) max_entries ≡ false
        → evict_if_needed env s none max_entries store
          ≡ (length evicted, delete_all env evicted store)
    unfolding evict_if_needed
    evict-plain h = rw h refl

    pub evict-idle :
        leb (length store) max_entries ≡ true
        → evict_if_needed env s none max_entries store ≡ (0, store)
    unfolding evict_if_needed
    evict-idle h = rw h refl

    ids-evicted :
        entry_ids evicted ≡ take (length store - max_entries) (entry_ids (candidates s store))
    unfolding to_delete
    ids-evicted = map-take (length store - max_entries) (candidates s store)
      where
        map-take : (n : ℕ) (es : List (Entry T)) → entry_ids (take n es) ≡ take n (entry_ids es)
        map-take zero es = refl
        map-take (suc n) [] = refl
        map-take (suc n) (e ∷ es) = ap (λ r. entry_id env.digest e ∷ r) (map-take n es)

    -- Without a language model and on a store whose entries stand under their ids, once each, an
    -- eviction brings the store to exactly `max_entries` if it has more, and changes nothing if it has
    -- not; the number that it returns is that of the entries that are gone.
    pub length-evict_if_needed :
        IsStore env store
        → (length (evict_if_needed env s none max_entries store).1 ≡ min (length store) max_entries)
          × (length (evict_if_needed env s none max_entries store).1
                + (evict_if_needed env s none max_entries store).0
              ≡ length store)
    length-evict_if_needed v = elim (Bool-cases (leb (length store) max_entries)) [
      | inl fits ↦ rw (evict-idle fits) (ground (arith, fits), omega arith)
      | inr over ↦
          let counted = count-candidates s store in
          let distinct : is_nodup (entry_ids (candidates s store)) ≡ true =
            is_nodup-count (entry_ids (candidates s store)) (λ a.
              ground (arith, counted a v.under_id, count-is_nodup a (keys store) v.distinct)) in
          let total =
            length-delete_all evicted store v.distinct
              (ap is_nodup ids-evicted
                ∙ is_nodup-take (length store - max_entries) (entry_ids (candidates s store))
                    distinct)
              (λ a m.
                let there =
                  elem-take (length store - max_entries) a (entry_ids (candidates s store))
                    (ap (elem a) (sym ids-evicted) ∙ m) in
                count→elem a (keys store) (
                  ground (
                    arith,
                    elem→count a (entry_ids (candidates s store)) there,
                    counted a v.under_id,
                  ))) in
          let size = length-evicted in
          rw (evict-plain over) (ground (arith, over, total, size), omega (arith, total))
    ]
