-- ===== src/Memory/Stored.antt =====
-- The store that `ingest_guideline` of src/fabri/memory/pruning.py leaves.
use fabri.Prelude.{
  String, true, false, not, ◌&&◌, ◌==◌, none, some, [], ◌∷◌, is_nodup, Dict, lookup, insert,
  lookup-insert, has_key, has_key-insert, keys, All, ◌≡◌, refl, sym, subst, ◌∙◌, arith, eq_iff,
  Bool-cases, Option-cases, inl, inr,
}
use fabri.Memory.Entry.{Entry, entry_id}
use fabri.Memory.Ingest.{
  Env, Settings, Candidate, merged, inserted, remove, find_existing, merge_entry, new_entry,
  replace_entry, ingest_locked,
}

-- Each entry stands under its id, once.
pub record IsStore {T : Type 0} (env : Env T) (store : Dict (Entry T)) : Type 0 where
  pub under_id : All (λ p. p.0 ≡ entry_id env.digest p.1) store
  pub distinct : is_nodup (keys store) ≡ true

module _ {T : Type 0} where
  pub elem-keys_remove :
      (k j : String) (store : Dict (Entry T))
      → has_key j (remove k store) ≡ (not (j == k) && has_key j store)
  elem-keys_remove k j [] = ground arith
  elem-keys_remove k j ((i, e) ∷ store) =
      ground (arith, elem-keys_remove k j store, eq_iff i k, eq_iff i j, eq_iff j k)

  pub is_nodup-remove :
      (k : String) (store : Dict (Entry T))
      → is_nodup (keys store) ≡ true
      → is_nodup (keys (remove k store)) ≡ true
  is_nodup-remove k [] h = refl
  is_nodup-remove k ((i, e) ∷ store) h =
      ground (arith, is_nodup-remove k store, elem-keys_remove k i store)

  All-remove :
      (P : String × Entry T → Type 0) (k : String) (store : Dict (Entry T))
      → All P store
      → All P (remove k store)
  All-remove P k [] h = tt
  All-remove P k ((i, e) ∷ store) h = elim (Bool-cases (i == k)) [
    | inl gone ↦ rw gone (All-remove P k store h.1)
    | inr kept ↦ rw kept (h.0, All-remove P k store h.1)
  ]

  pub lookup-remove :
      (k j : String) (store : Dict (Entry T))
      → (k == j) ≡ false
      → lookup j (remove k store) ≡ lookup j store
  lookup-remove k j [] h = refl
  lookup-remove k j ((i, e) ∷ store) h =
      ground (arith, lookup-remove k j store h, eq_iff i k, eq_iff i j, eq_iff k j)

  All-insert :
      (P : String × Entry T → Type 0) (k : String) (e : Entry T) (store : Dict (Entry T))
      → P (k, e)
      → All P store
      → All P (insert k e store)
  All-insert P k e [] here h = (here, tt)
  All-insert P k e ((j, old) ∷ store) here h = elim (Bool-cases (j == k)) [
    | inl same ↦ rw same (here, h.1)
    | inr apart ↦ rw apart (h.0, All-insert P k e store here h.1)
  ]

  is_nodup-insert :
      (k : String) (e : Entry T) (store : Dict (Entry T))
      → is_nodup (keys store) ≡ true
      → is_nodup (keys (insert k e store)) ≡ true
  is_nodup-insert k e [] h = refl
  is_nodup-insert k e ((j, old) ∷ store) h = elim (Bool-cases (j == k)) [
    | inl same ↦ rw (same, ← (eq_iff j k).0 same) h
    | inr apart ↦ rw apart (
        ground
          (arith, is_nodup-insert k e store, has_key-insert k j e store, eq_iff j k, eq_iff k j))
  ]

  module _ (env : Env T) where
    IsStore-insert :
        (e : Entry T) (store : Dict (Entry T))
        → IsStore env store
        → IsStore env (insert (entry_id env.digest e) e store)
    IsStore-insert e store v = record {
      under_id =
          All-insert (λ p. p.0 ≡ entry_id env.digest p.1) (entry_id env.digest e) e store refl
            v.under_id;
      distinct = is_nodup-insert (entry_id env.digest e) e store v.distinct;
    }

    IsStore-remove :
        (k : String) (store : Dict (Entry T)) → IsStore env store → IsStore env (remove k store)
    IsStore-remove k store v = record {
      under_id = All-remove (λ p. p.0 ≡ entry_id env.digest p.1) k store v.under_id;
      distinct = is_nodup-remove k store v.distinct;
    }

    -- The entry that an ingest returns stands in a store that is sound.
    abbrev pub Holds : Dict (Entry T) → Entry T → Type 0
    Holds store e = IsStore env store × (lookup (entry_id env.digest e) store ≡ some e)

    Holds-insert :
        (e : Entry T) (store : Dict (Entry T))
        → IsStore env store
        → Holds (insert (entry_id env.digest e) e store) e
    Holds-insert e store v = (
      IsStore-insert e store v,
      lookup-insert (entry_id env.digest e) (entry_id env.digest e) e store
          ∙ (let same : (entry_id env.digest e == entry_id env.digest e) ≡ true =
                ground (arith, eq_iff (entry_id env.digest e) (entry_id env.digest e)) in
              rw same refl),
    )

    Holds-replace_entry :
        (old new : Entry T) (store : Dict (Entry T))
        → IsStore env store
        → Holds (replace_entry env old new store) new
    unfolding replace_entry
    Holds-replace_entry old new store v =
        elim (Bool-cases (entry_id env.digest new == entry_id env.digest old)) [
          | inl same ↦ rw same (Holds-insert new store v)
          | inr moved ↦
              let (stored, found) = Holds-insert new store v in
              rw moved (
                IsStore-remove (entry_id env.digest old) _ stored,
                lookup-remove (entry_id env.digest old) (entry_id env.digest new) _ (
                      ground (
                        arith,
                        eq_iff (entry_id env.digest old) (entry_id env.digest new),
                        eq_iff (entry_id env.digest new) (entry_id env.digest old),
                      ))
                    ∙ found,
              )
        ]

    module _ (s : Settings) (c : Candidate) (store : Dict (Entry T)) where
      ingest_merged :
          (e : Entry T)
          → find_existing env c store ≡ some e
          → ingest_locked env s c store
            ≡ (merged, merge_entry s c e, replace_entry env e (merge_entry s c e) store)
      unfolding ingest_locked
      ingest_merged e h = rw (h, ingest_locked) refl

      pub ingest_inserted :
          find_existing env c store ≡ none
          → ingest_locked env s c store ≡ (
            inserted,
            new_entry env s c,
            insert (entry_id env.digest (new_entry env s c)) (new_entry env s c) store,
          )
      unfolding ingest_locked
      ingest_inserted h = rw (h, ingest_locked) refl

      -- On a store whose entries stand under their ids, once each, an ingest leaves such a store, and
      -- the entry that it returns stands in it.
      pub ingest_locked-Holds :
          IsStore env store → Holds (ingest_locked env s c store).2 (ingest_locked env s c store).1
      ingest_locked-Holds v = elim (Option-cases (find_existing env c store)) [
        | inl new ↦
            subst (λ r. Holds r.2 r.1) (sym (ingest_inserted new))
              (Holds-insert (new_entry env s c) store v)
        | inr (e, found) ↦
            subst (λ r. Holds r.2 r.1) (sym (ingest_merged e found))
              (Holds-replace_entry e (merge_entry s c e) store v)
      ]
