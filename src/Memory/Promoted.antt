-- ===== src/Memory/Promoted.antt =====
-- When a lesson reaches GLOBAL by src/fabri/memory/global_promotion.py.
use fabri.Prelude.{
  ℕ, ◌≤◌, String, true, false, ◌==◌, some, [], ◌∷◌, ok, >>=-eq-ok, raise_if, raise_if-ok,
  if◌then◌else◌, ltb, elem, or_else, Dict, lookup, insert, lookup-insert, ◌≡◌, refl, subst₂, ap,
  ◌∙◌, arith, eq_iff, Bool-cases, inl, inr,
}
use fabri.Value.{Value, str, Fields, find_field, set_field, field, end, text, boolean, other}
use fabri.Memory.Entry.{Entry, entry_id, sync_aliases}
use fabri.Memory.Ingest.{Env}
use fabri.Memory.Promotion.{
  too_few, was_rejected, candidates_collection, Collections, sibling, status_text, status_of,
  source_count_of, resolve, with_status, promoted_entry, upsert_in, approve,
}

find_field-set_field :
    (k : String) (v : Value) (fs : Fields) → find_field k (set_field k v fs) ≡ some v
unfolding find_field set_field
find_field-set_field k v end = ground (arith, eq_iff k k)
find_field-set_field k v (field (text j) w fs) = elim (Bool-cases (j == k)) [
  | inl same ↦ rw same (ground (arith, eq_iff k k))
  | inr apart ↦ rw apart (rw apart (find_field-set_field k v fs))
]
find_field-set_field k v (field (boolean b) w fs) = find_field-set_field k v fs
find_field-set_field k v (field (other j) w fs) = find_field-set_field k v fs

module _ {T : Type 0} (env : Env T) where
  status-with_status : (s : String) (e : Entry T) → status_of (with_status env s e) ≡ s
  unfolding status_of status_text
  status-with_status s e = ap status_text (find_field-set_field "status" (str s) e.payload)

  -- What a collection holds after an upsert into one.
  sibling-upsert_in :
      (name at : String) (e : Entry T) (w : Collections T)
      → sibling at (upsert_in env name e w)
        ≡ (if name == at then insert (entry_id env.digest e) e (sibling name w) else sibling at w)
  sibling-upsert_in name at e w = elim (Bool-cases (name == at)) [
    | inl same ↦
        ap (λ o. or_else o [])
          (lookup-insert name at (insert (entry_id env.digest e) e (sibling name w)) w)
        ∙ rw same refl
    | inr apart ↦
        ap (λ o. or_else o [])
          (lookup-insert name at (insert (entry_id env.digest e) e (sibling name w)) w)
        ∙ rw apart refl
  ]

  sibling-same :
      (name : String) (e : Entry T) (w : Collections T)
      → sibling name (upsert_in env name e w) ≡ insert (entry_id env.digest e) e (sibling name w)
  sibling-same name e w =
      sibling-upsert_in name name e w
      ∙ (let self : (name == name) ≡ true = ground (arith, eq_iff name name) in rw self refl)

  sibling-other :
      (name at : String) (e : Entry T) (w : Collections T)
      → (name == at) ≡ false
      → sibling at (upsert_in env name e w) ≡ sibling at w
  sibling-other name at e w apart = sibling-upsert_in name at e w ∙ rw apart refl

  lookup-stored :
      (e : Entry T) (store : Dict (Entry T))
      → lookup (entry_id env.digest e) (insert (entry_id env.digest e) e store) ≡ some e
  lookup-stored e store =
      lookup-insert (entry_id env.digest e) (entry_id env.digest e) e store
      ∙ (let k = entry_id env.digest e in
          let self : (k == k) ≡ true = ground (arith, eq_iff k k) in rw self refl)

  -- How an approval changes the memory.
  pub record IsApproved (min_orgs : ℕ) (global ident : String) (old : Collections T)
      (promoted : Entry T) (new : Collections T) : Type 0 where
    pub candidate : Entry T
    pub found : resolve env ident (sibling candidates_collection old) ≡ ok candidate
    pub recurring : min_orgs ≤ source_count_of candidate
    pub not_rejected : (status_of candidate == "rejected") ≡ false
    pub same_text : promoted.text ≡ candidate.text
    pub in_global : lookup (entry_id env.digest promoted) (sibling global new) ≡ some promoted
    pub marked :
        lookup (entry_id env.digest candidate) (sibling candidates_collection new)
        ≡ some (with_status env "approved" candidate)
    pub status : status_of (with_status env "approved" candidate) ≡ "approved"
    pub others :
        (name : String)
        → elem name (global ∷ candidates_collection ∷ []) ≡ false
        → sibling name new ≡ sibling name old

  upsert_in-IsApproved :
      (min_orgs : ℕ) (global ident : String) (w : Collections T) (e : Entry T)
      → (candidates_collection == global) ≡ false
      → resolve env ident (sibling candidates_collection w) ≡ ok e
      → min_orgs ≤ source_count_of e
      → (status_of e == "rejected") ≡ false
      → IsApproved min_orgs global ident w (promoted_entry env e) (
          upsert_in env candidates_collection
            (with_status env "approved" e)
            (upsert_in env global (promoted_entry env e) w))
  unfolding promoted_entry entry_id sync_aliases
  upsert_in-IsApproved min_orgs global ident w e apart found enough fine =
      let p = promoted_entry env e in
      let c = with_status env "approved" e in
      let w₁ = upsert_in env global p w in
      record {
        candidate = e;
        found = found;
        recurring = enough;
        not_rejected = fine;
        same_text = refl;
        in_global =
            ap (lookup (entry_id env.digest p))
              (sibling-other candidates_collection global c w₁ apart ∙ sibling-same global p w)
            ∙ lookup-stored p (sibling global w);
        marked =
            ap (lookup (entry_id env.digest c)) (sibling-same candidates_collection c w₁)
            ∙ lookup-stored c (sibling candidates_collection w₁);
        status = status-with_status "approved" e;
        others = λ name out.
            let a : (global == name) ≡ false = ground (arith, out) in
            let b : (candidates_collection == name) ≡ false = ground (arith, out) in
            sibling-other candidates_collection name c w₁ b ∙ sibling-other global name p w a;
      }

  -- An approval that returns has found one candidate that has at least `min_orgs` different sources and
  -- was not rejected; its text stands in GLOBAL, the candidate is marked as approved, and no other
  -- collection has changed. GLOBAL is not the collection of the candidates.
  pub approve-IsApproved :
      (min_orgs : ℕ) (global ident : String) (w new : Collections T) (promoted : Entry T)
      → (candidates_collection == global) ≡ false
      → approve env min_orgs global ident w ≡ ok (promoted, new)
      → IsApproved min_orgs global ident w promoted new
  unfolding approve
  approve-IsApproved min_orgs global ident w new promoted apart h =
      let (e, found, rest) = >>=-eq-ok (resolve env ident (sibling candidates_collection w)) _ h in
      let (u, enough, rest2) =
        >>=-eq-ok (raise_if (ltb (source_count_of e) min_orgs) (too_few (source_count_of e))) _
          rest in
      let (v, fine, same) = >>=-eq-ok (raise_if (status_of e == "rejected") was_rejected) _ rest2 in
      let counted = raise_if-ok _ _ u enough in
      let p : promoted_entry env e ≡ promoted = cc in
      let n : upsert_in env candidates_collection (with_status env "approved" e)
            (upsert_in env global (promoted_entry env e) w)
          ≡ new =
        cc in
      subst₂ (IsApproved min_orgs global ident w) p n (
        upsert_in-IsApproved min_orgs global ident w e apart found (ground (arith, counted))
          (raise_if-ok _ _ v fine))
