-- ===== src/Memory/Merging.antt =====
-- What a merge of src/fabri/memory/pruning.py keeps of the entry.
use fabri.Prelude.{
  ℕ, ◌+◌, ◌≤◌, String, true, false, ◌==◌, none, some, Option, List, [], ◌∷◌, if◌then◌else◌, ltb,
  leb, elem, elem-append, All, ◌≡◌, refl, sym, subst, ap, ◌⊎◌, arith, eq_iff, Bool-cases, inl, inr,
}
use fabri.Memory.Entry.{Entry}
use fabri.Memory.Tier.{tier_rank, verification_rank, classify_tier, distinct, text_length}
use fabri.Memory.Ingest.{
  Candidate, Settings, add_missing, add_all_missing, raise_to, merge_fields, merge_tier,
  merge_entry,
}

-- Every text of the one list stands in the other.
abbrev IsWithin : List String → List String → Type 0
IsWithin xs ys = All (λ x. elem x ys ≡ true) xs

All-self :
    (xs ys : List String) → ((a : String) → elem a xs ≡ true → elem a ys ≡ true) → IsWithin xs ys
All-self [] ys f = tt
All-self (x ∷ xs) ys f =
    (f x (ground (arith, eq_iff x x)), All-self xs ys (λ a m. f a (ground arith)))

elem-add_missing :
    (xs : List String) (x a : String) → elem a xs ≡ true → elem a (add_missing xs x) ≡ true
elem-add_missing xs x a m = ground (arith, elem-append a xs (x ∷ []))

elem-added : (xs : List String) (x : String) → elem x (add_missing xs x) ≡ true
elem-added xs x = ground (arith, elem-append x xs (x ∷ []), eq_iff x x)

elem-add_all_missing :
    (xs ys : List String) (a : String) → elem a xs ≡ true → elem a (add_all_missing xs ys) ≡ true
unfolding add_all_missing
elem-add_all_missing xs [] a m = m
elem-add_all_missing xs (y ∷ ys) a m =
    elem-add_all_missing (add_missing xs y) ys a (elem-add_missing xs y a m)

elem-all_added :
    (xs ys : List String) (a : String) → elem a ys ≡ true → elem a (add_all_missing xs ys) ≡ true
unfolding add_all_missing
elem-all_added xs [] a m = absurd (cc)
elem-all_added xs (y ∷ ys) a m = elim (Bool-cases (y == a)) [
  | inl same ↦
      elem-add_all_missing (add_missing xs y) ys a (rw (← (eq_iff y a).0 same) (elem-added xs y))
  | inr apart ↦ elem-all_added (add_missing xs y) ys a (ground arith)
]

rank-raise_to : (rank : String → ℕ) (old new : String) → rank old ≤ rank (raise_to rank old new)
rank-raise_to rank old new = elim (Bool-cases (ltb (rank old) (rank new))) [
  | inl higher ↦ rw higher (ground arith)
  | inr lower ↦ rw lower (omega arith)
]

-- What a merge keeps and adds, of an entry and a candidate.
pub record IsMerged {T : Type 0} (s : Settings) (c : Candidate) (old new : Entry T) : Type 0 where
  pub counted : new.hit_count ≡ old.hit_count + 1
  pub tier : tier_rank old.tier ≤ tier_rank new.tier
  pub verified : verification_rank old.verification ≤ verification_rank new.verification
  pub informed : text_length old.text ≤ text_length new.text
  pub sessions : IsWithin (c.session_id ∷ old.session_ids) new.session_ids
  pub tools : IsWithin old.tools new.tools
  pub more_tools : IsWithin c.tools new.tools
  pub events : IsWithin c.source_event_ids new.source_event_ids
  pub promoted :
      (new.kind ≡ "strategic") × (s.promotion_threshold_sessions ≤ distinct new.session_ids)
      ⊎ (new.kind ≡ old.kind)
        × (leb s.promotion_threshold_sessions (distinct new.session_ids) ≡ false)

module _ {T : Type 0} (s : Settings) (c : Candidate) where
  merge_fields-IsMerged : (e : Entry T) → IsMerged s c e (merge_fields s c e)
  unfolding merge_fields
  merge_fields-IsMerged e = record {
    counted = refl;
    tier = omega arith;
    verified = rank-raise_to verification_rank e.verification c.verification;
    informed = elim (Bool-cases (ltb (text_length e.text) (text_length c.text))) [
      | inl longer ↦ rw longer (ground arith)
      | inr shorter ↦ rw shorter (omega arith)
    ];
    sessions = (
      elem-added e.session_ids c.session_id,
      All-self e.session_ids (add_missing e.session_ids c.session_id)
          (elem-add_missing e.session_ids c.session_id),
    );
    tools =
        All-self e.tools (add_all_missing e.tools c.tools) (elem-add_all_missing e.tools c.tools);
    more_tools =
        All-self c.tools (add_all_missing e.tools c.tools) (elem-all_added e.tools c.tools);
    events =
        All-self c.source_event_ids (add_all_missing e.source_event_ids c.source_event_ids)
          (elem-all_added e.source_event_ids c.source_event_ids);
    promoted =
        elim (Bool-cases (
          leb s.promotion_threshold_sessions (distinct (add_missing e.session_ids c.session_id)))) [
            | inl enough ↦ inl (rw enough refl, ground arith)
            | inr few ↦ inr (rw few refl, few)
          ];
  }

  -- Raising the tier keeps the rest.
  IsMerged-raise_to :
      (old e : Entry T) (tier : String)
      → IsMerged s c old e
      → IsMerged s c old (record e { tier = raise_to tier_rank e.tier tier })
  IsMerged-raise_to old e tier m = record {
    counted = m.counted;
    tier = omega (arith, m.tier, rank-raise_to tier_rank e.tier tier);
    verified = m.verified;
    informed = m.informed;
    sessions = m.sessions;
    tools = m.tools;
    more_tools = m.more_tools;
    events = m.events;
    promoted = m.promoted;
  }

  IsMerged-merge_tier :
      (old e : Entry T) (tier : Option String)
      → IsMerged s c old e
      → IsMerged s c old (merge_tier s tier e)
  unfolding merge_tier
  IsMerged-merge_tier old e (some tier) m = IsMerged-raise_to old e tier m
  IsMerged-merge_tier old e none m =
      let raised = record e { tier = raise_to tier_rank e.tier (classify_tier e) } in
      elim (Bool-cases s.tiering_enabled) [
        | inl on ↦
            subst (IsMerged s c old) (sym (ap (λ b. if b then raised else e) on))
              (IsMerged-raise_to old e (classify_tier e) m)
        | inr off ↦ subst (IsMerged s c old) (sym (ap (λ b. if b then raised else e) off)) m
      ]

  -- A merge counts one more hit, never lowers the tier or the verification, never shortens the text,
  -- and loses no session and no tool; it records the candidate's session, tools and events. The kind
  -- becomes strategic exactly if enough different sessions have reported the entry, and is kept
  -- otherwise.
  pub merge_entry-IsMerged : (e : Entry T) → IsMerged s c e (merge_entry s c e)
  unfolding merge_entry
  merge_entry-IsMerged e =
      IsMerged-merge_tier e (merge_fields s c e) c.tier (merge_fields-IsMerged e)
