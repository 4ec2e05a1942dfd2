-- ===== src/Memory/Stale.antt =====
-- src/fabri/memory/staleness.py: entries that are old and seldom used. Ages are a type with its order.
use fabri.Prelude.{
  ℕ, zero, suc, ◌≤◌, String, Bool, true, false, not, ◌&&◌, ◌||◌, Option, none, some, List, [], ◌∷◌,
  map, if◌then◌else◌, ltb, leb, take, filter, elem, Dict, All, All-map, All-filter, ◌≡◌, arith,
  Bool-cases, inl, inr,
}
use fabri.Memory.Entry.{Entry, entry_id}
use fabri.Memory.Ingest.{Env}
use fabri.Memory.Evict.{hits}
use fabri.Memory.Promotion.{iterate}

pub record StaleGuideline (T A : Type 0) : Type 0 where
  pub id : String
  pub text : String
  pub kind : String
  pub hit_count : ℕ
  pub age_days : A
  pub domain : String
  pub tags : List String
  pub session_ids : List String
  pub created_at : T

-- `_age_days` at the time of the report, and `<` on ages.
pub record Ages (T A : Type 0) : Type 0 where
  pub age : Entry T → A
  pub less : A → A → Bool

abbrev default_max_hit_count : ℕ
default_max_hit_count = 2

abbrev default_stale_kinds : List String
default_stale_kinds = "tactical" ∷ "strategic" ∷ []

module _ {T A : Type 0} (env : Env T) (ages : Ages T A) where
  abbrev is_stale : ℕ → A → List String → Entry T → Bool
  is_stale max_hits min_age kinds e =
      elem e.kind kinds && (leb (hits e) max_hits && not (ages.less (ages.age e) min_age))

  -- `key(x) < key(y)` for the key `(-age, hits)`.
  abbrev pub is_before : Entry T → Entry T → Bool
  is_before x y =
      ages.less (ages.age y) (ages.age x)
      || not (ages.less (ages.age x) (ages.age y)) && ltb (hits x) (hits y)

  unfoldable insert_stale : Entry T → List (Entry T) → List (Entry T)
  insert_stale e [] = e ∷ []
  insert_stale e (f ∷ fs) = if is_before f e then f ∷ insert_stale e fs else e ∷ f ∷ fs

  unfoldable sort_stale : List (Entry T) → List (Entry T)
  unfolding insert_stale
  sort_stale [] = []
  sort_stale (e ∷ es) = insert_stale e (sort_stale es)

  abbrev stale_guideline : Entry T → StaleGuideline T A
  stale_guideline e = record {
    id = entry_id env.digest e;
    text = e.text;
    kind = e.kind;
    hit_count = hits e;
    age_days = ages.age e;
    domain = e.domain;
    tags = e.tags;
    session_ids = e.session_ids;
    created_at = e.created_at;
  }

  abbrev limited : Option ℕ → List (StaleGuideline T A) → List (StaleGuideline T A)
  limited none rs = rs
  limited (some n) rs = take n rs

  -- `find_stale_guidelines`.
  unfoldable pub find_stale_guidelines :
      ℕ → A → List String → Option ℕ → Dict (Entry T) → List (StaleGuideline T A)
  unfolding iterate sort_stale entry_id
  find_stale_guidelines max_hits min_age kinds limit store =
      limited limit (
        map stale_guideline (sort_stale (filter (is_stale max_hits min_age kinds) (iterate store))))

  All-insert_stale :
      (P : Entry T → Type 0) (e : Entry T) (es : List (Entry T))
      → P e
      → All P es
      → All P (insert_stale e es)
  unfolding insert_stale
  All-insert_stale P e [] here h = (here, tt)
  All-insert_stale P e (f ∷ fs) here h = elim (Bool-cases (is_before f e)) [
    | inl first ↦ rw first (h.0, All-insert_stale P e fs here h.1)
    | inr later ↦ rw later (here, h)
  ]

  All-sort_stale : (P : Entry T → Type 0) (es : List (Entry T)) → All P es → All P (sort_stale es)
  unfolding sort_stale
  All-sort_stale P [] h = tt
  All-sort_stale P (e ∷ es) h = All-insert_stale P e (sort_stale es) h.0 (All-sort_stale P es h.1)

  -- What the report says of an entry.
  abbrev pub IsStale : ℕ → A → List String → StaleGuideline T A → Type 0
  IsStale max_hits min_age kinds r =
      (elem r.kind kinds ≡ true) × (r.hit_count ≤ max_hits) × (ages.less r.age_days min_age ≡ false)

  All-reported :
      (P : StaleGuideline T A → Type 0) (es : List (Entry T))
      → All (λ e. P (stale_guideline e)) es
      → All P (map stale_guideline es)
  All-reported P [] h = tt
  All-reported P (e ∷ es) h = (h.0, All-reported P es h.1)

  All-limited :
      (P : StaleGuideline T A → Type 0) (limit : Option ℕ) (rs : List (StaleGuideline T A))
      → All P rs
      → All P (limited limit rs)
  All-limited P none rs h = h
  All-limited P (some zero) rs h = tt
  All-limited P (some (suc n)) [] h = tt
  All-limited P (some (suc n)) (r ∷ rs) h = (h.0, All-limited P (some n) rs h.1)

  -- Every entry of the report is of one of the kinds, has at most the hits and at least the age asked
  -- for.
  pub find_stale_guidelines-IsStale :
      (max_hits : ℕ) (min_age : A) (kinds : List String) (limit : Option ℕ) (store : Dict (Entry T))
      → All
          (IsStale max_hits min_age kinds)
          (find_stale_guidelines max_hits min_age kinds limit store)
  unfolding find_stale_guidelines
  find_stale_guidelines-IsStale max_hits min_age kinds limit store =
      let picked = filter (is_stale max_hits min_age kinds) (iterate store) in
      All-limited (IsStale max_hits min_age kinds) limit (map stale_guideline (sort_stale picked)) (
        All-reported (IsStale max_hits min_age kinds) (sort_stale picked) (
          All-sort_stale (λ e. IsStale max_hits min_age kinds (stale_guideline e)) picked
            (All-map (λ e. is_stale max_hits min_age kinds e ≡ true)
              (λ e. IsStale max_hits min_age kinds (stale_guideline e))
              (λ e h. (ground (arith, h), ground (arith, h), ground (arith, h))) picked
              (All-filter (is_stale max_hits min_age kinds) (iterate store)))))
