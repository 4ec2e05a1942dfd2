-- ===== src/Memory/Counted.antt =====
-- The report of `scan_orgs` of src/fabri/memory/global_promotion.py.
use fabri.Prelude.{
  ℕ, suc, ◌+◌, String, Bool, not, ◌&&◌, ◌++◌, length, length-append, subst, ◌∙◌, List, [], ◌∷◌,
  filter, Dict, ◌≡◌, arith, Bool-cases, inl, inr,
}
use fabri.Memory.Entry.{Entry}
use fabri.Memory.Ingest.{Env}
use fabri.Memory.Promotion.{Collections, sibling, iterate}
use fabri.Memory.Scan.{
  ScanReport, Cleaner, hash_of, is_other, is_unclean, scan_entry, scan_entries, scan_names,
  org_names, scan_orgs,
}

module _ {T : Type 0} (env : Env T) (cleaner : Cleaner) (min_orgs : ℕ) where
  -- The lessons of all the organizations' collections.
  abbrev pub lessons_of : Collections T → List String → List (Entry T)
  lessons_of w [] = []
  lessons_of w (name ∷ names) = iterate (sibling name w) ++ lessons_of w names

  abbrev pub lessons : Collections T → List (Entry T)
  lessons w = lessons_of w (org_names env cleaner min_orgs w)

  abbrev pub is_clean : Entry T → Bool
  is_clean e = not (is_other env cleaner min_orgs e) && not (is_unclean env cleaner min_orgs e)

  abbrev pub is_leaky : Entry T → Bool
  is_leaky e = not (is_other env cleaner min_orgs e) && is_unclean env cleaner min_orgs e

  -- A report has counted some more collections and lessons than one before it, each lesson by what
  -- it is.
  record Counts (orgs : ℕ) (es : List (Entry T)) (r r' : ScanReport) : Type 0 where
    orgs_more : r'.orgs_scanned ≡ r.orgs_scanned + orgs
    seen_more : r'.lessons_seen ≡ r.lessons_seen + length es
    clean_more : r'.ingested ≡ r.ingested + length (filter is_clean es)
    leaky_more : r'.skipped_unclean ≡ r.skipped_unclean + length (filter is_leaky es)
    other_more :
        r'.skipped_other ≡ r.skipped_other + length (filter (is_other env cleaner min_orgs) es)

  length-filter-append :
      (p : Entry T → Bool) (xs ys : List (Entry T))
      → length (filter p (xs ++ ys)) ≡ length (filter p xs) + length (filter p ys)
  length-filter-append p [] ys = omega arith
  length-filter-append p (x ∷ xs) ys = ground (arith, length-filter-append p xs ys)

  Counts-append :
      (m n : ℕ) (xs ys : List (Entry T)) (a b c : ScanReport)
      → Counts m xs a b
      → Counts n ys b c
      → Counts (m + n) (xs ++ ys) a c
  Counts-append m n xs ys a b c h k = record {
    orgs_more = omega (arith, h.orgs_more, k.orgs_more);
    seen_more = omega (arith, h.seen_more, k.seen_more, length-append xs ys);
    clean_more = omega (arith, h.clean_more, k.clean_more, length-filter-append is_clean xs ys);
    leaky_more = omega (arith, h.leaky_more, k.leaky_more, length-filter-append is_leaky xs ys);
    other_more = omega (
      arith,
      h.other_more,
      k.other_more,
      length-filter-append (is_other env cleaner min_orgs) xs ys,
    );
  }

  scan_entry-Counts :
      (org : String) (e : Entry T) (s : ScanReport × Dict (Entry T))
      → Counts 0 (e ∷ []) s.0 (scan_entry env cleaner min_orgs org e s).0
  unfolding scan_entry
  scan_entry-Counts org e (r, store) = elim (Bool-cases (is_other env cleaner min_orgs e)) [
    | inl aside ↦ rw aside (record {
      orgs_more = omega arith;
      seen_more = omega arith;
      clean_more = rw aside (omega arith);
      leaky_more = rw aside (omega arith);
      other_more = rw aside (omega arith);
    })
    | inr kept ↦ elim (Bool-cases (is_unclean env cleaner min_orgs e)) [
      | inl unclean ↦
          rw (kept, unclean)
            (record {
              orgs_more = omega arith;
              seen_more = omega arith;
              clean_more = rw (kept, unclean) (omega arith);
              leaky_more = rw (kept, unclean) (omega arith);
              other_more = rw kept (omega arith);
            })
      | inr clean ↦
          rw (kept, clean)
            (record {
              orgs_more = omega arith;
              seen_more = omega arith;
              clean_more = rw (kept, clean) (omega arith);
              leaky_more = rw (kept, clean) (omega arith);
              other_more = rw kept (omega arith);
            })
    ]
  ]

  Counts-none : (r : ScanReport) → Counts 0 [] r r
  Counts-none r = record {
    orgs_more = omega arith;
    seen_more = omega arith;
    clean_more = omega arith;
    leaky_more = omega arith;
    other_more = omega arith;
  }

  scan_entries-Counts :
      (org : String) (es : List (Entry T)) (s : ScanReport × Dict (Entry T))
      → Counts 0 es s.0 (scan_entries env cleaner min_orgs org es s).0
  unfolding scan_entries
  scan_entries-Counts org [] s = Counts-none s.0
  scan_entries-Counts org (e ∷ es) s =
      Counts-append 0 0 (e ∷ []) es s.0 (scan_entry env cleaner min_orgs org e s).0
        (scan_entries env cleaner min_orgs org es (scan_entry env cleaner min_orgs org e s)).0
        (scan_entry-Counts org e s)
        (scan_entries-Counts org es (scan_entry env cleaner min_orgs org e s))

  next_org : (r : ScanReport) → Counts 1 [] r (record r { orgs_scanned = r.orgs_scanned + 1 })
  next_org r = record {
    orgs_more = omega arith;
    seen_more = omega arith;
    clean_more = omega arith;
    leaky_more = omega arith;
    other_more = omega arith;
  }

  scan_names-Counts :
      (w : Collections T) (names : List String) (s : ScanReport × Dict (Entry T))
      → Counts (length names) (lessons_of w names) s.0 (scan_names env cleaner min_orgs w names s).0
  unfolding scan_names
  scan_names-Counts w [] s = Counts-none s.0
  scan_names-Counts w (name ∷ names) (r, store) =
      let here = iterate (sibling name w) in
      let begun : ScanReport × Dict (Entry T) =
        (record r { orgs_scanned = r.orgs_scanned + 1 }, store) in
      let after = scan_entries env cleaner min_orgs (hash_of name) here begun in
      let more : 1 + length names ≡ suc (length names) = omega arith in
      subst
        (λ n.
          Counts n (here ++ lessons_of w names) r (scan_names env cleaner min_orgs w names after).0)
        more
        (Counts-append 1 (length names) here (lessons_of w names) r after.0
          (scan_names env cleaner min_orgs w names after).0
          (Counts-append 1 0 [] here r begun.0 after.0 (next_org r)
            (scan_entries-Counts (hash_of name) here begun))
          (scan_names-Counts w names after))

  -- What a report counts: the organizations' collections, all their lessons, and of these the clean
  -- ones, the unclean ones, and those set aside.
  pub record IsCounted (w : Collections T) (r : ScanReport) : Type 0 where
    pub orgs : r.orgs_scanned ≡ length (org_names env cleaner min_orgs w)
    pub seen : r.lessons_seen ≡ length (lessons w)
    pub clean : r.ingested ≡ length (filter is_clean (lessons w))
    pub unclean : r.skipped_unclean ≡ length (filter is_leaky (lessons w))
    pub others : r.skipped_other ≡ length (filter (is_other env cleaner min_orgs) (lessons w))
    pub total : r.lessons_seen ≡ r.ingested + (r.skipped_unclean + r.skipped_other)

  length-filters-three :
      (es : List (Entry T))
      → length es
        ≡ length (filter is_clean es)
          + (length (filter is_leaky es) + length (filter (is_other env cleaner min_orgs) es))
  length-filters-three [] = omega arith
  length-filters-three (e ∷ es) = ground (arith, length-filters-three es)

  -- The report of a scan counts the organizations' collections and all the lessons in them, each
  -- lesson exactly once: as set aside by its kind, its tier, its verification or its owner, or else
  -- as unclean or as ingested by the tests of its cleaned text.
  pub scan_orgs-IsCounted : (w : Collections T) → IsCounted w (scan_orgs env cleaner min_orgs w).0
  unfolding scan_orgs
  scan_orgs-IsCounted w =
      let h = scan_names-Counts w (org_names env cleaner min_orgs w) _ in
      let whole = length-filters-three (lessons w) in
      record {
        orgs = h.orgs_more ∙ omega arith;
        seen = h.seen_more ∙ omega arith;
        clean = h.clean_more ∙ omega arith;
        unclean = h.leaky_more ∙ omega arith;
        others = h.other_more ∙ omega arith;
        total = omega (arith, h.seen_more, h.clean_more, h.leaky_more, h.other_more, whole);
      }
