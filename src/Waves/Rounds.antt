-- ===== src/Waves/Rounds.antt =====
-- A turn of `while ready` keeps the invariant, and the loop ends before its fuel does.
use fabri.Prelude.{
  ℕ, zero, suc, ◌+◌, ◌≤◌, ◌<◌, String, true, false, not, ◌&&◌, List, [], ◌∷◌, ◌++◌, ◌≡◌, sym, ap,
  ◌∙◌, Dict, eqb, ltb, length, elem, elem-append, count, is_nodup, arith, filter, All, All-of_elem,
  elem-filter, is_nodup-filter, is_nodup-append, filter-congr, length-filter_split, Bool-cases, inl,
  inr,
}
use fabri.Waves.Defs.{
  Wave, wave_of, Layering, indeg_at, children_at, finish_all, round, is_done, rounds,
}
use fabri.Waves.Release.{
  unmet, unmet_anti, unmet-congr, unmet-zero, or_any, indeg_at-finish_all, elem-finish_all,
}
use fabri.Waves.Layers.{wave_ids, wave_ids-snoc, IsLayered-snoc, waiting, is_next, IsLayering}

module _ (prefix : String) (order : List String) (deps : String → List String)
    (children : Dict (List String)) (distinct : is_nodup order ≡ true)
    (noted : (d c : String) → count c (children_at d children) ≡ count d (deps c)) where
  -- The ids placed before a turn, and after it.
  abbrev before : Layering → List String
  before s = wave_ids s.waves

  abbrev after : Layering → List String
  after s = wave_ids s.waves ++ s.ready

  module _ (s : Layering) (v : IsLayering order deps children s) where
    elem-ready :
        (c : String) → elem c s.ready ≡ (is_next order deps children (before s) c && elem c order)
    elem-ready c = rw v.ready (elem-filter (is_next order deps children (before s)) c order)

    elem-after : (c : String) → elem c (after s) ≡ or_any s.ready (λ d. elem d (before s)) c
    elem-after c = ground (arith, elem-append c (before s) s.ready)

    unmet-after :
        (c : String)
        → unmet (or_any s.ready (λ d. elem d (before s))) (deps c)
          ≡ unmet (λ d. elem d (after s)) (deps c)
    unmet-after c =
        unmet-congr (or_any s.ready (λ d. elem d (before s))) (λ d. elem d (after s)) (deps c)
          (λ d. sym (elem-after d))

    nodup-ready : is_nodup s.ready ≡ true
    nodup-ready =
        rw v.ready (is_nodup-filter (is_next order deps children (before s)) order distinct)

    new-ready : (c : String) → elem c s.ready ≡ true → elem c (before s) ≡ false
    new-ready c h = ground (arith, elem-ready c)

    counts-after :
        (c : String)
        → indeg_at c (finish_all children s.ready (s.indeg, [])).0
          ≡ unmet (λ d. elem d (after s)) (deps c)
    counts-after c =
        indeg_at-finish_all children deps noted s.ready (λ d. elem d (before s)) s.indeg [] v.counts
          nodup-ready new-ready c
        ∙ unmet-after c

    elem-freed :
        (c : String)
        → elem c (finish_all children s.ready (s.indeg, [])).1 ≡ (
            ltb 0 (unmet (λ d. elem d (before s)) (deps c))
            && eqb (unmet (λ d. elem d (after s)) (deps c)) 0)
    elem-freed c = rw (← unmet-after c) (
        elem-finish_all children deps noted s.ready (λ d. elem d (before s)) s.indeg [] v.counts
          nodup-ready new-ready c)

    unmet-after_le :
        (c : String)
        → unmet (λ d. elem d (after s)) (deps c) ≤ unmet (λ d. elem d (before s)) (deps c)
    unmet-after_le c =
        rw (← unmet-after c) (unmet_anti (λ d. elem d s.ready) (λ d. elem d (before s)) (deps c))

    met-after : (c : String) → elem c (after s) ≡ true → unmet (λ d. elem d (after s)) (deps c) ≡ 0
    met-after c h = ground (arith, elem-after c, elem-ready c, v.met c, unmet-after_le c)

    ready-after :
        filter (λ i. elem i (finish_all children s.ready (s.indeg, [])).1) order
        ≡ filter (is_next order deps children (after s)) order
    ready-after =
        filter-congr (λ i. elem i (finish_all children s.ready (s.indeg, [])).1)
          (is_next order deps children (after s)) order
          λ c m. ground (arith, elem-freed c, elem-after c, elem-ready c, v.met c, unmet-after_le c)

    nodup-after : is_nodup (after s) ≡ true
    nodup-after =
        is_nodup-append (before s) s.ready v.nodup nodup-ready (λ c m. ground (arith, elem-ready c))

    declared-after : (c : String) → elem c (after s) ≡ true → elem c order ≡ true
    declared-after c h = ground (arith, elem-after c, elem-ready c, v.declared c)

    waiting-after :
        length (waiting order deps children (before s))
        ≡ length (waiting order deps children (after s)) + length s.ready
    waiting-after =
        length-filter_split (λ i. not (elem i (before s))) (λ i. not (elem i (after s)))
          (is_next order deps children (before s)) order
          (λ c m. (
            ground (arith, elem-after c, elem-ready c),
            ground (arith, elem-after c, elem-ready c),
          ))
        ∙ ap (λ (n : ℕ). length (waiting order deps children (after s)) + n)
            (sym (ap length v.ready))

    deps-met :
        (c : String) → elem c s.ready ≡ true → All (λ d. elem d ([] ++ before s) ≡ true) (deps c)
    deps-met c h =
        All-of_elem (λ d. elem d (before s) ≡ true) (deps c)
          (λ d m. unmet-zero (λ x. elem x (before s)) d (deps c) (ground (arith, elem-ready c)) m)

    round-IsLayering : IsLayering order deps children (round prefix order children s)
    unfolding round
    round-IsLayering = record {
      counts = λ c. rw ids (counts-after c);
      ready = rw ids ready-after;
      met = λ c. rw ids (met-after c);
      declared = λ c. rw ids (declared-after c);
      nodup = rw ids nodup-after;
      placed = rw ids (omega (arith, v.placed, waiting-after));
      layered =
          IsLayered-snoc deps [] s.waves w v.layered (
            All-of_elem (λ i. All (λ d. elem d ([] ++ before s) ≡ true) (deps i)) s.ready deps-met);
    }
      where
        w : Wave
        w = wave_of prefix (length s.waves + 1) s.ready

        ids : wave_ids (s.waves ++ w ∷ []) ≡ after s
        ids = wave_ids-snoc s.waves w

    -- A turn places at least one id.
    round_shrinks :
        is_done s.ready ≡ false
        → length (waiting order deps children (before (round prefix order children s)))
          < length (waiting order deps children (before s))
    unfolding round
    round_shrinks h =
        rw (wave_ids-snoc s.waves (wave_of prefix (length s.waves + 1) s.ready))
          (omega (arith, waiting-after, some_ready s.ready h))
      where
        some_ready : (is : List String) → is_done is ≡ false → 0 < length is
        some_ready [] e = absurd (cc)
        some_ready (i ∷ is) e = omega arith

  -- With more fuel than ids that wait, the loop ends by its test and keeps the invariant.
  pub rounds-IsLayering :
      (fuel : ℕ) (s : Layering)
      → length (waiting order deps children (before s)) < fuel
      → IsLayering order deps children s
      → IsLayering order deps children (rounds fuel prefix order children s)
        × (is_done (rounds fuel prefix order children s).ready ≡ true)
  unfolding rounds
  rounds-IsLayering zero s h v = absurd (omega arith)
  rounds-IsLayering (suc fuel) s h v = elim (Bool-cases (is_done s.ready)) [
    | inl done ↦ rw (done, rounds) (v, done)
    | inr more ↦
        rw (more, rounds)
          (rounds-IsLayering fuel (round prefix order children s)
            (omega (arith, round_shrinks s v more)) (round-IsLayering s v))
  ]
