-- ===== src/Actions/Outcome.antt =====
-- `apply_safe_memory_actions` of src/fabri/orchestrator/action_execution.py from its call to its end.
use fabri.Prelude.{
  String, true, false, ◌==◌, some, List, [], ◌∷◌, map, ok, err, ok≢err, Result-cases, ◌⊎◌, length,
  is_nodup, Dict, lookup, insert, lookup-insert, ◌≡◌, refl, sym, subst, ◌∙◌, ap, All, All-map,
  All-zip, subst₂, arith, eq_iff, Bool-cases, inl, inr,
}
use fabri.Value.{Fields}
use fabri.Actions.Defs.{ActionError, PlannedChange, role_paths}
use fabri.Actions.Apply.{Disk, AppliedAction, applied, plan, write_all, apply_actions}
use fabri.Actions.Sound.{IsSound}
use fabri.Actions.Effects.{Keeps, paths_of, plan-IsSound, write_all-restores}

config_paths : (cs : List PlannedChange) → map (λ a. a.config_path) (map applied cs) ≡ paths_of cs
config_paths [] = refl
config_paths (c ∷ cs) = ap (λ r. c.path ∷ r) (config_paths cs)

All-applied :
    (P : AppliedAction → Type 0) (cs : List PlannedChange)
    → All (λ c. P (applied c)) cs
    → All P (map applied cs)
All-applied P [] h = tt
All-applied P (c ∷ cs) h = (h.0, All-applied P cs h.1)

module _ (disk : Disk) where
  -- The file of the change has the changed config.
  abbrev pub IsWritten : Dict String → PlannedChange → Type 0
  IsWritten now c = lookup c.path now ≡ some (disk.dump c.config)

  write_all-Keeps :
      (rest written : List PlannedChange) (now now' : Dict String) (u : Unit {0})
      → write_all disk rest written now ≡ (ok u, now')
      → Keeps disk now (paths_of rest) now'
  unfolding write_all
  write_all-Keeps [] written now now' u h =
      let e : now ≡ now' = cc in λ p out. ap (lookup p) (sym e)
  write_all-Keeps (c ∷ rest) written now now' u h =
      elim (Bool-cases (disk.fails (length written))) [
        | inl failed ↦ absurd (ground arith)
        | inr fine ↦ λ p out.
            write_all-Keeps rest (c ∷ written) (insert c.path (disk.dump c.config) now) now' u
              (rw fine at h) p (ground arith)
            ∙ lookup-insert c.path p (disk.dump c.config) now
            ∙ (let other : (c.path == p) ≡ false = ground arith in rw other refl)
      ]

  write_all-IsWritten :
      (rest written : List PlannedChange) (now now' : Dict String) (u : Unit {0})
      → is_nodup (paths_of rest) ≡ true
      → write_all disk rest written now ≡ (ok u, now')
      → All (IsWritten now') rest
  unfolding write_all
  write_all-IsWritten [] written now now' u d h = tt
  write_all-IsWritten (c ∷ rest) written now now' u d h =
      elim (Bool-cases (disk.fails (length written))) [
        | inl failed ↦ absurd (ground arith)
        | inr fine ↦
            let later =
              write_all disk rest (c ∷ written) (insert c.path (disk.dump c.config) now) in
            let next : later ≡ (ok u, now') = rw fine at h in
            (
              write_all-Keeps rest (c ∷ written) (insert c.path (disk.dump c.config) now) now' u
                    next c.path (ground arith)
                  ∙ lookup-insert c.path c.path (disk.dump c.config) now
                  ∙ (let same : (c.path == c.path) ≡ true = ground (arith, eq_iff c.path c.path) in
                      rw same refl),
              write_all-IsWritten rest (c ∷ written) (insert c.path (disk.dump c.config) now) now' u
                  (ground arith) next,
            )
      ]

  module _ (rs entries : List Fields) (files : Dict String) where
    apply_unplanned :
        (e : ActionError)
        → plan disk files rs entries ≡ err e
        → apply_actions disk rs entries files ≡ (err e, files)
    unfolding apply_actions
    apply_unplanned e h = rw (h, apply_actions) refl

    apply_written :
        (cs : List PlannedChange) (u : Unit {0}) (now : Dict String)
        → plan disk files rs entries ≡ ok cs
        → write_all disk cs [] files ≡ (ok u, now)
        → apply_actions disk rs entries files ≡ (ok (map applied cs), now)
    unfolding apply_actions
    apply_written cs u now h w = rw (h, apply_actions) (rw w refl)

    apply_failed :
        (cs : List PlannedChange) (e : ActionError) (now : Dict String)
        → plan disk files rs entries ≡ ok cs
        → write_all disk cs [] files ≡ (err e, now)
        → apply_actions disk rs entries files ≡ (err e, now)
    unfolding apply_actions
    apply_failed cs e now h w = rw (h, apply_actions) (rw w refl)

    -- The three ways in which a run ends.
    apply_cases :
        ((e : ActionError) × (plan disk files rs entries ≡ err e))
        ⊎ ((cs : List PlannedChange) × (now : Dict String) × (plan disk files rs entries ≡ ok cs)
            × (((u : Unit {0}) × (write_all disk cs [] files ≡ (ok u, now)))
                ⊎ ((e : ActionError) × (write_all disk cs [] files ≡ (err e, now)))))
    apply_cases = elim (Result-cases (plan disk files rs entries)) [
      | inr (x, bad) ↦ inl (x, bad)
      | inl (cs, planned) ↦
          let w = write_all disk cs [] files in
          inr (
            cs,
            w.1,
            planned,
            elim (Result-cases w.0) [
              | inl (u, fine) ↦ inl (u, ap (λ r. (r, w.1)) fine)
              | inr (x, bad) ↦ inr (x, ap (λ r. (r, w.1)) bad)
            ],
          )
    ]

    -- If the restoring writes work, a run that raises leaves every file as it was: either nothing was
    -- written, or all that was written is restored.
    pub apply_actions-Keeps :
        (e : ActionError) (now : Dict String)
        → ((p t : String) → disk.restored p t ≡ t)
        → apply_actions disk rs entries files ≡ (err e, now)
        → Keeps disk files [] now
    apply_actions-Keeps e now works h = elim apply_cases [
      | inl (x, bad) ↦
          let same : files ≡ now = ap (λ r. r.1) (sym (apply_unplanned x bad) ∙ h) in
          λ p out. ap (lookup p) (sym same)
      | inr (cs, end, planned, inl (u, fine)) ↦
          absurd (ok≢err _ (ap (λ r. r.0) (apply_written cs u end planned fine)) (ap (λ r. r.0) h))
      | inr (cs, end, planned, inr (x, bad)) ↦
          let (paths, known, sound) = plan-IsSound disk files rs entries cs planned in
          let was =
            All-map (IsSound disk.load rs paths files)
              (λ c. lookup c.path files ≡ some c.original_text) (λ c s. s.read) cs sound in
          let same : end ≡ now = ap (λ r. r.1) (sym (apply_failed cs x end planned bad) ∙ h) in
          subst (Keeps disk files []) same
            (write_all-restores disk files works cs [] files end x was tt (λ p out. refl) bad)
    ]

    -- What stands behind an action that a run reports.
    abbrev pub Recovery : Dict String → AppliedAction → Type 0
    Recovery paths a = (c : PlannedChange) × (applied c ≡ a) × IsSound disk.load rs paths files c

    -- A run that returns reports only sound changes. Each is of a role that an entry names, in the file
    -- of that entry, whose YAML has the failing cap and gets the new one and no other change, where
    -- the new cap is larger, at most twice the old one, and at most 32768. One of the resolutions asks
    -- for it: its policy allows one attempt of an idempotent action, the role is in its scope, and the
    -- failing and the new cap are the configured cap and the retry cap of its signature. The run
    -- leaves every other file as it was.
    pub apply_actions-Recovery :
        (r : List AppliedAction) (now : Dict String)
        → apply_actions disk rs entries files ≡ (ok r, now)
        → (paths : Dict String) × (role_paths entries ≡ ok paths)
          × All (Recovery paths) r
          × Keeps disk files (map (λ a. a.config_path) r) now
    apply_actions-Recovery r now h = elim apply_cases [
      | inl (x, bad) ↦ absurd (ok≢err _ (ap (λ r. r.0) h) (ap (λ r. r.0) (apply_unplanned x bad)))
      | inr (cs, end, planned, inr (x, bad)) ↦
          absurd (ok≢err _ (ap (λ r. r.0) h) (ap (λ r. r.0) (apply_failed cs x end planned bad)))
      | inr (cs, end, planned, inl (u, fine)) ↦
          let (paths, known, sound) = plan-IsSound disk files rs entries cs planned in
          let ends = sym (apply_written cs u end planned fine) ∙ h in
          let same : map applied cs ≡ r = cc in
          let last : end ≡ now = cc in
          (
            paths,
            known,
            subst (All (Recovery paths)) same (
                All-applied (Recovery paths) cs (
                  All-map (IsSound disk.load rs paths files) (λ c. Recovery paths (applied c))
                    (λ c s. (c, refl, s)) cs sound)),
            subst₂ (Keeps disk files) (ap (map (λ a. a.config_path)) same) last
                (rw (config_paths cs) (write_all-Keeps cs [] files end u fine)),
          )
    ]

    -- If no two of the reported actions share a file, each of these files holds the YAML of the
    -- changed config when the run has returned.
    pub apply_actions-IsWritten :
        (r : List AppliedAction) (now : Dict String)
        → is_nodup (map (λ a. a.config_path) r) ≡ true
        → apply_actions disk rs entries files ≡ (ok r, now)
        → (paths : Dict String) × (role_paths entries ≡ ok paths)
          × All
              (λ a.
                (c : PlannedChange) × (applied c ≡ a)
                × IsSound disk.load rs paths files c
                × IsWritten now c)
              r
    apply_actions-IsWritten r now apart h = elim apply_cases [
      | inl (x, bad) ↦ absurd (ok≢err _ (ap (λ r. r.0) h) (ap (λ r. r.0) (apply_unplanned x bad)))
      | inr (cs, end, planned, inr (x, bad)) ↦
          absurd (ok≢err _ (ap (λ r. r.0) h) (ap (λ r. r.0) (apply_failed cs x end planned bad)))
      | inr (cs, end, planned, inl (u, fine)) ↦
          let (paths, known, sound) = plan-IsSound disk files rs entries cs planned in
          let ends = sym (apply_written cs u end planned fine) ∙ h in
          let same : map applied cs ≡ r = cc in
          let last : end ≡ now = cc in
          let distinct : is_nodup (paths_of cs) ≡ true =
            ap is_nodup (sym (config_paths cs))
            ∙ ap (λ x. is_nodup (map (λ a. a.config_path) x)) same
            ∙ apart in
          let written = write_all-IsWritten cs [] files end u distinct fine in
          (
            paths,
            known,
            subst₂
                (λ x n.
                  All
                    (λ a.
                      (c : PlannedChange) × (applied c ≡ a)
                      × IsSound disk.load rs paths files c
                      × IsWritten n c)
                    x)
                same last
                (All-applied
                  (λ a.
                    (c : PlannedChange) × (applied c ≡ a)
                    × IsSound disk.load rs paths files c
                    × IsWritten end c)
                  cs
                  (All-zip (IsSound disk.load rs paths files) (IsWritten end)
                    (λ c.
                      (d : PlannedChange) × (applied d ≡ applied c)
                      × IsSound disk.load rs paths files d
                      × IsWritten end d)
                    (λ c s w. (c, refl, s, w)) cs sound written)),
          )
    ]
