-- ===== src/Actions/Effects.antt =====
-- What `apply_safe_memory_actions` of src/fabri/orchestrator/action_execution.py leaves on the disk.
use fabri.Prelude.{
  String, false, ◌==◌, some, List, [], ◌∷◌, map, ok, err, >>=-eq-ok, length, elem, Dict, lookup,
  insert, lookup-insert, ◌≡◌, sym, subst, ◌∙◌, ap, All, arith, eq_iff, Bool-cases, Option-cases,
  inl, inr,
}
use fabri.Value.{Fields}
use fabri.Actions.Defs.{ActionError, PlannedChange, role_paths}
use fabri.Actions.Apply.{Disk, plan_all, merge_change, merge_changes, plan, restore, write_all}
use fabri.Actions.Sound.{IsSound, plan_all-IsSound}

module _ (P : PlannedChange → Type 0) where
  All-insert :
      (k : String) (c : PlannedChange) (d : Dict PlannedChange)
      → P c
      → All (λ p. P p.1) d
      → All (λ p. P p.1) (insert k c d)
  All-insert k c [] here rest = (here, tt)
  All-insert k c ((j, e) ∷ d) here rest = elim (Bool-cases (j == k)) [
    | inl same ↦ rw same (here, rest.1)
    | inr apart ↦ rw apart (rest.0, All-insert k c d here rest.1)
  ]

  All-merge_change :
      (c : PlannedChange) (d out : Dict PlannedChange)
      → P c
      → All (λ p. P p.1) d
      → merge_change c d ≡ ok out
      → All (λ p. P p.1) out
  unfolding merge_change
  All-merge_change c d out here rest h = elim (Option-cases (lookup c.role d)) [
    | inl new ↦
        let e : insert c.role c d ≡ out = ground arith in
        subst (λ d. All (λ p. P p.1) d) e (All-insert c.role c d here rest)
    | inr (old, there) ↦ let e : d ≡ out = ground arith in subst (λ d. All (λ p. P p.1) d) e rest
  ]

  All-merge_changes :
      (cs : List PlannedChange) (d out : Dict PlannedChange)
      → All P cs
      → All (λ p. P p.1) d
      → merge_changes cs d ≡ ok out
      → All (λ p. P p.1) out
  unfolding merge_changes
  All-merge_changes [] d out good rest h =
      let e : d ≡ out = cc in subst (λ d. All (λ p. P p.1) d) e rest
  All-merge_changes (c ∷ cs) d out good rest h =
      let (mid, here, there) = >>=-eq-ok (merge_change c d) _ h in
      All-merge_changes cs mid out good.1 (All-merge_change c d mid good.0 rest here) there

  All-values : (d : Dict PlannedChange) → All (λ p. P p.1) d → All P (map (λ p. p.1) d)
  All-values [] h = tt
  All-values (p ∷ d) h = (h.0, All-values d h.1)

-- Every planned change is sound for the paths of the roles.
pub plan-IsSound :
    (disk : Disk) (files : Dict String) (rs entries : List Fields) (cs : List PlannedChange)
    → plan disk files rs entries ≡ ok cs
    → (paths : Dict String) × (role_paths entries ≡ ok paths)
      × All (IsSound disk.load rs paths files) cs
unfolding plan
plan-IsSound disk files rs entries cs h =
    let (paths, a, rest) = >>=-eq-ok (role_paths entries) _ h in
    let (raw, b, rest2) = >>=-eq-ok (plan_all disk.load files paths rs) _ rest in
    let (d, c, same) = >>=-eq-ok (merge_changes raw []) _ rest2 in
    let e : map (λ p. p.1) d ≡ cs = cc in
    (
      paths,
      a,
      subst (All (IsSound disk.load rs paths files)) e (
          All-values (IsSound disk.load rs paths files) d (
            All-merge_changes (IsSound disk.load rs paths files) raw [] d
              (plan_all-IsSound disk.load paths files rs raw b) tt c)),
    )

abbrev pub paths_of : List PlannedChange → List String
paths_of cs = map (λ c. c.path) cs

-- The change was read from the files.
abbrev WasRead : Dict String → PlannedChange → Type 0
WasRead files c = lookup c.path files ≡ some c.original_text

module _ (disk : Disk) (files : Dict String) where
  -- Outside these paths nothing has changed.
  abbrev pub Keeps : List String → Dict String → Type 0
  Keeps touched now = (p : String) → elem p touched ≡ false → lookup p now ≡ lookup p files

  Keeps-restore :
      ((p t : String) → disk.restored p t ≡ t)
      → (written : List PlannedChange) (now : Dict String) → All (WasRead files) written
      → Keeps (paths_of written) now
      → Keeps [] (restore disk written now)
  unfolding restore
  Keeps-restore works [] now was keeps = keeps
  Keeps-restore works (c ∷ written) now was keeps =
      Keeps-restore works written (insert c.path (disk.restored c.path c.original_text) now) was.1
        (λ p out.
          rw (works c.path c.original_text, lookup-insert c.path p c.original_text now)
            (elim (Bool-cases (c.path == p)) [
              | inl same ↦ rw same (sym was.0 ∙ ap (λ q. lookup q files) ((eq_iff c.path p).0 same))
              | inr apart ↦ rw apart (keeps p (ground arith))
            ]))

  pub write_all-restores :
      ((p t : String) → disk.restored p t ≡ t)
      → (rest written : List PlannedChange) (now now' : Dict String) (e : ActionError)
      → All (WasRead files) rest
      → All (WasRead files) written
      → Keeps (paths_of written) now
      → write_all disk rest written now ≡ (err e, now')
      → Keeps [] now'
  unfolding write_all
  write_all-restores works [] written now now' e r w keeps h = absurd (ground arith)
  write_all-restores works (c ∷ rest) written now now' e r w keeps h =
      elim (Bool-cases (disk.fails (length written))) [
        | inl failed ↦
            let same : restore disk written now ≡ now' = ground arith in
            subst (Keeps []) same (Keeps-restore works written now w keeps)
        | inr fine ↦
            write_all-restores works rest (c ∷ written) (insert c.path (disk.dump c.config) now)
              now' e r.1 (r.0, w)
              (λ p out.
                rw (lookup-insert c.path p (disk.dump c.config) now) (ground (arith, keeps p)))
              (rw fine at h)
      ]
