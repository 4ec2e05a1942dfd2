-- ===== src/Agent/Repaired.antt =====
-- How the repair loop of src/fabri/core/agent.py ends.
use fabri.Prelude.{
  ℕ, zero, suc, ◌+◌, ◌≤◌, String, true, false, ◌&&◌, Option, none, some, ◌≡◌, refl, sym, ap, eq_iff,
  ltb, arith, Bool-cases, inl, inr,
}
use fabri.Agent.Defs.{Reply, Env}
use fabri.Agent.Plan.{Config, Attempted, finished, protocol_raised, key_raised}
use fabri.Agent.Attempt.{RunResult, run_single_attempt}
use fabri.Agent.Complete.{Finishes}
use fabri.Agent.Result.{IsResult, IsAttempt, run_single_attempt-IsAttempt}
use fabri.Agent.Repair.{
  Verdict, Repair, Reason, verified, spent, no_progress, unverified, is_signature, verdict,
  Repaired, stop, last_verdict, repair_loop, run_with_repair, run_agent, stops,
}

module _ {W F : Type 0} (env : Env W F) (max_cost : Option F) (repair : Repair W) where
  -- What a check of a result finds, in the world that its attempt leaves.
  abbrev pub checked : RunResult env max_cost → Verdict × W
  checked r = verdict env max_cost repair r r.world

  -- The results of the attempts, by their number, with the signature of the errors before the last
  -- one: each further attempt is made where the check of the one before failed, on its errors.
  pub data Reached (config : Config) (planner : String → W → Reply × W) (task : String) (world : W)
      : ℕ → Option String → RunResult env max_cost → Type 0 where
    first :
        (r : RunResult env max_cost)
        → run_single_attempt env max_cost config planner task world ≡ finished r
        → Reached config planner task world 0 none r
    further :
        (n : ℕ) (prev : Option String) (r r' : RunResult env max_cost)
        → Reached config planner task world n prev r
        → (checked r).0.ok ≡ false
        → run_single_attempt env max_cost config planner
            (repair.prompt (checked r).0.output)
            (checked r).1
          ≡ finished r'
        → Reached config planner task world
            (suc n)
            (some (repair.signature (checked r).0.output))
            r'

  -- What a reason to stop says of the last result, and of the world that is left.
  abbrev pub HasReason : Reason → ℕ → Option String → RunResult env max_cost → W → Type 0
  HasReason verified n prev r w = ((checked r).0.ok ≡ true) × (w ≡ (checked r).1)
  HasReason spent n prev r w =
      (n ≡ repair.max_attempts) × ((checked r).0.ok ≡ false) × (w ≡ (checked r).1)
  HasReason no_progress n prev r w =
      (prev ≡ some (repair.signature (checked r).0.output))
      × ((checked r).0.ok ≡ false)
      × (w ≡ (checked r).1)
  HasReason unverified n prev r w = (repair.max_attempts ≡ 0) × (w ≡ r.world)

  module _ (config : Config) (planner : String → W → Reply × W) (task : String) (world : W) where
    pub record IsRepaired (p : Repaired env max_cost repair) : Type 0 where
      pub is_result : IsResult env max_cost config.max_steps p.result
      pub within : p.attempt ≤ repair.max_attempts
      pub last_signature : Option String
      pub reached : Reached config planner task world p.attempt last_signature p.result
      pub has_reason : HasReason p.reason p.attempt last_signature p.result p.world

    abbrev pub EndsRepaired : Attempted env max_cost (Repaired env max_cost repair) → Type 0
    EndsRepaired (finished p) = IsRepaired p
    EndsRepaired protocol_raised = Unit
    EndsRepaired key_raised = ⊥

    last_verdict-EndsRepaired :
        (r : RunResult env max_cost) (attempt : ℕ) (prev : Option String)
        → IsResult env max_cost config.max_steps r
        → Reached config planner task world attempt prev r
        → attempt ≡ repair.max_attempts
        → EndsRepaired (last_verdict env max_cost repair r attempt r.world)
    unfolding last_verdict
    last_verdict-EndsRepaired r attempt prev h t a = elim (Bool-cases (ltb 0 repair.max_attempts)) [
      | inr e ↦ rw e (record {
        is_result = h;
        within = omega (arith, a);
        last_signature = prev;
        reached = t;
        has_reason = (ground (arith, e), refl);
      })
      | inl e ↦ elim (Bool-cases (checked r).0.ok) [
        | inl v ↦
            rw (e, v)
              (record {
                is_result = h;
                within = omega (arith, a);
                last_signature = prev;
                reached = t;
                has_reason = (v, refl);
              })
        | inr v ↦
            rw (e, v)
              (record {
                is_result = h;
                within = omega (arith, a);
                last_signature = prev;
                reached = t;
                has_reason = (a, v, refl);
              })
      ]
    ]

  is_signature-some :
      (s : String) (prev : Option String) → is_signature s prev ≡ true → prev ≡ some s
  is_signature-some s none h = absurd (cc)
  is_signature-some s (some t) h = ap some (sym ((eq_iff s t).0 h))

  -- What a reason to stop says of a verdict.
  Stopped : Verdict → Option String → Option Reason → Type 0
  Stopped v prev (some verified) = v.ok ≡ true
  Stopped v prev (some no_progress) = (v.ok ≡ false) × (prev ≡ some (repair.signature v.output))
  Stopped v prev (some spent) = ⊥
  Stopped v prev (some unverified) = ⊥
  Stopped v prev none = v.ok ≡ false

  stops-Stopped :
      (v : Verdict) (prev : Option String) → Stopped v prev (stops env max_cost repair v prev)
  unfolding Stopped stops
  stops-Stopped v prev = elim (Bool-cases v.ok) [
    | inl h ↦ rw h refl
    | inr h ↦
        elim (Bool-cases
          (repair.stop_on_no_progress && is_signature (repair.signature v.output) prev)) [
            | inl t ↦
                rw (h, t)
                  (refl, is_signature-some (repair.signature v.output) prev (ground (arith, t)))
            | inr t ↦ rw (h, t) refl
          ]
  ]

  module _ (fin : Finishes env) (config : Config) (planner : String → W → Reply × W) (task : String)
      (world : W) where
    stop-EndsRepaired :
        (reason : Reason) (prev : Option String) (attempt : ℕ) (r : RunResult env max_cost)
        → IsResult env max_cost config.max_steps r
        → Reached config planner task world attempt prev r
        → attempt ≤ repair.max_attempts
        → Stopped (checked r).0 prev (some reason)
        → EndsRepaired config planner task world
            (stop env max_cost repair reason r attempt (checked r).1)
    unfolding Stopped
    stop-EndsRepaired verified prev attempt r h m w t = record {
      is_result = h;
      within = w;
      last_signature = prev;
      reached = m;
      has_reason = (t, refl);
    }
    stop-EndsRepaired no_progress prev attempt r h m w t = record {
      is_result = h;
      within = w;
      last_signature = prev;
      reached = m;
      has_reason = (t.1, t.0, refl);
    }
    stop-EndsRepaired spent prev attempt r h m w t = absurd t
    stop-EndsRepaired unverified prev attempt r h m w t = absurd t

    repair_loop-EndsRepaired :
        (left : ℕ) (prev : Option String) (attempt : ℕ) (r : RunResult env max_cost)
        → IsResult env max_cost config.max_steps r
        → Reached config planner task world attempt prev r
        → attempt + left ≡ repair.max_attempts
        → EndsRepaired config planner task world
            (repair_loop env max_cost repair config planner left prev attempt r r.world)
    unfolding repair_loop Stopped
    repair_loop-EndsRepaired zero prev attempt r h m a =
        last_verdict-EndsRepaired config planner task world r attempt prev h m (omega (arith, a))
    repair_loop-EndsRepaired (suc left) prev attempt r h m a =
        stopped (stops env max_cost repair (checked r).0 prev) (stops-Stopped (checked r).0 prev)
          (λ failed.
            rerun
              (run_single_attempt env max_cost config planner (repair.prompt (checked r).0.output)
                (checked r).1)
              (run_single_attempt-IsAttempt env max_cost fin config planner
                (repair.prompt (checked r).0.output) (checked r).1)
              (λ r' h' e.
                repair_loop-EndsRepaired left (some (repair.signature (checked r).0.output))
                  (suc attempt) r' h' (further attempt prev r r' m failed e) (omega (arith, a))))
      where
        Ends : Attempted env max_cost (Repaired env max_cost repair) → Type 0
        Ends x = EndsRepaired config planner task world x

        next :
            Attempted env max_cost (RunResult env max_cost)
            → Attempted env max_cost (Repaired env max_cost repair)
        next x = elim x [
          | finished r' ↦
              repair_loop env max_cost repair config planner left
                (some (repair.signature (checked r).0.output)) (suc attempt) r' r'.world
          | protocol_raised ↦ protocol_raised
          | key_raised ↦ key_raised
        ]

        rerun :
            (x : Attempted env max_cost (RunResult env max_cost))
            → IsAttempt env max_cost config.max_steps x
            → ((r' : RunResult env max_cost)
                → IsResult env max_cost config.max_steps r'
                → x ≡ finished r'
                → Ends (next (finished r')))
            → Ends (next x)
        rerun (finished r') k later = later r' k refl
        rerun protocol_raised k later = tt
        rerun key_raised k later = k

        stopped :
            (o : Option Reason)
            → Stopped (checked r).0 prev o
            → ((checked r).0.ok ≡ false
                → Ends (
                    next (
                      run_single_attempt env max_cost config planner
                        (repair.prompt (checked r).0.output)
                        (checked r).1)))
            → Ends (elim o [
              | some reason ↦ stop env max_cost repair reason r attempt (checked r).1
              | none ↦ next (
                  run_single_attempt env max_cost config planner
                    (repair.prompt (checked r).0.output)
                    (checked r).1)
            ])
        stopped (some reason) t later =
            stop-EndsRepaired reason prev attempt r h m (omega (arith, a)) t
        stopped none t later = later t

    -- Whatever the model, the tools and the verifier do, a run with repair ends, by a protocol error or
    -- with the result of its last attempt, after at most `max_attempts` further attempts. Each of
    -- these begins in the world, and with the errors, that the failed check of the attempt before it
    -- left. If the run stops as verified, then the check of its result, in the world that the attempt
    -- left, passed. Otherwise no attempt was allowed, or that check failed, with all attempts made or
    -- with the signature of the errors before the last attempt.
    pub run_agent-EndsRepaired :
        EndsRepaired config planner task world
          (run_agent env max_cost repair config planner task world)
    unfolding run_agent run_with_repair
    run_agent-EndsRepaired =
        after (run_single_attempt env max_cost config planner task world)
          (run_single_attempt-IsAttempt env max_cost fin config planner task world)
          (λ r e. first r e)
      where
        after :
            (x : Attempted env max_cost (RunResult env max_cost))
            → IsAttempt env max_cost config.max_steps x
            → ((r : RunResult env max_cost)
                → x ≡ finished r
                → Reached config planner task world 0 none r)
            → EndsRepaired config planner task world (elim x [
              | finished r ↦ run_with_repair env max_cost repair config planner r
              | protocol_raised ↦ protocol_raised
              | key_raised ↦ key_raised
            ])
        after (finished r) h m =
            repair_loop-EndsRepaired repair.max_attempts none 0 r h (m r refl) (omega arith)
        after protocol_raised h m = tt
        after key_raised h m = h
