-- ===== src/Agent/Repair.antt =====
-- src/fabri/core/agent.py: `_verdict_from_result`, `_run_with_repair` and `run_agent`, which verify a
-- run and run the agent again on what the verifier says.
use fabri.Prelude.{
  ℕ, zero, suc, String, Bool, true, false, ◌==◌, ◌&&◌, Option, none, some, if◌then◌else◌,
  str_append, ltb,
}
use fabri.Agent.Defs.{
  Outcome, success, success_with_recovery, incomplete, incomplete_with_tool_failure,
  budget_exceeded, failed, invalid_output, all_tools_failed, Reply, Env,
}
use fabri.Agent.Plan.{Config, Attempted, finished, protocol_raised, key_raised}
use fabri.Agent.Attempt.{RunResult, run_single_attempt}

-- `outcome.value`.
unfoldable pub outcome_value : Outcome → String
outcome_value success = "success"
outcome_value success_with_recovery = "success_with_recovery"
outcome_value incomplete = "incomplete"
outcome_value incomplete_with_tool_failure = "incomplete_with_tool_failure"
outcome_value budget_exceeded = "budget_exceeded"
outcome_value failed = "failed"
outcome_value invalid_output = "invalid_output"
outcome_value all_tools_failed = "all_tools_failed"

pub record Verdict : Type 0 where
  pub ok : Bool
  pub output : String

-- The `repair` block. `verify` is `_run_verifier` on its command, a program that acts on the world;
-- `signature` is `_error_signature`, a digest, and `prompt` the template's `format`.
pub record Repair (W : Type 0) : Type 0 where
  pub verify : Option (W → Verdict × W)
  pub max_attempts : ℕ
  pub stop_on_no_progress : Bool
  pub signature : String → String
  pub prompt : String → String

-- Why the loop stopped: the check passed, it failed after the last attempt, the errors stayed the
-- same, or no attempt was allowed.
pub data Reason : Type 0 where
  verified spent no_progress unverified : Reason

-- `signature == prev_signature`.
abbrev pub is_signature : String → Option String → Bool
is_signature s none = false
is_signature s (some t) = s == t

module _ {W F : Type 0} (env : Env W F) (max_cost : Option F) where
  unfoldable pub verdict_from_result : RunResult env max_cost → Verdict
  unfolding outcome_value str_append
  verdict_from_result r = if r.is_success then record { ok = true; output = "" } else record {
    ok = false;
    output = str_append "previous run outcome: " (outcome_value r.outcome);
  }

  module _ (repair : Repair W) where
    -- `_verdict`.
    unfoldable pub verdict : RunResult env max_cost → W → Verdict × W
    unfolding verdict_from_result
    verdict r world = elim repair.verify [
      | none ↦ (verdict_from_result r, world)
      | some verify ↦ verify world
    ]

    pub record Repaired : Type 0 where
      pub result : RunResult env max_cost
      pub attempt : ℕ
      pub reason : Reason
      pub world : W

    abbrev pub stop : Reason → RunResult env max_cost → ℕ → W → Attempted env max_cost Repaired
    stop reason r attempt world =
        finished (record { result = r; attempt = attempt; reason = reason; world = world })

    -- The last check, where an attempt was allowed.
    unfoldable pub last_verdict : RunResult env max_cost → ℕ → W → Attempted env max_cost Repaired
    unfolding verdict
    last_verdict r attempt world =
        if ltb 0 repair.max_attempts
        then (let (v, later) = verdict r world in
            stop (if v.ok then verified else spent) r attempt later)
        else stop unverified r attempt world

    -- The two tests before another attempt.
    unfoldable pub stops : Verdict → Option String → Option Reason
    stops v prev =
        if v.ok
        then some verified
        else if repair.stop_on_no_progress && is_signature (repair.signature v.output) prev
        then some no_progress
        else none

    module _ (config : Config) (planner : String → W → Reply × W) where
      -- The attempts that are left.
      unfoldable pub repair_loop :
          ℕ → Option String → ℕ → RunResult env max_cost → W → Attempted env max_cost Repaired
      unfolding last_verdict stops run_single_attempt
      repair_loop zero prev attempt r world = last_verdict r attempt world
      repair_loop (suc left) prev attempt r world =
          let (v, later) = verdict r world in
          elim (stops v prev) [
            | some reason ↦ stop reason r attempt later
            | none ↦
                elim (run_single_attempt env max_cost config planner (repair.prompt v.output)
                  later) [
                    | finished r' ↦
                        repair_loop left (some (repair.signature v.output)) (suc attempt) r'
                          r'.world
                    | protocol_raised ↦ protocol_raised
                    | key_raised ↦ key_raised
                  ]
          ]

      -- `_run_with_repair`.
      unfoldable pub run_with_repair : RunResult env max_cost → Attempted env max_cost Repaired
      unfolding repair_loop
      run_with_repair first = repair_loop repair.max_attempts none 0 first first.world

      -- `run_agent`, with repair.
      unfoldable pub run_agent : String → W → Attempted env max_cost Repaired
      unfolding run_with_repair run_single_attempt
      run_agent task world = elim (run_single_attempt env max_cost config planner task world) [
        | finished first ↦ run_with_repair first
        | protocol_raised ↦ protocol_raised
        | key_raised ↦ key_raised
      ]
