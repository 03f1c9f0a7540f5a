-- ===== src/Supervisor/Engine.antt =====
-- internal/supervisor/engine.go: the rules. `Evaluate` returns no decision or one.
pub mod Laws
pub mod Bounded
pub mod Idle
use cyber_foreman.Prelude.{
  String, append, str_eq, not, ◌&&◌, ◌||◌, List, [], ◌∷◌, if◌then◌else◌, ltb, leb,
}
use cyber_foreman.Domain.{is_terminal, is_zero_ℤ}
use cyber_foreman.Supervisor.Types.{
  ObservationType, ObservationData, Observation, Budget, Snapshot, Action, Decision, no_cost,
  agent_progress, agent_turn_finished, agent_disconnected, agent_exited, timer_idle,
  timer_hard_timeout, test_finished, git_finished, verification_ready, exit, verification, nudge,
  cancel_and_follow_up, retry_session, repair, start_verification, complete, attention_required,
}

-- The helper `decision`: the evidence is the observation, and the key joins it to the rule.
unfoldable pub decision : Observation → String → Action → String → Budget → Decision
decision o rule_id action reason cost = record {
  rule_id = rule_id;
  action = action;
  reason = reason;
  evidence = o.id ∷ [];
  dedupe_key = append o.id (append ":" rule_id);
  budget_cost = cost;
}

abbrev one : Decision → List Decision
one d = d ∷ []

-- `case ObservationGitFinished`; data of another type is ignored.
on_git : Observation → ObservationData → List Decision
on_git o (verification result) =
    if not result.passed
    then one (
        decision o "git-verification-failed" attention_required
          (append "workspace verification failed: " result.summary) no_cost)
    else []
on_git o _ = []

-- `case ObservationTestFinished`.
on_test : Snapshot → Observation → ObservationData → List Decision
on_test s o (verification result) =
    if result.passed
    then []
    else if leb s.policy.max_test_repairs s.budget.test_repairs
    then one (
        decision o "test-repair-budget-exhausted" attention_required "test repair budget exhausted"
          no_cost)
    else one (
        decision o "test-failed" repair (append "configured tests failed: " result.summary)
          (record no_cost { test_repairs = 1 }))
on_test s o _ = []

-- What the cases of a lost agent share once an exit with code 0 is put aside.
on_lost : Snapshot → Observation → List Decision
on_lost s o =
    if leb s.policy.max_retries s.budget.retries
    then one (
        decision o "retry-budget-exhausted" attention_required "agent retry budget exhausted"
          no_cost)
    else one (
        decision o "agent-disconnected" retry_session "agent session ended unexpectedly"
          (record no_cost { retries = 1 }))

on_exit : Snapshot → Observation → ObservationData → List Decision
unfolding on_lost
on_exit s o (exit code) = if is_zero_ℤ code then [] else on_lost s o
on_exit s o _ = []

-- `case ObservationTimerIdle`: nudge, then recover, then ask the operator.
on_idle : Snapshot → Observation → List Decision
on_idle s o =
    if ltb s.budget.nudges s.policy.max_nudges
    then one (
        decision o "idle-nudge" nudge "agent made no meaningful progress before the idle deadline"
          (record no_cost { nudges = 1 }))
    else if ltb s.budget.retries s.policy.max_retries
    then one (
        decision o "idle-recovery" cancel_and_follow_up
          "agent remained idle after nudge budget was exhausted" (record no_cost { retries = 1 }))
    else one (
        decision o "idle-budget-exhausted" attention_required "idle recovery budget exhausted"
          no_cost)

-- `case ObservationVerificationReady`.
on_ready : Snapshot → Observation → List Decision
on_ready s o =
    if v.test_finished && (v.test_passed && (v.git_finished && v.git_passed))
    then one (decision o "verification-passed" complete "all required verifiers passed" no_cost)
    else []
  where
    open s use {verification as v}

-- The `switch` on the type of the observation.
dispatch : Snapshot → Observation → ObservationType → List Decision
unfolding on_git on_test on_lost on_exit on_idle on_ready decision
dispatch s o git_finished = on_git o o.payload
dispatch s o timer_hard_timeout =
    one (decision o "hard-timeout" attention_required "task exceeded its hard timeout" no_cost)
dispatch s o test_finished = on_test s o o.payload
dispatch s o agent_disconnected = on_lost s o
dispatch s o agent_exited = on_exit s o o.payload
dispatch s o timer_idle = on_idle s o
dispatch s o agent_turn_finished = one (
    decision o "turn-finished" start_verification
      "agent turn finished; deterministic verification is required" no_cost)
dispatch s o verification_ready = on_ready s o
dispatch s o agent_progress = []

-- `Engine.Evaluate`.
unfoldable pub evaluate : Snapshot → Observation → List Decision
unfolding dispatch is_terminal
evaluate s o =
    if is_terminal s.status || (not (str_eq o.task_id s.task_id) || str_eq o.id "")
    then []
    else dispatch s o o.type
