-- ===== src/Tests/Supervision.antt =====
-- internal/supervisor and internal/task at concrete inputs.
use cyber_foreman.Prelude.{
  lookup, insert, ℕ, String, ◌≡◌, ◌≢◌, ◌≤◌, ◌+◌, refl, true, false, ◌⊎◌, List, [], ◌∷◌, ◌++◌, none,
  some, arith, str_ne_of_eq, Option,
}
use cyber_foreman.Domain.{running, queued, completed, verifying, is_terminal}
use cyber_foreman.Task.{can_transition}
use cyber_foreman.Task.Graph.{Reach, here, next}
use cyber_foreman.Supervisor.Types.{
  Snapshot, Observation, ObservationType, Decision, Within, no_cost, timer_idle, verification_ready,
  nil, nudge, retry_session, cancel_and_follow_up, repair, complete,
}
use cyber_foreman.Supervisor.Ledger.{apply_decision, is_applied, refused, budget_exceeded}
use cyber_foreman.Supervisor.Ledger.Once.{run, times_reserved}
use cyber_foreman.Supervisor.Engine.{evaluate, decision}
use cyber_foreman.Supervisor.Engine.Laws.{evaluate_payable, complete-IsVerified, IsVerified}
use cyber_foreman.Supervisor.Engine.Bounded.{times_taken, corrections_bounded, supervise}
use cyber_foreman.Supervisor.Engine.Idle.{idle_ladder, decisions, ladder, AllFreshIdle}
use cyber_foreman.Supervisor.Executor.{
  ExecutionResult, ExecuteError, execute, no_result, decided_event, started_event, finished_event,
}
use cyber_foreman.Supervisor.Executor.Laws.{
  Entry, published, performed, recorder, recording, execute_trace, execute_once,
}

abbrev fresh : Snapshot
fresh = record {
  task_id = "task-1";
  status = running;
  started_at = 10;
  last_progress_at = 10;
  idle_sequence = 0;
  policy = record {
    idle_timeout = 90;
    hard_timeout = 1800;
    waiting_timeout = 7200;
    max_nudges = 1;
    max_retries = 1;
    max_test_repairs = 1;
    max_semantic_redirects = 1;
    max_semantic_escalations = 1;
  };
  budget = no_cost;
  verification = record {
    test_finished = true;
    test_passed = true;
    git_finished = true;
    git_passed = true;
  };
  applied_decisions = [];
}

abbrev seen : String → ObservationType → Observation
seen id type = record {
  id = id;
  task_id = "task-1";
  session_id = "s";
  type = type;
  timestamp = 20;
  payload = nil;
}

fresh-Within : Within fresh.budget fresh.policy
fresh-Within = omega arith

abbrev first : Decision
first =
    decision (seen "o1" timer_idle) "idle-nudge" nudge
      "agent made no meaningful progress before the idle deadline" (record no_cost { nudges = 1 })

idle_nudges : evaluate fresh (seen "o1" timer_idle) ≡ first ∷ []
unfolding evaluate
idle_nudges = refl

ready_completes :
    (d : Decision) × (evaluate fresh (seen "o1" verification_ready) ≡ d ∷ [])
    × (d.action ≡ complete)
unfolding evaluate
ready_completes = (_, refl, refl)

evaluate_payable_example : apply_decision fresh first ≢ refused budget_exceeded
evaluate_payable_example =
    evaluate_payable fresh (seen "o1" timer_idle) {d = first} {ds = []} fresh-Within idle_nudges

complete-IsVerified_example :
    ((seen "o1" verification_ready).type ≡ verification_ready) × IsVerified fresh
complete-IsVerified_example =
    complete-IsVerified fresh (seen "o1" verification_ready) {d = ready_completes.0} {ds = []}
      ready_completes.1 ready_completes.2

abbrev idles : List Observation
idles = seen "o1" timer_idle ∷ seen "o2" timer_idle ∷ []

corrections_bounded_example :
    (times_taken nudge fresh idles + 0 ≤ 1)
    × (times_taken retry_session fresh idles + times_taken cancel_and_follow_up fresh idles + 0 ≤ 1)
    × (times_taken repair fresh idles + 0 ≤ 1)
corrections_bounded_example = corrections_bounded fresh idles fresh-Within

idle_taken : times_taken nudge fresh idles ≡ 1
unfolding times_taken supervise times_reserved run evaluate apply_decision lookup insert
idle_taken = refl

abbrev three_idles : List Observation
three_idles = seen "o1" timer_idle ∷ seen "o2" timer_idle ∷ seen "o3" timer_idle ∷ []

three_idles-fresh : AllFreshIdle fresh three_idles
unfolding is_applied supervise run evaluate apply_decision lookup insert
three_idles-fresh = (
  record {
    idle = refl;
    same_task = refl;
    has_id = str_ne_of_eq "o1" "" refl;
    nudge_free = refl;
    recovery_free = refl;
  },
  (
    record {
      idle = refl;
      same_task = refl;
      has_id = str_ne_of_eq "o2" "" refl;
      nudge_free = refl;
      recovery_free = refl;
    },
    (
      record {
        idle = refl;
        same_task = refl;
        has_id = str_ne_of_eq "o3" "" refl;
        nudge_free = refl;
        recovery_free = refl;
      },
      tt,
    ),
  ),
)

running_open : is_terminal running ≡ false
unfolding is_terminal
running_open = refl

idle_ladder_example : decisions fresh three_idles ≡ ladder 1 1 three_idles
idle_ladder_example = idle_ladder fresh three_idles fresh-Within running_open three_idles-fresh

verified_path : Reach queued completed
unfolding can_transition
verified_path = next {t = verifying} (next {t = running} (next {t = queued} here refl) refl) refl

abbrev clock_of : List Entry → ℕ
clock_of log = 7

-- The world of a failing performer.
abbrev outcome : (Snapshot × ExecutionResult × Option ExecuteError) × List Entry
outcome =
    execute (recorder clock_of) fresh first (some (recording (λ a. true) (λ d. some "lost"))) []

outcome_applied : outcome.0.1.applied ≡ true
unfolding execute apply_decision lookup insert decision
outcome_applied = refl

execute_once_example :
    execute
      (recorder clock_of)
      outcome.0.0
      first
      (some (recording (λ a. true) (λ d. some "lost")))
      outcome.1
    ≡ ((outcome.0.0, record no_result { duplicate = true }, none), outcome.1)
execute_once_example =
    execute_once (recorder clock_of) fresh first (some (recording (λ a. true) (λ d. some "lost")))
      [] outcome_applied

unsupported :
    (execute
      (recorder clock_of)
      fresh
      first
      (some (recording (λ a. false) (λ d. none)))
      []).0.1.applied
    ≡ false
unfolding execute
unsupported = refl

execute_trace_example :
    ((outcome.0.1.applied ≡ false) × (outcome.1 ≡ []))
    ⊎ ((n : ℕ) × (m : ℕ) × (outcome.0.1.applied ≡ true)
        × (outcome.1
            ≡ []
              ++ (published (decided_event fresh first n)
                  ∷ published (started_event fresh first n)
                  ∷ performed first
                  ∷ published (finished_event fresh first m (some "lost"))
                  ∷ [])))
execute_trace_example = execute_trace clock_of (λ a. true) (λ d. some "lost") fresh first []
