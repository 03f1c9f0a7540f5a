-- ===== src/Supervisor/Types.antt =====
-- internal/supervisor/types.go: observations, policies, budgets, snapshots and decisions. Limits and
-- counters are natural numbers (the HTTP layer refuses negative limits), and so are durations, in
-- nanoseconds, where the code treats every duration that is not positive as switched off.
use cyber_foreman.Prelude.{ℕ, String, Bool, List, Map, ◌==◌, ◌≤◌}
use cyber_foreman.Domain.{TaskStatus, ℤ}

pub data ObservationType : Type 0 where
  agent_progress agent_turn_finished agent_disconnected agent_exited : ObservationType
  timer_idle timer_hard_timeout : ObservationType
  test_finished git_finished verification_ready : ObservationType

pub record VerificationData : Type 0 where
  pub verifier : String
  pub passed : Bool
  pub security_violation : Bool
  pub summary : String

-- What the `Data any` of an observation holds.
pub data ObservationData : Type 0 where
  nil : ObservationData
  exit : ℤ → ObservationData
  verification : VerificationData → ObservationData
  fields : List (String × String) → ObservationData

pub record Observation : Type 0 where
  pub id : String
  pub task_id : String
  pub session_id : String
  pub type : ObservationType
  pub timestamp : ℕ
  pub payload : ObservationData

pub record Policy : Type 0 where
  pub idle_timeout : ℕ
  pub hard_timeout : ℕ
  pub waiting_timeout : ℕ
  pub max_nudges : ℕ
  pub max_retries : ℕ
  pub max_test_repairs : ℕ
  pub max_semantic_redirects : ℕ
  pub max_semantic_escalations : ℕ

abbrev pub second : ℕ
second = 1_000_000_000

unfoldable pub default_policy : Policy
default_policy = record {
  idle_timeout = 90_000_000_000;
  hard_timeout = 1_800_000_000_000;
  waiting_timeout = 7_200_000_000_000;
  max_nudges = 2;
  max_retries = 2;
  max_test_repairs = 2;
  max_semantic_redirects = 1;
  max_semantic_escalations = 1;
}

-- `Budget` and `BudgetCost` have the same fields.
pub record Budget : Type 0 where
  pub nudges : ℕ
  pub retries : ℕ
  pub test_repairs : ℕ
  pub semantic_redirects : ℕ
  pub semantic_escalations : ℕ

abbrev pub no_cost : Budget
no_cost = record {
  nudges = 0;
  retries = 0;
  test_repairs = 0;
  semantic_redirects = 0;
  semantic_escalations = 0;
}

pub record VerificationState : Type 0 where
  pub test_finished : Bool
  pub test_passed : Bool
  pub git_finished : Bool
  pub git_passed : Bool

pub record Snapshot : Type 0 where
  pub task_id : String
  pub status : TaskStatus
  pub started_at : ℕ
  pub last_progress_at : ℕ
  pub idle_sequence : ℕ
  pub policy : Policy
  pub budget : Budget
  pub verification : VerificationState
  pub applied_decisions : Map Bool

pub data Action : Type 0 where
  none_action nudge cancel_and_follow_up retry_session repair semantic_redirect : Action
  start_verification complete attention_required stop : Action

abbrev pub action_code : Action → ℕ
action_code none_action = 0
action_code nudge = 1
action_code cancel_and_follow_up = 2
action_code retry_session = 3
action_code repair = 4
action_code semantic_redirect = 5
action_code start_verification = 6
action_code complete = 7
action_code attention_required = 8
action_code stop = 9

-- Go's `==` on actions.
abbrev pub is_action : Action → Action → Bool
is_action a b = action_code a == action_code b

pub record Decision : Type 0 where
  pub rule_id : String
  pub action : Action
  pub reason : String
  pub evidence : List String
  pub dedupe_key : String
  pub budget_cost : Budget

-- What a budget has used does not pass what the policy allows.
pub record Within (b : Budget) (p : Policy) : Type 0 where
  pub nudges : b.nudges ≤ p.max_nudges
  pub retries : b.retries ≤ p.max_retries
  pub test_repairs : b.test_repairs ≤ p.max_test_repairs
  pub semantic_redirects : b.semantic_redirects ≤ p.max_semantic_redirects
  pub semantic_escalations : b.semantic_escalations ≤ p.max_semantic_escalations
