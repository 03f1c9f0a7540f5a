-- ===== src/Supervisor/Engine/Bounded.antt =====
-- The rules and the ledger together: how many corrective actions a run of observations can cause.
use cyber_foreman.Prelude.{ℕ, ◌+◌, ◌≤◌, ◌≡◌, refl, List, [], ◌∷◌, arith, ◌∙◌}
use cyber_foreman.Supervisor.Types.{
  Observation, Snapshot, Action, Decision, Within, nudge, cancel_and_follow_up, retry_session,
  repair, is_action,
}
use cyber_foreman.Supervisor.Ledger.{apply_decision}
use cyber_foreman.Supervisor.Ledger.Laws.{after}
use cyber_foreman.Supervisor.Ledger.Once.{reservations, run, times_reserved, run-Within}
use cyber_foreman.Supervisor.Engine.{evaluate}
use cyber_foreman.Supervisor.Engine.Laws.{cost_of, AtMostOne, evaluate-AtMostOne}

-- One round: the decisions of the rules go through the ledger.
unfoldable pub supervise : Snapshot → Observation → Snapshot
supervise s o = run s (evaluate s o)

unfoldable pub supervise_all : Snapshot → List Observation → Snapshot
supervise_all s [] = s
supervise_all s (o ∷ os) = supervise_all (supervise s o) os

-- How often an action is reserved, and so handed on to be performed, over the observations.
unfoldable pub times_taken : Action → Snapshot → List Observation → ℕ
times_taken a s [] = 0
times_taken a s (o ∷ os) =
    times_reserved (λ d. is_action d.action a) s (evaluate s o) + times_taken a (supervise s o) os

-- The three budgets that the rules draw on, as counts of the actions.
record Charged (s t : Snapshot) (taken : Action → ℕ) : Type 0 where
  nudges : t.budget.nudges ≡ taken nudge + s.budget.nudges
  retries : t.budget.retries ≡ taken retry_session + taken cancel_and_follow_up + s.budget.retries
  repairs : t.budget.test_repairs ≡ taken repair + s.budget.test_repairs

apply_decision-Charged :
    (s : Snapshot) (d : Decision)
    → d.budget_cost ≡ cost_of d.action
    → Charged s
        (after s (apply_decision s d))
        (λ a. reservations (λ e. is_action e.action a) d (apply_decision s d))
unfolding apply_decision
apply_decision-Charged s d e = ground arith

run-Charged :
    (s : Snapshot) (o : Observation) (ds : List Decision)
    → AtMostOne s o ds
    → Charged s (run s ds) (λ a. times_reserved (λ d. is_action d.action a) s ds)
unfolding run times_reserved
run-Charged s o [] a = omega arith
run-Charged s o (d ∷ []) a = omega (arith, apply_decision-Charged s d a.cost)
run-Charged s o (d ∷ e ∷ ds) a = absurd a

supervise_all-Charged :
    (s : Snapshot) (os : List Observation)
    → Charged s (supervise_all s os) (λ a. times_taken a s os)
unfolding supervise_all times_taken supervise
supervise_all-Charged s [] = omega arith
supervise_all-Charged s (o ∷ os) = omega (
  arith,
  run-Charged s o (evaluate s o) (evaluate-AtMostOne s o),
  supervise_all-Charged (supervise s o) os,
)

pub supervise-Within :
    (s : Snapshot) (o : Observation)
    → Within s.budget s.policy
    → Within (supervise s o).budget (supervise s o).policy
unfolding supervise
supervise-Within s o w = (run-Within s (evaluate s o) w).0

pub supervise_all-Within :
    (s : Snapshot) (os : List Observation)
    → Within s.budget s.policy
    → Within (supervise_all s os).budget (supervise_all s os).policy
      × ((supervise_all s os).policy ≡ s.policy)
unfolding supervise_all supervise
supervise_all-Within s [] w = (w, refl)
supervise_all-Within s (o ∷ os) w =
    let (v, e) = run-Within s (evaluate s o) w in
    let (u, f) = supervise_all-Within (supervise s o) os v in (u, f ∙ e)

-- From a budget within its policy, over any observations, the rules nudge at most `MaxNudges` times,
-- retry the session or cancel the turn at most `MaxRetries` times in all, and ask for a repair at
-- most `MaxTestRepairs` times; what the budget had used before counts.
pub corrections_bounded :
    (s : Snapshot) (os : List Observation)
    → Within s.budget s.policy
    → (times_taken nudge s os + s.budget.nudges ≤ s.policy.max_nudges)
      × (times_taken retry_session s os + times_taken cancel_and_follow_up s os + s.budget.retries
          ≤ s.policy.max_retries)
      × (times_taken repair s os + s.budget.test_repairs ≤ s.policy.max_test_repairs)
corrections_bounded s os w =
    let c = supervise_all-Charged s os in
    let (v, e) = supervise_all-Within s os w in
    ground (arith, c.nudges, c.retries, c.repairs, v.nudges, v.retries, v.test_repairs, e)
