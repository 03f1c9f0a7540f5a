-- ===== src/Supervisor/Engine/Laws.antt =====
-- What the rules of internal/supervisor/engine.go decide, whatever is observed.
use cyber_foreman.Prelude.{
  append, str_eq, eq_iff, ◌≡◌, ◌≢◌, not, leb, ◌||◌, ◌⊎◌, inl, inr, refl, true, false, List, [], ◌∷◌,
  arith, Bool-cases, subst,
}
use cyber_foreman.Domain.{is_terminal, is_zero_ℤ}
use cyber_foreman.Supervisor.Types.{
  ObservationType, ObservationData, Observation, Budget, Snapshot, Action, Decision, Within,
  no_cost, agent_progress, agent_disconnected, agent_exited, test_finished, verification_ready,
  exit, verification, nil, fields, nudge, cancel_and_follow_up, retry_session, repair, complete,
}
use cyber_foreman.Supervisor.Engine.{decision, on_test, on_lost, on_exit, dispatch, evaluate}
use cyber_foreman.Supervisor.Ledger.{apply_decision, budget_exceeded, refused, exceeds}

-- What an action of the rules costs: a unit of the budget that it draws on.
abbrev pub cost_of : Action → Budget
cost_of nudge = record no_cost { nudges = 1 }
cost_of cancel_and_follow_up = record no_cost { retries = 1 }
cost_of retry_session = record no_cost { retries = 1 }
cost_of repair = record no_cost { test_repairs = 1 }
cost_of _ = no_cost

-- All four verification flags of the snapshot are up.
abbrev pub IsVerified : Snapshot → Type 0
IsVerified s =
    (s.verification.test_finished ≡ true)
    × (s.verification.test_passed ≡ true)
    × (s.verification.git_finished ≡ true)
    × (s.verification.git_passed ≡ true)

-- A decision that answers the observation: its evidence, its key, its price, which the budget can
-- pay, and for a completion the verification flags.
pub record Answers (s : Snapshot) (o : Observation) (d : Decision) : Type 0 where
  pub evidence : d.evidence ≡ o.id ∷ []
  pub key : d.dedupe_key ≡ append o.id (append ":" d.rule_id)
  pub cost : d.budget_cost ≡ cost_of d.action
  pub payable : Within s.budget s.policy → exceeds s.budget d.budget_cost s.policy ≡ false
  pub verified : d.action ≡ complete → (o.type ≡ verification_ready) × IsVerified s

-- At most one decision, and it answers.
abbrev pub AtMostOne : Snapshot → Observation → List Decision → Type 0
AtMostOne s o [] = Unit
AtMostOne s o (d ∷ []) = Answers s o d
AtMostOne s o (d ∷ e ∷ ds) = ⊥

on_lost-AtMostOne :
    (s : Snapshot) (o : Observation) → o.type ≢ verification_ready → AtMostOne s o (on_lost s o)
unfolding on_lost decision exceeds
on_lost-AtMostOne s o n = ground arith

on_exit-AtMostOne :
    (s : Snapshot) (o : Observation) (p : ObservationData)
    → o.type ≢ verification_ready
    → AtMostOne s o (on_exit s o p)
unfolding on_exit
on_exit-AtMostOne s o nil n = tt
on_exit-AtMostOne s o (verification v) n = tt
on_exit-AtMostOne s o (fields m) n = tt
on_exit-AtMostOne s o (exit code) n = elim (Bool-cases (is_zero_ℤ code)) [
  | inl e ↦ rw e tt
  | inr e ↦ rw e (on_lost-AtMostOne s o n)
]

on_test-AtMostOne :
    (s : Snapshot) (o : Observation) (p : ObservationData)
    → o.type ≢ verification_ready
    → AtMostOne s o (on_test s o p)
unfolding on_test decision exceeds
on_test-AtMostOne s o nil n = tt
on_test-AtMostOne s o (exit code) n = tt
on_test-AtMostOne s o (fields m) n = tt
on_test-AtMostOne s o (verification v) n = elim (Bool-cases v.passed) [
  | inl e ↦ rw e tt
  | inr e ↦ rw e (elim (Bool-cases (leb s.policy.max_test_repairs s.budget.test_repairs)) [
    | inl b ↦ rw b (ground arith)
    | inr b ↦ rw b (ground arith)
  ])
]

dispatch-AtMostOne :
    (s : Snapshot) (o : Observation) (t : ObservationType)
    → o.type ≡ t
    → AtMostOne s o (dispatch s o t)
unfolding dispatch exceeds
dispatch-AtMostOne s o agent_progress e = tt
dispatch-AtMostOne s o agent_exited e = on_exit-AtMostOne s o o.payload (λ q. cc)
dispatch-AtMostOne s o test_finished e = on_test-AtMostOne s o o.payload (λ q. cc)
dispatch-AtMostOne s o agent_disconnected e = on_lost-AtMostOne s o (λ q. cc)
dispatch-AtMostOne s o t e = ground arith

pub evaluate-AtMostOne : (s : Snapshot) (o : Observation) → AtMostOne s o (evaluate s o)
unfolding evaluate
evaluate-AtMostOne s o =
    elim (Bool-cases
      (is_terminal s.status || (not (str_eq o.task_id s.task_id) || str_eq o.id ""))) [
        | inl e ↦ rw e tt
        | inr e ↦ rw e (dispatch-AtMostOne s o o.type refl)
      ]

-- What the rules return is a single decision. It cites the observation as its evidence, has the key
-- made of the observation and the rule, and costs one unit of the budget that its action draws on.
pub evaluate_cites :
    (s : Snapshot) (o : Observation) {d : Decision} {ds : List Decision}
    → evaluate s o ≡ d ∷ ds
    → (ds ≡ [])
      × (d.evidence ≡ o.id ∷ [])
      × (d.dedupe_key ≡ append o.id (append ":" d.rule_id))
      × (d.budget_cost ≡ cost_of d.action)
evaluate_cites s o {d} {ds} h = single ds (subst (AtMostOne s o) h (evaluate-AtMostOne s o))
  where
    single :
        (ds : List Decision)
        → AtMostOne s o (d ∷ ds)
        → (ds ≡ [])
          × (d.evidence ≡ o.id ∷ [])
          × (d.dedupe_key ≡ append o.id (append ":" d.rule_id))
          × (d.budget_cost ≡ cost_of d.action)
    single [] a = (refl, a.evidence, a.key, a.cost)
    single (e ∷ es) a = absurd a

answered :
    (s : Snapshot) (o : Observation) (d : Decision) (ds : List Decision)
    → AtMostOne s o (d ∷ ds)
    → Answers s o d
answered s o d [] a = a
answered s o d (e ∷ es) a = absurd a

-- From a budget within the policy, the ledger never refuses a decision of the rules for its cost.
pub evaluate_payable :
    (s : Snapshot) (o : Observation) {d : Decision} {ds : List Decision}
    → Within s.budget s.policy
    → evaluate s o ≡ d ∷ ds
    → apply_decision s d ≢ refused budget_exceeded
unfolding apply_decision
evaluate_payable s o {d} {ds} w h =
    let a = answered s o d ds (subst (AtMostOne s o) h (evaluate-AtMostOne s o)) in
    ground (arith, a.payable w)

-- The rules complete a task only when the observation is verification.ready and the snapshot shows
-- that the tests and the git check have both finished and passed.
pub complete-IsVerified :
    (s : Snapshot) (o : Observation) {d : Decision} {ds : List Decision}
    → evaluate s o ≡ d ∷ ds
    → d.action ≡ complete
    → (o.type ≡ verification_ready) × IsVerified s
complete-IsVerified s o {d} {ds} h c =
    (answered s o d ds (subst (AtMostOne s o) h (evaluate-AtMostOne s o))).verified c

-- Nothing is decided for a task that has reached a terminal status, for another task's observation
-- or for one with no id.
pub evaluate_guarded :
    (s : Snapshot) (o : Observation)
    → (is_terminal s.status ≡ true) ⊎ ((o.task_id ≢ s.task_id) ⊎ (o.id ≡ ""))
    → evaluate s o ≡ []
unfolding evaluate
evaluate_guarded s o h = ground (arith, eq_iff o.task_id s.task_id, eq_iff o.id "")
