-- ===== src/Supervisor/Ledger/Laws.antt =====
-- The ledger of internal/supervisor/ledger.go: budgets hold, and a key is charged once.
use cyber_foreman.Prelude.{
  str_eq, eq_iff, ◌≡◌, true, false, arith, insert, Bool-cases, ◌⊎◌, inl, inr,
}
use cyber_foreman.Supervisor.Types.{Budget, Policy, Snapshot, Decision, Within}
use cyber_foreman.Supervisor.Ledger.{
  Applied, refused, duplicate, reserved, budget_exceeded, missing_dedupe_key, is_applied, charge,
  exceeds, apply_decision,
}

-- The snapshot that the caller holds after `ApplyDecision`, whatever it returned.
abbrev pub after : Snapshot → Applied → Snapshot
after s (refused e) = s
after s duplicate = s
after s (reserved t) = t

-- The refusal is exact: a charge passes the test exactly when the sum is within the policy.
pub exceeds-false : (b c : Budget) (p : Policy) → exceeds b c p ≡ false → Within (charge b c) p
unfolding exceeds charge
exceeds-false b c p h = ground arith

pub Within-exceeds : (b c : Budget) (p : Policy) → Within (charge b c) p → exceeds b c p ≡ false
unfolding exceeds charge
Within-exceeds b c p h = ground arith

-- From a budget within its policy, every decision at all leaves a budget within the policy, and the
-- policy, the status and the times of the snapshot are what they were.
pub apply_decision-Within :
    (s : Snapshot) (d : Decision)
    → Within s.budget s.policy
    → let t = after s (apply_decision s d) in
      Within t.budget t.policy
      × (t.policy ≡ s.policy)
      × (t.status ≡ s.status)
      × (t.started_at ≡ s.started_at)
      × (t.last_progress_at ≡ s.last_progress_at)
unfolding apply_decision
apply_decision-Within s d w = ground (arith, exceeds-false s.budget d.budget_cost s.policy)

-- Every decision has one of four results: no key; a key that is taken; a charge that would pass the
-- policy; or else the reservation, which charges exactly the cost, takes exactly the key, and changes
-- nothing else.
pub apply_decision_cases :
    (s : Snapshot) (d : Decision)
    → ((d.dedupe_key ≡ "") × (apply_decision s d ≡ refused missing_dedupe_key))
      ⊎ (((is_applied s d.dedupe_key ≡ true) × (apply_decision s d ≡ duplicate))
          ⊎ ((¬ Within (charge s.budget d.budget_cost) s.policy
                × (apply_decision s d ≡ refused budget_exceeded))
              ⊎ (Within (charge s.budget d.budget_cost) s.policy
                  × (is_applied s d.dedupe_key ≡ false)
                  × (apply_decision s d
                      ≡ reserved (record s {
                        applied_decisions = insert d.dedupe_key true s.applied_decisions;
                        budget = charge s.budget d.budget_cost;
                      })))))
unfolding apply_decision
apply_decision_cases s d = elim (Bool-cases (str_eq d.dedupe_key "")) [
  | inl e ↦ inl ((eq_iff d.dedupe_key "").0 e, rw e)
  | inr n ↦ elim (Bool-cases (is_applied s d.dedupe_key)) [
    | inl a ↦ inr (inl (a, rw (n, a)))
    | inr f ↦ elim (Bool-cases (exceeds s.budget d.budget_cost s.policy)) [
      | inl x ↦ inr (inr (inl (λ w. cc (x, Within-exceeds _ _ _ w), rw (n, f, x))))
      | inr y ↦ inr (inr (inr (exceeds-false _ _ _ y, f, rw (n, f, y))))
    ]
  ]
]
