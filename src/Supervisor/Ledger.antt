-- ===== src/Supervisor/Ledger.antt =====
-- internal/supervisor/ledger.go: a decision is reserved under its key and its cost is charged.
pub mod Laws
pub mod Once
use cyber_foreman.Prelude.{
  ◌+◌, String, str_eq, Bool, true, false, ◌||◌, if◌then◌else◌, ltb, Map, lookup, insert, or_false,
}
use cyber_foreman.Supervisor.Types.{Budget, Snapshot, Decision, Policy}

pub data LedgerError : Type 0 where
  missing_dedupe_key budget_exceeded : LedgerError

-- The three ways in which `ApplyDecision` returns; the first two hand back the given snapshot.
pub data Applied : Type 0 where
  refused : LedgerError → Applied
  duplicate : Applied
  reserved : Snapshot → Applied

unfoldable pub is_applied : Snapshot → String → Bool
is_applied s key = or_false (lookup key s.applied_decisions)

-- The sum of the charges of a budget.
unfoldable pub charge : Budget → Budget → Budget
charge b c = record {
  nudges = b.nudges + c.nudges;
  retries = b.retries + c.retries;
  test_repairs = b.test_repairs + c.test_repairs;
  semantic_redirects = b.semantic_redirects + c.semantic_redirects;
  semantic_escalations = b.semantic_escalations + c.semantic_escalations;
}

-- The condition under which the charge is refused.
unfoldable pub exceeds : Budget → Budget → Policy → Bool
exceeds b c p =
    ltb p.max_nudges (b.nudges + c.nudges)
    || (ltb p.max_retries (b.retries + c.retries)
        || (ltb p.max_test_repairs (b.test_repairs + c.test_repairs)
            || (ltb p.max_semantic_redirects (b.semantic_redirects + c.semantic_redirects)
                || ltb p.max_semantic_escalations
                    (b.semantic_escalations + c.semantic_escalations))))

-- `ApplyDecision`. The copy of the map is the persistent `insert`.
unfoldable pub apply_decision : Snapshot → Decision → Applied
unfolding is_applied charge exceeds
apply_decision s d =
    if str_eq d.dedupe_key ""
    then refused missing_dedupe_key
    else if is_applied s d.dedupe_key
    then duplicate
    else if exceeds s.budget d.budget_cost s.policy
    then refused budget_exceeded
    else reserved (record s {
      applied_decisions = insert d.dedupe_key true s.applied_decisions;
      budget = charge s.budget d.budget_cost;
    })
