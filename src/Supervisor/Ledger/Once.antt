-- ===== src/Supervisor/Ledger/Once.antt =====
-- The decision keys of internal/supervisor/ledger.go: over any sequence of decisions a key is charged
-- at most once, and the budget holds what was charged.
use cyber_foreman.Prelude.{
  ℕ, ◌+◌, String, str_eq, eq_iff, ◌≡◌, refl, Bool, true, false, if◌then◌else◌, List, [], ◌∷◌, arith,
  insert, lookup-insert, ◌∙◌,
}
use cyber_foreman.Supervisor.Types.{Budget, Snapshot, Decision, Within}
use cyber_foreman.Supervisor.Ledger.{Applied, duplicate, reserved, is_applied, apply_decision}
use cyber_foreman.Supervisor.Ledger.Laws.{after, apply_decision-Within}

-- What a reservation does to the map of keys.
is_applied-reserve :
    (s : Snapshot) (k j : String) (b : Budget)
    → is_applied (record s { applied_decisions = insert k true s.applied_decisions; budget = b }) j
      ≡ (if str_eq k j then true else is_applied s j)
unfolding is_applied
is_applied-reserve s k j b = rw lookup-insert (ground arith)

-- 1 for a reservation of a decision that passes the test, 0 for anything else.
abbrev pub reservations : (Decision → Bool) → Decision → Applied → ℕ
reservations p d (reserved t) = if p d then 1 else 0
reservations p d _ = 0

-- A sequence of decisions, each on the snapshot that the one before left.
unfoldable pub run : Snapshot → List Decision → Snapshot
run s [] = s
run s (d ∷ ds) = run (after s (apply_decision s d)) ds

-- How many decisions of the sequence that pass the test are reserved, and so charged.
unfoldable pub times_reserved : (Decision → Bool) → Snapshot → List Decision → ℕ
times_reserved p s [] = 0
times_reserved p s (d ∷ ds) =
    reservations p d (apply_decision s d) + times_reserved p (after s (apply_decision s d)) ds

abbrev pub has_key : String → Decision → Bool
has_key k d = str_eq d.dedupe_key k

-- 1 for a key that is taken.
abbrev pub taken : Bool → ℕ
taken true = 1
taken false = 0

taken-step :
    (k : String) (s : Snapshot) (d : Decision)
    → reservations (has_key k) d (apply_decision s d) + taken (is_applied s k)
      ≡ taken (is_applied (after s (apply_decision s d)) k)
unfolding apply_decision
taken-step k s d =
    ground (arith, eq_iff d.dedupe_key k, lookup-insert d.dedupe_key k true s.applied_decisions)

-- Over any decisions, duplicates and refusals among them, a key that was free is charged once if it
-- is taken in the end and never if it is not; a key that was taken is never charged.
pub times_reserved_exact :
    (k : String) (s : Snapshot) (ds : List Decision)
    → times_reserved (has_key k) s ds + taken (is_applied s k) ≡ taken (is_applied (run s ds) k)
unfolding run times_reserved
times_reserved_exact k s [] = omega arith
times_reserved_exact k s (d ∷ ds) =
    omega (arith, taken-step k s d, times_reserved_exact k (after s (apply_decision s d)) ds)

-- From a budget within its policy, no sequence of decisions passes the policy.
pub run-Within :
    (s : Snapshot) (ds : List Decision)
    → Within s.budget s.policy
    → Within (run s ds).budget (run s ds).policy × ((run s ds).policy ≡ s.policy)
unfolding run
run-Within s [] w = (w, refl)
run-Within s (d ∷ ds) w =
    let t = apply_decision-Within s d w in
    let (v, e) = run-Within (after s (apply_decision s d)) ds t.0 in (v, e ∙ t.1)

-- A decision that was reserved is a duplicate when it comes again, and the snapshot stays.
pub apply_decision_twice :
    (s : Snapshot) (d : Decision) {t : Snapshot}
    → apply_decision s d ≡ reserved t
    → apply_decision t d ≡ duplicate
unfolding apply_decision
apply_decision_twice s d h = ground (
  arith,
  lookup-insert d.dedupe_key d.dedupe_key true s.applied_decisions,
  eq_iff d.dedupe_key d.dedupe_key,
)
