-- ===== src/Supervisor/Engine/Idle.antt =====
-- The ladder of idle timeouts in internal/supervisor/engine.go: nudges, then recoveries, then the
-- operator.
use Prim.Native.String.append
use Prim.Native.String.{String as Text}
use cyber_foreman.Prelude.{
  ℕ, zero, suc, ◌-◌, ◌∙◌, true, ltb, String, append, ◌≡◌, ◌≢◌, refl, false, List, [], ◌∷◌, arith,
  eq_iff, str_eq_of_ne, str_eq, if_both,
}
use mathlib.Core.Path.{ap₂}
use cyber_foreman.Domain.{is_terminal}
use cyber_foreman.Supervisor.Types.{
  Observation, Snapshot, Decision, Within, nudge, cancel_and_follow_up, attention_required,
  timer_idle, no_cost,
}
use cyber_foreman.Supervisor.Ledger.{Applied, apply_decision, charge, exceeds, is_applied}
use cyber_foreman.Supervisor.Ledger.Laws.{after}
use cyber_foreman.Supervisor.Ledger.Once.{run}
use cyber_foreman.Supervisor.Engine.{evaluate, on_idle, decision}
use cyber_foreman.Supervisor.Engine.Bounded.{supervise, supervise-Within}

append-ne-empty : (s t : String) → t ≢ "" → append s t ≢ ""
append-ne-empty Text.[] t h e = h (cc (append.nil t))
append-ne-empty (Text.◌∷◌ c s) t h e = cc (append.cons c s t)

key-ne : (i r : String) → append i (append ":" r) ≢ ""
key-ne i r = append-ne-empty i (append ":" r) (λ e. cc (append.cons _ _ _))

-- An idle observation of the task whose keys the ledger does not hold yet.
pub record IsFreshIdle (s : Snapshot) (o : Observation) : Type 0 where
  pub idle : o.type ≡ timer_idle
  pub same_task : o.task_id ≡ s.task_id
  pub has_id : o.id ≢ ""
  pub nudge_free : is_applied s (append o.id (append ":" "idle-nudge")) ≡ false
  pub recovery_free : is_applied s (append o.id (append ":" "idle-recovery")) ≡ false

-- Each observation is fresh when its turn comes.
abbrev pub AllFreshIdle : Snapshot → List Observation → Type 0
AllFreshIdle s [] = Unit
AllFreshIdle s (o ∷ os) = IsFreshIdle s o × AllFreshIdle (supervise s o) os

evaluate-idle :
    (s : Snapshot) (o : Observation)
    → is_terminal s.status ≡ false
    → IsFreshIdle s o
    → evaluate s o ≡ on_idle s o
unfolding evaluate
evaluate-idle s o n f = ground (arith, eq_iff o.task_id s.task_id, eq_iff o.id "")

-- A reservation that the ledger cannot refuse: its key is free and its cost can be paid.
reserve :
    (s : Snapshot) (d : Decision)
    → d.dedupe_key ≢ ""
    → is_applied s d.dedupe_key ≡ false
    → exceeds s.budget d.budget_cost s.policy ≡ false
    → ((run s (d ∷ [])).budget ≡ charge s.budget d.budget_cost)
      × ((run s (d ∷ [])).policy ≡ s.policy)
      × ((run s (d ∷ [])).status ≡ s.status)
      × ((run s (d ∷ [])).task_id ≡ s.task_id)
unfolding run apply_decision
reserve s d k f x = rw (str_eq_of_ne d.dedupe_key "" k, f, x) (refl, refl, refl, refl)

abbrev nudge_of : Observation → Decision
nudge_of o =
    decision o "idle-nudge" nudge "agent made no meaningful progress before the idle deadline"
      (record no_cost { nudges = 1 })

abbrev recovery_of : Observation → Decision
recovery_of o =
    decision o "idle-recovery" cancel_and_follow_up
      "agent remained idle after nudge budget was exhausted" (record no_cost { retries = 1 })

abbrev pub escalation_of : Observation → Decision
escalation_of o =
    decision o "idle-budget-exhausted" attention_required "idle recovery budget exhausted" no_cost

-- The snapshot of an open task whose budget is within its policy and has this much left.
record IsLeft (nudges retries : ℕ) (s : Snapshot) : Type 0 where
  within : Within s.budget s.policy
  open_task : is_terminal s.status ≡ false
  nudges_left : s.policy.max_nudges - s.budget.nudges ≡ nudges
  retries_left : s.policy.max_retries - s.budget.retries ≡ retries

-- A nudge is what the engine says while nudges are left.
on_nudges :
    {n r : ℕ} (s : Snapshot) (o : Observation)
    → IsLeft (suc n) r s
    → IsFreshIdle s o
    → (evaluate s o ≡ nudge_of o ∷ []) × IsLeft n r (supervise s o)
unfolding supervise on_idle decision charge exceeds
on_nudges {n} {r} s o l f =
    let a : ltb s.budget.nudges s.policy.max_nudges ≡ true = ground (arith, l.nudges_left) in
    let e : evaluate s o ≡ nudge_of o ∷ [] = evaluate-idle s o l.open_task f ∙ rw a refl in
    let w = l.within in
    let x : exceeds s.budget (nudge_of o).budget_cost s.policy ≡ false = ground arith in
    let (b, p, st, t) = reserve s (nudge_of o) (key-ne o.id "idle-nudge") f.nudge_free x in
    (
      e,
      record {
        within = supervise-Within s o w;
        open_task = rw e (rw st l.open_task);
        nudges_left = rw e (rw (b, p) (omega (arith, l.nudges_left)));
        retries_left = rw e (rw (b, p) (omega (arith, l.retries_left)));
      },
    )

-- Then a recovery, while retries are left.
on_retries :
    {r : ℕ} (s : Snapshot) (o : Observation)
    → IsLeft 0 (suc r) s
    → IsFreshIdle s o
    → (evaluate s o ≡ recovery_of o ∷ []) × IsLeft 0 r (supervise s o)
unfolding supervise on_idle decision charge exceeds
on_retries {r} s o l f =
    let a : ltb s.budget.nudges s.policy.max_nudges ≡ false = ground (arith, l.nudges_left) in
    let c : ltb s.budget.retries s.policy.max_retries ≡ true = ground (arith, l.retries_left) in
    let e : evaluate s o ≡ recovery_of o ∷ [] =
      evaluate-idle s o l.open_task f ∙ rw a (rw c refl) in
    let w = l.within in
    let x : exceeds s.budget (recovery_of o).budget_cost s.policy ≡ false = ground arith in
    let (b, p, st, t) = reserve s (recovery_of o) (key-ne o.id "idle-recovery") f.recovery_free x in
    (
      e,
      record {
        within = supervise-Within s o w;
        open_task = rw e (rw st l.open_task);
        nudges_left = rw e (rw (b, p) (omega (arith, l.nudges_left)));
        retries_left = rw e (rw (b, p) (omega (arith, l.retries_left)));
      },
    )

-- What the ledger does with a decision that costs nothing.
abbrev Costless : Snapshot → Applied → Type 0
Costless s a =
    ((after s a).budget.nudges ≡ s.budget.nudges)
    × ((after s a).budget.retries ≡ s.budget.retries)
    × ((after s a).policy ≡ s.policy)
    × ((after s a).status ≡ s.status)

escalate : (s : Snapshot) (o : Observation) → Costless s (apply_decision s (escalation_of o))
unfolding apply_decision charge decision
escalate s o =
    let d = escalation_of o in
    if_both (Costless s) (str_eq d.dedupe_key "") (refl, refl, refl, refl)
      (if_both (Costless s) (is_applied s d.dedupe_key) (refl, refl, refl, refl)
        (if_both (Costless s) (exceeds s.budget d.budget_cost s.policy) (refl, refl, refl, refl)
          (omega arith, omega arith, refl, refl)))

on_exhausted :
    (s : Snapshot) (o : Observation)
    → IsLeft 0 0 s
    → IsFreshIdle s o
    → (evaluate s o ≡ escalation_of o ∷ []) × IsLeft 0 0 (supervise s o)
unfolding supervise on_idle run
on_exhausted s o l f =
    let a : ltb s.budget.nudges s.policy.max_nudges ≡ false = ground (arith, l.nudges_left) in
    let c : ltb s.budget.retries s.policy.max_retries ≡ false = ground (arith, l.retries_left) in
    let e : evaluate s o ≡ escalation_of o ∷ [] =
      evaluate-idle s o l.open_task f ∙ rw a (rw c refl) in
    let (b, k, p, st) = escalate s o in
    (
      e,
      record {
        within = supervise-Within s o l.within;
        open_task = rw e (rw st l.open_task);
        nudges_left = rw e (rw (b, p) l.nudges_left);
        retries_left = rw e (rw (k, p) l.retries_left);
      },
    )

-- What the engine decides on each observation in turn, with the ledger's reservations in between.
unfoldable pub decisions : Snapshot → List Observation → List (List Decision)
decisions s [] = []
decisions s (o ∷ os) = evaluate s o ∷ decisions (supervise s o) os

-- So many nudges, then so many recoveries, then the operator, each on the next observation.
unfoldable pub ladder : ℕ → ℕ → List Observation → List (List Decision)
ladder n r [] = []
ladder (suc n) r (o ∷ os) = (nudge_of o ∷ []) ∷ ladder n r os
ladder zero (suc r) (o ∷ os) = (recovery_of o ∷ []) ∷ ladder zero r os
ladder zero zero (o ∷ os) = (escalation_of o ∷ []) ∷ ladder zero zero os

decisions-ladder :
    (n r : ℕ) (s : Snapshot) (os : List Observation)
    → IsLeft n r s
    → AllFreshIdle s os
    → decisions s os ≡ ladder n r os
unfolding decisions ladder
decisions-ladder n r s [] l f = refl
decisions-ladder (suc n) r s (o ∷ os) l (f, fs) =
    let (e, k) = on_nudges s o l f in
    ap₂ (λ x xs. x ∷ xs) e (decisions-ladder n r (supervise s o) os k fs)
decisions-ladder zero (suc r) s (o ∷ os) l (f, fs) =
    let (e, k) = on_retries s o l f in
    ap₂ (λ x xs. x ∷ xs) e (decisions-ladder zero r (supervise s o) os k fs)
decisions-ladder zero zero s (o ∷ os) l (f, fs) =
    let (e, k) = on_exhausted s o l f in
    ap₂ (λ x xs. x ∷ xs) e (decisions-ladder zero zero (supervise s o) os k fs)

-- From a budget within the policy, an open task that stays idle is nudged at each timeout while the
-- budget has nudges left, then recovered at each timeout while it has retries left, and handed to the
-- operator at every timeout after that; each timeout has an observation of its own, whose keys the
-- ledger does not hold.
pub idle_ladder :
    (s : Snapshot) (os : List Observation)
    → Within s.budget s.policy
    → is_terminal s.status ≡ false
    → AllFreshIdle s os
    → decisions s os
      ≡ ladder (s.policy.max_nudges - s.budget.nudges) (s.policy.max_retries - s.budget.retries) os
idle_ladder s os w n f =
    decisions-ladder _ _ s os
      (record { within = w; open_task = n; nudges_left = refl; retries_left = refl }) f
