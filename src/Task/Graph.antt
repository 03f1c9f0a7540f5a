-- ===== src/Task/Graph.antt =====
-- Paths through the transition table of internal/task/state_machine.go.
use cyber_foreman.Prelude.{◌≡◌, refl, ◌⊎◌, inl, inr, ◌↔◌, true, false, arith}
use cyber_foreman.Domain.{
  TaskStatus, queued, running, recovering, verifying, permission, waiting, completed, failed,
  stopped, attention, is_terminal,
}
use cyber_foreman.Task.{can_transition}

-- A history of allowed transitions.
pub data Reach (s : TaskStatus) : TaskStatus → Type 0 where
  here : Reach s s
  next : {t u : TaskStatus} → Reach s t → can_transition t u ≡ true → Reach s u

-- The statuses that no transition leaves.
abbrev pub IsFinal : TaskStatus → Type 0
IsFinal s = (s ≡ completed) ⊎ ((s ≡ failed) ⊎ (s ≡ stopped))

-- A status has no way out exactly when it is completed, failed or stopped.
pub IsFinal-iff :
    (s : TaskStatus)
    → (IsFinal s → (t : TaskStatus) → can_transition s t ≡ false)
      × (((t : TaskStatus) → can_transition s t ≡ false) → IsFinal s)
unfolding can_transition
IsFinal-iff completed = (λ h t. refl, λ h. inl refl)
IsFinal-iff failed = (λ h t. refl, λ h. inr (inl refl))
IsFinal-iff stopped = (λ h t. refl, λ h. inr (inr refl))
IsFinal-iff queued = (λ h. absurd (ground arith), λ h. cc (h running))
IsFinal-iff running = (λ h. absurd (ground arith), λ h. cc (h failed))
IsFinal-iff recovering = (λ h. absurd (ground arith), λ h. cc (h running))
IsFinal-iff verifying = (λ h. absurd (ground arith), λ h. cc (h running))
IsFinal-iff permission = (λ h. absurd (ground arith), λ h. cc (h running))
IsFinal-iff waiting = (λ h. absurd (ground arith), λ h. cc (h running))
IsFinal-iff attention = (λ h. absurd (ground arith), λ h. cc (h running))

-- The status of the task is terminal exactly when no transition leaves it or it is attention, and
-- a task that needs attention can only be run again or stopped.
pub terminal_iff :
    (s : TaskStatus)
    → ((is_terminal s ≡ true) ↔ (IsFinal s ⊎ (s ≡ attention)))
      × ((t : TaskStatus) → (can_transition attention t ≡ true) ↔ ((t ≡ running) ⊎ (t ≡ stopped)))
unfolding can_transition is_terminal
terminal_iff s =
    ((λ h. ground arith, λ h. ground arith), λ t. (λ h. ground arith, λ h. ground arith))

-- A task that is not completed, failed or stopped can be stopped, and from any such status but
-- attention it can be handed to the operator.
pub stoppable_iff :
    (s : TaskStatus)
    → ((can_transition s stopped ≡ false) ↔ IsFinal s)
      × ((can_transition s attention ≡ false) ↔ (IsFinal s ⊎ (s ≡ attention)))
unfolding can_transition
stoppable_iff s = ((λ h. ground arith, λ h. ground arith), (λ h. ground arith, λ h. ground arith))

-- The statuses that a task can have before its agent was ever started.
abbrev Unstarted : TaskStatus → Type 0
Unstarted s = (s ≡ queued) ⊎ ((s ≡ failed) ⊎ ((s ≡ stopped) ⊎ (s ≡ attention)))

Unstarted-step :
    (s t : TaskStatus) → can_transition s t ≡ true → Unstarted s → Unstarted t ⊎ (t ≡ running)
unfolding can_transition
Unstarted-step s t h u = ground arith

-- The status stands somewhere on the history.
abbrev pub Visits : {s t : TaskStatus} → TaskStatus → Reach s t → Type 0
Visits {s} v here = s ≡ v
Visits v (next {u = u} r h) = Visits v r ⊎ (u ≡ v)

Unstarted-or_ran : {t : TaskStatus} (r : Reach queued t) → Unstarted t ⊎ Visits running r
Unstarted-or_ran here = inl (inl refl)
Unstarted-or_ran (next {t = t} {u = u} r h) = elim (Unstarted-or_ran r) [
  | inr v ↦ inr (inl v)
  | inl n ↦ elim (Unstarted-step t u h n) [ inl m ↦ inl m | inr e ↦ inr (inr e) ]
]

-- A history from queued to completed goes through running.
pub completed_ran : (r : Reach queued completed) → Visits running r
completed_ran r = elim (Unstarted-or_ran r) [ inl n ↦ absurd (ground arith) | inr v ↦ v ]
