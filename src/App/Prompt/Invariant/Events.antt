-- ===== src/App/Prompt/Invariant/Events.antt =====
-- internal/app/prompt.go: the rounds for events of the agent keep the invariants of the loop.
use cyber_foreman.Prelude.{
  ℕ, ◌+◌, String, str_eq, Bool, true, false, not, ◌&&◌, Option, none, some, refl, inl, inr,
  Bool-cases,
}
use cyber_foreman.Domain.{running, permission}
use cyber_foreman.Event.{Event}
use cyber_foreman.Supervisor.Types.{Snapshot, Observation, Decision}
use cyber_foreman.Supervisor.Executor.{ExecuteError}
use cyber_foreman.Supervisor.Progress.{is_meaningful_progress, is_agent_message_chunk}
use cyber_foreman.Agent.{can_resolve_permission}
use cyber_foreman.App.Types.{ServiceError, Service}
use cyber_foreman.App.Verify.{VerificationReport}
use cyber_foreman.App.Prompt.State.{Plant, Loop, loop_of, current_status}
use cyber_foreman.App.Prompt.Turn.{stop_mid_turn_review}
use cyber_foreman.App.Prompt.Actions.{status_is}
use cyber_foreman.App.Prompt.Events.{
  permission_recorded, on_permission_event, first_interrupt_done, first_output_interrupt,
  interrupt_at_output, progressed, observed, on_event, on_closed, is_loss, is_permission_event,
  answerable,
}
use cyber_foreman.App.Prompt.Invariant.{
  Invariant, Holds, attend-Holds, transit-Holds, run_decision-Holds, prompt_performer-Quiet,
}
use cyber_foreman.App.Prompt.Invariant.Recovery.{recover_session-Holds, lose-Holds}
use cyber_foreman.App.Prompt.Invariant.Actions.{interrupted-Holds}

module _ {J S W : Type 0} {p : Plant J S W} {R : VerificationReport → Type 0}
    {I : Service J S → Snapshot → ℕ → Type 0} (inv : Invariant p R I) where
  permission_recorded-Holds :
      (now : ℕ) (e : Option ServiceError) (l : Loop J S W)
      → Holds inv l
      → Holds inv (loop_of (permission_recorded p now (e, l)))
  unfolding stop_mid_turn_review
  permission_recorded-Holds now (some x) l h = attend-Holds inv _ now l h
  permission_recorded-Holds now none l h = inv.observes permission _ _ h

  on_permission_event-Holds :
      (now : ℕ) (l : Loop J S W) → Holds inv l → Holds inv (loop_of (on_permission_event p now l))
  unfolding on_permission_event
  on_permission_event-Holds now l h =
      elim (Bool-cases (not (can_resolve_permission p.runtime.adapter))) [
        | inl y ↦ rw y (attend-Holds inv _ now l h)
        | inr n ↦ elim (Bool-cases (status_is running (current_status p l))) [
          | inl y ↦
              rw (n, y)
                (permission_recorded-Holds now _ _ (transit-Holds inv permission _ now l refl h))
          | inr m ↦ rw (n, m) h
        ]
      ]

  first_interrupt_done-Holds :
      (d : Decision) (now : ℕ) (e : Option ExecuteError) (n : Snapshot) (r : Option String)
      (l : Loop J S W)
      → Holds inv l
      → Holds inv (record l { snapshot = n })
      → Holds inv (loop_of (first_interrupt_done p d now (e, n, r, l)))
  first_interrupt_done-Holds d now (some x) n r l h k = attend-Holds inv _ now l h
  first_interrupt_done-Holds d now none n r l h k = interrupted-Holds inv _ _ n d now l k

  interrupt_at_output-Holds :
      (e : Event) (now : ℕ) (l : Loop J S W)
      → Holds inv l
      → Holds inv (loop_of (interrupt_at_output p e now l))
  unfolding interrupt_at_output
  interrupt_at_output-Holds e now l h =
      elim (Bool-cases (
        not (str_eq p.runtime.interrupt_with "")
        && (not l.manual_interrupted
            && (l.prompt_active && is_agent_message_chunk p.decode_update e)))) [
              | inr n ↦ rw n h
              | inl y ↦
                  let d = first_output_interrupt p (record l { sequence = l.sequence + 1 }) in
                  let k = run_decision-Holds inv _ d now _ (prompt_performer-Quiet p _) h in
                  rw y (first_interrupt_done-Holds d now _ _ _ _ k.0 k.1)
            ]

  progressed-Holds :
      (e : Event) (now : ℕ) (l : Loop J S W) → Holds inv l → Holds inv (progressed p e now l)
  progressed-Holds e now l h = elim (Bool-cases (is_meaningful_progress p.decode_update e)) [
    | inl y ↦ rw y (inv.observes _ _ _ h)
    | inr n ↦ rw n h
  ]

  observed-Holds :
      (e : Event) (now : ℕ) (o : Option Observation) (l : Loop J S W)
      → Holds inv l
      → Holds inv (loop_of (observed p e now o l))
  observed-Holds e now none l h = interrupt_at_output-Holds e now _ (progressed-Holds e now l h)
  observed-Holds e now (some o) l h = elim (Bool-cases (is_loss o)) [
    | inl y ↦ rw y (recover_session-Holds inv o _ now l h)
    | inr n ↦ rw n (interrupt_at_output-Holds e now _ (progressed-Holds e now l h))
  ]

  pub on_event-Holds :
      (e : Event) (now : ℕ) (l : Loop J S W)
      → Holds inv l
      → Holds inv (loop_of (on_event p e now l))
  unfolding on_event
  on_event-Holds e now l h =
      elim (Bool-cases (is_permission_event e.type && answerable e.payload)) [
        | inl y ↦ rw y (on_permission_event-Holds now _ (inv.announces e h))
        | inr n ↦ rw n (observed-Holds e now _ _ (inv.announces e h))
      ]

  pub on_closed-Holds :
      (ended : Bool) (now : ℕ) (l : Loop J S W)
      → Holds inv l
      → Holds inv (loop_of (on_closed p ended now l))
  unfolding on_closed
  on_closed-Holds true now l h = h
  on_closed-Holds false now l h = lose-Holds inv _ _ _ now l h
