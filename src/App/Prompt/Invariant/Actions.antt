-- ===== src/App/Prompt/Invariant/Actions.antt =====
-- internal/app/prompt.go: the rounds for actions of operators keep the invariants of the loop.
use cyber_foreman.Prelude.{
  ℕ, ◌+◌, String, str_eq, true, not, ◌||◌, Option, none, some, refl, inl, inr, Bool-cases,
}
use cyber_foreman.Domain.{running, permission, waiting, attention}
use cyber_foreman.Supervisor.Types.{Snapshot, Decision}
use cyber_foreman.Supervisor.Executor.{ExecuteError}
use cyber_foreman.App.Types.{
  ServiceError, Service, TaskAction, ActionKind, interrupt, continue, resolve_permission,
}
use cyber_foreman.App.Verify.{VerificationReport}
use cyber_foreman.App.Prompt.State.{Plant, Loop, current_status}
use cyber_foreman.App.Prompt.Turn.{stop_mid_turn_review}
use cyber_foreman.App.Prompt.Actions.{
  permission_done, permission_answered, on_permission, continued, on_continue, interrupted,
  interrupt_done, operator_interrupt, on_interrupt, act_by, on_action, status_is,
}
use cyber_foreman.App.Prompt.Invariant.{
  Invariant, Holds, transit-Holds, run_decision-Holds, start_prompt-Holds, prompt_performer-Quiet,
}

module _ {J S W : Type 0} {p : Plant J S W} {R : VerificationReport → Type 0}
    {I : Service J S → Snapshot → ℕ → Type 0} (inv : Invariant p R I) where
  permission_done-Holds :
      (a : TaskAction) (now : ℕ) (e : Option ServiceError) (l : Loop J S W)
      → Holds inv l
      → Holds inv (permission_done p a now (e, l))
  permission_done-Holds a now (some x) l h = h
  permission_done-Holds a now none l h = inv.announces _ (inv.observes running now _ h)

  permission_answered-Holds :
      (a : TaskAction) (now : ℕ) (e : Option String) (w : W) (l : Loop J S W)
      → Holds inv l
      → Holds inv (permission_answered p a now (e, w) l)
  permission_answered-Holds a now (some x) w l h = h
  permission_answered-Holds a now none w l h =
      permission_done-Holds a now _ _ (transit-Holds inv running _ now _ refl h)

  on_permission-Holds :
      (a : TaskAction) (now : ℕ) (l : Loop J S W)
      → Holds inv l
      → Holds inv (on_permission p a now l)
  unfolding on_permission
  on_permission-Holds a now l h =
      elim (Bool-cases (not (status_is permission (current_status p l)) || not l.prompt_active)) [
        | inl y ↦ rw y h
        | inr n ↦ rw n (permission_answered-Holds a now _ _ l h)
      ]

  continued-Holds :
      (a : TaskAction) (now : ℕ) (e : Option ServiceError) (l : Loop J S W)
      → Holds inv l
      → Holds inv (continued p a now (e, l))
  continued-Holds a now (some x) l h = h
  continued-Holds a now none l h = start_prompt-Holds inv _ _ _ true now _ (inv.restarts now h)

  on_continue-Holds :
      (a : TaskAction) (now : ℕ) (l : Loop J S W) → Holds inv l → Holds inv (on_continue p a now l)
  unfolding on_continue
  on_continue-Holds a now l h =
      elim (Bool-cases (l.prompt_active || not (str_eq l.pending_follow_up ""))) [
        | inl y ↦ rw y h
        | inr n ↦
            elim (Bool-cases (
              not (
                status_is waiting (current_status p l)
                || status_is attention (current_status p l)))) [
                  | inl y ↦ rw (n, y) h
                  | inr m ↦
                      rw (n, m)
                        (continued-Holds a now _ _ (transit-Holds inv running _ now l refl h))
                ]
      ]

  pub interrupted-Holds :
      (words source : String) (next : Snapshot) (d : Decision) (now : ℕ) (l : Loop J S W)
      → Holds inv (record l { snapshot = next })
      → Holds inv (interrupted p words source next d now l)
  unfolding stop_mid_turn_review
  interrupted-Holds words source next d now l h = inv.announces _ h

  interrupt_done-Holds :
      (a : TaskAction) (d : Decision) (now : ℕ) (e : Option ExecuteError) (n : Snapshot)
      (r : Option String) (l : Loop J S W)
      → Holds inv l
      → Holds inv (record l { snapshot = n })
      → Holds inv (interrupt_done p a d now (e, n, r, l))
  interrupt_done-Holds a d now (some x) n r l h k = h
  interrupt_done-Holds a d now none n r l h k = interrupted-Holds _ _ n d now l k

  on_interrupt-Holds :
      (a : TaskAction) (now : ℕ) (l : Loop J S W) → Holds inv l → Holds inv (on_interrupt p a now l)
  unfolding on_interrupt
  on_interrupt-Holds a now l h =
      elim (Bool-cases (not l.prompt_active || not (str_eq l.pending_follow_up ""))) [
        | inl y ↦ rw y h
        | inr n ↦
            let d = operator_interrupt p (record l { sequence = l.sequence + 1 }) in
            let k = run_decision-Holds inv _ d now _ (prompt_performer-Quiet p _) h in
            rw n (interrupt_done-Holds a d now _ _ _ _ k.0 k.1)
      ]

  pub on_action-Holds :
      (a : TaskAction) (now : ℕ) (l : Loop J S W) → Holds inv l → Holds inv (on_action p a now l)
  unfolding on_action act_by
  on_action-Holds a now l h = go a.kind
    where
      go : (k : ActionKind) → Holds inv (act_by p k a now l)
      go resolve_permission = on_permission-Holds a now l h
      go continue = on_continue-Holds a now l h
      go interrupt = on_interrupt-Holds a now l h
