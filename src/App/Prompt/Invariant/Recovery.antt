-- ===== src/App/Prompt/Invariant/Recovery.antt =====
-- internal/app/prompt.go: `recoverSession` keeps the invariants of the loop.
use cyber_foreman.Prelude.{
  ℕ, String, str_eq, Bool, true, false, List, [], ◌∷◌, Option, none, some, ◌≡◌, refl, inl, inr,
  arith, Bool-cases,
}
use cyber_foreman.Domain.{TaskStatus, completed, is_status, recovering}
use cyber_foreman.Supervisor.Types.{
  Snapshot, Observation, Decision, is_action, attention_required, retry_session,
}
use cyber_foreman.Supervisor.Engine.{evaluate}
use cyber_foreman.Supervisor.Executor.{ExecuteError}
use cyber_foreman.App.Types.{ServiceError, Service}
use cyber_foreman.App.Verify.{VerificationReport}
use cyber_foreman.App.Prompt.State.{Plant, Loop, loop_of, current_status}
use cyber_foreman.App.Prompt.Turn.{
  adopt_session, resume, after_restore, restored_status, after_retry, after_recovering,
  keep_follow_up, is_recoverable, retry_from, recover_by, recover_session, stop_mid_turn_review,
  remember_prompt,
}
use cyber_foreman.App.Prompt.Events.{lose}
use cyber_foreman.App.Prompt.Invariant.{
  Invariant, Holds, attend-Holds, transit-Holds, run_decision-Holds, start_prompt-Holds,
  retry_performer-Quiet, no_op_performer-Quiet,
}

-- A recovery does not bring a task back to where it is completed.
restored_unfinished :
    (s : TaskStatus) (b : Bool)
    → is_recoverable s ≡ true
    → is_status (restored_status s b) completed ≡ false
restored_unfinished s b h = ground arith

module _ {J S W : Type 0} {p : Plant J S W} {R : VerificationReport → Type 0}
    {I : Service J S → Snapshot → ℕ → Type 0} (inv : Invariant p R I) where
  adopt_session-Holds :
      (r : Option String) (l : Loop J S W) → Holds inv l → Holds inv (adopt_session p r l)
  unfolding adopt_session
  adopt_session-Holds r l h = inv.replaces _ h

  resume-Holds :
      (d : Decision) (b : Bool) (st : TaskStatus) (now : ℕ) (l : Loop J S W)
      → Holds inv l
      → Holds inv (resume p d b st now l)
  unfolding resume
  resume-Holds d true st now l h =
      start_prompt-Holds inv _ _ _ _ now _ (inv.announces _ (inv.observes st now _ h))
  resume-Holds d false st now l h = inv.observes st now _ h

  after_restore-Holds :
      (d : Decision) (b : Bool) (st : TaskStatus) (now : ℕ) (e : Option ServiceError)
      (l : Loop J S W)
      → Holds inv l
      → Holds inv (loop_of (after_restore p d b st now (e, l)))
  after_restore-Holds d b st now (some x) l h = attend-Holds inv _ now l h
  after_restore-Holds d b st now none l h = resume-Holds d b st now l h

  after_retry-Holds :
      (d : Decision) (b : Bool) (st : TaskStatus) (now : ℕ) (e : Option ExecuteError) (n : Snapshot)
      (r : Option String) (l : Loop J S W)
      → is_recoverable st ≡ true
      → Holds inv (record l { snapshot = n })
      → Holds inv (loop_of (after_retry p d b st now (e, n, r, l)))
  unfolding after_retry
  after_retry-Holds d b st now (some x) n r l c h = attend-Holds inv _ now _ h
  after_retry-Holds d b st now none n r l c h =
      after_restore-Holds d b _ now _ _
        (transit-Holds inv _ _ now _ (restored_unfinished st b c) (adopt_session-Holds r _ h))

  keep_follow_up-Holds :
      (now : ℕ) (l : Loop J S W) → Holds inv l → Holds inv (keep_follow_up p now l)
  unfolding remember_prompt
  keep_follow_up-Holds now l h = elim (Bool-cases (str_eq l.pending_follow_up "")) [
    | inl y ↦ rw y h
    | inr n ↦ rw n (inv.announces _ h)
  ]

  after_recovering-Holds :
      (d : Decision) (b : Bool) (st : TaskStatus) (now : ℕ) (e : Option ServiceError)
      (l : Loop J S W)
      → is_recoverable st ≡ true
      → Holds inv l
      → Holds inv (loop_of (after_recovering p d b st now (e, l)))
  unfolding stop_mid_turn_review
  after_recovering-Holds d b st now (some x) l c h = attend-Holds inv _ now l h
  after_recovering-Holds d b st now none l c h =
      after_retry-Holds d _ st now _ _ _ _ c
        (run_decision-Holds inv _ d now _ (retry_performer-Quiet p _)
          (keep_follow_up-Holds now _ (inv.observes recovering _ _ (inv.begins h)))).1

  retry_from-Holds :
      (d : Decision) (b : Bool) (now : ℕ) (s : Option TaskStatus) (l : Loop J S W)
      → Holds inv l
      → Holds inv (loop_of (retry_from p d b now s l))
  unfolding retry_from
  retry_from-Holds d b now none l h = attend-Holds inv _ now l h
  retry_from-Holds d b now (some s) l h = elim (Bool-cases (is_recoverable s)) [
    | inl y ↦
        rw y (after_recovering-Holds d b s now _ _ y (transit-Holds inv recovering _ now l refl h))
    | inr n ↦ rw n (attend-Holds inv _ now l h)
  ]

  recover_by-Holds :
      (b : Bool) (now : ℕ) (ds : List Decision) (l : Loop J S W)
      → Holds inv l
      → Holds inv (loop_of (recover_by p b now ds l))
  unfolding recover_by
  recover_by-Holds b now [] l h = attend-Holds inv _ now l h
  recover_by-Holds b now (d ∷ e ∷ ds) l h = attend-Holds inv _ now l h
  recover_by-Holds b now (d ∷ []) l h = elim (Bool-cases (is_action d.action attention_required)) [
    | inl y ↦ rw y (
        attend-Holds inv _ now _
          (run_decision-Holds inv _ d now l (no_op_performer-Quiet p attention_required) h).1)
    | inr n ↦ elim (Bool-cases (is_action d.action retry_session)) [
      | inl y ↦ rw (n, y) (retry_from-Holds d b now (current_status p l) l h)
      | inr m ↦ rw (n, m) (attend-Holds inv _ now l h)
    ]
  ]

  pub recover_session-Holds :
      (o : Observation) (b : Bool) (now : ℕ) (l : Loop J S W)
      → Holds inv l
      → Holds inv (loop_of (recover_session p o b now l))
  unfolding recover_session
  recover_session-Holds o b now l h = recover_by-Holds b now (evaluate l.snapshot o) l h

  pub lose-Holds :
      (kind error : String) (b : Bool) (now : ℕ) (l : Loop J S W)
      → Holds inv l
      → Holds inv (loop_of (lose p kind error b now l))
  unfolding lose
  lose-Holds kind error b now l h = recover_session-Holds _ b now _ (inv.announces _ h)
