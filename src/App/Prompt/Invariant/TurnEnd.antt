-- ===== src/App/Prompt/Invariant/TurnEnd.antt =====
-- internal/app/prompt.go: the round for the end of a turn keeps the invariants of the loop.
use cyber_foreman.Prelude.{
  ℕ, ◌==◌, String, str_eq, Bool, true, not, ◌&&◌, ◌||◌, List, [], ◌∷◌, Option, none, some, refl,
  sym, subst, inl, inr, Bool-cases, if_both,
}
use cyber_foreman.Domain.{verifying}
use cyber_foreman.Supervisor.Types.{Snapshot, Decision, is_action, start_verification}
use cyber_foreman.Supervisor.Executor.{ExecuteError}
use cyber_foreman.Event.{Event}
use cyber_foreman.App.Service.{transition}
use cyber_foreman.App.Types.{ServiceError, Service}
use cyber_foreman.App.Verify.{
  has_commands, VerificationReport, execute_verification, verify_workspace, verify_commands,
}
use cyber_foreman.App.Prompt.State.{Plant, Loop, loop_of, transit, run_decision}
use cyber_foreman.App.Prompt.Performers.{no_op_performer}
use cyber_foreman.App.Prompt.Turn.{stop_mid_turn_review}
use cyber_foreman.App.Prompt.TurnEnd.{
  PromptOutcome, verified, verification_begun, verification_authorized, verify_by, finish_turn,
  send_follow_up, is_error, on_outcome,
}
use cyber_foreman.App.Prompt.Invariant.{
  report_of, run_decision_quiet, stands, Invariant, Holds, attend-Holds, transit-Holds,
  run_decision-Holds, start_prompt-Holds, no_op_performer-Quiet,
}
use cyber_foreman.App.Prompt.Invariant.Recovery.{lose-Holds}
use cyber_foreman.App.Prompt.Invariant.Verdict.{on_verified-Holds, on_refuted-Holds}

module _ {J S W : Type 0} {p : Plant J S W} {R : VerificationReport → Type 0}
    {I : Service J S → Snapshot → ℕ → Type 0} (inv : Invariant p R I) where
  verify_workspace-Keeps :
      (now : ℕ) (s : Service J S) (w : W) {n : Snapshot} {g : ℕ}
      → I s n g
      → I (verify_workspace p.env p.sys p.checkout p.task_id p.runtime now s w).1 n g
  unfolding verify_workspace
  verify_workspace-Keeps now s w {n} {g} h =
      if_both (λ (x : VerificationReport × Service J S × W). I x.1 n g)
        p.runtime.verification.workspace (inv.announces _ (inv.announces _ h)) h

  verify_commands-Keeps :
      (now : ℕ) (r : VerificationReport) (s : Service J S) (w : W) {n : Snapshot} {g : ℕ}
      → I s n g
      → I (verify_commands p.env p.sys p.checkout p.task_id p.runtime now (r, s, w)).1 n g
  unfolding verify_commands
  verify_commands-Keeps now r s w {n} {g} h =
      if_both (λ (x : VerificationReport × Service J S × W). I x.1 n g)
        (r.passed && has_commands p.runtime.verification.commands)
        (inv.announces _ (inv.announces _ h))
        (if_both (λ (x : VerificationReport × Service J S × W). I x.1 n g)
          (has_commands p.runtime.verification.commands) h h)

  execute_verification-Keeps :
      (now : ℕ) (s : Service J S) (w : W) {n : Snapshot} {g : ℕ}
      → I s n g
      → I (execute_verification p.env p.sys p.checkout p.task_id p.runtime now s w).1 n g
  unfolding execute_verification
  execute_verification-Keeps now s w h =
      verify_commands-Keeps now _ _ _ (verify_workspace-Keeps now s w h)

  -- The report of a verification that starts with this service in this world.
  abbrev reported : ℕ → Service J S → W → VerificationReport
  reported now s w =
      (execute_verification p.env p.sys p.checkout p.task_id p.runtime now
        (transition p.env p.ops p.task_id verifying "agent turn finished" now s).1 w).0

  verified-Holds :
      (now : ℕ) (r : VerificationReport) (s : Service J S) (w : W) (l : Loop J S W)
      → R r
      → Holds inv (record l { service = s })
      → Holds inv (loop_of (verified p now (r, s, w) l))
  unfolding stands
  verified-Holds now r s w l g h = elim (Bool-cases (not r.required || r.passed)) [
    | inl y ↦ rw y (on_verified-Holds inv g now _ y h)
    | inr n ↦ rw n (on_refuted-Holds inv g now _ h)
  ]

  verification_begun-Holds :
      (now : ℕ) (e : Option ServiceError) (l : Loop J S W)
      → R (execute_verification p.env p.sys p.checkout p.task_id p.runtime now l.service l.world).0
      → Holds inv l
      → Holds inv (loop_of (verification_begun p now (e, l)))
  verification_begun-Holds now (some x) l g h = h
  verification_begun-Holds now none l g h =
      verified-Holds now _ _ _ (record l { snapshot = record l.snapshot { status = verifying } }) g
        (execute_verification-Keeps now l.service l.world (inv.observes verifying _ _ h))

  verification_authorized-Holds :
      (now : ℕ) (e : Option ExecuteError) (n : Snapshot) (t : Option String) (l : Loop J S W)
      → R (reported now l.service l.world)
      → Holds inv l
      → Holds inv (record l { snapshot = n })
      → Holds inv (loop_of (verification_authorized p now (e, n, t, l)))
  unfolding transit
  verification_authorized-Holds now (some x) n t l g h k = attend-Holds inv _ now l h
  verification_authorized-Holds now none n t l g h k =
      let m = record l { snapshot = n } in
      let x = transit p verifying "agent turn finished" now m in
      verification_begun-Holds now x.0 x.1 g
        (transit-Holds inv verifying "agent turn finished" now m refl k)

  verify_by-Holds :
      (now : ℕ) (ds : List Decision) (l : Loop J S W)
      → ((es : List Event) → R (report_of p now l es))
      → Holds inv l
      → Holds inv (loop_of (verify_by p now ds l))
  unfolding verify_by
  verify_by-Holds now [] l g h = attend-Holds inv _ now l h
  verify_by-Holds now (d ∷ e ∷ ds) l g h = attend-Holds inv _ now l h
  verify_by-Holds now (d ∷ []) l g h = elim (Bool-cases (is_action d.action start_verification)) [
    | inl y ↦
        let k = run_decision-Holds inv _ d now l (no_op_performer-Quiet p start_verification) h in
        let (b, e, f) = run_decision_quiet p start_verification d now l in
        let x = run_decision p (no_op_performer p start_verification) d now l in
        let r : R (reported now x.3.service x.3.world) =
          subst (λ v. R (reported now x.3.service v)) (sym f)
            (subst (λ s. R (reported now s l.world)) (sym e) (g b)) in
        rw y (verification_authorized-Holds now x.0 x.1 x.2 x.3 r k.0 k.1)
    | inr n ↦ rw n (attend-Holds inv _ now l h)
  ]

  finish_turn-Holds :
      (o : PromptOutcome) (now : ℕ) (l : Loop J S W)
      → ((es : List Event) → R (report_of p now l es))
      → Holds inv l
      → Holds inv (loop_of (finish_turn p o now l))
  unfolding finish_turn
  finish_turn-Holds o now l g h = verify_by-Holds now _ _ g h

  send_follow_up-Holds :
      (o : PromptOutcome) (now : ℕ) (l : Loop J S W)
      → Holds inv l
      → Holds inv (send_follow_up p o now l)
  unfolding send_follow_up
  send_follow_up-Holds o now l h =
      start_prompt-Holds inv l.pending_follow_up l.pending_follow_up l.pending_follow_up_source true
        now _ (inv.announces _ h)

  pub on_outcome-Holds :
      (ended : Bool) (o : PromptOutcome) (now : ℕ) (l : Loop J S W)
      → ((es : List Event) → R (report_of p now l es))
      → Holds inv l
      → Holds inv (loop_of (on_outcome p ended o now l))
  unfolding on_outcome stop_mid_turn_review
  on_outcome-Holds ended o now l g h =
      elim (Bool-cases
        (not (o.generation == l.generation) || not (str_eq o.session_id l.session_id))) [
          | inl y ↦ rw y h
          | inr n ↦ elim (Bool-cases ended) [
            | inl y ↦ rw (n, y) h
            | inr m ↦ elim (Bool-cases (is_error p o.error)) [
              | inl y ↦ rw (n, m, y) (lose-Holds inv _ _ true now _ h)
              | inr q ↦ elim (Bool-cases (not (str_eq l.pending_follow_up ""))) [
                | inl y ↦ rw (n, m, q, y) (send_follow_up-Holds o now _ h)
                | inr r ↦ rw (n, m, q, r) (finish_turn-Holds o now _ g h)
              ]
            ]
          ]
        ]
