-- ===== src/App/Prompt/Invariant/Timers.antt =====
-- internal/app/prompt.go: the rounds for reviews of active turns and for timers keep the invariants of the loop.
use cyber_foreman.Prelude.{
  ℕ, ◌+◌, String, str_eq, not, ◌||◌, ◌==◌, List, [], ◌∷◌, Option, none, some, refl, inl, inr,
  Bool-cases, ltb, leb,
}
use cyber_foreman.Domain.{stopped, waiting, attention}
use cyber_foreman.Supervisor.Types.{Snapshot, Decision, is_action, attention_required}
use cyber_foreman.Supervisor.Executor.{ExecuteError}
use cyber_foreman.Supervisor.Semantic.{SemanticReview}
use cyber_foreman.App.Types.{ServiceError, Service}
use cyber_foreman.App.Verify.{VerificationReport}
use cyber_foreman.App.Prompt.State.{Plant, Loop, loop_of, current_status}
use cyber_foreman.App.Prompt.Turn.{stop_mid_turn_review}
use cyber_foreman.App.Prompt.Actions.{status_is}
use cyber_foreman.App.Prompt.MidTurn.{
  launch_mid_turn_review, on_mid_turn_due, corrected, correct, on_mid_turn_outcome, asks_redirect,
  has_reviewer, mid_turn_decision,
}
use cyber_foreman.App.Prompt.TurnEnd.{over_budget}
use cyber_foreman.App.Prompt.Timers.{
  nudged, idle_by, on_idle_due, hard_by, on_hard_due, expired, on_waiting_due,
}
use cyber_foreman.App.Prompt.Invariant.{
  Invariant, Holds, attend-Holds, transit-Holds, run_decision-Holds, prompt_performer-Quiet,
}
use cyber_foreman.App.Prompt.Invariant.Actions.{interrupted-Holds}

module _ {J S W : Type 0} {p : Plant J S W} {R : VerificationReport → Type 0}
    {I : Service J S → Snapshot → ℕ → Type 0} (inv : Invariant p R I) where
  launch_mid_turn_review-Holds :
      (l : Loop J S W) → Holds inv l → Holds inv (launch_mid_turn_review p l)
  unfolding launch_mid_turn_review
  launch_mid_turn_review-Holds l h =
      elim (Bool-cases (
        not p.mid_turn.enabled
        || (not (has_reviewer p.reviewer)
            || (l.mid_turn_active
                || (not l.prompt_active
                    || (not (str_eq l.pending_follow_up "")
                        || leb p.mid_turn.max_reviews l.mid_turn_reviews)))))) [
                          | inl y ↦ rw y h
                          | inr n ↦ rw n h
                        ]

  pub on_mid_turn_due-Holds : (l : Loop J S W) → Holds inv l → Holds inv (on_mid_turn_due p l)
  unfolding on_mid_turn_due
  on_mid_turn_due-Holds l h =
      elim (Bool-cases (
        not l.prompt_active
        || (not (str_eq l.pending_follow_up "")
            || leb p.mid_turn.max_reviews l.mid_turn_reviews))) [
              | inl y ↦ rw y h
              | inr n ↦ elim (Bool-cases (ltb l.turn_response_runes p.mid_turn.min_output_runes)) [
                | inl y ↦ rw (n, y) h
                | inr m ↦
                    rw (n, m) (launch_mid_turn_review-Holds (record l { mid_turn_timer = none }) h)
              ]
            ]

  corrected-Holds :
      (r : SemanticReview) (d : Decision) (now : ℕ) (e : Option ExecuteError) (n : Snapshot)
      (t : Option String) (l : Loop J S W)
      → Holds inv l
      → Holds inv (record l { snapshot = n })
      → Holds inv (loop_of (corrected p r d now (e, n, t, l)))
  corrected-Holds r d now none n t l h k = interrupted-Holds inv _ _ n d now l k
  corrected-Holds r d now (some x) n t l h k = elim (Bool-cases (over_budget x)) [
    | inl y ↦ rw y h
    | inr m ↦ rw m (attend-Holds inv _ now l h)
  ]

  correct-Holds :
      (r : Option SemanticReview) (now : ℕ) (l : Loop J S W)
      → Holds inv l
      → Holds inv (loop_of (correct p r now l))
  unfolding correct
  correct-Holds none now l h = h
  correct-Holds (some r) now l h =
      let d = mid_turn_decision p r (record l { sequence = l.sequence + 1 }) in
      let k = run_decision-Holds inv _ d now _ (prompt_performer-Quiet p _) h in
      corrected-Holds r d now _ _ _ _ k.0 k.1

  pub on_mid_turn_outcome-Holds :
      (g : ℕ) (r : Option SemanticReview) (now : ℕ) (l : Loop J S W)
      → Holds inv l
      → Holds inv (loop_of (on_mid_turn_outcome p g r now l))
  unfolding on_mid_turn_outcome
  on_mid_turn_outcome-Holds g r now l h = elim (Bool-cases (not (g == l.generation))) [
    | inl y ↦ rw y h
    | inr n ↦ elim (Bool-cases (not l.prompt_active || not (str_eq l.pending_follow_up ""))) [
      | inl y ↦ rw (n, y) h
      | inr m ↦ elim (Bool-cases (asks_redirect r)) [
        | inl y ↦ rw (n, m, y) (correct-Holds r now _ h)
        | inr o ↦ elim (Bool-cases (ltb l.mid_turn_reviews p.mid_turn.max_reviews)) [
          | inl y ↦ rw (n, m, o, y) h
          | inr q ↦ rw (n, m, o, q) h
        ]
      ]
    ]
  ]

  nudged-Holds :
      (d : Decision) (now : ℕ) (e : Option ExecuteError) (n : Snapshot) (t : Option String)
      (l : Loop J S W)
      → Holds inv l
      → Holds inv (record l { snapshot = n })
      → Holds inv (loop_of (nudged p d now (e, n, t, l)))
  unfolding stop_mid_turn_review
  nudged-Holds d now none n t l h k = inv.announces _ k
  nudged-Holds d now (some x) n t l h k = attend-Holds inv _ now l h

  idle_by-Holds :
      (now : ℕ) (ds : List Decision) (l : Loop J S W)
      → Holds inv l
      → Holds inv (loop_of (idle_by p now ds l))
  unfolding idle_by
  idle_by-Holds now [] l h = h
  idle_by-Holds now (d ∷ ds) l h =
      let k = run_decision-Holds inv _ d now l (prompt_performer-Quiet p l.session_id) h in
      elim (Bool-cases (is_action d.action attention_required)) [
        | inl y ↦ rw y (attend-Holds inv _ now _ k.0)
        | inr n ↦ rw n (nudged-Holds d now _ _ _ _ k.0 k.1)
      ]

  pub on_idle_due-Holds :
      (now : ℕ) (l : Loop J S W) → Holds inv l → Holds inv (loop_of (on_idle_due p now l))
  unfolding on_idle_due
  on_idle_due-Holds now l h = elim (Bool-cases (not l.prompt_active)) [
    | inl y ↦ rw y h
    | inr n ↦ rw n (idle_by-Holds now _ _ (inv.observes _ _ _ h))
  ]

  hard_by-Holds :
      (now : ℕ) (ds : List Decision) (l : Loop J S W)
      → Holds inv l
      → Holds inv (loop_of (hard_by p now ds l))
  unfolding hard_by
  hard_by-Holds now [] l h = attend-Holds inv _ now l h
  hard_by-Holds now (d ∷ ds) l h =
      attend-Holds inv _ now _
        (run_decision-Holds inv _ d now l (prompt_performer-Quiet p l.session_id) h).1

  pub on_hard_due-Holds :
      (now : ℕ) (l : Loop J S W) → Holds inv l → Holds inv (loop_of (on_hard_due p now l))
  unfolding on_hard_due
  on_hard_due-Holds now l h = hard_by-Holds now _ _ h

  expired-Holds :
      (now : ℕ) (e : Option ServiceError) (l : Loop J S W)
      → Holds inv l
      → Holds inv (loop_of (expired p now (e, l)))
  expired-Holds now (some x) l h = attend-Holds inv _ now l h
  expired-Holds now none l h = h

  pub on_waiting_due-Holds :
      (now : ℕ) (l : Loop J S W) → Holds inv l → Holds inv (loop_of (on_waiting_due p now l))
  unfolding on_waiting_due
  on_waiting_due-Holds now l h =
      elim (Bool-cases (
        not (status_is waiting (current_status p l) || status_is attention (current_status p l)))) [
          | inl y ↦ rw y h
          | inr n ↦ rw n (
              expired-Holds now _ _
                (transit-Holds inv stopped _ now (record l { waiting_timer = none }) refl h))
        ]
