-- ===== src/App/Prompt/Invariant/Verdict.antt =====
-- internal/app/prompt.go: what follows a report of the verification keeps the invariants of the loop.
use cyber_foreman.Prelude.{
  ℕ, ◌+◌, String, str_eq, true, ◌&&◌, ◌||◌, List, [], ◌∷◌, Option, none, some, ◌≡◌, refl, inl, inr,
  Bool-cases, if_both,
}
use cyber_foreman.Domain.{TaskStatus, running, waiting, attention, is_status}
use cyber_foreman.Supervisor.Types.{
  Snapshot, Decision, is_action, repair, semantic_redirect, attention_required,
}
use cyber_foreman.Supervisor.Executor.{ExecuteError}
use cyber_foreman.Supervisor.Semantic.{
  SemanticVerdict, SemanticReview, pass, redirect, uncertain, attention as attention_verdict,
}
use cyber_foreman.App.Types.{ServiceError, Service}
use cyber_foreman.App.Verify.{VerificationReport}
use cyber_foreman.App.Review.{Reviewer, ReviewSubject, review_agent_turn, review_with}
use cyber_foreman.App.Prompt.State.{Plant, Loop, loop_of, attend}
use cyber_foreman.App.Prompt.TurnEnd.{
  over_budget, follow_up, followed_up, settled, settle, redirect_decision, redirected,
  attention_decision, attended_session, escalated, by_verdict, by_review, store_context,
  on_verified, repaired, fail_by, on_refuted,
}
use cyber_foreman.App.Prompt.Invariant.{
  stands, Invariant, Holds, attend-Holds, transit-Holds, run_decision-Holds, start_prompt-Holds,
  no_op_performer-Quiet,
}

module _ {J S W : Type 0} {p : Plant J S W} {R : VerificationReport → Type 0}
    {I : Service J S → Snapshot → ℕ → Type 0} (inv : Invariant p R I) where
  follow_up-Holds :
      (reason words : String) (d : Decision) (now : ℕ) (l : Loop J S W)
      → Holds inv l
      → Holds inv (follow_up p reason words d now l)
  follow_up-Holds reason words d now l h =
      start_prompt-Holds inv words words "supervisor" true now _
        (inv.announces _ (inv.observes running _ _ h))

  followed_up-Holds :
      (reason words : String) (d : Decision) (now : ℕ) (e : Option ServiceError) (l : Loop J S W)
      → Holds inv l
      → Holds inv (loop_of (followed_up p reason words d now (e, l)))
  followed_up-Holds reason words d now (some x) l h = h
  followed_up-Holds reason words d now none l h = follow_up-Holds reason words d now l h

  settled-Holds :
      (s : Option TaskStatus) (l : Loop J S W) → Holds inv l → Holds inv (loop_of (settled p s l))
  settled-Holds none l h = h
  settled-Holds (some s) l h =
      elim (Bool-cases (p.runtime.interactive && (is_status s waiting || is_status s attention))) [
        | inl y ↦ rw y (inv.observes s _ _ h)
        | inr n ↦ rw n h
      ]

  attend_stay-Holds :
      (reason : String) (now : ℕ) (l : Loop J S W) → Holds inv l → Holds inv (attend p reason now l)
  unfolding attend
  attend_stay-Holds reason now l h = inv.attends reason now h

  module _ {report : VerificationReport} (given : R report) where
    settle-Holds :
        (now : ℕ) (l : Loop J S W)
        → stands report ≡ true
        → Holds inv l
        → Holds inv (loop_of (settle p report now l))
    unfolding settle
    settle-Holds now l ok h = settled-Holds _ _ (inv.finishes report now given ok h)

    redirected-Holds :
        (r : SemanticReview) (d : Decision) (now : ℕ) (e : Option ExecuteError) (n : Snapshot)
        (t : Option String) (l : Loop J S W)
        → stands report ≡ true
        → Holds inv l
        → Holds inv (record l { snapshot = n })
        → Holds inv (loop_of (redirected p r report d now (e, n, t, l)))
    redirected-Holds r d now none n t l ok h k =
        followed_up-Holds _ _ d now _ _
          (transit-Holds inv running _ now (record l { snapshot = n }) refl k)
    redirected-Holds r d now (some x) n t l ok h k = elim (Bool-cases (over_budget x)) [
      | inl y ↦ rw y (settle-Holds now l ok h)
      | inr m ↦ rw m (attend-Holds inv _ now l h)
    ]

    attended_session-Holds :
        (e : Option ServiceError) (l : Loop J S W)
        → Holds inv l
        → Holds inv (loop_of (attended_session p e l))
    attended_session-Holds (some x) l h = h
    attended_session-Holds none l h =
        if_both (λ o. Holds inv (loop_of o)) p.runtime.interactive (inv.observes attention _ _ h)
          (inv.observes attention _ _ h)

    escalated-Holds :
        (r : SemanticReview) (now : ℕ) (e : Option ExecuteError) (n : Snapshot) (t : Option String)
        (l : Loop J S W)
        → stands report ≡ true
        → Holds inv l
        → Holds inv (record l { snapshot = n })
        → Holds inv (loop_of (escalated p r report now (e, n, t, l)))
    escalated-Holds r now none n t l ok h k = attended_session-Holds _ _ (inv.attends _ now k)
    escalated-Holds r now (some x) n t l ok h k = elim (Bool-cases (over_budget x)) [
      | inl y ↦ rw y (settle-Holds now l ok h)
      | inr m ↦ rw m (attend-Holds inv _ now l h)
    ]

    by_verdict-Holds :
        (v : SemanticVerdict) (r : SemanticReview) (now : ℕ) (l : Loop J S W)
        → stands report ≡ true
        → Holds inv l
        → Holds inv (loop_of (by_verdict p v r report now l))
    unfolding by_verdict
    by_verdict-Holds pass r now l ok h = settle-Holds now l ok h
    by_verdict-Holds uncertain r now l ok h = settle-Holds now l ok h
    by_verdict-Holds redirect r now l ok h =
        let d = redirect_decision p r (record l { sequence = l.sequence + 1 }) in
        let k = run_decision-Holds inv _ d now _ (no_op_performer-Quiet p semantic_redirect) h in
        redirected-Holds r d now _ _ _ _ ok k.0 k.1
    by_verdict-Holds attention_verdict r now l ok h =
        let d = attention_decision p r (record l { sequence = l.sequence + 1 }) in
        let k = run_decision-Holds inv _ d now _ (no_op_performer-Quiet p attention_required) h in
        escalated-Holds r now _ _ _ _ ok k.0 k.1

    by_review-Holds :
        (now : ℕ) (r : Option SemanticReview) (s : Service J S) (w : W) (l : Loop J S W)
        → stands report ≡ true
        → Holds inv (record l { service = s })
        → Holds inv (loop_of (by_review p report now (r, s, w) l))
    by_review-Holds now none s w l ok h = settle-Holds now _ ok h
    by_review-Holds now (some r) s w l ok h = by_verdict-Holds r.verdict r now _ ok h

    review_agent_turn-Keeps :
        (v : Option (Reviewer W)) (q : ReviewSubject) (now : ℕ) (s : Service J S) (w : W)
        {n : Snapshot} {g : ℕ}
        → I s n g
        → I (review_agent_turn p.env p.trim v q now s w).1 n g
    unfolding review_agent_turn review_with
    review_agent_turn-Keeps none q now s w h = h
    review_agent_turn-Keeps (some v) q now s w h =
        elim (Bool-cases (str_eq (p.trim q.response) "")) [
          | inl y ↦ rw y h
          | inr m ↦ rw m (inv.announces _ (inv.announces _ h))
        ]

    pub on_verified-Holds :
        (now : ℕ) (l : Loop J S W)
        → stands report ≡ true
        → Holds inv l
        → Holds inv (loop_of (on_verified p report now l))
    unfolding on_verified
    on_verified-Holds now l ok h =
        if_both (λ o. Holds inv (loop_of o)) p.runtime.semantic_final
          (by_review-Holds now _ _ _ (store_context p report l) ok
            (review_agent_turn-Keeps p.reviewer _ now _ _ (inv.replaces _ h)))
          (settle-Holds now (store_context p report l) ok (inv.replaces _ h))

    repaired-Holds :
        (d : Decision) (now : ℕ) (e : Option ExecuteError) (n : Snapshot) (t : Option String)
        (l : Loop J S W)
        → Holds inv l
        → Holds inv (record l { snapshot = n })
        → Holds inv (loop_of (repaired p report d now (e, n, t, l)))
    repaired-Holds d now (some x) n t l h k = attend-Holds inv _ now l h
    repaired-Holds d now none n t l h k =
        followed_up-Holds _ _ d now _ _
          (transit-Holds inv running _ now (record l { snapshot = n }) refl k)

    fail_by-Holds :
        (now : ℕ) (ds : List Decision) (l : Loop J S W)
        → Holds inv l
        → Holds inv (loop_of (fail_by p report now ds l))
    unfolding fail_by
    fail_by-Holds now [] l h = attend-Holds inv _ now l h
    fail_by-Holds now (d ∷ e ∷ ds) l h = attend-Holds inv _ now l h
    fail_by-Holds now (d ∷ []) l h = elim (Bool-cases (is_action d.action repair)) [
      | inl y ↦
          let k = run_decision-Holds inv _ d now l (no_op_performer-Quiet p repair) h in
          rw y (repaired-Holds d now _ _ _ _ k.0 k.1)
      | inr n ↦ elim (Bool-cases (is_action d.action attention_required)) [
        | inr m ↦ rw (n, m) (attend-Holds inv _ now l h)
        | inl y ↦
            let k =
              run_decision-Holds inv _ d now l (no_op_performer-Quiet p attention_required) h in
            let a = attend_stay-Holds d.reason now _ k.1 in
            rw (n, y)
              (if_both (λ o. Holds inv (loop_of o)) p.runtime.interactive
                (inv.observes attention _ _ a) a)
      ]
    ]

    pub on_refuted-Holds :
        (now : ℕ) (l : Loop J S W) → Holds inv l → Holds inv (loop_of (on_refuted p report now l))
    unfolding on_refuted
    on_refuted-Holds now l h = fail_by-Holds now _ _ h
