-- ===== src/App/Prompt/Stale.antt =====
-- internal/app/prompt.go: answers of turns that the loop of `consumePrompt` has given up.
use cyber_foreman.Prelude.{
  ℕ, ◌≤◌, ◌<◌, String, str_eq, Bool, true, false, not, ◌==◌, ◌≡◌, refl, subst, List, [], ◌∷◌,
  Option, none, some, if_both, arith,
}
use cyber_foreman.Domain.{TaskStatus, recovering}
use cyber_foreman.Supervisor.Types.{
  Snapshot, Observation, Decision, is_action, attention_required, retry_session,
}
use cyber_foreman.Supervisor.Engine.{evaluate}
use cyber_foreman.Supervisor.Executor.{ExecuteError}
use cyber_foreman.Supervisor.Semantic.{SemanticReview}
use cyber_foreman.App.Types.{ServiceError}
use cyber_foreman.App.Prompt.State.{
  Plant, Loop, Outcome, stay, leave, loop_of, transit, run_decision, current_status,
  attend_and_leave,
}
use cyber_foreman.App.Prompt.Turn.{
  adopt_session, resume, after_restore, after_retry, after_recovering, keep_follow_up,
  is_recoverable, retry_from, recover_by, recover_session, stop_mid_turn_review, remember_prompt,
  start_prompt,
}
use cyber_foreman.App.Prompt.MidTurn.{on_mid_turn_outcome}
use cyber_foreman.App.Prompt.TurnEnd.{PromptOutcome, on_outcome}
use cyber_foreman.App.Prompt.Rounds.{Input, rounds}
use cyber_foreman.App.Prompt.Invariant.{Invariant}
use cyber_foreman.App.Prompt.Invariant.Rounds.{rounds-Holds}

module _ {J S W : Type 0} where
  -- The loop is over or in a later generation of its turns.
  abbrev Later : ℕ → Outcome J S W → Type 0
  Later g (stay l) = g < l.generation
  Later g (leave l) = Unit

module _ {J S W : Type 0} (p : Plant J S W) where
  -- A generation never comes back.
  later_Invariant : (least : ℕ) → Invariant p (λ r. Unit) (λ s n g. least ≤ g)
  later_Invariant least = record {
    announces = λ e h. h;
    transits = λ to reason now e h. h;
    attends = λ reason now h. h;
    finishes = λ r now given ok h. h;
    replaces = λ rs h. h;
    observes = λ st t i h. h;
    restarts = λ now h. h;
    charges = λ d h. h;
    begins = λ h. omega arith;
  }

  attend-Later :
      (g : ℕ) (reason : String) (now : ℕ) (l : Loop J S W)
      → Later g (attend_and_leave p reason now l)
  unfolding attend_and_leave
  attend-Later g reason now l = tt

  resume-Later :
      (g : ℕ) (d : Decision) (b : Bool) (st : TaskStatus) (now : ℕ) (l : Loop J S W)
      → g < l.generation
      → g < (resume p d b st now l).generation
  unfolding resume start_prompt stop_mid_turn_review
  resume-Later g d true st now l h = omega arith
  resume-Later g d false st now l h = h

  after_restore-Later :
      (g : ℕ) (d : Decision) (b : Bool) (st : TaskStatus) (now : ℕ) (e : Option ServiceError)
      (l : Loop J S W)
      → g < l.generation
      → Later g (after_restore p d b st now (e, l))
  after_restore-Later g d b st now (some x) l h = attend-Later g _ now l
  after_restore-Later g d b st now none l h = resume-Later g d b st now l h

  after_retry-Later :
      (g : ℕ) (d : Decision) (b : Bool) (st : TaskStatus) (now : ℕ) (e : Option ExecuteError)
      (n : Snapshot) (r : Option String) (l : Loop J S W)
      → g < l.generation
      → Later g (after_retry p d b st now (e, n, r, l))
  unfolding after_retry transit adopt_session
  after_retry-Later g d b st now (some x) n r l h = attend-Later g _ now _
  after_retry-Later g d b st now none n r l h = after_restore-Later g d b _ now _ _ h

  keep_follow_up-generation :
      (now : ℕ) (l : Loop J S W) → (keep_follow_up p now l).generation ≡ l.generation
  unfolding remember_prompt
  keep_follow_up-generation now l =
      if_both (λ (x : Loop J S W). x.generation ≡ l.generation)
        (not (str_eq l.pending_follow_up "")) refl refl

  after_recovering-Later :
      (d : Decision) (b : Bool) (st : TaskStatus) (now : ℕ) (e : Option ServiceError)
      (l : Loop J S W)
      → Later l.generation (after_recovering p d b st now (e, l))
  unfolding run_decision stop_mid_turn_review
  after_recovering-Later d b st now (some x) l = attend-Later l.generation _ now l
  after_recovering-Later d b st now none l =
      after_retry-Later l.generation d _ st now _ _ _ _ (rw keep_follow_up-generation (omega arith))

  retry_from-Later :
      (d : Decision) (b : Bool) (now : ℕ) (s : Option TaskStatus) (l : Loop J S W)
      → Later l.generation (retry_from p d b now s l)
  unfolding retry_from transit
  retry_from-Later d b now none l = attend-Later l.generation _ now l
  retry_from-Later d b now (some s) l =
      if_both (Later l.generation) (not (is_recoverable s)) (attend-Later l.generation _ now l) (
        after_recovering-Later d b s now
          (transit p recovering "agent disconnected; rebuilding session" now l).0
          (transit p recovering "agent disconnected; rebuilding session" now l).1)

  recover_by-Later :
      (b : Bool) (now : ℕ) (ds : List Decision) (l : Loop J S W)
      → Later l.generation (recover_by p b now ds l)
  unfolding recover_by
  recover_by-Later b now [] l = attend-Later l.generation _ now l
  recover_by-Later b now (d ∷ e ∷ ds) l = attend-Later l.generation _ now l
  recover_by-Later b now (d ∷ []) l =
      if_both (Later l.generation) (is_action d.action attention_required)
        (attend-Later l.generation _ now _)
        (if_both (Later l.generation) (not (is_action d.action retry_session))
          (attend-Later l.generation _ now l) (retry_from-Later d b now (current_status p l) l))

  pub recover_session-Later :
      (o : Observation) (b : Bool) (now : ℕ) (l : Loop J S W)
      → Later l.generation (recover_session p o b now l)
  unfolding recover_session
  recover_session-Later o b now l = recover_by-Later b now (evaluate l.snapshot o) l

  outcome_ignored :
      (ended : Bool) (o : PromptOutcome) (now : ℕ) (l : Loop J S W)
      → o.generation < l.generation
      → on_outcome p ended o now l ≡ stay l
  unfolding on_outcome
  outcome_ignored ended o now l h =
      let e : (o.generation == l.generation) ≡ false = ground arith in rw e refl

  review_ignored :
      (g : ℕ) (r : Option SemanticReview) (now : ℕ) (l : Loop J S W)
      → g < l.generation
      → on_mid_turn_outcome p g r now l ≡ stay l
  unfolding on_mid_turn_outcome
  review_ignored g r now l h = let e : (g == l.generation) ≡ false = ground arith in rw e refl

  -- Once a lost session has been rebuilt, nothing that a turn of the lost session still answers changes
  -- anything, however many rounds later it comes: neither the end of the turn nor a review of it.
  pub recovered_stale :
      (o : Observation) (b : Bool) (now : ℕ) (l : Loop J S W) {l' : Loop J S W}
      → recover_session p o b now l ≡ stay l'
      → (is : List (ℕ × Input)) (ended : Bool) (late : PromptOutcome) (r : Option SemanticReview)
        (later : ℕ)
      → late.generation ≤ l.generation
      → let l'' = loop_of (rounds p is (stay l')) in
        (on_outcome p ended late later l'' ≡ stay l'')
        × (on_mid_turn_outcome p late.generation r later l'' ≡ stay l'')
  recovered_stale o b now l {l'} h is ended late r later k =
      let g : l.generation < l'.generation =
        subst (Later l.generation) h (recover_session-Later o b now l) in
      let m = rounds-Holds (later_Invariant l'.generation) (λ r. tt) is (stay l') (omega arith) in
      let lt : late.generation < (loop_of (rounds p is (stay l'))).generation = omega arith in
      (outcome_ignored ended late later _ lt, review_ignored late.generation r later _ lt)
