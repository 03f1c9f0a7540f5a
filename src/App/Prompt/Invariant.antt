-- ===== src/App/Prompt/Invariant.antt =====
-- internal/app/prompt.go: an invariant of `consumePrompt`, as what the calls of its loop must keep. The child
-- modules show that the whole loop then keeps it, one part of the loop each.
pub mod Recovery
pub mod Actions
pub mod Events
pub mod Timers
pub mod Verdict
pub mod TurnEnd
pub mod Rounds
use cyber_foreman.Prelude.{
  ℕ, ◌+◌, String, Bool, true, false, not, ◌||◌, Option, none, some, ◌≡◌, refl, sym, ap, subst, ◌⊎◌,
  inl, inr, arith, Map, List, [], ◌∷◌, lookup,
}
use cyber_foreman.Domain.{TaskStatus, verifying, completed, is_status}
use cyber_foreman.Event.{Event}
use cyber_foreman.Event.Bus.Defs.{Env, Bus, publish_checked}
use cyber_foreman.Supervisor.Types.{
  Snapshot, Decision, Action, none_action, nudge, cancel_and_follow_up, retry_session, repair,
  semantic_redirect, start_verification, complete, attention_required, stop,
}
use cyber_foreman.Supervisor.Ledger.{apply_decision}
use cyber_foreman.Supervisor.Ledger.Laws.{after}
use cyber_foreman.Supervisor.Executor.{Performer, ExecuteError, execute, publish}
use cyber_foreman.Supervisor.Executor.Keeps.{Keeps, execute-keeps, execute-after}
use cyber_foreman.App.Types.{ServiceError, Runtime, Service}
use cyber_foreman.App.Service.{announce, transition, require_attention}
use cyber_foreman.App.Verify.{VerificationReport, execute_verification, finish_verification}
use cyber_foreman.App.Prompt.State.{
  Plant, Loop, Outcome, stay, leave, loop_of, Acting, new_prompt_snapshot, attend, attend_and_leave,
  transit, executor, run_decision,
}
use cyber_foreman.App.Prompt.Performers.{
  prompt_performer, prompt_perform, no_op_performer, retry_performer, retry_perform,
}
use cyber_foreman.App.Prompt.Turn.{start_prompt, stop_mid_turn_review, remember_prompt}

-- The bus after these publications, the last one first.
unfoldable pub told : {J : Type 0} → Env J → List Event → Bus J → Bus J
told env [] b = b
told env (e ∷ es) b = (publish_checked env e (told env es b)).1

-- The report of a verification that starts in this state of the loop, at this time, with nothing done to the
-- service since but these publications: `transition` to `verifying`, and then `executeVerification`.
abbrev pub report_of :
    {J S W : Type 0} → Plant J S W → ℕ → Loop J S W → List Event → VerificationReport
report_of p now l es =
    let s =
      (transition p.env p.ops p.task_id verifying "agent turn finished" now
        (record l.service { bus = told p.env es l.service.bus })).1 in
    (execute_verification p.env p.sys p.checkout p.task_id p.runtime now s l.world).0

-- Whether a report does not stand against the task.
unfoldable pub stands : VerificationReport → Bool
stands r = not r.required || r.passed

-- What the loop's calls keep of the service, the snapshot and the generation of its turns, where `R` holds of
-- every report of its verifications.
pub record Invariant {J S W : Type 0} (p : Plant J S W) (R : VerificationReport → Type 0)
    (I : Service J S → Snapshot → ℕ → Type 0) : Type 0 where
  pub announces :
      (e : Event) {s : Service J S} {n : Snapshot} {g : ℕ} → I s n g → I (announce p.env e s) n g
  pub transits :
      (to : TaskStatus) (reason : String) (now : ℕ) {s : Service J S} {n : Snapshot} {g : ℕ}
      → is_status to completed ≡ false
      → I s n g
      → I (transition p.env p.ops p.task_id to reason now s).1 n g
  pub attends :
      (reason : String) (now : ℕ) {s : Service J S} {n : Snapshot} {g : ℕ}
      → I s n g
      → I (require_attention p.env p.ops p.task_id reason now s).1 n g
  pub finishes :
      (r : VerificationReport) (now : ℕ) {s : Service J S} {n : Snapshot} {g : ℕ}
      → R r
      → stands r ≡ true
      → I s n g
      → I (finish_verification p.env p.ops p.task_id p.runtime r now s) n g
  pub replaces :
      (rs : Map Runtime) {s : Service J S} {n : Snapshot} {g : ℕ}
      → I s n g
      → I (record s { runtimes = rs }) n g
  pub observes :
      (st : TaskStatus) (t i : ℕ) {s : Service J S} {n : Snapshot} {g : ℕ}
      → I s n g
      → I s (record n { status = st; last_progress_at = t; idle_sequence = i }) g
  pub restarts :
      (now : ℕ) {s : Service J S} {n : Snapshot} {g : ℕ}
      → I s n g
      → I s (new_prompt_snapshot p.task_id p.runtime.policy now) g
  pub charges :
      (d : Decision) {s : Service J S} {n : Snapshot} {g : ℕ}
      → I s n g
      → I s (after n (apply_decision n d)) g
  pub begins : {s : Service J S} {n : Snapshot} {g : ℕ} → I s n g → I s n (g + 1)

module _ {J S W : Type 0} (p : Plant J S W) where
  -- Performing changes the world of the agents and nothing of the service.
  abbrev pub Quiet : Performer (Acting J S W) → Type 0
  Quiet perf = (d : Decision) (a : Acting J S W) → (perf.perform d a).1.service ≡ a.service

  prompt_performer-Quiet : (session : String) → Quiet (prompt_performer p session)
  unfolding prompt_perform
  prompt_performer-Quiet session d a = go d.action
    where
      go : (x : Action) → (prompt_perform p session x a).1.service ≡ a.service
      go nudge = refl
      go cancel_and_follow_up = refl
      go attention_required = refl
      go stop = refl
      go none_action = refl
      go retry_session = refl
      go repair = refl
      go semantic_redirect = refl
      go start_verification = refl
      go complete = refl

  no_op_performer-Quiet : (x : Action) → Quiet (no_op_performer p x)
  no_op_performer-Quiet x d a = refl

  retry_performer-Quiet : (previous : String) → Quiet (retry_performer p previous)
  unfolding retry_perform
  retry_performer-Quiet previous d a = ground arith

  -- An execution with the performer that does nothing tells the bus of it, and that is all.
  pub run_decision_quiet :
      (x : Action) (d : Decision) (now : ℕ) (l : Loop J S W)
      → let l' = (run_decision p (no_op_performer p x) d now l).3 in
        (es : List Event) × (l'.service ≡ record l.service { bus = told p.env es l.service.bus })
        × (l'.world ≡ l.world)
  unfolding run_decision publish told
  run_decision_quiet x d now l =
      let only_told : Acting J S W → Type 0 = λ a.
        (es : List Event) × (a.service ≡ record l.service { bus = told p.env es l.service.bus })
        × (a.world ≡ l.world) in
      execute-keeps (executor p now) l.snapshot d (no_op_performer p x) {K = only_told}
        (record {
          publishing = λ e a (es, s, w). (e ∷ es, ap (λ t. announce p.env e t) s, w);
          performing = λ d a k. k;
        })
        (record { service = l.service; world = l.world; retried = none }) ([], refl, refl)

module _ {J S W : Type 0} {p : Plant J S W} {R : VerificationReport → Type 0}
    {I : Service J S → Snapshot → ℕ → Type 0} (inv : Invariant p R I) where
  -- The invariant, of the loop's variables.
  abbrev pub Holds : Loop J S W → Type 0
  Holds l = I l.service l.snapshot l.generation

  pub attend-Holds :
      (reason : String) (now : ℕ) (l : Loop J S W)
      → Holds l
      → Holds (loop_of (attend_and_leave p reason now l))
  unfolding attend_and_leave attend
  attend-Holds reason now l h = inv.attends reason now h

  pub transit-Holds :
      (to : TaskStatus) (reason : String) (now : ℕ) (l : Loop J S W)
      → is_status to completed ≡ false
      → Holds l
      → Holds (transit p to reason now l).1
  unfolding transit
  transit-Holds to reason now l e h = inv.transits to reason now e h

  -- What an execution leaves: the loop, and the loop with the snapshot that the execution returns.
  pub run_decision-Holds :
      (perf : Performer (Acting J S W)) (d : Decision) (now : ℕ) (l : Loop J S W)
      → Quiet p perf
      → Holds l
      → let (err, next, retried, l') = run_decision p perf d now l in
        Holds l' × Holds (record l' { snapshot = next })
  unfolding run_decision publish
  run_decision-Holds perf d now l q h =
      let a : Acting J S W = record { service = l.service; world = l.world; retried = none } in
      let keeps : (n : Snapshot) → Keeps (executor p now) perf (λ b. I b.service n l.generation) =
        λ n. record {
          publishing = λ x w k. inv.announces x k;
          performing = λ d w k. subst (λ s. I s n l.generation) (sym (q d w)) k;
        } in
      (
        execute-keeps (executor p now) l.snapshot d perf (keeps l.snapshot) a h,
        elim (execute-after (executor p now) l.snapshot d perf a) [
          | inl e ↦
              subst (λ n. I (run_decision p perf d now l).3.service n l.generation) (sym e)
                (execute-keeps (executor p now) l.snapshot d perf (keeps l.snapshot) a h)
          | inr e ↦
              subst (λ n. I (run_decision p perf d now l).3.service n l.generation) (sym e)
                (execute-keeps (executor p now) l.snapshot d perf (keeps _) a (inv.charges d h))
        ],
      )

  pub start_prompt-Holds :
      (display words source : String) (remember : Bool) (now : ℕ) (l : Loop J S W)
      → Holds l
      → Holds (start_prompt p display words source remember now l)
  unfolding start_prompt stop_mid_turn_review remember_prompt
  start_prompt-Holds display words source true now l h =
      inv.announces _ (inv.observes _ now _ (inv.begins h))
  start_prompt-Holds display words source false now l h =
      inv.announces _ (inv.observes _ now _ (inv.begins h))
