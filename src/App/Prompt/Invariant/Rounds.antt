-- ===== src/App/Prompt/Invariant/Rounds.antt =====
-- internal/app/prompt.go: the loop of `consumePrompt` keeps its invariants.
use cyber_foreman.Prelude.{ℕ, Bool, ◌≡◌, refl, List, [], ◌∷◌}
use cyber_foreman.Supervisor.Types.{Snapshot}
use cyber_foreman.Event.{Event}
use cyber_foreman.App.Prompt.TurnEnd.{PromptOutcome}
use cyber_foreman.App.Types.{Service}
use cyber_foreman.App.Verify.{VerificationReport}
use cyber_foreman.App.Prompt.State.{Plant, Loop, Outcome, stay, leave, loop_of, new_prompt_snapshot}
use cyber_foreman.App.Prompt.Rounds.{
  Input, acted, event, closed, mid_turn_due, mid_turn_reviewed, ended_turn, idle_due, hard_due,
  waiting_due, done, round, rounds, begin,
}
use cyber_foreman.App.Prompt.Invariant.{report_of, Invariant, Holds, start_prompt-Holds}
use cyber_foreman.App.Prompt.Invariant.Actions.{on_action-Holds}
use cyber_foreman.App.Prompt.Invariant.Events.{on_event-Holds, on_closed-Holds}
use cyber_foreman.App.Prompt.Invariant.Timers.{
  on_mid_turn_due-Holds, on_mid_turn_outcome-Holds, on_idle_due-Holds, on_hard_due-Holds,
  on_waiting_due-Holds,
}
use cyber_foreman.App.Prompt.Invariant.TurnEnd.{on_outcome-Holds}

module _ {J S W : Type 0} {p : Plant J S W} {R : VerificationReport → Type 0}
    {I : Service J S → Snapshot → ℕ → Type 0} (inv : Invariant p R I) where
  -- Every round keeps an invariant.
  pub round-Holds :
      (now : ℕ) (i : Input) (l : Loop J S W)
      → ((ended : Bool) (o : PromptOutcome) (es : List Event)
          → i ≡ ended_turn ended o
          → R (report_of p now l es))
      → Holds inv l
      → Holds inv (loop_of (round p now i l))
  unfolding round
  round-Holds now (acted a) l k h = on_action-Holds inv a now l h
  round-Holds now (event e) l k h = on_event-Holds inv e now l h
  round-Holds now (closed b) l k h = on_closed-Holds inv b now l h
  round-Holds now mid_turn_due l k h = on_mid_turn_due-Holds inv l h
  round-Holds now (mid_turn_reviewed g r) l k h = on_mid_turn_outcome-Holds inv g r now l h
  round-Holds now (ended_turn b o) l k h = on_outcome-Holds inv b o now l (λ c. k b o c refl) h
  round-Holds now idle_due l k h = on_idle_due-Holds inv now l h
  round-Holds now hard_due l k h = on_hard_due-Holds inv now l h
  round-Holds now waiting_due l k h = on_waiting_due-Holds inv now l h
  round-Holds now done l k h = h

  pub rounds-Holds :
      ((r : VerificationReport) → R r)
      → (is : List (ℕ × Input)) (o : Outcome J S W) → Holds inv (loop_of o)
      → Holds inv (loop_of (rounds p is o))
  unfolding rounds
  rounds-Holds g [] o h = h
  rounds-Holds g ((now, i) ∷ is) (stay l) h =
      rounds-Holds g is (round p now i l) (round-Holds now i l (λ b o c e. g _) h)
  rounds-Holds g ((now, i) ∷ is) (leave l) h = h

  pub begin-Holds :
      (now : ℕ) (s : Service J S) (w : W)
      → I s (new_prompt_snapshot p.task_id p.runtime.policy now) 0
      → Holds inv (begin p now s w)
  unfolding begin
  begin-Holds now s w h = start_prompt-Holds inv _ _ _ _ now _ h
