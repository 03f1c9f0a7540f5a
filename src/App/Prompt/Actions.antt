-- ===== src/App/Prompt/Actions.antt =====
-- internal/app/prompt.go: the rounds of the loop that take an operator's action from the mailbox.
use cyber_foreman.Prelude.{
  ℕ, ◌+◌, String, str_eq, Bool, true, false, not, ◌||◌, [], ◌∷◌, Option, none, some, if◌then◌else◌,
}
use cyber_foreman.Domain.{
  TaskStatus, running, permission, waiting, attention, is_status, agent_permission_done,
  agent_interrupt,
}
use cyber_foreman.Event.{text}
use cyber_foreman.Supervisor.Types.{Snapshot, Decision, cancel_and_follow_up, no_cost}
use cyber_foreman.Supervisor.Executor.{ExecuteError, error_text}
use cyber_foreman.App.Types.{
  ServiceError, action_unavailable, adapter_error, TaskAction, ActionKind, interrupt, continue,
  resolve_permission,
}
use cyber_foreman.App.Prompt.Texts.{build_session_recovery_prompt}
use cyber_foreman.App.Prompt.State.{
  Plant, Loop, reset_timer, new_prompt_snapshot, current_status, publish_fields, transit,
  run_decision, reply, numbered,
}
use cyber_foreman.App.Prompt.Performers.{prompt_performer}
use cyber_foreman.App.Prompt.Turn.{start_prompt, stop_mid_turn_review}

abbrev pub status_is : TaskStatus → Option TaskStatus → Bool
status_is s none = false
status_is s (some t) = is_status t s

module _ {J S W : Type 0} (p : Plant J S W) where
  abbrev pub permission_done : TaskAction → ℕ → Option ServiceError × Loop J S W → Loop J S W
  permission_done a now (some x, l) = reply (some x) l
  permission_done a now (none, l) = reply none (
      publish_fields p agent_permission_done
        (("request_id", text a.request_id) ∷ ("option_id", text a.option_id) ∷ []) now
        (record l {
          snapshot = record l.snapshot { status = running; last_progress_at = now };
          idle_timer = reset_timer p.runtime.policy.idle_timeout p.runtime.policy.idle_timeout;
        }))

  abbrev pub permission_answered : TaskAction → ℕ → Option String × W → Loop J S W → Loop J S W
  permission_answered a now (some e, w) l = reply (some (adapter_error e)) (record l { world = w })
  permission_answered a now (none, w) l = permission_done a now (
      transit p running "operator resolved the Agent permission request" now
        (record l { world = w }))

  -- `taskActionPermission`.
  unfoldable pub on_permission : TaskAction → ℕ → Loop J S W → Loop J S W
  on_permission a now l =
      if not (status_is permission (current_status p l)) || not l.prompt_active
      then reply (some action_unavailable) l
      else permission_answered a now
          (p.agents.resolve l.session_id a.request_id a.option_id l.world) l

  -- The text that a continued conversation sends: with the replay that a rebuilt session is owed.
  abbrev continued_text : TaskAction → Loop J S W → String
  continued_text a l =
      if l.replay_on_next_prompt
      then build_session_recovery_prompt l.trusted_prompts a.message
      else a.message

  abbrev pub continued : TaskAction → ℕ → Option ServiceError × Loop J S W → Loop J S W
  continued a now (some x, l) = reply (some x) l
  continued a now (none, l0) =
      let l1 = record l0 {
        snapshot = new_prompt_snapshot p.task_id p.runtime.policy now;
        replay_on_next_prompt = false;
      } in
      let l = start_prompt p a.message (continued_text a l0) "operator" true now l1 in
      reply none (record l {
        idle_timer = reset_timer p.runtime.policy.idle_timeout p.runtime.policy.idle_timeout;
        hard_timer = reset_timer p.runtime.policy.hard_timeout p.runtime.policy.hard_timeout;
      })

  -- `taskActionContinue`.
  unfoldable pub on_continue : TaskAction → ℕ → Loop J S W → Loop J S W
  on_continue a now l =
      if l.prompt_active || not (str_eq l.pending_follow_up "")
      then reply (some action_unavailable) l
      else if not
          (status_is waiting (current_status p l) || status_is attention (current_status p l))
      then reply (some action_unavailable) l
      else continued a now (transit p running "operator continued the conversation" now l)

  -- What follows an interrupt that was executed: the follow-up waits for the end of the turn.
  abbrev pub interrupted : String → String → Snapshot → Decision → ℕ → Loop J S W → Loop J S W
  interrupted follow_up source next d now l =
      publish_fields p agent_interrupt (("rule_id", text d.rule_id) ∷ []) now
        (record (stop_mid_turn_review p (record l {
          snapshot = next;
          pending_follow_up = follow_up;
          pending_follow_up_source = source;
        })) { idle_timer = none })

  abbrev pub operator_interrupt : Loop J S W → Decision
  operator_interrupt l = record {
    rule_id = "operator-interrupt";
    action = cancel_and_follow_up;
    reason = "operator interrupted the active agent turn";
    evidence = numbered p ":operator-action:" l.sequence ∷ [];
    dedupe_key = numbered p ":operator-action:" l.sequence;
    budget_cost = no_cost;
  }

  abbrev pub interrupt_done :
      TaskAction
      → Decision
      → ℕ
      → Option ExecuteError × Snapshot × Option String × Loop J S W
      → Loop J S W
  interrupt_done a d now (some x, next, retried, l) = reply (some (adapter_error (error_text x))) l
  interrupt_done a d now (none, next, retried, l) =
      reply none (interrupted a.message "operator" next d now l)

  -- `taskActionInterrupt`.
  unfoldable pub on_interrupt : TaskAction → ℕ → Loop J S W → Loop J S W
  on_interrupt a now l0 =
      let l = record l0 { sequence = l0.sequence + 1 } in
      if not l0.prompt_active || not (str_eq l0.pending_follow_up "")
      then reply (some action_unavailable) l0
      else interrupt_done a (operator_interrupt l) now
          (run_decision p (prompt_performer p l.session_id) (operator_interrupt l) now l)

  unfoldable pub act_by : ActionKind → TaskAction → ℕ → Loop J S W → Loop J S W
  act_by resolve_permission a now l = on_permission a now l
  act_by continue a now l = on_continue a now l
  act_by interrupt a now l = on_interrupt a now l

  -- `case action := <-runtime.actions`: no action ends the loop.
  unfoldable pub on_action : TaskAction → ℕ → Loop J S W → Loop J S W
  on_action a now l = act_by a.kind a now l
