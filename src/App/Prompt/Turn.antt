-- ===== src/App/Prompt/Turn.antt =====
-- internal/app/prompt.go: how a turn begins, and how a lost session is rebuilt (`startPrompt` and
-- `recoverSession`, the closures of `consumePrompt`).
use cyber_foreman.Prelude.{
  ℕ, ◌+◌, ◌*◌, String, str_eq, append, Bool, true, false, not, ◌&&◌, ◌||◌, List, [], ◌∷◌, ◌++◌,
  Option, none, some, if◌then◌else◌, Map, lookup, insert,
}
use cyber_foreman.Domain.{
  TaskStatus, ConversationMessageData, conversation_message, agent_follow_up, running, recovering,
  permission, waiting, is_status,
}
use cyber_foreman.Event.{new_event, message, text}
use cyber_foreman.Supervisor.Types.{
  Snapshot, Observation, Decision, is_action, retry_session, attention_required,
}
use cyber_foreman.Supervisor.Engine.{evaluate}
use cyber_foreman.Supervisor.Executor.{ExecuteError, error_text}
use cyber_foreman.App.Types.{ServiceError, Runtime}
use cyber_foreman.App.Prompt.Texts.{session_recovery_prompt}
use cyber_foreman.App.Prompt.State.{
  Plant, Loop, Outcome, stay, action_text, service_error_text, reset_timer, current_status, publish,
  publish_fields, attend_and_leave, transit, run_decision,
}
use cyber_foreman.App.Prompt.Performers.{no_op_performer, retry_performer}

-- `nextIdleDelay`.
unfoldable pub next_idle_delay : Snapshot → ℕ
next_idle_delay s = (1 + s.budget.nudges + s.budget.retries) * s.policy.idle_timeout

abbrev or_empty : Option String → String
or_empty none = ""
or_empty (some s) = s

-- The statuses in which a lost session is rebuilt, and the one that the task gets back.
abbrev pub is_recoverable : TaskStatus → Bool
is_recoverable s = is_status s running || (is_status s waiting || is_status s permission)

abbrev pub restored_status : TaskStatus → Bool → TaskStatus
restored_status previous resume_turn =
    if is_status previous permission && resume_turn then running else previous

module _ {J S W : Type 0} (p : Plant J S W) where
  -- `stopMidTurnReview`. The review whose context is cancelled may still answer.
  unfoldable pub stop_mid_turn_review : Loop J S W → Loop J S W
  stop_mid_turn_review l = record l { mid_turn_timer = none; mid_turn_active = false }

  abbrev user_message : String → String → ConversationMessageData
  user_message words source = record { role = "user"; source = source; text = words }

  -- `rememberPrompt`.
  unfoldable pub remember_prompt : String → String → ℕ → Loop J S W → Loop J S W
  remember_prompt words source now l =
      publish p
        (new_event p.task_id l.session_id conversation_message now
          (message (user_message words source)))
        (record l { trusted_prompts = l.trusted_prompts ++ user_message words source ∷ [] })

  abbrev begin_turn : String → String → ℕ → Loop J S W → Loop J S W
  begin_turn display source now l = record l {
    waiting_timer = none;
    mid_turn_reviews = 0;
    turn_response = "";
    turn_response_runes = 0;
    current_instruction = display;
    current_instruction_source = source;
    prompt_active = true;
    generation = l.generation + 1;
    snapshot = record l.snapshot { last_progress_at = now };
  }

  abbrev show_prompt : Bool → String → String → ℕ → Loop J S W → Loop J S W
  show_prompt true display source now l = remember_prompt display source now l
  show_prompt false display source now l =
      publish p
        (new_event p.task_id l.session_id conversation_message now
          (message (user_message display source)))
        l

  abbrev send_prompt : String → Loop J S W → Loop J S W
  send_prompt words l = record l {
    world = p.agents.prompt l.session_id words l.world;
    mid_turn_timer =
        if p.mid_turn.enabled
        then reset_timer p.mid_turn.interval p.mid_turn.interval
        else l.mid_turn_timer;
  }

  -- `startPrompt`.
  unfoldable pub start_prompt : String → String → String → Bool → ℕ → Loop J S W → Loop J S W
  start_prompt display words source remember now l = send_prompt words (
      show_prompt remember display source now
        (begin_turn display source now (stop_mid_turn_review l)))

  abbrev with_session : String → Option Runtime → Map Runtime → Map Runtime
  with_session session none runtimes = runtimes
  with_session session (some r) runtimes =
      insert p.task_id (record r { session_id = session }) runtimes

  -- The rebuilt session becomes the loop's and the one of the stored runtime. (Where the task was deleted
  -- meanwhile, the code stores a runtime without an adapter for a moment, which the model has not.)
  unfoldable pub adopt_session : Option String → Loop J S W → Loop J S W
  adopt_session retried l =
      let session = or_empty retried in
      record l {
        session_id = session;
        service = record l.service {
          runtimes = with_session session (lookup p.task_id l.service.runtimes) l.service.runtimes;
        };
      }

  -- The last part of `recoverSession`: the turn is sent again, or the next prompt will replay it.
  unfoldable pub resume : Decision → Bool → TaskStatus → ℕ → Loop J S W → Loop J S W
  resume d resume_turn restored now l0 =
      let l = record l0 {
        snapshot = record l0.snapshot { status = restored; last_progress_at = now };
      } in
      if resume_turn
      then (let replay = session_recovery_prompt l.trusted_prompts in
          let l1 = start_prompt replay replay "supervisor" false now (
            publish_fields p agent_follow_up
              (("stop_reason", text "agent_disconnected")
                ∷ ("rule_id", text d.rule_id)
                ∷ ("context_replay", text "trusted_instructions_and_workspace")
                ∷ [])
              now l) in
          record l1 {
            idle_timer = reset_timer p.runtime.policy.idle_timeout (next_idle_delay l1.snapshot);
          })
      else record l { replay_on_next_prompt = true }

  abbrev pub after_restore :
      Decision → Bool → TaskStatus → ℕ → Option ServiceError × Loop J S W → Outcome J S W
  after_restore d resume_turn restored now (some x, l) =
      attend_and_leave p (append "leave recovery state: " (service_error_text x)) now l
  after_restore d resume_turn restored now (none, l) = stay (resume d resume_turn restored now l)

  unfoldable pub after_retry :
      Decision
      → Bool
      → TaskStatus
      → ℕ
      → Option ExecuteError × Snapshot × Option String × Loop J S W
      → Outcome J S W
  after_retry d resume_turn previous now (some x, next, retried, l) =
      attend_and_leave p (append "agent session recovery failed: " (error_text x)) now
        (record l { snapshot = next })
  after_retry d resume_turn previous now (none, next, retried, l) =
      let restored = restored_status previous resume_turn in
      after_restore d resume_turn restored now (
        transit p restored "agent session rebuilt" now
          (adopt_session retried (record l { snapshot = next })))

  -- The follow-up that was waiting for the end of the lost turn is remembered for the replay.
  abbrev pub keep_follow_up : ℕ → Loop J S W → Loop J S W
  keep_follow_up now l =
      if not (str_eq l.pending_follow_up "")
      then record (remember_prompt l.pending_follow_up l.pending_follow_up_source now l) {
        pending_follow_up = "";
        pending_follow_up_source = "";
      }
      else l

  abbrev pub after_recovering :
      Decision → Bool → TaskStatus → ℕ → Option ServiceError × Loop J S W → Outcome J S W
  after_recovering d resume_turn previous now (some x, l) =
      attend_and_leave p (append "enter recovery state: " (service_error_text x)) now l
  after_recovering d resume_turn previous now (none, l) =
      let l1 = stop_mid_turn_review (record l {
        snapshot = record l.snapshot { status = recovering };
        generation = l.generation + 1;
        prompt_active = false;
      }) in
      let l2 = keep_follow_up now l1 in
      after_retry d (resume_turn || not (str_eq l.pending_follow_up "")) previous now
        (run_decision p (retry_performer p l2.session_id) d now l2)

  unfoldable pub retry_from : Decision → Bool → ℕ → Option TaskStatus → Loop J S W → Outcome J S W
  retry_from d resume_turn now none l =
      attend_and_leave p "agent disconnected outside a recoverable task state" now l
  retry_from d resume_turn now (some s) l =
      if not (is_recoverable s)
      then attend_and_leave p "agent disconnected outside a recoverable task state" now l
      else after_recovering d resume_turn s now
          (transit p recovering "agent disconnected; rebuilding session" now l)

  -- The snapshot that an execution returns is taken over, and its error is ignored.
  abbrev pub take_over : Option ExecuteError × Snapshot × Option String × Loop J S W → Loop J S W
  take_over (err, next, retried, l) = record l { snapshot = next }

  unfoldable pub recover_by : Bool → ℕ → List Decision → Loop J S W → Outcome J S W
  recover_by resume_turn now [] l =
      attend_and_leave p "supervisor did not resolve agent disconnection" now l
  recover_by resume_turn now (d ∷ e ∷ ds) l =
      attend_and_leave p "supervisor did not resolve agent disconnection" now l
  recover_by resume_turn now (d ∷ []) l =
      if is_action d.action attention_required
      then attend_and_leave p d.reason now
          (take_over (run_decision p (no_op_performer p attention_required) d now l))
      else if not (is_action d.action retry_session)
      then attend_and_leave p (append "unsupported disconnection action: " (action_text d.action))
          now l
      else retry_from d resume_turn now (current_status p l) l

  -- `recoverSession`: `stay` where the code returns true.
  unfoldable pub recover_session : Observation → Bool → ℕ → Loop J S W → Outcome J S W
  recover_session o resume_turn now l = recover_by resume_turn now (evaluate l.snapshot o) l
