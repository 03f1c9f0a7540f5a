-- ===== src/App/Prompt/Events.antt =====
-- internal/app/prompt.go: the rounds of the loop that take an event of the agent.
use cyber_foreman.Prelude.{
  ℕ, ◌+◌, String, str_eq, append, Bool, true, false, not, ◌&&◌, List, [], ◌∷◌, Option, none, some,
  if◌then◌else◌, ◌==◌,
}
use cyber_foreman.Domain.{
  running, permission, EventType, agent_permission, agent_disconnected as disconnected_event,
  is_zero_ℤ,
}
use cyber_foreman.Agent.{can_resolve_permission}
use cyber_foreman.Event.{Event, EventData, new_event, permission_request, disconnected}
use cyber_foreman.Supervisor.Types.{
  Snapshot, Observation, ObservationType, ObservationData, Decision, cancel_and_follow_up, no_cost,
  agent_disconnected, agent_exited, agent_progress, nil, exit,
}
use cyber_foreman.Supervisor.Executor.{ExecuteError, error_text}
use cyber_foreman.Supervisor.Progress.{
  is_meaningful_progress, is_agent_message_chunk, observation_from_event,
}
use cyber_foreman.App.Types.{ServiceError}
use cyber_foreman.App.Review.{append_bounded_response, agent_response_chunk}
use cyber_foreman.App.Prompt.State.{
  Plant, Loop, Outcome, stay, leave, service_error_text, reset_timer, current_status, publish,
  attend_and_leave, transit, run_decision, numbered,
}
use cyber_foreman.App.Prompt.Performers.{prompt_performer}
use cyber_foreman.App.Prompt.Turn.{recover_session, stop_mid_turn_review}
use cyber_foreman.App.Prompt.Actions.{interrupted, status_is}

abbrev some_options : {A : Type 0} → List A → Bool
some_options [] = false
some_options (x ∷ xs) = true

-- A permission request that names a request and offers options.
abbrev pub answerable : EventData → Bool
answerable (permission_request q) = not (str_eq q.request_id "") && some_options q.options
answerable _ = false

abbrev pub is_permission_event : EventType → Bool
is_permission_event agent_permission = true
is_permission_event _ = false

-- A disconnection, or an exit with a code that is not 0.
abbrev is_loss_type : ObservationType → ObservationData → Bool
is_loss_type agent_disconnected d = true
is_loss_type agent_exited (exit code) = not (is_zero_ℤ code)
is_loss_type _ _ = false

abbrev pub is_loss : Observation → Bool
is_loss o = is_loss_type o.type o.payload

-- Go's zero value where there is no observation.
abbrev pub or_zero : Option Observation → Observation
or_zero (some o) = o
or_zero none = record {
  id = "";
  task_id = "";
  session_id = "";
  type = agent_progress;
  timestamp = 0;
  payload = nil;
}

module _ {J S W : Type 0} (p : Plant J S W) where
  abbrev pub permission_recorded : ℕ → Option ServiceError × Loop J S W → Outcome J S W
  permission_recorded now (some x, l) =
      attend_and_leave p (append "record Agent permission request: " (service_error_text x)) now l
  permission_recorded now (none, l) =
      stay
        (record (stop_mid_turn_review p
          (record l { snapshot = record l.snapshot { status = permission } })) {
            idle_timer = none;
          })

  -- The part for permission requests.
  unfoldable pub on_permission_event : ℕ → Loop J S W → Outcome J S W
  on_permission_event now l =
      if not (can_resolve_permission p.runtime.adapter)
      then attend_and_leave p "Agent requested permission but its adapter cannot resolve it" now l
      else if status_is running (current_status p l)
      then permission_recorded now
          (transit p permission "Agent is waiting for operator permission" now l)
      else stay l

  abbrev pub first_output_interrupt : Loop J S W → Decision
  first_output_interrupt l = record {
    rule_id = "operator-interrupt";
    action = cancel_and_follow_up;
    reason = "operator requested an interrupt after the first agent output";
    evidence = numbered p ":event:" l.sequence ∷ [];
    dedupe_key = append p.task_id ":operator-interrupt";
    budget_cost = no_cost;
  }

  abbrev pub first_interrupt_done :
      Decision → ℕ → Option ExecuteError × Snapshot × Option String × Loop J S W → Outcome J S W
  first_interrupt_done d now (some x, next, retried, l) =
      attend_and_leave p (append "operator interrupt failed: " (error_text x)) now l
  first_interrupt_done d now (none, next, retried, l) =
      stay (record (interrupted p p.runtime.interrupt_with "operator" next d now l) {
        manual_interrupted = true;
      })

  -- The interrupt that the request has asked for, at the first output of the agent.
  unfoldable pub interrupt_at_output : Event → ℕ → Loop J S W → Outcome J S W
  interrupt_at_output e now l0 =
      let l = record l0 { sequence = l0.sequence + 1 } in
      if not (str_eq p.runtime.interrupt_with "")
        && (not l0.manual_interrupted
            && (l0.prompt_active && is_agent_message_chunk p.decode_update e))
      then first_interrupt_done (first_output_interrupt l) now
          (run_decision p (prompt_performer p l.session_id) (first_output_interrupt l) now l)
      else stay l0

  abbrev pub progressed : Event → ℕ → Loop J S W → Loop J S W
  progressed e now l =
      if is_meaningful_progress p.decode_update e
      then record l {
        snapshot = record l.snapshot {
          last_progress_at = if e.timestamp == 0 then now else e.timestamp;
        };
        idle_timer =
            if str_eq l.pending_follow_up ""
            then reset_timer p.runtime.policy.idle_timeout p.runtime.policy.idle_timeout
            else l.idle_timer;
      }
      else l

  abbrev pub heard : Event → Loop J S W → Loop J S W
  heard e l =
      let (response, runes) =
        append_bounded_response (l.turn_response, l.turn_response_runes)
          (agent_response_chunk p.decode_message e) in
      record l { turn_response = response; turn_response_runes = runes; sequence = l.sequence + 1 }

  abbrev pub observed : Event → ℕ → Option Observation → Loop J S W → Outcome J S W
  observed e now none l = interrupt_at_output e now (progressed e now l)
  observed e now (some o) l =
      let lost = recover_session p o l.prompt_active now l in
      if is_loss o then lost else interrupt_at_output e now (progressed e now l)

  -- `case event := <-events` while the stream is open.
  unfoldable pub on_event : Event → ℕ → Loop J S W → Outcome J S W
  on_event e now l0 =
      let l1 = publish p e l0 in
      let l2 = heard e l1 in
      if is_permission_event e.type && answerable e.payload
      then on_permission_event now l1
      else observed e now
          (observation_from_event p.decode_update (numbered p ":event:" l2.sequence) e) l2

  -- An event of a lost agent that the loop itself publishes, and its observation.
  unfoldable pub lose : String → String → Bool → ℕ → Loop J S W → Outcome J S W
  lose kind error resume_turn now l0 =
      let l = record l0 { sequence = l0.sequence + 1 } in
      let e = new_event p.task_id l.session_id disconnected_event now (disconnected error) in
      recover_session p
        (or_zero (observation_from_event p.decode_update (numbered p kind l.sequence) e))
        resume_turn now (publish p e l)

  -- `case event := <-events` once the stream is closed; `ended` says whether the context has ended.
  unfoldable pub on_closed : Bool → ℕ → Loop J S W → Outcome J S W
  on_closed ended now l =
      let lost = lose ":disconnect:" "agent event stream closed" l.prompt_active now l in
      if ended then leave l else lost
