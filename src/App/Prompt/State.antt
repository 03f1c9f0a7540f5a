-- ===== src/App/Prompt/State.antt =====
-- internal/app/prompt.go: what `consumePrompt` holds between two rounds of its loop, and what it calls.
use cyber_foreman.Prelude.{
  ℕ, String, append, itoa, Bool, false, List, [], ◌∷◌, Option, none, some, if◌then◌else◌, lookup,
  ◌⊎◌, ◌==◌, ◌||◌,
}
use cyber_foreman.Domain.{
  Task, TaskStatus, EventType, ConversationMessageData, queued, running, recovering, verifying,
  permission, waiting, completed, failed, stopped, attention,
}
use cyber_foreman.Agent.{StartRequest}
use cyber_foreman.Event.{Event, FieldValue, new_event, fields}
use cyber_foreman.Event.Bus.Defs.{Env}
use cyber_foreman.Supervisor.Types.{
  Snapshot, Policy, Action, Decision, no_cost, none_action, nudge, cancel_and_follow_up,
  retry_session, repair, semantic_redirect, start_verification, complete, attention_required, stop,
}
use cyber_foreman.Supervisor.Semantic.{SemanticMidTurnPolicy}
use cyber_foreman.Supervisor.Executor.{Executor, Performer, ExecuteError, execute}
use cyber_foreman.Verification.Command.{System}
use cyber_foreman.Verification.Workspace.{Checkout}
use cyber_foreman.App.Types.{
  ServiceError, task_not_found, task_not_running, action_unavailable, task_not_deletable,
  invalid_transition, store_error, bus_error, missing_argument, adapter_error, forbidden,
  context_ended, semantic_unavailable, review_failed, Runtime, TaskStore, Service,
}
use cyber_foreman.App.Service.{announce, transition, require_attention}
use cyber_foreman.App.Review.{Reviewer, TaskReviewContext}

-- The calls of the adapter of a session, over the world `W`; an error is its text. `prompt` starts the
-- goroutine that sends a prompt, whose result comes back as an input of the loop, and `review` the one
-- that reviews an active turn.
pub record Agents (W : Type 0) : Type 0 where
  pub start : StartRequest → W → (String ⊎ String) × W
  pub subscribe : String → W → Option String × W
  pub set_model : String → String → W → Option String × W
  pub cancel : String → W → Option String × W
  pub stop : String → W → Option String × W
  pub resolve : String → String → String → W → Option String × W
  pub prompt : String → String → W → W
  pub review : String → String → W → W

-- What stays the same while the loop runs: the parameters of the model, the task and its runtime as the loop
-- found it, and the policy for reviews of active turns, as `consumePrompt` has corrected it.
pub record Plant (J S W : Type 0) : Type 0 where
  pub env : Env J
  pub ops : TaskStore S
  pub agents : Agents W
  pub reviewer : Option (Reviewer W)
  pub sys : System W
  pub checkout : Checkout W
  pub trim : String → String
  pub decode_update : String → Option String
  pub decode_message : String → Option String
  pub task_id : String
  pub runtime : Runtime
  pub mid_turn : SemanticMidTurnPolicy

-- The local variables of `consumePrompt`. A timer is the duration for which its channel is armed, or `none`
-- where the channel is nil. `replies` are the results sent back for actions, the last one first.
pub record Loop (J S W : Type 0) : Type 0 where
  pub service : Service J S
  pub world : W
  pub snapshot : Snapshot
  pub session_id : String
  pub prompt_active : Bool
  pub generation : ℕ
  pub trusted_prompts : List ConversationMessageData
  pub replay_on_next_prompt : Bool
  pub turn_response : String
  pub turn_response_runes : ℕ
  pub current_instruction : String
  pub current_instruction_source : String
  pub mid_turn_active : Bool
  pub mid_turn_reviews : ℕ
  pub mid_turn_timer : Option ℕ
  pub idle_timer : Option ℕ
  pub hard_timer : Option ℕ
  pub waiting_timer : Option ℕ
  pub sequence : ℕ
  pub pending_follow_up : String
  pub pending_follow_up_source : String
  pub manual_interrupted : Bool
  pub review_context : Option TaskReviewContext
  pub replies : List (Option ServiceError)

-- A round ends with the next one, or with the end of the loop.
pub data Outcome (J S W : Type 0) : Type 0 where
  stay : Loop J S W → Outcome J S W
  leave : Loop J S W → Outcome J S W

abbrev pub loop_of : {J S W : Type 0} → Outcome J S W → Loop J S W
loop_of (stay l) = l
loop_of (leave l) = l

abbrev pub status_text : TaskStatus → String
status_text queued = "queued"
status_text running = "running"
status_text recovering = "recovering"
status_text verifying = "verifying"
status_text permission = "waiting_permission"
status_text waiting = "waiting_input"
status_text completed = "completed"
status_text failed = "failed"
status_text stopped = "stopped"
status_text attention = "attention_required"

abbrev pub action_text : Action → String
action_text none_action = "none"
action_text nudge = "nudge"
action_text cancel_and_follow_up = "cancel_and_follow_up"
action_text retry_session = "retry_session"
action_text repair = "repair"
action_text semantic_redirect = "semantic_redirect"
action_text start_verification = "start_verification"
action_text complete = "complete"
action_text attention_required = "attention_required"
action_text stop = "stop"

-- `err.Error()` of the errors that the service's operations return.
abbrev pub service_error_text : ServiceError → String
service_error_text task_not_found = "task not found"
service_error_text task_not_running = "task is not running"
service_error_text action_unavailable = "task action is unavailable"
service_error_text task_not_deletable = "running task must be stopped before deletion"
service_error_text (invalid_transition a b) =
    append "invalid task state transition: "
      (append (status_text a) (append " -> " (status_text b)))
service_error_text (store_error e) = e
service_error_text (bus_error e) = e
service_error_text (missing_argument e) = e
service_error_text (adapter_error e) = e
service_error_text (forbidden e) = e
service_error_text (context_ended e) = e
service_error_text semantic_unavailable = "semantic supervisor is unavailable"
service_error_text review_failed = "semantic result review failed"

-- `resetTaskTimer` on a timer that exists if its `base` is positive.
unfoldable pub reset_timer : ℕ → ℕ → Option ℕ
reset_timer base duration = if base == 0 || duration == 0 then none else some duration

-- `newPromptSnapshot`.
unfoldable pub new_prompt_snapshot : String → Policy → ℕ → Snapshot
new_prompt_snapshot id policy now = record {
  task_id = id;
  status = running;
  started_at = now;
  last_progress_at = now;
  idle_sequence = 0;
  policy = policy;
  budget = no_cost;
  verification = record {
    test_finished = false;
    test_passed = false;
    git_finished = false;
    git_passed = false;
  };
  applied_decisions = [];
}

-- What an execution acts on: the service, the world, and the session that a retry has started.
pub record Acting (J S W : Type 0) : Type 0 where
  pub service : Service J S
  pub world : W
  pub retried : Option String

abbrev pub status_in : Option Task → Option TaskStatus
status_in none = none
status_in (some t) = some t.status

module _ {J S W : Type 0} where
  abbrev pub on_service : (Service J S → Service J S) → Loop J S W → Loop J S W
  on_service f l = record l { service = f l.service }

  -- The status of the loop's task, or `none` where `GetTask` fails.
  abbrev pub current_status : Plant J S W → Loop J S W → Option TaskStatus
  current_status p l = status_in (lookup p.task_id l.service.tasks)

  abbrev pub publish : Plant J S W → Event → Loop J S W → Loop J S W
  publish p e l = record l { service = announce p.env e l.service }

  -- An event of the loop's task and session with a map of fields.
  abbrev pub publish_fields :
      Plant J S W → EventType → List (String × FieldValue) → ℕ → Loop J S W → Loop J S W
  publish_fields p type fs now l =
      publish p (new_event p.task_id l.session_id type now (fields fs)) l

  -- `_ = s.requireAttention(taskID, reason)`.
  unfoldable pub attend : Plant J S W → String → ℕ → Loop J S W → Loop J S W
  attend p reason now l = record l {
    service = (require_attention p.env p.ops p.task_id reason now l.service).1;
  }

  unfoldable pub attend_and_leave : Plant J S W → String → ℕ → Loop J S W → Outcome J S W
  unfolding attend
  attend_and_leave p reason now l = leave (attend p reason now l)

  -- `s.transition(taskID, to, reason)`.
  unfoldable pub transit :
      Plant J S W → TaskStatus → String → ℕ → Loop J S W → Option ServiceError × Loop J S W
  transit p to reason now l =
      let (err, s) = transition p.env p.ops p.task_id to reason now l.service in
      (err, record l { service = s })

  -- `Executor{Publisher: s.bus}`, in a round at one time.
  abbrev pub executor : Plant J S W → ℕ → Executor (Acting J S W)
  executor p now = record {
    publisher = some (λ e a. record a { service = announce p.env e a.service });
    clock = none;
    system = λ a. now;
  }

  -- `executor.Execute` on the loop's snapshot. The snapshot that it returns is handed out, and not yet the
  -- loop's; so is the session of a retry.
  unfoldable pub run_decision :
      Plant J S W
      → Performer (Acting J S W)
      → Decision
      → ℕ
      → Loop J S W
      → Option ExecuteError × Snapshot × Option String × Loop J S W
  run_decision p performer d now l =
      let ((next, r, err), a) =
        execute (executor p now) l.snapshot d (some performer)
          (record { service = l.service; world = l.world; retried = none }) in
      (err, next, a.retried, record l { service = a.service; world = a.world })

  abbrev pub reply : Option ServiceError → Loop J S W → Loop J S W
  reply r l = record l { replies = r ∷ l.replies }

  -- `fmt.Sprintf("%s:kind:%d", taskID, number)`.
  abbrev pub numbered : Plant J S W → String → ℕ → String
  numbered p kind n = append p.task_id (append kind (itoa n))
