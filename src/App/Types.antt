-- ===== src/App/Types.antt =====
-- internal/app/service.go: the state of the service and what it calls.
use cyber_foreman.Prelude.{ℕ, String, Bool, Option, List, Map, ◌⊎◌}
use cyber_foreman.Domain.{Task, TaskStatus}
use cyber_foreman.Agent.{Adapter, StartRequest}
use cyber_foreman.Supervisor.Types.{Policy}
use cyber_foreman.Verification.Workspace.{WorkspacePolicy, WorkspaceBaseline}
use cyber_foreman.Event.Bus.Defs.{Bus}

pub data ServiceError : Type 0 where
  task_not_found task_not_running action_unavailable task_not_deletable : ServiceError
  invalid_transition : TaskStatus → TaskStatus → ServiceError
  store_error : String → ServiceError
  bus_error : String → ServiceError
  missing_argument : String → ServiceError
  adapter_error : String → ServiceError
  forbidden : String → ServiceError
  context_ended : String → ServiceError
  semantic_unavailable review_failed : ServiceError

-- internal/verification/command.go, `Command`.
pub record Command : Type 0 where
  pub argv : List String
  pub timeout : ℕ

pub record VerificationRequest : Type 0 where
  pub commands : List Command
  pub workspace : Bool
  pub workspace_policy : WorkspacePolicy

pub data ActionKind : Type 0 where
  interrupt continue resolve_permission : ActionKind

-- `taskAction`, less the channel on which its result comes back.
pub record TaskAction : Type 0 where
  pub kind : ActionKind
  pub message : String
  pub request_id : String
  pub option_id : String

-- `taskRuntime`. `actions` is what waits in the mailbox, a channel that holds one; `reviewer` says
-- whether a semantic reviewer is installed and `review_ready` whether a review context is stored.
pub record Runtime : Type 0 where
  pub adapter : Adapter
  pub session_id : String
  pub start_request : StartRequest
  pub model : String
  pub actions : List TaskAction
  pub verification : VerificationRequest
  pub baseline : Option WorkspaceBaseline
  pub prompt : String
  pub interrupt_with : String
  pub interactive : Bool
  pub policy : Policy
  pub reviewer : Bool
  pub semantic_final : Bool
  pub semantic_criteria : List String
  pub review_ready : Bool

-- What the service does to a running session: its context is cancelled, its adapter is told to stop it.
-- Errors of `Stop` are ignored by the code.
pub data SessionCall : Type 0 where
  cancelled : String → SessionCall
  stopped_session : String → SessionCall

-- internal/storage/store.go, `TaskStore`, over a state `S` of its own; an error is its text.
pub record TaskStore (S : Type 0) : Type 0 where
  pub put_task : Task → S → Option String × S
  pub delete_task : String → S → Option String × S
  pub list_tasks : S → String ⊎ List Task

-- `Service`: the two maps under its mutex, the optional store, the bus, and the calls made to sessions,
-- the last one first.
pub record Service (J S : Type 0) : Type 0 where
  pub tasks : Map Task
  pub runtimes : Map Runtime
  pub store : Option S
  pub bus : Bus J
  pub session_calls : List SessionCall
