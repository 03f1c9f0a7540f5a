-- ===== src/App/Queue.antt =====
-- internal/app/service.go: `queueTask`, which records a task before its agent is started, and
-- `restoreTasks`, which reads the tasks back after a restart.
pub mod Laws
use cyber_foreman.Prelude.{
  ℕ, String, str_eq, Bool, true, false, not, ◌&&◌, ◌||◌, List, [], ◌∷◌, Option, none, some, map,
  if◌then◌else◌, Map, lookup, insert, delete, ◌⊎◌, inl, inr,
}
use cyber_foreman.Domain.{
  Task, TaskKind, TaskStatus, command_kind, agent_kind, queued, attention, is_terminal,
  task_created,
}
use cyber_foreman.Agent.{Adapter, adapter_name, capabilities_of, status_of, metadata_of}
use cyber_foreman.Event.{Event, new_event, task_data}
use cyber_foreman.Event.Bus.Defs.{Env, publish_checked}
use cyber_foreman.Supervisor.Types.{Policy}
use cyber_foreman.App.Types.{
  ServiceError, missing_argument, adapter_error, forbidden, store_error, bus_error,
  VerificationRequest, Command, TaskStore, Service,
}
use cyber_foreman.App.Service.{put, publish_each, commit, state_event, attention_event}

pub record TaskSemanticReviewPolicy : Type 0 where
  pub final_review : Bool
  pub criteria : List String

pub record StartTaskRequest : Type 0 where
  pub adapter : String
  pub command : List String
  pub prompt : String
  pub model : String
  pub interrupt_with : String
  pub interactive : Bool
  pub worktree : Bool
  pub cwd : String
  pub verification : VerificationRequest
  pub supervision : Option Policy
  pub semantic_review : Option TaskSemanticReviewPolicy

pub record TaskAuthorization : Type 0 where
  pub adapter : String
  pub workspace : String
  pub command : List String
  pub verification_commands : List (List String)

-- The fields of the service that do not change, and `os.Getwd` (`inl` is its error). A policy answers
-- with the text of its refusal, if it refuses.
pub record Deployment : Type 0 where
  pub adapters : Map Adapter
  pub default_adapter : String
  pub request_policy : Option (TaskAuthorization → Option String)
  pub working_directory : String ⊎ String

abbrev pub is_empty : List String → Bool
is_empty [] = true
is_empty (x ∷ xs) = false

abbrev pub is_blank : String → Bool
is_blank s = str_eq s ""

abbrev pub same : Bool → Bool → Bool
same true b = b
same false b = not b

abbrev pub find_adapter : Option Adapter → ServiceError ⊎ Adapter
find_adapter none = inl (adapter_error "adapter not found")
find_adapter (some a) = inr a

abbrev pub adapter_wanted : Deployment → StartTaskRequest → String
adapter_wanted d req = if is_blank req.adapter then d.default_adapter else req.adapter

-- The checks of the adapter and of what it can do.
unfoldable pub usable : StartTaskRequest → Adapter → ServiceError ⊎ Adapter
usable req a =
    if not ((status_of a).installed && (status_of a).healthy)
    then inl (adapter_error "adapter unavailable")
    else if not (is_blank req.prompt) && not (capabilities_of a).prompt
    then inl (adapter_error "selected adapter does not support prompt tasks")
    else if not (is_empty req.command) && not (capabilities_of a).command
    then inl (adapter_error "selected adapter does not support command tasks")
    else inr a

abbrev or_working_directory : String ⊎ String → ServiceError ⊎ String
or_working_directory (inl e) = inl (adapter_error e)
or_working_directory (inr d) = inr d

unfoldable pub workspace : Deployment → StartTaskRequest → Adapter → ServiceError ⊎ String
workspace d req a =
    if not (is_blank req.cwd)
    then inr req.cwd
    else if not (is_blank (metadata_of a).default_workspace)
    then inr (metadata_of a).default_workspace
    else or_working_directory d.working_directory

abbrev pub authorization : Deployment → StartTaskRequest → String → TaskAuthorization
authorization d req cwd = record {
  adapter = adapter_wanted d req;
  workspace = cwd;
  command = req.command;
  verification_commands = map (λ c. c.argv) req.verification.commands;
}

abbrev pub ask : Option (TaskAuthorization → Option String) → TaskAuthorization → Option String
ask none q = none
ask (some p) q = p q

abbrev pub authorized : Option String → Adapter → String → ServiceError ⊎ (Adapter × String)
authorized none a cwd = inr (a, cwd)
authorized (some why) a cwd = inl (forbidden why)

abbrev pub and_then : {A B : Type 0} → ServiceError ⊎ A → (A → ServiceError ⊎ B) → ServiceError ⊎ B
and_then (inl e) f = inl e
and_then (inr a) f = f a

-- What `queueTask` checks before it makes the task: the adapter and the workspace, or the error.
unfoldable pub admit : Deployment → StartTaskRequest → ServiceError ⊎ (Adapter × String)
unfolding usable workspace
admit d req =
    if same (is_empty req.command) (is_blank req.prompt)
    then inl (missing_argument "exactly one of command or prompt is required")
    else and_then (find_adapter (lookup (adapter_wanted d req) d.adapters)) (λ a.
      and_then (usable req a) (λ b.
        and_then (workspace d req b)
          (λ cwd. authorized (ask d.request_policy (authorization d req cwd)) b cwd)))

abbrev pub new_task : String → StartTaskRequest → Adapter → String → ℕ → Task
new_task id req a cwd now = record {
  id = id;
  kind = if is_blank req.prompt then command_kind else agent_kind;
  adapter = adapter_name a;
  command = req.command;
  cwd = cwd;
  source_cwd = "";
  worktree_root = "";
  base_revision = "";
  status = queued;
  exit_code = none;
  error = "";
  created_at = now;
  updated_at = now;
}

abbrev pub created_event : Task → ℕ → Event
created_event t now = new_event t.id "" task_created now (task_data t)

abbrev pub restart_reason : String
restart_reason = "foreman restarted before the task reached a terminal state"

abbrev pub interrupted : ℕ → Task → Task
interrupted now t = record t { status = attention; error = restart_reason; updated_at = now }

abbrev pub unless_failed :
    {J S : Type 0}
    → Option ServiceError × Service J S
    → (Service J S → Option ServiceError × Service J S)
    → Option ServiceError × Service J S
unless_failed (some x, s) rest = (some x, s)
unless_failed (none, s) rest = rest s

module _ {J S : Type 0} (env : Env J) (ops : TaskStore S) where
  abbrev pub drop_stored : Option S → String → Option S
  drop_stored none id = none
  drop_stored (some st) id = some (ops.delete_task id st).1

  -- The creation is published, or the task is taken back.
  unfoldable pub recorded :
      Task
      → Adapter
      → Option ServiceError × Service J S
      → (ServiceError ⊎ (Task × Adapter)) × Service J S
  recorded t a (none, s) = (inr (t, a), s)
  recorded t a (some x, s) =
      (inl x, record s { tasks = delete t.id s.tasks; store = drop_stored s.store t.id })

  unfoldable pub written :
      Task
      → Adapter
      → ℕ
      → Option String × Option S
      → Service J S
      → (ServiceError ⊎ (Task × Adapter)) × Service J S
  unfolding recorded
  written t a now (some x, st) s = (inl (store_error x), record s { store = st })
  written t a now (none, st) s = recorded t a (
      publish_each env ops (record s { store = st; tasks = insert t.id t s.tasks })
        (created_event t now ∷ []))

  unfoldable pub admitted :
      String
      → StartTaskRequest
      → ℕ
      → ServiceError ⊎ (Adapter × String)
      → Service J S
      → (ServiceError ⊎ (Task × Adapter)) × Service J S
  unfolding written
  admitted id req now (inl x) s = (inl x, s)
  admitted id req now (inr (a, cwd)) s =
      let t = new_task id req a cwd now in written t a now (put env ops s.store t) s

  -- `Service.queueTask`; `id` is the new id and `now` the time.
  unfoldable pub queue_task :
      Deployment
      → StartTaskRequest
      → String
      → ℕ
      → Service J S
      → (ServiceError ⊎ (Task × Adapter)) × Service J S
  unfolding admitted
  queue_task d req id now s = admitted id req now (admit d req) s

  -- A restored task: as it is, or stored again, put in the map and announced. The error ends the loop.
  unfoldable pub restore_one : ℕ → Task → Service J S → Option ServiceError × Service J S
  restore_one now t s =
      if is_terminal t.status
      then (none, record s { tasks = insert t.id t s.tasks })
      else commit env ops t.id (interrupted now t)
          (state_event t.id t.status attention restart_reason now
            ∷ attention_event t.id restart_reason now
            ∷ [])
          s

  -- The loop of `restoreTasks`; `clock` tells when each task is restored.
  unfoldable pub restore_each :
      (Task → ℕ) → List Task → Service J S → Option ServiceError × Service J S
  restore_each clock [] s = (none, s)
  restore_each clock (t ∷ ts) s =
      unless_failed (restore_one (clock t) t s) (λ s'. restore_each clock ts s')

  abbrev pub restore_listed :
      (Task → ℕ) → String ⊎ List Task → Service J S → Option ServiceError × Service J S
  restore_listed clock (inl e) s = (some (store_error e), s)
  restore_listed clock (inr ts) s = restore_each clock ts s

  abbrev pub restore_from : (Task → ℕ) → Option S → Service J S → Option ServiceError × Service J S
  restore_from clock none s = (none, s)
  restore_from clock (some st) s = restore_listed clock (ops.list_tasks st) s

  -- `Service.restoreTasks`, which is called where there is a store.
  unfoldable pub restore_tasks : (Task → ℕ) → Service J S → Option ServiceError × Service J S
  restore_tasks clock s = restore_from clock s.store s
