-- ===== src/Tests/Control.antt =====
-- The operations of an operator, the queue and the restart of internal/app/service.go at concrete inputs.
use cyber_foreman.Prelude.{
  String, true, false, not, ◌≡◌, refl, List, [], ◌∷◌, none, some, Map, lookup, insert, delete, inr,
}
use cyber_foreman.Domain.{
  Task, TaskStatus, agent_kind, running, waiting, attention, completed, is_terminal,
}
use cyber_foreman.Verification.Workspace.{WorkspacePolicy}
use cyber_foreman.Agent.{Adapter, driver}
use cyber_foreman.Supervisor.Types.{default_policy}
use cyber_foreman.Event.Bus.Defs.{new_bus, publish_checked, record_history}
use cyber_foreman.App.Types.{
  VerificationRequest, Service, TaskStore, Runtime, SessionCall, cancelled, stopped_session,
}
use cyber_foreman.App.Service.{moved, transition, commit, publish_each}
use cyber_foreman.Task.{can_transition}
use cyber_foreman.App.Control.{stop_task, finish_task, delete_task, available_actions}
use cyber_foreman.App.Control.Laws.{is_offered, Deleted, delete_task_cases, finish_task_done}
use cyber_foreman.App.Queue.{
  StartTaskRequest, Deployment, admit, ask, authorization, adapter_wanted, is_empty, is_blank,
  queue_task, restore_tasks, restore_each, restore_one,
}
use cyber_foreman.App.Queue.Laws.{
  Queued, is_fit, queue_task_cases, admit_checked, restore_tasks-terminal,
}
use cyber_foreman.Tests.Bus.{env}

abbrev pub task_at : String → TaskStatus → Task
task_at id status = record {
  id = id;
  kind = agent_kind;
  adapter = "codex";
  command = [];
  cwd = "/w";
  source_cwd = "";
  worktree_root = "";
  base_revision = "";
  status = status;
  exit_code = none;
  error = "";
  created_at = 1;
  updated_at = 1;
}

-- A store that lists three tasks, one of them in the middle of its run.
abbrev pub store_of_three : TaskStore (Map Task)
store_of_three = record {
  put_task = λ t m. (none, insert t.id t m);
  delete_task = λ id m. (none, delete id m);
  list_tasks = λ m. inr (task_at "a" completed ∷ task_at "b" running ∷ task_at "c" attention ∷ []);
}

abbrev pub codex : Adapter
codex = driver (record {
  name = "codex";
  capabilities = record {
    command = false;
    structured_events = true;
    resume_session = true;
    prompt = true;
    mid_turn_message = false;
    cancel_turn = true;
    session_config = true;
    tool_events = true;
    permission_events = true;
  };
  status = none;
  metadata = none;
  resolves = true;
})

abbrev pub any_changes : WorkspacePolicy
any_changes = record {
  ignored_paths = [];
  sensitive_paths = [];
  max_files = 0;
  max_file_size = 0;
  max_total_size = 0;
  require_changes = false;
}

abbrev pub no_verification : VerificationRequest
no_verification = record { commands = []; workspace = false; workspace_policy = any_changes }

abbrev pub session : Runtime
session = record {
  adapter = codex;
  session_id = "s1";
  start_request = record { task_id = "t"; command = []; cwd = "/w" };
  model = "";
  actions = [];
  verification = no_verification;
  baseline = none;
  prompt = "fix it";
  interrupt_with = "";
  interactive = true;
  policy = default_policy;
  reviewer = false;
  semantic_final = true;
  semantic_criteria = [];
  review_ready = false;
}

abbrev pub waiting_service : Service Unit (Map Task)
waiting_service = record {
  tasks = ("t", task_at "t" waiting) ∷ [];
  runtimes = ("t", session) ∷ [];
  store = some [];
  bus = new_bus 4 none;
  session_calls = [];
}

abbrev empty_service : Service Unit (Map Task)
empty_service = record {
  tasks = [];
  runtimes = [];
  store = some [];
  bus = new_bus 4 none;
  session_calls = [];
}

offered : available_actions "t" waiting_service ≡ "continue" ∷ "finish" ∷ "cancel" ∷ "delete" ∷ []
unfolding available_actions lookup is_terminal
offered = refl

delete_task_cases_example :
    Deleted env store_of_three "t" waiting_service
      (delete_task env store_of_three "t" waiting_service)
delete_task_cases_example = delete_task_cases env store_of_three "t" waiting_service

finishes : (finish_task env store_of_three "t" 5 waiting_service).0 ≡ none
unfolding finish_task lookup transition can_transition commit publish_each publish_checked new_bus
finishes = refl

finish_task_done_example :
    (t : Task) × (r : Runtime) × (lookup "t" waiting_service.tasks ≡ some t)
    × (lookup "t" waiting_service.runtimes ≡ some r)
    × ((t.kind ≡ agent_kind) × (t.status ≡ waiting) × (r.interactive ≡ true))
    × (is_offered "finish" "t" waiting_service ≡ true)
    × (lookup "t" (finish_task env store_of_three "t" 5 waiting_service).1.tasks
        ≡ some (moved completed 5 t))
    × ((calls : List SessionCall) × ((finish_task env store_of_three "t" 5
            waiting_service).1.session_calls
          ≡ stopped_session r.session_id ∷ cancelled "t" ∷ calls))
finish_task_done_example = finish_task_done env store_of_three "t" 5 waiting_service finishes

stops : (stop_task env store_of_three "t" 5 waiting_service).0 ≡ none
unfolding stop_task lookup is_terminal transition can_transition commit publish_each publish_checked
    new_bus
stops = refl

abbrev pub request : StartTaskRequest
request = record {
  adapter = "";
  command = [];
  prompt = "fix it";
  model = "";
  interrupt_with = "";
  interactive = true;
  worktree = false;
  cwd = "/w";
  verification = no_verification;
  supervision = none;
  semantic_review = none;
}

abbrev pub deployment : Deployment
deployment = record {
  adapters = ("codex", codex) ∷ [];
  default_adapter = "codex";
  request_policy = some (λ q. none);
  working_directory = inr "/home";
}

admits : admit deployment request ≡ inr (codex, "/w")
unfolding admit lookup
admits = refl

admit_checked_example :
    (is_empty request.command ≡ not (is_blank request.prompt))
    × (lookup (adapter_wanted deployment request) deployment.adapters ≡ some codex)
    × (is_fit request codex ≡ true)
    × (ask deployment.request_policy (authorization deployment request "/w") ≡ none)
admit_checked_example = admit_checked deployment request codex "/w" admits

unused : lookup "n" waiting_service.tasks ≡ none
unfolding lookup
unused = refl

queue_task_cases_example :
    Queued env store_of_three deployment request "n" 7 waiting_service
      (queue_task env store_of_three deployment request "n" 7 waiting_service)
queue_task_cases_example =
    queue_task_cases env store_of_three deployment request "n" 7 waiting_service unused

restores :
    lookup "b" (restore_tasks env store_of_three (λ t. 9) empty_service).1.tasks
    ≡ some (record (task_at "b" attention) {
      error = "foreman restarted before the task reached a terminal state";
      updated_at = 9;
    })
unfolding restore_tasks lookup restore_each restore_one is_terminal commit publish_each
    publish_checked new_bus record_history insert
restores = refl

restore_tasks-terminal_example : is_terminal attention ≡ true
restore_tasks-terminal_example =
    restore_tasks-terminal env store_of_three (λ t. 9) empty_service "b" refl restores
