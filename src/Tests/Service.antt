-- ===== src/Tests/Service.antt =====
-- internal/app/service.go at concrete inputs.
use cyber_foreman.Prelude.{
  ◌≡◌, refl, inl, inr, List, [], ◌∷◌, none, some, Map, lookup, insert, delete,
}
use cyber_foreman.Domain.{Task, TaskStatus, agent_kind, queued, running, verifying, completed, pos}
use cyber_foreman.Task.Graph.{Reach}
use cyber_foreman.Event.Bus.Defs.{new_bus}
use cyber_foreman.App.Types.{Service, TaskStore}
use cyber_foreman.App.Service.History.{
  Update, transitions, fails, updates, updates-Reach, final_stays,
}
use cyber_foreman.Tests.Bus.{env}

abbrev memory_store : TaskStore (Map Task)
memory_store = record {
  put_task = λ t m. (none, insert t.id t m);
  delete_task = λ id m. (none, delete id m);
  list_tasks = λ m. inr [];
}

abbrev task_at : TaskStatus → Task
task_at status = record {
  id = "t";
  kind = agent_kind;
  adapter = "codex";
  command = [];
  cwd = "/w";
  source_cwd = "";
  worktree_root = "";
  base_revision = "";
  status = status;
  exit_code = none;
  error = "";
  created_at = 1;
  updated_at = 1;
}

abbrev service_at : TaskStatus → Service Unit (Map Task)
service_at status = record {
  tasks = ("t", task_at status) ∷ [];
  runtimes = [];
  store = some [];
  bus = new_bus 4 none;
  session_calls = [];
}

abbrev script : List Update
script =
    transitions "t" running "started" 2
    ∷ transitions "t" verifying "turn" 3
    ∷ transitions "t" completed "passed" 4
    ∷ fails "t" (pos 1) "late" 5
    ∷ []

queued_found : lookup "t" (service_at queued).tasks ≡ some (task_at queued)
unfolding lookup
queued_found = refl

updates-Reach_example :
    (u : Task) × (lookup "t" (updates env memory_store script (service_at queued)).tasks ≡ some u)
    × Reach queued u.status
updates-Reach_example =
    updates-Reach env memory_store script (service_at queued) "t" {t = task_at queued} queued_found

completed_found : lookup "t" (service_at completed).tasks ≡ some (task_at completed)
unfolding lookup
completed_found = refl

final_stays_example :
    (u : Task) × (lookup "t" (updates env memory_store script (service_at completed)).tasks
      ≡ some u)
    × (u.status ≡ completed)
final_stays_example =
    final_stays env memory_store script (service_at completed) "t" {t = task_at completed}
      completed_found (inl refl)
