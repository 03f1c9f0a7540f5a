-- ===== src/App/Start.antt =====
-- internal/app/service.go: `startQueuedTask`, which starts the agent of a queued task, and `consume`, which
-- accompanies a task that is a command. `worktree.Prepare` is the parameter `prepare`.
pub mod Laws
use cyber_foreman.Prelude.{
  ℕ, String, str_eq, append, Bool, true, false, not, List, [], ◌∷◌, Option, none, some,
  if◌then◌else◌, Map, lookup, insert, delete, ◌⊎◌, inl, inr, ◌==◌,
}
use cyber_foreman.Domain.{
  Task, TaskKind, TaskStatus, EventType, AgentExitData, ℤ, negsuc, queued, running, verifying,
  is_status, is_terminal, agent_exited, is_zero_ℤ,
}
use cyber_foreman.Agent.{Adapter, StartRequest, metadata_of}
use cyber_foreman.Event.{Event, EventData, exit}
use cyber_foreman.Event.Bus.Defs.{Env}
use cyber_foreman.Supervisor.Types.{Policy, default_policy}
use cyber_foreman.Verification.Command.{System}
use cyber_foreman.Verification.Workspace.{Checkout, WorkspaceBaseline, capture}
use cyber_foreman.App.Types.{
  ServiceError, task_not_found, task_not_running, adapter_error, Runtime, TaskStore, Service,
  SessionCall, cancelled, stopped_session,
}
use cyber_foreman.App.Service.{Prepared, announce, transition, fail, set_task_worktree}
use cyber_foreman.App.Verify.{VerificationReport, execute_verification, finish_verification}
use cyber_foreman.App.Queue.{StartTaskRequest, TaskSemanticReviewPolicy, Deployment, queue_task}
use cyber_foreman.App.Prompt.State.{Agents, service_error_text}

abbrev or_default_policy : Option Policy → Policy
or_default_policy none = default_policy
or_default_policy (some p) = p

abbrev wants_final : Option TaskSemanticReviewPolicy → Bool
wants_final none = true
wants_final (some p) = p.final_review

abbrev criteria_of : Option TaskSemanticReviewPolicy → List String
criteria_of none = []
criteria_of (some p) = p.criteria

-- The model that a session is to use: the one of the request, or the adapter's.
unfoldable pub wanted_model : (String → String) → StartTaskRequest → Adapter → String
wanted_model trim req a =
    if str_eq (trim req.model) "" then (metadata_of a).default_model else trim req.model

-- What a start leaves: the error, or the kind of the task, whose consumer then runs.
abbrev pub Launched : (J S W : Type 0) → Type 0
Launched J S W = (ServiceError ⊎ TaskKind) × Service J S × W

-- The parameters of a start. `reviewer` says whether a semantic reviewer is installed.
pub record Launcher (J S W : Type 0) : Type 0 where
  pub env : Env J
  pub ops : TaskStore S
  pub agents : Agents W
  pub checkout : Checkout W
  pub trim : String → String
  pub prepare : String → String → W → (String ⊎ Prepared) × W
  pub reviewer : Bool

module _ {J S W : Type 0} (q : Launcher J S W) where
  -- `_ = s.fail(t.ID, -1, message)`.
  abbrev failed_start : String → String → ℕ → Service J S → Service J S
  failed_start id message now s = (fail q.env q.ops id (negsuc 0) message now s).1

  -- `cancel()` and `adapter.Stop`.
  abbrev closed : String → String → Service J S → Service J S
  closed id session s = record s {
    session_calls = stopped_session session ∷ cancelled id ∷ s.session_calls;
  }

  abbrev stop_world : String → W → W
  stop_world session w = (q.agents.stop session w).1

  abbrev pub running_session :
      Task → String → Option ServiceError × Service J S → W → Launched J S W
  running_session t session (none, s) w = (inr t.kind, s, w)
  running_session t session (some x, s) w =
      let s1 = closed t.id session s in
      (inl x, record s1 { runtimes = delete t.id s1.runtimes }, stop_world session w)

  abbrev pub runtime_of :
      StartTaskRequest → Adapter → String → Option WorkspaceBaseline → Task → String → Runtime
  runtime_of req a model baseline t session = record {
    adapter = a;
    session_id = session;
    start_request = record { task_id = t.id; command = t.command; cwd = t.cwd };
    model = model;
    actions = [];
    verification = req.verification;
    baseline = baseline;
    prompt = req.prompt;
    interrupt_with = req.interrupt_with;
    interactive = req.interactive;
    policy = or_default_policy req.supervision;
    reviewer = q.reviewer;
    semantic_final = wants_final req.semantic_review;
    semantic_criteria = criteria_of req.semantic_review;
    review_ready = false;
  }

  -- The runtime is stored, and the task runs.
  unfoldable pub enter :
      StartTaskRequest
      → Adapter
      → String
      → Option WorkspaceBaseline
      → Task
      → String
      → ℕ
      → Service J S
      → W
      → Launched J S W
  enter req a model baseline t session now s w =
      running_session t session
        (transition q.env q.ops t.id running "agent process started" now (record s {
          runtimes = insert t.id (runtime_of req a model baseline t session) s.runtimes;
        }))
        w

  abbrev pub with_model :
      StartTaskRequest
      → Adapter
      → String
      → Option WorkspaceBaseline
      → Task
      → String
      → ℕ
      → Service J S
      → Option String × W
      → Launched J S W
  with_model req a model baseline t session now s (none, w) =
      enter req a model baseline t session now s w
  with_model req a model baseline t session now s (some e, w) = (
    inl (adapter_error e),
    failed_start t.id (append "select model: " e) now (closed t.id session s),
    stop_world session w,
  )

  abbrev pub with_events :
      StartTaskRequest
      → Adapter
      → String
      → Option WorkspaceBaseline
      → Task
      → String
      → ℕ
      → Service J S
      → Option String × W
      → Launched J S W
  with_events req a model baseline t session now s (none, w) =
      if str_eq model ""
      then enter req a model baseline t session now s w
      else with_model req a model baseline t session now s (q.agents.set_model session model w)
  with_events req a model baseline t session now s (some e, w) =
      (inl (adapter_error e), failed_start t.id e now (closed t.id session s), stop_world session w)

  abbrev pub with_session :
      StartTaskRequest
      → Adapter
      → String
      → Option WorkspaceBaseline
      → Task
      → ℕ
      → Service J S
      → (String ⊎ String) × W
      → Launched J S W
  with_session req a model baseline t now s (inl e, w) = (
    inl (adapter_error e),
    failed_start t.id e now (record s { session_calls = cancelled t.id ∷ s.session_calls }),
    w,
  )
  with_session req a model baseline t now s (inr session, w) =
      with_events req a model baseline t session now s (q.agents.subscribe session w)

  -- The part after the baseline, for the task as it is then.
  unfoldable pub launch :
      StartTaskRequest
      → Adapter
      → Option WorkspaceBaseline
      → ℕ
      → Option Task
      → Service J S
      → W
      → Launched J S W
  launch req a baseline now none s w = (inl task_not_found, s, w)
  launch req a baseline now (some t) s w =
      if not (is_status t.status queued)
      then (inl task_not_running, s, w)
      else with_session req a (wanted_model q.trim req a) baseline t now s
          (q.agents.start (record { task_id = t.id; command = t.command; cwd = t.cwd }) w)

  abbrev pub captured :
      StartTaskRequest
      → Adapter
      → Task
      → ℕ
      → Service J S
      → (String ⊎ WorkspaceBaseline) × W
      → Launched J S W
  captured req a t now s (inl e, w) =
      let message = append "capture workspace baseline: " e in
      (inl (adapter_error message), failed_start t.id message now s, w)
  captured req a t now s (inr b, w) = launch req a (some b) now (lookup t.id s.tasks) s w

  -- The baseline of the workspace, if it is to be verified.
  unfoldable pub take_baseline :
      StartTaskRequest → Adapter → ℕ → Task → Service J S → W → Launched J S W
  take_baseline req a now t s w =
      if req.verification.workspace
      then captured req a t now s (capture q.checkout t.cwd req.verification.workspace_policy w)
      else launch req a none now (lookup t.id s.tasks) s w

  abbrev pub reread :
      StartTaskRequest → Adapter → ℕ → Option Task → Service J S → W → Launched J S W
  reread req a now none s w = (inl task_not_found, s, w)
  reread req a now (some t) s w = take_baseline req a now t s w

  abbrev pub isolated :
      StartTaskRequest → Adapter → Task → ℕ → Option ServiceError × Service J S → W → Launched J S W
  isolated req a t now (some x, s) w = (inl x, failed_start t.id (service_error_text x) now s, w)
  isolated req a t now (none, s) w = reread req a now (lookup t.id s.tasks) s w

  abbrev pub prepared :
      StartTaskRequest → Adapter → Task → ℕ → Service J S → (String ⊎ Prepared) × W → Launched J S W
  prepared req a t now s (inl e, w) =
      let message = append "prepare isolated worktree: " e in
      (inl (adapter_error message), failed_start t.id message now s, w)
  prepared req a t now s (inr p, w) =
      isolated req a t now (set_task_worktree q.env q.ops t.id p now s) w

  unfoldable pub start_found :
      StartTaskRequest → Adapter → ℕ → Option Task → Service J S → W → Launched J S W
  start_found req a now none s w = (inl task_not_found, s, w)
  start_found req a now (some t) s w =
      if not (is_status t.status queued)
      then (inl task_not_running, s, w)
      else if req.worktree
      then prepared req a t now s (q.prepare t.cwd t.id w)
      else take_baseline req a now t s w

  -- `Service.startQueuedTask`, at one time.
  unfoldable pub start_queued_task :
      String → StartTaskRequest → Adapter → ℕ → Service J S → W → Launched J S W
  start_queued_task id req a now s w = start_found req a now (lookup id s.tasks) s w

  abbrev read_back : String → Launched J S W → (ServiceError ⊎ Task) × Service J S × W
  read_back id (inl x, s, w) = (inl x, s, w)
  read_back id (inr k, s, w) =
      (elim (lookup id s.tasks) [ some t ↦ inr t | none ↦ inl task_not_found ], s, w)

  abbrev queued_then :
      StartTaskRequest
      → ℕ
      → (ServiceError ⊎ (Task × Adapter)) × Service J S
      → W
      → (ServiceError ⊎ Task) × Service J S × W
  queued_then req now (inl x, s) w = (inl x, s, w)
  queued_then req now (inr (t, a), s) w = read_back t.id (start_queued_task t.id req a now s w)

  -- `Service.StartTask`; `id` is the new id.
  unfoldable pub start_task :
      Deployment
      → StartTaskRequest
      → String
      → ℕ
      → Service J S
      → W
      → (ServiceError ⊎ Task) × Service J S × W
  start_task d req id now s w = queued_then req now (queue_task q.env q.ops d req id now s) w
