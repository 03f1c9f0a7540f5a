-- ===== src/App/Service.antt =====
-- internal/app/service.go: the operations that move a task through its life. Each holds the mutex while
-- it checks, writes to the store and updates the map, and publishes after that.
pub mod Moves
pub mod Changed
pub mod Kept
pub mod History
use cyber_foreman.Prelude.{
  ℕ, String, str_eq, append, Bool, true, false, not, ◌&&◌, ◌||◌, List, [], ◌∷◌, ◌++◌, Option, none,
  some, if◌then◌else◌, Map, lookup, insert, delete, ◌⊎◌, inl, inr,
}
use cyber_foreman.Domain.{
  Task, TaskStatus, ℤ, EventType, failed, attention, running, waiting, completed, stopped, queued,
  is_terminal, is_status, task_state, task_attention, task_created, task_workspace, is_agent_kind,
}
use cyber_foreman.Task.{can_transition}
use cyber_foreman.Event.{Event, EventData, new_event, state_data, fields, text, task_data}
use cyber_foreman.Event.Bus.Defs.{Env, Bus, publish_checked, forget_task, remember_task}
use cyber_foreman.App.Types.{
  ServiceError, task_not_found, action_unavailable, task_not_deletable, invalid_transition,
  store_error, bus_error, Runtime, cancelled, stopped_session, SessionCall, TaskStore, Service,
}

abbrev pub state_event : String → TaskStatus → TaskStatus → String → ℕ → Event
state_event id from to reason now =
    new_event id "" task_state now (state_data (record { from = from; to = to; reason = reason }))

abbrev pub attention_event : String → String → ℕ → Event
attention_event id reason now =
    new_event id "" task_attention now (fields (("reason", text reason) ∷ []))

-- The updates of a task that `transition`, `fail` and `requireAttention` make.
unfoldable pub moved : TaskStatus → ℕ → Task → Task
moved to now t =
    let u = record t { status = to; updated_at = now } in
    if is_status to running && (is_status t.status waiting || is_status t.status attention)
    then record u { error = ""; exit_code = none }
    else u

abbrev pub failed_task : ℤ → String → ℕ → Task → Task
failed_task code message now t = record t {
  status = failed;
  exit_code = some code;
  error = message;
  updated_at = now;
}

abbrev pub needs_attention : String → ℕ → Task → Task
needs_attention reason now t = record t { status = attention; error = reason; updated_at = now }

-- `worktree.Prepared`.
pub record Prepared : Type 0 where
  pub source_cwd : String
  pub source_root : String
  pub root : String
  pub cwd : String
  pub base_revision : String

abbrev pub in_worktree : Prepared → ℕ → Task → Task
in_worktree p now t = record t {
  source_cwd = p.source_cwd;
  worktree_root = p.root;
  cwd = p.cwd;
  base_revision = p.base_revision;
  updated_at = now;
}

abbrev pub workspace_event : String → Prepared → ℕ → Event
workspace_event id p now = new_event id "" task_workspace now (
    fields (
      ("source_workspace", text p.source_cwd)
      ∷ ("source_root", text p.source_root)
      ∷ ("worktree", text p.root)
      ∷ ("workspace", text p.cwd)
      ∷ ("base_revision", text p.base_revision)
      ∷ []))

-- `s.bus.Publish`, which ignores the error.
abbrev pub announce : {J S : Type 0} → Env J → Event → Service J S → Service J S
announce env e s = record s { bus = (publish_checked env e s.bus).1 }

module _ {J S : Type 0} (env : Env J) (ops : TaskStore S) where
  -- An error ends the publication of a row of events.
  abbrev pub after_publish :
      Option String
      → Service J S
      → Option ServiceError × Service J S
      → Option ServiceError × Service J S
  after_publish none s rest = rest
  after_publish (some x) s rest = (some (bus_error x), s)

  -- `PublishChecked` on the service's bus, one event after the other up to the first error.
  unfoldable pub publish_each : Service J S → List Event → Option ServiceError × Service J S
  publish_each s [] = (none, s)
  publish_each s (e ∷ es) =
      let (err, bus) = publish_checked env e s.bus in
      let s' = record s { bus = bus } in let rest = publish_each s' es in after_publish err s' rest

  unfoldable pub put : Option S → Task → Option String × Option S
  put none t = (none, none)
  put (some st) t = let (err, st') = ops.put_task t st in (err, some st')

  unfoldable pub stored_then :
      Option String × Option S
      → String
      → Task
      → List Event
      → Service J S
      → Option ServiceError × Service J S
  stored_then (some x, st) id t events s = (some (store_error x), record s { store = st })
  stored_then (none, st) id t events s =
      publish_each (record s { store = st; tasks = insert id t s.tasks }) events

  -- The common end: write to the store, update the map, publish.
  unfoldable pub commit :
      String → Task → List Event → Service J S → Option ServiceError × Service J S
  unfolding put stored_then
  commit id t events s = stored_then (put s.store t) id t events s

  unfoldable pub transition_found :
      TaskStatus
      → String
      → ℕ
      → String
      → Option Task
      → Service J S
      → Option ServiceError × Service J S
  transition_found to reason now id none s = (some task_not_found, s)
  transition_found to reason now id (some t) s =
      if not (can_transition t.status to)
      then (some (invalid_transition t.status to), s)
      else commit id (moved to now t) (state_event id t.status to reason now ∷ []) s

  -- `Service.transition`.
  unfoldable pub transition :
      String → TaskStatus → String → ℕ → Service J S → Option ServiceError × Service J S
  unfolding transition_found
  transition id to reason now s = transition_found to reason now id (lookup id s.tasks) s

  unfoldable pub fail_found :
      ℤ → String → ℕ → String → Option Task → Service J S → Option ServiceError × Service J S
  fail_found code message now id none s = (some task_not_found, s)
  fail_found code message now id (some t) s =
      if is_terminal t.status
      then (none, s)
      else if not (can_transition t.status failed)
      then (some (invalid_transition t.status failed), s)
      else commit id (failed_task code message now t)
          (state_event id t.status failed message now ∷ []) s

  -- `Service.fail`.
  unfoldable pub fail : String → ℤ → String → ℕ → Service J S → Option ServiceError × Service J S
  unfolding fail_found
  fail id code message now s = fail_found code message now id (lookup id s.tasks) s

  unfoldable pub attention_found :
      String → ℕ → String → Option Task → Service J S → Option ServiceError × Service J S
  attention_found reason now id none s = (some task_not_found, s)
  attention_found reason now id (some t) s =
      if not (can_transition t.status attention)
      then (some (invalid_transition t.status attention), s)
      else commit id (needs_attention reason now t)
          (state_event id t.status attention reason now ∷ attention_event id reason now ∷ []) s

  -- `Service.requireAttention`.
  unfoldable pub require_attention :
      String → String → ℕ → Service J S → Option ServiceError × Service J S
  unfolding attention_found
  require_attention id reason now s = attention_found reason now id (lookup id s.tasks) s

  unfoldable pub worktree_found :
      Prepared → ℕ → String → Option Task → Service J S → Option ServiceError × Service J S
  worktree_found p now id none s = (some task_not_found, s)
  worktree_found p now id (some t) s =
      commit id (in_worktree p now t) (workspace_event id p now ∷ []) s

  -- `Service.setTaskWorktree`.
  unfoldable pub set_task_worktree :
      String → Prepared → ℕ → Service J S → Option ServiceError × Service J S
  unfolding worktree_found
  set_task_worktree id p now s = worktree_found p now id (lookup id s.tasks) s
