-- ===== src/App/Control.antt =====
-- internal/app/service.go: what an operator does with a task. Every runtime is made with a mailbox, so the
-- tests of `runtime.actions` for nil are never true and have no counterpart here.
pub mod Laws
use cyber_foreman.Prelude.{
  ℕ, String, str_eq, Bool, true, false, not, ◌&&◌, ◌||◌, List, [], ◌∷◌, ◌++◌, Option, none, some,
  if◌then◌else◌, lookup, insert, delete,
}
use cyber_foreman.Domain.{
  Task, running, waiting, permission, attention, completed, stopped, is_terminal, is_status,
  is_agent_kind,
}
use cyber_foreman.Agent.{capabilities_of, can_resolve_permission}
use cyber_foreman.Event.Bus.Defs.{Env, forget_task, remember_task}
use cyber_foreman.App.Types.{
  ServiceError, task_not_found, task_not_running, action_unavailable, task_not_deletable,
  missing_argument, store_error, context_ended, ActionKind, interrupt, continue, resolve_permission,
  TaskAction, Runtime, cancelled, stopped_session, TaskStore, Service,
}
use cyber_foreman.App.Service.{transition}

abbrev is_empty_text : String → Bool
is_empty_text s = str_eq s ""

abbrev pub may_delete : Task → Bool
may_delete t = is_terminal t.status || is_status t.status waiting

abbrev pub may_finish : Task → Runtime → Bool
may_finish t r = is_agent_kind t.kind && (r.interactive && is_status t.status waiting)

abbrev may_continue : Task → Runtime → Bool
may_continue t r =
    r.interactive
    && (is_agent_kind t.kind && (is_status t.status waiting || is_status t.status attention))

abbrev can_interrupt : Task → Runtime → Bool
can_interrupt t r =
    is_agent_kind t.kind
    && ((capabilities_of r.adapter).prompt && (capabilities_of r.adapter).cancel_turn)

abbrev pub offered_if : Bool → String → List String
offered_if b name = if b then name ∷ [] else []

abbrev pub runtime_actions : Task → Option Runtime → List String
runtime_actions t none = offered_if (not (is_terminal t.status)) "cancel"
runtime_actions t (some r) =
    offered_if
      (is_agent_kind t.kind
        && (is_status t.status running && (capabilities_of r.adapter).cancel_turn))
      "interrupt"
    ++ (offered_if (r.interactive && (is_status t.status waiting || is_status t.status attention))
          "continue"
        ++ (offered_if (r.interactive && is_status t.status waiting) "finish"
            ++ (offered_if
                  (r.interactive && (is_status t.status waiting && (r.reviewer && r.review_ready)))
                  "review_result"
                ++ (offered_if
                      (is_agent_kind t.kind
                        && (is_status t.status permission && can_resolve_permission r.adapter))
                      "resolve_permission"
                    ++ offered_if (not (is_terminal t.status) || is_status t.status attention)
                        "cancel"))))

abbrev actions_of : Option Task → Option Runtime → List String
actions_of none r = []
actions_of (some t) r = runtime_actions t r ++ offered_if (may_delete t) "delete"

module _ {J S : Type 0} where
  -- `Service.AvailableActions`.
  unfoldable pub available_actions : String → Service J S → List String
  available_actions id s = actions_of (lookup id s.tasks) (lookup id s.runtimes)

  mailed :
      String
      → Runtime
      → TaskAction
      → List TaskAction
      → Service J S
      → Option ServiceError × Service J S
  mailed id r a [] s =
      (none, record s { runtimes = insert id (record r { actions = a ∷ [] }) s.runtimes })
  mailed id r a (b ∷ bs) s = (some action_unavailable, s)

  -- The send to the mailbox: the error is there if the end of the caller's context is taken first. With
  -- `none` the caller goes on to wait for the result of the action.
  unfoldable pub send :
      String
      → Runtime
      → TaskAction
      → Option String
      → Service J S
      → Option ServiceError × Service J S
  unfolding mailed
  send id r a (some e) s = (some (context_ended e), s)
  send id r a none s = mailed id r a r.actions s

  unfoldable pub permission_found :
      String
      → String
      → String
      → Option String
      → Option Task
      → Option Runtime
      → Service J S
      → Option ServiceError × Service J S
  permission_found id req opt ended none r s = (some task_not_found, s)
  permission_found id req opt ended (some t) none s = (some action_unavailable, s)
  permission_found id req opt ended (some t) (some r) s =
      let sent =
        send id r
          (record { kind = resolve_permission; message = ""; request_id = req; option_id = opt })
          ended s in
      if not (is_agent_kind t.kind && is_status t.status permission)
      then (some action_unavailable, s)
      else sent

  -- `Service.ResolvePermission`.
  unfoldable pub resolve_permission_request :
      String → String → String → Option String → Service J S → Option ServiceError × Service J S
  unfolding permission_found
  resolve_permission_request id req opt ended s =
      if is_empty_text req || is_empty_text opt
      then (some (missing_argument "permission request_id and option_id are required"), s)
      else permission_found id req opt ended (lookup id s.tasks) (lookup id s.runtimes) s

  unfoldable pub interrupt_found :
      String
      → String
      → Option String
      → Option Task
      → Option Runtime
      → Service J S
      → Option ServiceError × Service J S
  interrupt_found id message ended none r s = (some task_not_found, s)
  interrupt_found id message ended (some t) none s = (some task_not_running, s)
  interrupt_found id message ended (some t) (some r) s =
      let sent =
        send id r (record { kind = interrupt; message = message; request_id = ""; option_id = "" })
          ended s in
      if not (is_status t.status running)
      then (some task_not_running, s)
      else if not (can_interrupt t r)
      then (some action_unavailable, s)
      else sent

  -- `Service.InterruptTask`.
  unfoldable pub interrupt_task :
      String → String → Option String → Service J S → Option ServiceError × Service J S
  unfolding interrupt_found
  interrupt_task id message ended s =
      if is_empty_text message
      then (some (missing_argument "interrupt message is required"), s)
      else interrupt_found id message ended (lookup id s.tasks) (lookup id s.runtimes) s

  unfoldable pub continue_found :
      String
      → String
      → Option String
      → Option Task
      → Option Runtime
      → Service J S
      → Option ServiceError × Service J S
  continue_found id message ended none r s = (some task_not_found, s)
  continue_found id message ended (some t) none s = (some action_unavailable, s)
  continue_found id message ended (some t) (some r) s =
      let sent =
        send id r (record { kind = continue; message = message; request_id = ""; option_id = "" })
          ended s in
      if not (may_continue t r) then (some action_unavailable, s) else sent

  -- `Service.ContinueTask`.
  unfoldable pub continue_task :
      String → String → Option String → Service J S → Option ServiceError × Service J S
  unfolding continue_found
  continue_task id message ended s =
      if is_empty_text message
      then (some (missing_argument "continue message is required"), s)
      else continue_found id message ended (lookup id s.tasks) (lookup id s.runtimes) s

  -- The cancellation of a session and the call of its adapter's `Stop`, if there is a runtime.
  abbrev pub stop_session : String → Option Runtime → Service J S → Service J S
  stop_session id none s = s
  stop_session id (some r) s = record s {
    session_calls = stopped_session r.session_id ∷ cancelled id ∷ s.session_calls;
  }

module _ {J S : Type 0} (env : Env J) (ops : TaskStore S) where
  unfoldable pub stop_found :
      String → ℕ → Option Task → Service J S → Option ServiceError × Service J S
  stop_found id now none s = (some task_not_found, s)
  stop_found id now (some t) s =
      if is_terminal t.status
      then (none, s)
      else transition env ops id stopped "stopped by operator" now s

  -- `Service.StopTask`.
  unfoldable pub stop_task : String → ℕ → Service J S → Option ServiceError × Service J S
  unfolding stop_found
  stop_task id now s =
      let s1 = stop_session id (lookup id s.runtimes) s in stop_found id now (lookup id s1.tasks) s1

  abbrev pub after_finish :
      String → Runtime → Option ServiceError × Service J S → Option ServiceError × Service J S
  after_finish id r (some x, s) = (some x, s)
  after_finish id r (none, s) = (none, stop_session id (some r) s)

  unfoldable pub finish_found :
      String → ℕ → Option Task → Option Runtime → Service J S → Option ServiceError × Service J S
  finish_found id now none r s = (some task_not_found, s)
  finish_found id now (some t) none s = (some action_unavailable, s)
  finish_found id now (some t) (some r) s =
      if not (may_finish t r)
      then (some action_unavailable, s)
      else after_finish id r
          (transition env ops id completed "operator finished the interactive task" now s)

  -- `Service.FinishTask`.
  unfoldable pub finish_task : String → ℕ → Service J S → Option ServiceError × Service J S
  unfolding finish_found
  finish_task id now s = finish_found id now (lookup id s.tasks) (lookup id s.runtimes) s

  unfoldable pub removed :
      String → Option String × Option S → Service J S → Option ServiceError × Service J S
  removed id (some x, st) s =
      (some (store_error x), record s { store = st; bus = remember_task id s.bus })
  removed id (none, st) s =
      (none, record s { store = st; tasks = delete id s.tasks; runtimes = delete id s.runtimes })

  abbrev pub unstore : Option S → String → Option String × Option S
  unstore none id = (none, none)
  unstore (some st) id = let (err, st') = ops.delete_task id st in (err, some st')

  unfoldable pub delete_found :
      String → Option Task → Service J S → Option ServiceError × Service J S
  unfolding removed
  delete_found id none s = (some task_not_found, s)
  delete_found id (some t) s =
      if not (may_delete t)
      then (some task_not_deletable, s)
      else removed id (unstore s.store id)
          (stop_session id (lookup id s.runtimes) (record s { bus = forget_task id s.bus }))

  -- `Service.DeleteTask`.
  unfoldable pub delete_task : String → Service J S → Option ServiceError × Service J S
  unfolding delete_found
  delete_task id s = delete_found id (lookup id s.tasks) s
