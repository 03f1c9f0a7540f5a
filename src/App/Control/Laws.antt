-- ===== src/App/Control/Laws.antt =====
-- When the operations of an operator succeed, and what they leave behind.
use cyber_foreman.Prelude.{
  ℕ, String, ◌≡◌, refl, true, Bool, any, str_eq, List, [], ◌∷◌, Option, none, some, ap, ◌∙◌, lookup,
  insert, delete, lookup-insert, eq_refl, any-append, inl, inr, arith, Bool-cases,
}
use cyber_foreman.Event.{Event}
use cyber_foreman.Domain.{
  Task, TaskKind, TaskStatus, agent_kind, command_kind, is_agent_kind, is_status, queued, running,
  recovering, verifying, permission, waiting, completed, failed, stopped, attention, is_terminal,
}
use cyber_foreman.Task.{can_transition}
use cyber_foreman.Event.Bus.Defs.{Env, forget_task}
use cyber_foreman.App.Types.{
  ServiceError, Runtime, SessionCall, stopped_session, cancelled, TaskStore, Service,
}
use cyber_foreman.App.Service.{
  put, state_event, stored_then, commit, moved, transition, transition_found,
}
use cyber_foreman.App.Service.Moves.{publish_each-tasks}
use cyber_foreman.App.Control.{
  runtime_actions, offered_if, may_delete, may_finish, stop_session, stop_found, stop_task,
  after_finish, finish_found, finish_task, removed, unstore, delete_found, delete_task,
  available_actions,
}

-- Whether an action is among those that are offered.
abbrev pub is_offered : {J S : Type 0} → String → String → Service J S → Bool
is_offered name id s = any (str_eq name) (available_actions id s)

delete-offered :
    {J S : Type 0} (id : String) (s : Service J S) (t : Task)
    → lookup id s.tasks ≡ some t
    → may_delete t ≡ true
    → is_offered "delete" id s ≡ true
unfolding available_actions
delete-offered id s t f h =
    rw
      (
        f,
        any-append (str_eq "delete") (runtime_actions t (lookup id s.runtimes))
            (offered_if (may_delete t) "delete"),
        h,
      )
      (ground arith)

finish-offered :
    {J S : Type 0} (id : String) (s : Service J S) (t : Task) (r : Runtime)
    → lookup id s.tasks ≡ some t
    → lookup id s.runtimes ≡ some r
    → may_finish t r ≡ true
    → is_offered "finish" id s ≡ true
unfolding available_actions
finish-offered id s t r f g h = rw (f, g) (ground arith)

waiting_of : (a : TaskStatus) → is_status a waiting ≡ true → a ≡ waiting
waiting_of waiting h = refl
waiting_of queued h = absurd (cc h)
waiting_of running h = absurd (cc h)
waiting_of recovering h = absurd (cc h)
waiting_of verifying h = absurd (cc h)
waiting_of permission h = absurd (cc h)
waiting_of completed h = absurd (cc h)
waiting_of failed h = absurd (cc h)
waiting_of stopped h = absurd (cc h)
waiting_of attention h = absurd (cc h)

agent_of : (k : TaskKind) → is_agent_kind k ≡ true → k ≡ agent_kind
agent_of agent_kind h = refl
agent_of command_kind h = absurd (cc h)

-- A task that may be finished: an agent task that waits, in an interactive session.
may_finish-waiting :
    (t : Task) (r : Runtime)
    → may_finish t r ≡ true
    → (t.kind ≡ agent_kind) × (t.status ≡ waiting) × (r.interactive ≡ true)
may_finish-waiting t r h =
    (agent_of t.kind (ground arith), waiting_of t.status (ground arith), ground arith)

moved_stopped-terminal : (now : ℕ) (t : Task) → is_terminal (moved stopped now t).status ≡ true
unfolding is_terminal moved
moved_stopped-terminal now t = ground arith

module _ {J S : Type 0} (env : Env J) (ops : TaskStore S) where
  -- The outcome of a deletion: the error, and nothing of the two maps has changed; or success, and the task,
  -- whose deletion was offered, is gone from them with its runtime.
  abbrev pub Deleted : String → Service J S → Option ServiceError × Service J S → Type 0
  Deleted id s (some x, s') = (s'.tasks ≡ s.tasks) × (s'.runtimes ≡ s.runtimes)
  Deleted id s (none, s') =
      (is_offered "delete" id s ≡ true)
      × (s'.tasks ≡ delete id s.tasks)
      × (s'.runtimes ≡ delete id s.runtimes)

  stop_session-maps :
      (id : String) (r : Option Runtime) (s : Service J S)
      → ((stop_session id r s).tasks ≡ s.tasks) × ((stop_session id r s).runtimes ≡ s.runtimes)
  stop_session-maps id none s = (refl, refl)
  stop_session-maps id (some r) s = (refl, refl)

  removed-Deleted :
      (id : String) (e : Option String × Option S) (s s1 : Service J S)
      → is_offered "delete" id s ≡ true
      → s1.tasks ≡ s.tasks
      → s1.runtimes ≡ s.runtimes
      → Deleted id s (removed env ops id e s1)
  unfolding removed
  removed-Deleted id (some x, st) s s1 h t r = (t, r)
  removed-Deleted id (none, st) s s1 h t r = (h, ap (delete id) t, ap (delete id) r)

  delete_found-Deleted :
      (id : String) (o : Option Task) (s : Service J S)
      → lookup id s.tasks ≡ o
      → Deleted id s (delete_found env ops id o s)
  unfolding delete_found forget_task
  delete_found-Deleted id none s f = (refl, refl)
  delete_found-Deleted id (some t) s f = elim (Bool-cases (may_delete t)) [
    | inl y ↦
        let s1 = record s { bus = forget_task id s.bus } in
        let (p, q) = stop_session-maps id (lookup id s.runtimes) s1 in
        rw y (
          removed-Deleted id (unstore env ops s.store id) s
            (stop_session id (lookup id s.runtimes) s1) (delete-offered id s t f y) p q)
    | inr n ↦ rw n (refl, refl)
  ]

  -- `DeleteTask` either fails and leaves the maps of tasks and runtimes as they were, or it succeeds, and
  -- then `AvailableActions` offered the deletion, and the maps are the old ones less the task.
  pub delete_task_cases : (id : String) (s : Service J S) → Deleted id s (delete_task env ops id s)
  unfolding delete_task
  delete_task_cases id s = delete_found-Deleted id (lookup id s.tasks) s refl

  stored_then-done :
      (e : Option String × Option S) (id : String) (u : Task) (es : List Event) (s : Service J S)
      → (stored_then env ops e id u es s).0 ≡ none
      → (stored_then env ops e id u es s).1.tasks ≡ insert id u s.tasks
  unfolding stored_then
  stored_then-done (some x, st) id u es s h = absurd (cc h)
  stored_then-done (none, st) id u es s h =
      (publish_each-tasks env ops (record s { store = st; tasks = insert id u s.tasks }) es).0

  pub transition_found-done :
      (to : TaskStatus) (reason : String) (now : ℕ) (id : String) (t : Task) (s : Service J S)
      → (transition_found env ops to reason now id (some t) s).0 ≡ none
      → lookup id (transition_found env ops to reason now id (some t) s).1.tasks
        ≡ some (moved to now t)
  unfolding transition_found commit
  transition_found-done to reason now id t s h = elim (Bool-cases (can_transition t.status to)) [
    | inl y ↦ rw y (
        ap (lookup id) (
          stored_then-done (put env ops s.store (moved to now t)) id (moved to now t)
            (state_event id t.status to reason now ∷ []) s (rw y at h))
        ∙ lookup-insert id id (moved to now t) s.tasks
        ∙ rw (eq_refl id) refl)
    | inr n ↦ absurd (cc (rw n at h))
  ]

  finish_found-done :
      (id : String) (now : ℕ) (t : Task) (r : Runtime) (s : Service J S)
      → lookup id s.tasks ≡ some t
      → may_finish t r ≡ true
      → (finish_found env ops id now (some t) (some r) s).0 ≡ none
      → let s' = (finish_found env ops id now (some t) (some r) s).1 in
        (lookup id s'.tasks ≡ some (moved completed now t))
        × ((calls : List SessionCall) × (s'.session_calls
              ≡ stopped_session r.session_id ∷ cancelled id ∷ calls))
  unfolding finish_found transition
  finish_found-done id now t r s f y h = rw y (
      ended (transition env ops id completed "operator finished the interactive task" now s)
        (rw y at h)
        (λ k. rw f (
          transition_found-done completed "operator finished the interactive task" now id t s
            (rw f at k))))
    where
      ended :
          (out : Option ServiceError × Service J S)
          → (after_finish env ops id r out).0 ≡ none
          → (out.0 ≡ none → lookup id out.1.tasks ≡ some (moved completed now t))
          → let s' = (after_finish env ops id r out).1 in
            (lookup id s'.tasks ≡ some (moved completed now t))
            × ((calls : List SessionCall) × (s'.session_calls
                  ≡ stopped_session r.session_id ∷ cancelled id ∷ calls))
      ended (some x, s') h k = absurd (cc h)
      ended (none, s') h k = (k refl, (s'.session_calls, refl))

  -- When `FinishTask` succeeds, `AvailableActions` offered it: the task was an agent task that waited, with an
  -- interactive runtime. Then the task is completed, and the last calls to sessions are the cancellation of its
  -- own and the stop.
  pub finish_task_done :
      (id : String) (now : ℕ) (s : Service J S)
      → (finish_task env ops id now s).0 ≡ none
      → let s' = (finish_task env ops id now s).1 in
        (t : Task) × (r : Runtime) × (lookup id s.tasks ≡ some t)
        × (lookup id s.runtimes ≡ some r)
        × ((t.kind ≡ agent_kind) × (t.status ≡ waiting) × (r.interactive ≡ true))
        × (is_offered "finish" id s ≡ true)
        × (lookup id s'.tasks ≡ some (moved completed now t))
        × ((calls : List SessionCall) × (s'.session_calls
              ≡ stopped_session r.session_id ∷ cancelled id ∷ calls))
  unfolding finish_task finish_found
  finish_task_done id now s h = found (lookup id s.tasks) (lookup id s.runtimes) refl refl h
    where
      found :
          (o : Option Task) (w : Option Runtime)
          → lookup id s.tasks ≡ o
          → lookup id s.runtimes ≡ w
          → (finish_found env ops id now o w s).0 ≡ none
          → let s' = (finish_found env ops id now o w s).1 in
            (t : Task) × (r : Runtime) × (lookup id s.tasks ≡ some t)
            × (lookup id s.runtimes ≡ some r)
            × ((t.kind ≡ agent_kind) × (t.status ≡ waiting) × (r.interactive ≡ true))
            × (is_offered "finish" id s ≡ true)
            × (lookup id s'.tasks ≡ some (moved completed now t))
            × ((calls : List SessionCall) × (s'.session_calls
                  ≡ stopped_session r.session_id ∷ cancelled id ∷ calls))
      found none w f g k = absurd (cc k)
      found (some t) none f g k = absurd (cc k)
      found (some t) (some r) f g k = elim (Bool-cases (may_finish t r)) [
        | inl y ↦
            let (a, b) = finish_found-done id now t r s f y k in
            (t, r, f, g, may_finish-waiting t r y, finish-offered id s t r f g y, a, b)
        | inr n ↦ absurd (cc (rw n at k))
      ]

  -- When `StopTask` succeeds, the task is in a terminal state.
  pub stop_task_done :
      (id : String) (now : ℕ) (s : Service J S)
      → (stop_task env ops id now s).0 ≡ none
      → (t : Task) × (lookup id (stop_task env ops id now s).1.tasks ≡ some t)
        × (is_terminal t.status ≡ true)
  unfolding stop_task stop_found transition moved
  stop_task_done id now s h =
      let s1 = stop_session id (lookup id s.runtimes) s in found s1 (lookup id s1.tasks) refl h
    where
      found :
          (s1 : Service J S) (o : Option Task)
          → lookup id s1.tasks ≡ o
          → (stop_found env ops id now o s1).0 ≡ none
          → (t : Task) × (lookup id (stop_found env ops id now o s1).1.tasks ≡ some t)
            × (is_terminal t.status ≡ true)
      found s1 none f k = absurd (cc k)
      found s1 (some t) f k = elim (Bool-cases (is_terminal t.status)) [
        | inl y ↦ rw y (t, f, y)
        | inr n ↦ rw n (
          moved stopped now t,
          rw f (transition_found-done stopped "stopped by operator" now id t s1 (rw (n, f) at k)),
          moved_stopped-terminal now t,
        )
      ]
