-- ===== src/App/Service/Moves.antt =====
-- What the operations of internal/app/service.go that change a task do to the map of tasks.
use cyber_foreman.Prelude.{
  ℕ, String, ◌≡◌, refl, true, List, [], ◌∷◌, Option, none, some, lookup, insert, ◌⊎◌, inl, inr,
  arith, Bool-cases,
}
use cyber_foreman.Domain.{Task, TaskStatus, ℤ, failed, attention, is_terminal}
use cyber_foreman.Task.{can_transition}
use cyber_foreman.Event.{Event}
use cyber_foreman.Event.Bus.Defs.{Env, publish_checked}
use cyber_foreman.App.Types.{Service, TaskStore}
use cyber_foreman.App.Service.{
  after_publish, publish_each, put, stored_then, commit, moved, failed_task, needs_attention,
  in_worktree, Prepared, transition_found, fail_found, attention_found, worktree_found, state_event,
  attention_event, workspace_event,
}

-- A status stays, or it changes as the table allows.
abbrev pub Legal : TaskStatus → TaskStatus → Type 0
Legal a b = (b ≡ a) ⊎ (can_transition a b ≡ true)

-- The tasks are as they were, or one task was replaced by a version that it may become.
abbrev pub Moved : {J S : Type 0} → Service J S → Service J S → Type 0
Moved s s' =
    (s'.tasks ≡ s.tasks)
    ⊎ ((id : String) × (t : Task) × (u : Task) × (lookup id s.tasks ≡ some t)
        × (s'.tasks ≡ insert id u s.tasks)
        × Legal t.status u.status)

module _ {J S : Type 0} (env : Env J) (ops : TaskStore S) where
  -- Publishing leaves the tasks and the store alone.
  pub publish_each-tasks :
      (s : Service J S) (es : List Event)
      → ((publish_each env ops s es).1.tasks ≡ s.tasks)
        × ((publish_each env ops s es).1.store ≡ s.store)
        × ((publish_each env ops s es).1.runtimes ≡ s.runtimes)
  unfolding publish_each
  publish_each-tasks s [] = (refl, refl, refl)
  publish_each-tasks s (e ∷ es) =
      published (publish_checked env e s.bus).0 (publish_each-tasks s' es)
    where
      s' : Service J S
      s' = record s { bus = (publish_checked env e s.bus).1 }

      published :
          (err : Option String)
          → ((publish_each env ops s' es).1.tasks ≡ s.tasks)
            × ((publish_each env ops s' es).1.store ≡ s.store)
            × ((publish_each env ops s' es).1.runtimes ≡ s.runtimes)
          → let r = after_publish env ops err s' (publish_each env ops s' es) in
            (r.1.tasks ≡ s.tasks) × (r.1.store ≡ s.store) × (r.1.runtimes ≡ s.runtimes)
      published none ih = ih
      published (some x) ih = (refl, refl, refl)

  -- The write either fails and nothing changes but the store, or the task is replaced.
  pub stored_then-tasks :
      (r : Option String × Option S) (id : String) (u : Task) (es : List Event) (s : Service J S)
      → let s' = (stored_then env ops r id u es s).1 in
        ((s'.tasks ≡ s.tasks) ⊎ (s'.tasks ≡ insert id u s.tasks)) × (s'.runtimes ≡ s.runtimes)
  unfolding stored_then
  stored_then-tasks (some x, st) id u es s = (inl refl, refl)
  stored_then-tasks (none, st) id u es s =
      let (t, _, r) =
        publish_each-tasks (record s { store = st; tasks = insert id u s.tasks }) es in
      (inr t, r)

  pub commit-Moved :
      (id : String) (t u : Task) (es : List Event) (s : Service J S)
      → lookup id s.tasks ≡ some t
      → Legal t.status u.status
      → Moved s (commit env ops id u es s).1
  unfolding commit
  commit-Moved id t u es s f l = elim (stored_then-tasks (put env ops s.store u) id u es s).0 [
    | inl e ↦ inl e
    | inr e ↦ inr (id, t, u, f, e, l)
  ]

  pub moved-status : (to : TaskStatus) (now : ℕ) (t : Task) → (moved to now t).status ≡ to
  unfolding moved
  moved-status to now t = ground arith

  pub transition_found-Moved :
      (to : TaskStatus) (reason : String) (now : ℕ) (id : String) (o : Option Task)
      (s : Service J S)
      → lookup id s.tasks ≡ o
      → Moved s (transition_found env ops to reason now id o s).1
  unfolding transition_found
  transition_found-Moved to reason now id none s f = inl refl
  transition_found-Moved to reason now id (some t) s f =
      elim (Bool-cases (can_transition t.status to)) [
        | inl y ↦ rw y (
            commit-Moved id t (moved to now t) (state_event id t.status to reason now ∷ []) s f
              (inr (rw moved-status y)))
        | inr n ↦ rw n (inl refl)
      ]

  pub fail_found-Moved :
      (code : ℤ) (message : String) (now : ℕ) (id : String) (o : Option Task) (s : Service J S)
      → lookup id s.tasks ≡ o
      → Moved s (fail_found env ops code message now id o s).1
  unfolding fail_found
  fail_found-Moved code message now id none s f = inl refl
  fail_found-Moved code message now id (some t) s f = elim (Bool-cases (is_terminal t.status)) [
    | inl d ↦ rw d (inl refl)
    | inr l ↦ rw l (elim (Bool-cases (can_transition t.status failed)) [
      | inl y ↦ rw y (
          commit-Moved id t (failed_task code message now t)
            (state_event id t.status failed message now ∷ []) s f (inr y))
      | inr n ↦ rw n (inl refl)
    ])
  ]

  pub attention_found-Moved :
      (reason : String) (now : ℕ) (id : String) (o : Option Task) (s : Service J S)
      → lookup id s.tasks ≡ o
      → Moved s (attention_found env ops reason now id o s).1
  unfolding attention_found
  attention_found-Moved reason now id none s f = inl refl
  attention_found-Moved reason now id (some t) s f =
      elim (Bool-cases (can_transition t.status attention)) [
        | inl y ↦ rw y (
            commit-Moved id t (needs_attention reason now t)
              (state_event id t.status attention reason now ∷ attention_event id reason now ∷ []) s
              f (inr y))
        | inr n ↦ rw n (inl refl)
      ]

  pub worktree_found-Moved :
      (p : Prepared) (now : ℕ) (id : String) (o : Option Task) (s : Service J S)
      → lookup id s.tasks ≡ o
      → Moved s (worktree_found env ops p now id o s).1
  unfolding worktree_found
  worktree_found-Moved p now id none s f = inl refl
  worktree_found-Moved p now id (some t) s f =
      commit-Moved id t (in_worktree p now t) (workspace_event id p now ∷ []) s f (inl refl)
