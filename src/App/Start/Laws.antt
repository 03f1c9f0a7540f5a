-- ===== src/App/Start/Laws.antt =====
-- What the start of a queued task in internal/app/service.go leaves, on every path.
use cyber_foreman.Prelude.{
  ℕ, String, str_eq, eq_refl, not, ◌≡◌, refl, sym, ap, subst, ◌∙◌, Option, none, some, if_both,
  lookup, lookup-insert, lookup-delete, ◌⊎◌, inl, inr,
}
use cyber_foreman.Domain.{Task, TaskStatus, negsuc, queued, running, is_status}
use cyber_foreman.Agent.{Adapter}
use cyber_foreman.Verification.Workspace.{WorkspaceBaseline}
use cyber_foreman.App.Types.{ServiceError, Runtime, Service}
use cyber_foreman.App.Service.Kept.{
  transition-runtimes, fail-runtimes, set_task_worktree-runtimes, Keyed, set_task_worktree-Keyed,
}
use cyber_foreman.App.Service.Moves.{moved-status}
use cyber_foreman.App.Control.Laws.{transition_found-done}
use cyber_foreman.App.Service.{Prepared, transition, fail}
use cyber_foreman.App.Queue.{StartTaskRequest}
use cyber_foreman.App.Start.{
  Launcher, Launched, runtime_of, running_session, enter, with_model, with_events, with_session,
  launch, captured, take_baseline, reread, isolated, prepared, start_found, start_queued_task,
}

module _ {J S W : Type 0} (q : Launcher J S W) where
  -- A task whose start has failed has no runtime, and one whose agent was started runs and has one.
  unfoldable pub Settled : String → Launched J S W → Type 0
  Settled id (inl x, s, w) = lookup id s.runtimes ≡ none
  Settled id (inr k, s, w) =
      ((u : Task) × (lookup id s.tasks ≡ some u) × (u.status ≡ running))
      × ((r : Runtime) × (lookup id s.runtimes ≡ some r) × (r.start_request.task_id ≡ id))

  -- A task of which the map of runtimes knows nothing.
  abbrev Fresh : String → Service J S → Type 0
  Fresh id s = lookup id s.runtimes ≡ none

  fail-Fresh :
      (id message : String) (now : ℕ) (s : Service J S)
      → Fresh id s
      → Fresh id (fail q.env q.ops id (negsuc 0) message now s).1
  fail-Fresh id message now s h = ap (lookup id) (fail-runtimes q.env q.ops id _ message now s) ∙ h

  running_session-Settled :
      (t : Task) (session : String) (e : Option ServiceError) (s : Service J S) (w : W)
      {r : Runtime}
      → (e ≡ none → (u : Task) × (lookup t.id s.tasks ≡ some u) × (u.status ≡ running))
      → lookup t.id s.runtimes ≡ some r
      → r.start_request.task_id ≡ t.id
      → Settled t.id (running_session q t session (e, s) w)
  unfolding Settled
  running_session-Settled t session (some x) s w h f g =
      lookup-delete t.id t.id s.runtimes ∙ rw eq_refl refl
  running_session-Settled t session none s w {r} h f g = (h refl, (r, f, g))

  transition-done :
      (id : String) (to : TaskStatus) (reason : String) (now : ℕ) (s : Service J S) {t : Task}
      → lookup id s.tasks ≡ some t
      → (transition q.env q.ops id to reason now s).0 ≡ none
      → (u : Task) × (lookup id (transition q.env q.ops id to reason now s).1.tasks ≡ some u)
        × (u.status ≡ to)
  unfolding transition
  transition-done id to reason now s {t} f h = rw f (
    _,
    transition_found-done q.env q.ops to reason now id t s (rw f at h),
    moved-status q.env q.ops to now t,
  )

  enter-Settled :
      (req : StartTaskRequest) (a : Adapter) (model : String) (b : Option WorkspaceBaseline)
      (t v : Task) (session : String) (now : ℕ) (s : Service J S) (w : W)
      → lookup t.id s.tasks ≡ some v
      → Settled t.id (enter q req a model b t session now s w)
  unfolding enter
  enter-Settled req a model b t v session now s w f =
      running_session-Settled t session _ _ w {r = runtime_of q req a model b t session}
        (transition-done t.id running _ now _ f)
        (ap (lookup t.id) (transition-runtimes q.env q.ops t.id running _ now _)
          ∙ lookup-insert t.id t.id _ s.runtimes
          ∙ rw eq_refl refl)
        refl

  with_model-Settled :
      (req : StartTaskRequest) (a : Adapter) (model : String) (b : Option WorkspaceBaseline)
      (t v : Task) (session : String) (now : ℕ) (s : Service J S) (r : Option String × W)
      → lookup t.id s.tasks ≡ some v
      → Fresh t.id s
      → Settled t.id (with_model q req a model b t session now s r)
  unfolding Settled
  with_model-Settled req a model b t v session now s (none, w) f g =
      enter-Settled req a model b t v session now s w f
  with_model-Settled req a model b t v session now s (some e, w) f g = fail-Fresh t.id _ now _ g

  with_events-Settled :
      (req : StartTaskRequest) (a : Adapter) (model : String) (b : Option WorkspaceBaseline)
      (t v : Task) (session : String) (now : ℕ) (s : Service J S) (r : Option String × W)
      → lookup t.id s.tasks ≡ some v
      → Fresh t.id s
      → Settled t.id (with_events q req a model b t session now s r)
  unfolding Settled
  with_events-Settled req a model b t v session now s (none, w) f g =
      if_both (Settled t.id) (str_eq model "") (enter-Settled req a model b t v session now s w f)
        (with_model-Settled req a model b t v session now s _ f g)
  with_events-Settled req a model b t v session now s (some e, w) f g = fail-Fresh t.id e now _ g

  with_session-Settled :
      (req : StartTaskRequest) (a : Adapter) (model : String) (b : Option WorkspaceBaseline)
      (t v : Task) (now : ℕ) (s : Service J S) (r : (String ⊎ String) × W)
      → lookup t.id s.tasks ≡ some v
      → Fresh t.id s
      → Settled t.id (with_session q req a model b t now s r)
  unfolding Settled
  with_session-Settled req a model b t v now s (inl e, w) f g = fail-Fresh t.id e now _ g
  with_session-Settled req a model b t v now s (inr session, w) f g =
      with_events-Settled req a model b t v session now s _ f g

  launch-Settled :
      (req : StartTaskRequest) (a : Adapter) (b : Option WorkspaceBaseline) (now : ℕ) (id : String)
      (o : Option Task) (s : Service J S) (w : W)
      → lookup id s.tasks ≡ o
      → Keyed s
      → Fresh id s
      → Settled id (launch q req a b now o s w)
  unfolding launch Settled
  launch-Settled req a b now id none s w f k g = g
  launch-Settled req a b now id (some t) s w f k g =
      let e = k.key id f in
      subst (λ j. Settled j (launch q req a b now (some t) s w)) e
        (if_both (Settled t.id) (not (is_status t.status queued)) (subst (λ j. Fresh j s) (sym e) g)
          (with_session-Settled req a _ b t t now s _ (ap (λ j. lookup j s.tasks) e ∙ f)
            (subst (λ j. Fresh j s) (sym e) g)))

  captured-Settled :
      (req : StartTaskRequest) (a : Adapter) (t : Task) (now : ℕ) (s : Service J S)
      (r : (String ⊎ WorkspaceBaseline) × W)
      → Keyed s
      → Fresh t.id s
      → Settled t.id (captured q req a t now s r)
  unfolding Settled
  captured-Settled req a t now s (inl e, w) k g = fail-Fresh t.id _ now s g
  captured-Settled req a t now s (inr b, w) k g =
      launch-Settled req a (some b) now t.id (lookup t.id s.tasks) s w refl k g

  take_baseline-Settled :
      (req : StartTaskRequest) (a : Adapter) (now : ℕ) (t : Task) (s : Service J S) (w : W)
      → Keyed s
      → Fresh t.id s
      → Settled t.id (take_baseline q req a now t s w)
  unfolding take_baseline
  take_baseline-Settled req a now t s w k g =
      if_both (Settled t.id) req.verification.workspace (captured-Settled req a t now s _ k g)
        (launch-Settled req a none now t.id (lookup t.id s.tasks) s w refl k g)

  reread-Settled :
      (req : StartTaskRequest) (a : Adapter) (now : ℕ) (id : String) (o : Option Task)
      (s : Service J S) (w : W)
      → lookup id s.tasks ≡ o
      → Keyed s
      → Fresh id s
      → Settled id (reread q req a now o s w)
  unfolding Settled
  reread-Settled req a now id none s w f k g = g
  reread-Settled req a now id (some t) s w f k g =
      let e = k.key id f in
      subst (λ j. Settled j (take_baseline q req a now t s w)) e
        (take_baseline-Settled req a now t s w k (subst (λ j. Fresh j s) (sym e) g))

  isolated-Settled :
      (req : StartTaskRequest) (a : Adapter) (t : Task) (now : ℕ) (e : Option ServiceError)
      (s : Service J S) (w : W)
      → Keyed s
      → Fresh t.id s
      → Settled t.id (isolated q req a t now (e, s) w)
  unfolding Settled
  isolated-Settled req a t now (some x) s w k g = fail-Fresh t.id _ now s g
  isolated-Settled req a t now none s w k g =
      reread-Settled req a now t.id (lookup t.id s.tasks) s w refl k g

  prepared-Settled :
      (req : StartTaskRequest) (a : Adapter) (t : Task) (now : ℕ) (s : Service J S)
      (r : (String ⊎ Prepared) × W)
      → Keyed s
      → Fresh t.id s
      → Settled t.id (prepared q req a t now s r)
  unfolding Settled
  prepared-Settled req a t now s (inl e, w) k g = fail-Fresh t.id _ now s g
  prepared-Settled req a t now s (inr p, w) k g =
      isolated-Settled req a t now _ _ w (set_task_worktree-Keyed q.env q.ops t.id p now s k)
        (ap (lookup t.id) (set_task_worktree-runtimes q.env q.ops t.id p now s) ∙ g)

  start_found-Settled :
      (req : StartTaskRequest) (a : Adapter) (now : ℕ) (id : String) (o : Option Task)
      (s : Service J S) (w : W)
      → lookup id s.tasks ≡ o
      → Keyed s
      → Fresh id s
      → Settled id (start_found q req a now o s w)
  unfolding start_found Settled
  start_found-Settled req a now id none s w f k g = g
  start_found-Settled req a now id (some t) s w f k g =
      let e = k.key id f in
      let h = subst (λ j. Fresh j s) (sym e) g in
      subst (λ j. Settled j (start_found q req a now (some t) s w)) e
        (if_both (Settled t.id) (not (is_status t.status queued)) h (
          if_both (Settled t.id) req.worktree (prepared-Settled req a t now s _ k h)
            (take_baseline-Settled req a now t s w k h)))

  -- The start of a task that has no runtime yet, in a service whose tasks stand under their own ids, either
  -- fails, and then the task still has no runtime, whatever the start had already done; or it succeeds, and then
  -- the task runs and has a runtime whose request is its own.
  pub start_queued_task-Settled :
      (id : String) (req : StartTaskRequest) (a : Adapter) (now : ℕ) (s : Service J S) (w : W)
      → Keyed s
      → lookup id s.runtimes ≡ none
      → Settled id (start_queued_task q id req a now s w)
  unfolding start_queued_task
  start_queued_task-Settled id req a now s w k g =
      start_found-Settled req a now id (lookup id s.tasks) s w refl k g
