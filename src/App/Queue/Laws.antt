-- ===== src/App/Queue/Laws.antt =====
-- What `queueTask` and `restoreTasks` of internal/app/service.go promise.
use cyber_foreman.Prelude.{
  ℕ, String, ◌≡◌, refl, sym, ap, subst, ◌∙◌, Bool, true, false, not, ◌&&◌, ◌||◌, List, [], ◌∷◌,
  Option, none, some, lookup, insert, delete, lookup-insert, lookup-delete, eq_iff, str_eq_cases,
  ◌⊎◌, inl, inr, arith, Bool-cases,
}
use cyber_foreman.Domain.{Task, queued, attention, is_terminal}
use cyber_foreman.Agent.{Adapter, capabilities_of, status_of}
use cyber_foreman.Event.Bus.Defs.{Env}
use cyber_foreman.App.Types.{ServiceError, TaskStore, Service}
use cyber_foreman.App.Service.{put, publish_each, stored_then, commit, state_event, attention_event}
use cyber_foreman.App.Service.Moves.{publish_each-tasks, stored_then-tasks}
use cyber_foreman.App.Queue.{
  StartTaskRequest, Deployment, admit, usable, workspace, new_task, created_event, recorded,
  written, admitted, queue_task, restore_one, restore_each, restore_tasks, interrupted,
  adapter_wanted, find_adapter, ask, authorized, and_then, is_empty, is_blank, same, restart_reason,
  unless_failed, authorization, restore_from, restore_listed,
}

module _ {J S : Type 0} (env : Env J) (ops : TaskStore S) where
  abbrev AllTerminal : Service J S → Type 0
  AllTerminal s =
      (id : String) (t : Task) → lookup id s.tasks ≡ some t → is_terminal t.status ≡ true

  insert-AllTerminal :
      (s s' : Service J S) (id : String) (u : Task)
      → s'.tasks ≡ insert id u s.tasks
      → is_terminal u.status ≡ true
      → AllTerminal s
      → AllTerminal s'
  insert-AllTerminal s s' id u e h all j t f =
      let g = sym (ap (lookup j) e ∙ lookup-insert id j u s.tasks) ∙ f in
      elim (str_eq_cases id j) [
        | inl q ↦ cc (h, (rw ((eq_iff id j).1 q) at g))
        | inr n ↦ all j t (rw n at g)
      ]

  same-AllTerminal : (s s' : Service J S) → s'.tasks ≡ s.tasks → AllTerminal s → AllTerminal s'
  same-AllTerminal s s' e all j t f = all j t (sym (ap (lookup j) e) ∙ f)

  interrupted-terminal : (now : ℕ) (t : Task) → is_terminal (interrupted now t).status ≡ true
  unfolding is_terminal
  interrupted-terminal now t = refl

  restore_one-AllTerminal :
      (now : ℕ) (t : Task) (s : Service J S)
      → AllTerminal s
      → AllTerminal (restore_one env ops now t s).1
  unfolding restore_one commit
  restore_one-AllTerminal now t s all = elim (Bool-cases (is_terminal t.status)) [
    | inl y ↦
        rw y (insert-AllTerminal s (record s { tasks = insert t.id t s.tasks }) t.id t refl y all)
    | inr n ↦ rw n (
        let u = interrupted now t in
        let es =
          state_event t.id t.status attention restart_reason now
          ∷ attention_event t.id restart_reason now
          ∷ [] in
        let s' = (stored_then env ops (put env ops s.store u) t.id u es s).1 in
        elim (stored_then-tasks env ops (put env ops s.store u) t.id u es s).0 [
          | inl e ↦ same-AllTerminal s s' e all
          | inr e ↦ insert-AllTerminal s s' t.id u e (interrupted-terminal now t) all
        ])
  ]

  unless_failed-AllTerminal :
      (r : Option ServiceError × Service J S)
      (rest : Service J S → Option ServiceError × Service J S)
      → AllTerminal r.1
      → ((s : Service J S) → AllTerminal s → AllTerminal (rest s).1)
      → AllTerminal (unless_failed r rest).1
  unless_failed-AllTerminal (some x, s) rest h k = h
  unless_failed-AllTerminal (none, s) rest h k = k s h

  restore_each-AllTerminal :
      (clock : Task → ℕ) (ts : List Task) (s : Service J S)
      → AllTerminal s
      → AllTerminal (restore_each env ops clock ts s).1
  unfolding restore_each
  restore_each-AllTerminal clock [] s h = h
  restore_each-AllTerminal clock (t ∷ ts) s h =
      unless_failed-AllTerminal (restore_one env ops (clock t) t s)
        (λ s'. restore_each env ops clock ts s') (restore_one-AllTerminal (clock t) t s h)
        (λ s' k. restore_each-AllTerminal clock ts s' k)

  -- After a restart no task is taken to be active: whatever the store lists, and whether the recovery succeeds
  -- or fails on the way, every task that a service without tasks holds after `restoreTasks` is terminal.
  pub restore_tasks-terminal :
      (clock : Task → ℕ) (s : Service J S) (id : String) {t : Task}
      → s.tasks ≡ []
      → lookup id (restore_tasks env ops clock s).1.tasks ≡ some t
      → is_terminal t.status ≡ true
  unfolding restore_tasks lookup
  restore_tasks-terminal clock s id {t} e f = from s.store f
    where
      start : AllTerminal s
      start j u g = absurd (cc (sym (ap (lookup j) e) ∙ g))

      listed :
          (r : String ⊎ List Task)
          → lookup id (restore_listed env ops clock r s).1.tasks ≡ some t
          → is_terminal t.status ≡ true
      listed (inl x) g = start id t g
      listed (inr ts) g = restore_each-AllTerminal clock ts s start id t g

      from :
          (o : Option S)
          → lookup id (restore_from env ops clock o s).1.tasks ≡ some t
          → is_terminal t.status ≡ true
      from none g = start id t g
      from (some st) g = listed (ops.list_tasks st) g

  -- What came of a request: nothing for an error; or a task that the checks admitted, in the map as made from
  -- the request.
  abbrev pub Queued :
      Deployment
      → StartTaskRequest
      → String
      → ℕ
      → Service J S
      → (ServiceError ⊎ (Task × Adapter)) × Service J S
      → Type 0
  Queued d req id now s (inl x, s') = (j : String) → lookup j s'.tasks ≡ lookup j s.tasks
  Queued d req id now s (inr (t, a), s') =
      (cwd : String) × (admit d req ≡ inr (a, cwd))
      × (t ≡ new_task id req a cwd now)
      × (t.id ≡ id)
      × (t.status ≡ queued)
      × (s'.tasks ≡ insert id t s.tasks)

  restored-tasks :
      (t : Task) (s s' : Service J S) (j : String)
      → lookup t.id s.tasks ≡ none
      → s'.tasks ≡ insert t.id t s.tasks
      → lookup j (delete t.id s'.tasks) ≡ lookup j s.tasks
  restored-tasks t s s' j f e = lookup-delete t.id j s'.tasks ∙ elim (str_eq_cases t.id j) [
    | inl q ↦ rw ((eq_iff t.id j).1 q) (sym f ∙ ap (λ k. lookup k s.tasks) q)
    | inr n ↦ rw n (ap (lookup j) e ∙ lookup-insert t.id j t s.tasks ∙ rw n refl)
  ]

  recorded-Queued :
      (d : Deployment) (req : StartTaskRequest) (id : String) (now : ℕ) (s : Service J S)
      (a : Adapter) (cwd : String) (r : Option ServiceError × Service J S)
      → admit d req ≡ inr (a, cwd)
      → lookup id s.tasks ≡ none
      → r.1.tasks ≡ insert id (new_task id req a cwd now) s.tasks
      → Queued d req id now s (recorded env ops (new_task id req a cwd now) a r)
  unfolding recorded
  recorded-Queued d req id now s a cwd (none, s') h f e = (cwd, h, refl, refl, refl, e)
  recorded-Queued d req id now s a cwd (some x, s') h f e =
      λ j. restored-tasks (new_task id req a cwd now) s s' j f e

  written-Queued :
      (d : Deployment) (req : StartTaskRequest) (id : String) (now : ℕ) (s : Service J S)
      (a : Adapter) (cwd : String) (w : Option String × Option S)
      → admit d req ≡ inr (a, cwd)
      → lookup id s.tasks ≡ none
      → Queued d req id now s (written env ops (new_task id req a cwd now) a now w s)
  unfolding written
  written-Queued d req id now s a cwd (some x, st) h f = λ j. refl
  written-Queued d req id now s a cwd (none, st) h f =
      let t = new_task id req a cwd now in
      let s1 = record s { store = st; tasks = insert id t s.tasks } in
      recorded-Queued d req id now s a cwd (publish_each env ops s1 (created_event t now ∷ [])) h f
        (publish_each-tasks env ops s1 (created_event t now ∷ [])).0

  admitted-Queued :
      (d : Deployment) (req : StartTaskRequest) (id : String) (now : ℕ) (s : Service J S)
      (r : ServiceError ⊎ (Adapter × String))
      → admit d req ≡ r
      → lookup id s.tasks ≡ none
      → Queued d req id now s (admitted env ops id req now r s)
  unfolding admitted
  admitted-Queued d req id now s (inl x) h f = λ j. refl
  admitted-Queued d req id now s (inr (a, cwd)) h f =
      written-Queued d req id now s a cwd (put env ops s.store (new_task id req a cwd now)) h f

  -- With a new id, `queueTask` either fails, and every task of the map is what it was, also where the creation
  -- could not be published; or it hands out a task that the checks admitted, queued and made from the request,
  -- and the map gains that task.
  pub queue_task_cases :
      (d : Deployment) (req : StartTaskRequest) (id : String) (now : ℕ) (s : Service J S)
      → lookup id s.tasks ≡ none
      → Queued d req id now s (queue_task env ops d req id now s)
  unfolding queue_task
  queue_task_cases d req id now s f = admitted-Queued d req id now s (admit d req) refl f

and_then-inversion :
    {A B : Type 0} (r : ServiceError ⊎ A) (f : A → ServiceError ⊎ B) {b : B}
    → and_then r f ≡ inr b
    → (a : A) × (r ≡ inr a) × (f a ≡ inr b)
and_then-inversion (inl e) f h = absurd (cc h)
and_then-inversion (inr a) f h = (a, refl, h)

found-inversion : (o : Option Adapter) {a : Adapter} → find_adapter o ≡ inr a → o ≡ some a
found-inversion none h = absurd (cc h)
found-inversion (some b) h = cc h

authorized-inversion :
    (o : Option String) (a b : Adapter) (cwd dir : String)
    → authorized o a cwd ≡ inr (b, dir)
    → (o ≡ none) × (a ≡ b) × (cwd ≡ dir)
authorized-inversion none a b cwd dir h = (refl, cc h, cc h)
authorized-inversion (some why) a b cwd dir h = absurd (cc h)

differ : (x y : Bool) → same x y ≡ false → x ≡ not y
differ true true h = absurd (cc h)
differ true false h = refl
differ false true h = refl
differ false false h = absurd (cc h)

-- What makes an adapter fit for a request.
abbrev pub is_fit : StartTaskRequest → Adapter → Bool
is_fit req a =
    ((status_of a).installed && (status_of a).healthy)
    && ((is_blank req.prompt || (capabilities_of a).prompt)
        && (is_empty req.command || (capabilities_of a).command))

usable-inversion :
    (req : StartTaskRequest) (a b : Adapter)
    → usable req a ≡ inr b
    → (a ≡ b) × (is_fit req a ≡ true)
unfolding usable
usable-inversion req a b h = (ground arith, ground arith)

-- What `queueTask` checks: a request that is admitted has a command or a prompt and not both, its adapter, or
-- the default one, is registered, installed and healthy and can do what is asked, and the policy, where there
-- is one, agrees to the workspace that is used.
pub admit_checked :
    (d : Deployment) (req : StartTaskRequest) (a : Adapter) (cwd : String)
    → admit d req ≡ inr (a, cwd)
    → (is_empty req.command ≡ not (is_blank req.prompt))
      × (lookup (adapter_wanted d req) d.adapters ≡ some a)
      × (is_fit req a ≡ true)
      × (ask d.request_policy (authorization d req cwd) ≡ none)
unfolding admit
admit_checked d req a cwd h =
    elim (Bool-cases (same (is_empty req.command) (is_blank req.prompt))) [
      | inl y ↦ absurd (cc (rw y at h))
      | inr n ↦
          let (b, f, h1) =
            and_then-inversion (find_adapter (lookup (adapter_wanted d req) d.adapters)) _
              (rw n at h) in
          let (c, g, h2) = and_then-inversion (usable req b) _ h1 in
          let (dir, w, h3) = and_then-inversion (workspace d req c) _ h2 in
          let (p, q, r) =
            authorized-inversion (ask d.request_policy (authorization d req dir)) c a dir cwd h3 in
          let (u, v) = usable-inversion req b c g in
          (
            differ (is_empty req.command) (is_blank req.prompt) n,
            cc (found-inversion (lookup (adapter_wanted d req) d.adapters) f, u, q),
            subst (λ x. is_fit req x ≡ true) (u ∙ q) v,
            subst (λ x. ask d.request_policy (authorization d req x) ≡ none) r p,
          )
    ]
