-- ===== src/App/Service/Changed.antt =====
-- internal/app/service.go: which status a call of the service gives to a task.
use cyber_foreman.Prelude.{
  ℕ, String, str_eq, not, if◌then◌else◌, if_both, ◌≡◌, refl, sym, ◌∙◌, ap, subst, true, false, List,
  Option, none, some, lookup, insert, lookup-insert, eq_iff, eq_refl, ◌⊎◌, inl, inr, Bool-cases,
  str_eq_cases,
}
use cyber_foreman.Domain.{Task, TaskStatus, attention, waiting, completed}
use cyber_foreman.Task.{can_transition}
use cyber_foreman.Task.Graph.{Reach, next}
use cyber_foreman.Event.{Event}
use cyber_foreman.Event.Bus.Defs.{Env}
use cyber_foreman.App.Types.{Service, TaskStore, Runtime}
use cyber_foreman.App.Service.{
  put, commit, moved, needs_attention, transition_found, attention_found, transition,
  require_attention,
}
use cyber_foreman.App.Service.Moves.{stored_then-tasks, moved-status}
use cyber_foreman.App.Verify.{VerificationReport, finish_verification}

-- The tasks are as they were, or task `id` was given the status `to`, as the table allows.
pub data Changed {J S : Type 0} (id : String) (to : TaskStatus) (s s' : Service J S) : Type 0 where
  same : s'.tasks ≡ s.tasks → Changed id to s s'
  given :
      (t u : Task)
      → lookup id s.tasks ≡ some t
      → s'.tasks ≡ insert id u s.tasks
      → can_transition t.status u.status ≡ true
      → u.status ≡ to
      → Changed id to s s'

module _ {J S : Type 0} {id : String} {to : TaskStatus} {s s' : Service J S} where
  -- The task has its old version or the new status.
  pub Changed-status :
      {u : Task}
      → Changed id to s s'
      → lookup id s'.tasks ≡ some u
      → (lookup id s.tasks ≡ some u) ⊎ (u.status ≡ to)
  Changed-status (same e) h = inl (ap (lookup id) (sym e) ∙ h)
  Changed-status {u} (given t v f e c q) h =
      let k : lookup id (insert id v s.tasks) ≡ some u = ap (lookup id) (sym e) ∙ h in
      let m = sym (lookup-insert id id v s.tasks) ∙ k in
      let n : v ≡ u = cc (rw (eq_refl id) at m) in inr (ap (λ x. x.status) (sym n) ∙ q)

  -- Every other task is as it was.
  pub Changed-other :
      (j : String) → str_eq id j ≡ false → Changed id to s s' → lookup j s'.tasks ≡ lookup j s.tasks
  Changed-other j n (same e) = ap (lookup j) e
  Changed-other j n (given t v f e c q) = ap (lookup j) e ∙ lookup-insert id j v s.tasks ∙ rw n refl

  pub Changed-Reach :
      (j : String) {a : TaskStatus} {t : Task}
      → Changed id to s s'
      → lookup j s.tasks ≡ some t
      → Reach a t.status
      → (u : Task) × (lookup j s'.tasks ≡ some u) × Reach a u.status
  Changed-Reach j {t = t} (same e) f r = (t, ap (lookup j) e ∙ f, r)
  Changed-Reach j {a} {t = t} (given x v g e c q) f r = elim (str_eq_cases id j) [
    | inr n ↦ (t, ap (lookup j) e ∙ lookup-insert id j v s.tasks ∙ rw n f, r)
    | inl y ↦
        let i = (eq_iff id j).1 y in
        let m : t ≡ x = cc (sym f ∙ ap (λ k. lookup k s.tasks) (sym y) ∙ g) in
        (
          v,
          ap (lookup j) e ∙ lookup-insert id j v s.tasks ∙ rw i refl,
          next (subst (λ z. Reach a z.status) m r) c,
        )
  ]

module _ {J S : Type 0} (env : Env J) (ops : TaskStore S) where
  commit-Changed :
      (id : String) (t u : Task) (es : List Event) (s : Service J S) {to : TaskStatus}
      → lookup id s.tasks ≡ some t
      → can_transition t.status u.status ≡ true
      → u.status ≡ to
      → Changed id to s (commit env ops id u es s).1
  unfolding commit
  commit-Changed id t u es s f c q =
      elim (stored_then-tasks env ops (put env ops s.store u) id u es s).0 [
        | inl e ↦ same e
        | inr e ↦ given t u f e c q
      ]

  transition_found-Changed :
      (to : TaskStatus) (reason : String) (now : ℕ) (id : String) (o : Option Task)
      (s : Service J S)
      → lookup id s.tasks ≡ o
      → Changed id to s (transition_found env ops to reason now id o s).1
  unfolding transition_found
  transition_found-Changed to reason now id none s f = same refl
  transition_found-Changed to reason now id (some t) s f =
      elim (Bool-cases (can_transition t.status to)) [
        | inr n ↦ rw n (same refl)
        | inl y ↦
            let q = moved-status env ops to now t in
            rw y (commit-Changed id t (moved to now t) _ s f (rw q y) q)
      ]

  -- A transition gives the task the status that was asked for, or changes no task.
  pub transition-Changed :
      (id : String) (to : TaskStatus) (reason : String) (now : ℕ) (s : Service J S)
      → Changed id to s (transition env ops id to reason now s).1
  unfolding transition
  transition-Changed id to reason now s =
      transition_found-Changed to reason now id (lookup id s.tasks) s refl

  attention_found-Changed :
      (reason : String) (now : ℕ) (id : String) (o : Option Task) (s : Service J S)
      → lookup id s.tasks ≡ o
      → Changed id attention s (attention_found env ops reason now id o s).1
  unfolding attention_found
  attention_found-Changed reason now id none s f = same refl
  attention_found-Changed reason now id (some t) s f =
      elim (Bool-cases (can_transition t.status attention)) [
        | inr n ↦ rw n (same refl)
        | inl y ↦ rw y (commit-Changed id t (needs_attention reason now t) _ s f y refl)
      ]

  pub require_attention-Changed :
      (id reason : String) (now : ℕ) (s : Service J S)
      → Changed id attention s (require_attention env ops id reason now s).1
  unfolding require_attention
  require_attention-Changed id reason now s =
      attention_found-Changed reason now id (lookup id s.tasks) s refl

  -- The end of a verification completes the task only if the session is not interactive; else the task
  -- waits or needs attention.
  pub finish_verification-Changed :
      (id : String) (r : Runtime) (v : VerificationReport) (now : ℕ) (s : Service J S)
      → (Changed id waiting s (finish_verification env ops id r v now s))
        ⊎ ((Changed id attention s (finish_verification env ops id r v now s))
            ⊎ ((r.interactive ≡ false)
                × Changed id completed s (finish_verification env ops id r v now s)))
  unfolding finish_verification
  finish_verification-Changed id r v now s =
      if_both K (not v.required) (turned _ _ (Bool-cases r.interactive)) (
        if_both K v.passed (turned _ _ (Bool-cases r.interactive))
          (inr (inl (require_attention-Changed id _ now s))))
    where
      K : Service J S → Type 0
      K s' =
          (Changed id waiting s s')
          ⊎ ((Changed id attention s s') ⊎ ((r.interactive ≡ false) × Changed id completed s s'))

      turned :
          (a b : String)
          → (r.interactive ≡ true) ⊎ (r.interactive ≡ false)
          → K (
              if r.interactive
              then (transition env ops id waiting a now s).1
              else (transition env ops id completed b now s).1)
      turned a b (inl i) = rw i (inl (transition-Changed id waiting a now s))
      turned a b (inr n) = rw n (inr (inr (refl, transition-Changed id completed b now s)))
