-- ===== src/App/Service/History.antt =====
-- Every history of a task in internal/app/service.go is a path through the transition table.
use cyber_foreman.Prelude.{
  ℕ, String, eq_iff, ◌≡◌, refl, false≢true, List, [], ◌∷◌, some, lookup, lookup-insert, inl, inr,
  ◌∙◌, sym, ap, subst, str_eq_cases,
}
use cyber_foreman.Domain.{Task, TaskStatus, ℤ}
use cyber_foreman.Task.{can_transition}
use cyber_foreman.Task.Graph.{Reach, here, next, IsFinal, IsFinal-iff}
use cyber_foreman.Event.Bus.Defs.{Env}
use cyber_foreman.App.Types.{Service, TaskStore}
use cyber_foreman.App.Service.{Prepared, transition, fail, require_attention, set_task_worktree}
use cyber_foreman.App.Service.Moves.{
  Legal, Moved, transition_found-Moved, fail_found-Moved, attention_found-Moved,
  worktree_found-Moved,
}

-- The calls by which the rest of the control plane changes a task.
pub data Update : Type 0 where
  transitions : String → TaskStatus → String → ℕ → Update
  fails : String → ℤ → String → ℕ → Update
  requires : String → String → ℕ → Update
  isolates : String → Prepared → ℕ → Update

module _ {J S : Type 0} (env : Env J) (ops : TaskStore S) where
  unfoldable pub update : Update → Service J S → Service J S
  update (transitions id to reason now) s = (transition env ops id to reason now s).1
  update (fails id code message now) s = (fail env ops id code message now s).1
  update (requires id reason now) s = (require_attention env ops id reason now s).1
  update (isolates id p now) s = (set_task_worktree env ops id p now s).1

  unfoldable pub updates : List Update → Service J S → Service J S
  updates [] s = s
  updates (u ∷ us) s = updates us (update u s)

  pub update-Moved : (u : Update) (s : Service J S) → Moved s (update u s)
  unfolding update transition fail require_attention set_task_worktree
  update-Moved (transitions id to reason now) s =
      transition_found-Moved env ops to reason now id (lookup id s.tasks) s refl
  update-Moved (fails id code message now) s =
      fail_found-Moved env ops code message now id (lookup id s.tasks) s refl
  update-Moved (requires id reason now) s =
      attention_found-Moved env ops reason now id (lookup id s.tasks) s refl
  update-Moved (isolates id p now) s =
      worktree_found-Moved env ops p now id (lookup id s.tasks) s refl

  Moved-Legal :
      (s s' : Service J S) (j : String) {t : Task}
      → Moved s s'
      → lookup j s.tasks ≡ some t
      → (u : Task) × (lookup j s'.tasks ≡ some u) × Legal t.status u.status
  Moved-Legal s s' j {t} (inl e) f = (t, ap (lookup j) e ∙ f, inl refl)
  Moved-Legal s s' j {t} (inr (id, x, u, g, e, l)) f = elim (str_eq_cases id j) [
    | inl q ↦
        let same : x ≡ t = cc (sym g ∙ ap (λ k. lookup k s.tasks) q ∙ f) in
        (
          u,
          ap (lookup j) e ∙ lookup-insert id j u s.tasks ∙ rw ((eq_iff id j).1 q) refl,
          subst (λ y. Legal y.status u.status) same l,
        )
    | inr n ↦ (t, ap (lookup j) e ∙ lookup-insert id j u s.tasks ∙ rw n f, inl refl)
  ]

  extend : {a b c : TaskStatus} → Reach a b → Legal b c → Reach a c
  extend {a} r (inl e) = subst (Reach a) (sym e) r
  extend r (inr h) = next r h

  -- Whatever calls of transition, fail, requireAttention and setTaskWorktree, in whatever order, and whether
  -- the store and the journal accept them or fail, a task stays in the map, and its status moves along allowed
  -- transitions only.
  pub updates-Reach :
      (us : List Update) (s : Service J S) (id : String) {t : Task}
      → lookup id s.tasks ≡ some t
      → (u : Task) × (lookup id (updates us s).tasks ≡ some u) × Reach t.status u.status
  unfolding updates
  updates-Reach us s id {t} f = go us s f here
    where
      go :
          (us : List Update) (s : Service J S) {u : Task}
          → lookup id s.tasks ≡ some u
          → Reach t.status u.status
          → (v : Task) × (lookup id (updates us s).tasks ≡ some v) × Reach t.status v.status
      go [] s {u} f r = (u, f, r)
      go (x ∷ xs) s f r =
          let (v, g, l) = Moved-Legal s (update x s) id (update-Moved x s) f in
          go xs (update x s) g (extend r l)

Reach-final : {a b : TaskStatus} → IsFinal a → Reach a b → b ≡ a
Reach-final f here = refl
Reach-final {a} f (next {t = c} {u = b} r h) =
    let e = Reach-final f r in
    absurd (false≢true (sym ((IsFinal-iff a).0 f b) ∙ sym (ap (λ x. can_transition x b) e) ∙ h))

-- Whatever calls of transition, fail, requireAttention and setTaskWorktree, the status of a completed, failed
-- or stopped task never changes again.
pub final_stays :
    {J S : Type 0} (env : Env J) (ops : TaskStore S) (us : List Update) (s : Service J S)
    (id : String) {t : Task}
    → lookup id s.tasks ≡ some t
    → IsFinal t.status
    → (u : Task) × (lookup id (updates env ops us s).tasks ≡ some u) × (u.status ≡ t.status)
final_stays env ops us s id f n =
    let (u, g, r) = updates-Reach env ops us s id f in (u, g, Reach-final n r)
