-- ===== src/App/Service/Kept.antt =====
-- internal/app/service.go: the calls that change a task leave the runtimes alone.
use cyber_foreman.Prelude.{
  ℕ, String, ◌≡◌, refl, List, Option, none, some, lookup, not, inl, inr, ap, sym, ◌∙◌,
  lookup-insert, eq_iff, str_eq_cases, if_both,
}
use cyber_foreman.Domain.{Task, TaskStatus, ℤ, failed, is_terminal}
use cyber_foreman.Task.{can_transition}
use cyber_foreman.Event.{Event}
use cyber_foreman.Event.Bus.Defs.{Env}
use cyber_foreman.App.Types.{ServiceError, Service, TaskStore}
use cyber_foreman.App.Service.{
  Prepared, put, commit, transition_found, transition, fail_found, fail, worktree_found,
  set_task_worktree,
}
use cyber_foreman.App.Service.Moves.{stored_then-tasks}

module _ {J S : Type 0} (env : Env J) (ops : TaskStore S) where
  commit-runtimes :
      (id : String) (u : Task) (es : List Event) (s : Service J S)
      → (commit env ops id u es s).1.runtimes ≡ s.runtimes
  unfolding commit
  commit-runtimes id u es s = (stored_then-tasks env ops (put env ops s.store u) id u es s).1

  transition_found-runtimes :
      (to : TaskStatus) (reason : String) (now : ℕ) (id : String) (o : Option Task)
      (s : Service J S)
      → (transition_found env ops to reason now id o s).1.runtimes ≡ s.runtimes
  unfolding transition_found
  transition_found-runtimes to reason now id none s = refl
  transition_found-runtimes to reason now id (some t) s =
      if_both (λ (x : Option ServiceError × Service J S). x.1.runtimes ≡ s.runtimes)
        (not (can_transition t.status to)) refl (commit-runtimes id _ _ s)

  pub transition-runtimes :
      (id : String) (to : TaskStatus) (reason : String) (now : ℕ) (s : Service J S)
      → (transition env ops id to reason now s).1.runtimes ≡ s.runtimes
  unfolding transition
  transition-runtimes id to reason now s =
      transition_found-runtimes to reason now id (lookup id s.tasks) s

  fail_found-runtimes :
      (code : ℤ) (message : String) (now : ℕ) (id : String) (o : Option Task) (s : Service J S)
      → (fail_found env ops code message now id o s).1.runtimes ≡ s.runtimes
  unfolding fail_found
  fail_found-runtimes code message now id none s = refl
  fail_found-runtimes code message now id (some t) s =
      if_both (λ (x : Option ServiceError × Service J S). x.1.runtimes ≡ s.runtimes)
        (is_terminal t.status) refl
        (if_both (λ (x : Option ServiceError × Service J S). x.1.runtimes ≡ s.runtimes)
          (not (can_transition t.status failed)) refl (commit-runtimes id _ _ s))

  pub fail-runtimes :
      (id : String) (code : ℤ) (message : String) (now : ℕ) (s : Service J S)
      → (fail env ops id code message now s).1.runtimes ≡ s.runtimes
  unfolding fail
  fail-runtimes id code message now s =
      fail_found-runtimes code message now id (lookup id s.tasks) s

  worktree_found-runtimes :
      (p : Prepared) (now : ℕ) (id : String) (o : Option Task) (s : Service J S)
      → (worktree_found env ops p now id o s).1.runtimes ≡ s.runtimes
  unfolding worktree_found
  worktree_found-runtimes p now id none s = refl
  worktree_found-runtimes p now id (some t) s = commit-runtimes id _ _ s

  pub set_task_worktree-runtimes :
      (id : String) (p : Prepared) (now : ℕ) (s : Service J S)
      → (set_task_worktree env ops id p now s).1.runtimes ≡ s.runtimes
  unfolding set_task_worktree
  set_task_worktree-runtimes id p now s = worktree_found-runtimes p now id (lookup id s.tasks) s

-- Every task stands in the map under its own id.
pub record Keyed {J S : Type 0} (s : Service J S) : Type 0 where
  pub key : (id : String) {t : Task} → lookup id s.tasks ≡ some t → t.id ≡ id

module _ {J S : Type 0} (env : Env J) (ops : TaskStore S) where
  commit-Keyed :
      (id : String) (u : Task) (es : List Event) (s : Service J S)
      → u.id ≡ id
      → Keyed s
      → Keyed (commit env ops id u es s).1
  unfolding commit
  commit-Keyed id u es s e k =
      elim (stored_then-tasks env ops (put env ops s.store u) id u es s).0 [
        | inl q ↦ record { key = λ j f. k.key j (ap (lookup j) (sym q) ∙ f) }
        | inr q ↦ record {
          key = λ j {t} f.
              let g = sym (lookup-insert id j u s.tasks) ∙ ap (lookup j) (sym q) ∙ f in
              elim (str_eq_cases id j) [
                | inl y ↦
                    let m : u ≡ t = cc (rw ((eq_iff id j).1 y) at g) in
                    ap (λ x. x.id) (sym m) ∙ e ∙ y
                | inr n ↦ k.key j (rw n at g)
              ];
        }
      ]

  worktree_found-Keyed :
      (p : Prepared) (now : ℕ) (id : String) (o : Option Task) (s : Service J S)
      → lookup id s.tasks ≡ o
      → Keyed s
      → Keyed (worktree_found env ops p now id o s).1
  unfolding worktree_found
  worktree_found-Keyed p now id none s f k = k
  worktree_found-Keyed p now id (some t) s f k = commit-Keyed id _ _ s (k.key id f) k

  pub set_task_worktree-Keyed :
      (id : String) (p : Prepared) (now : ℕ) (s : Service J S)
      → Keyed s
      → Keyed (set_task_worktree env ops id p now s).1
  unfolding set_task_worktree
  set_task_worktree-Keyed id p now s k = worktree_found-Keyed p now id (lookup id s.tasks) s refl k
