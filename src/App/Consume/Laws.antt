-- ===== src/App/Consume/Laws.antt =====
-- What the consumer of a command in internal/app/service.go does with the tasks of the service.
use cyber_foreman.Prelude.{
  ℕ, String, eq_refl, not, ◌&&◌, ◌≡◌, refl, ap, ◌∙◌, List, [], ◌∷◌, Option, none, some, if_both,
  lookup, lookup-delete, inl, inr,
}
use cyber_foreman.Domain.{Task, TaskStatus, AgentExitData, ℤ, negsuc, verifying, is_zero_ℤ}
use cyber_foreman.Task.Graph.{Reach, here, next}
use cyber_foreman.Event.{Event, EventData, exit}
use cyber_foreman.Event.Bus.Defs.{Env}
use cyber_foreman.Verification.Command.{System}
use cyber_foreman.Verification.Workspace.{Checkout}
use cyber_foreman.App.Types.{ServiceError, Runtime, TaskStore, Service}
use cyber_foreman.App.Service.{transition, fail}
use cyber_foreman.App.Service.History.{fails, update, updates, updates-Reach}
use cyber_foreman.App.Service.Changed.{
  Changed-Reach, transition-Changed, finish_verification-Changed,
}
use cyber_foreman.App.Verify.{
  has_commands, VerificationReport, verify_workspace, verify_commands, execute_verification,
  finish_verification,
}
use cyber_foreman.App.Consume.{
  is_exit, ended_status, run_verification, exited_well, on_exit, consume_event, consume_each,
  consume_events,
}

Reach-trans : {a b c : TaskStatus} → Reach a b → Reach b c → Reach a c
Reach-trans r here = r
Reach-trans r (next q h) = next (Reach-trans r q) h

-- Task `j` is there, in a status that the table reaches from `a`.
abbrev Follows : {J S : Type 0} → String → TaskStatus → Service J S → Type 0
Follows j a s = (u : Task) × (lookup j s.tasks ≡ some u) × Reach a u.status

module _ {J S W : Type 0} (env : Env J) (ops : TaskStore S) (sys : System W) (ck : Checkout W)
    (zero_runtime : Runtime) where
  fail-Follows :
      (id : String) (code : ℤ) (message : String) (now : ℕ) (s : Service J S) (j : String)
      {a : TaskStatus}
      → Follows j a s
      → Follows j a (fail env ops id code message now s).1
  unfolding updates update
  fail-Follows id code message now s j (u, f, r) =
      let (v, g, q) = updates-Reach env ops (fails id code message now ∷ []) s j f in
      (v, g, Reach-trans r q)

  transition-Follows :
      (id : String) (to : TaskStatus) (reason : String) (now : ℕ) (s : Service J S) (j : String)
      {a : TaskStatus}
      → Follows j a s
      → Follows j a (transition env ops id to reason now s).1
  transition-Follows id to reason now s j (u, f, r) =
      Changed-Reach j (transition-Changed env ops id to reason now s) f r

  finish_verification-Follows :
      (id : String) (r : Runtime) (v : VerificationReport) (now : ℕ) (s : Service J S) (j : String)
      {a : TaskStatus}
      → Follows j a s
      → Follows j a (finish_verification env ops id r v now s)
  finish_verification-Follows id r v now s j (u, f, q) =
      elim (finish_verification-Changed env ops id r v now s) [
        | inl c ↦ Changed-Reach j c f q
        | inr (inl c) ↦ Changed-Reach j c f q
        | inr (inr (i, c)) ↦ Changed-Reach j c f q
      ]

  verify_workspace-tasks :
      (id : String) (r : Runtime) (now : ℕ) (s : Service J S) (w : W)
      → (verify_workspace env sys ck id r now s w).1.tasks ≡ s.tasks
  unfolding verify_workspace
  verify_workspace-tasks id r now s w =
      if_both (λ (x : VerificationReport × Service J S × W). x.1.tasks ≡ s.tasks)
        r.verification.workspace refl refl

  verify_commands-tasks :
      (id : String) (r : Runtime) (now : ℕ) (p : VerificationReport) (s : Service J S) (w : W)
      → (verify_commands env sys ck id r now (p, s, w)).1.tasks ≡ s.tasks
  unfolding verify_commands
  verify_commands-tasks id r now p s w =
      if_both (λ (x : VerificationReport × Service J S × W). x.1.tasks ≡ s.tasks)
        (p.passed && has_commands r.verification.commands) refl
        (if_both (λ (x : VerificationReport × Service J S × W). x.1.tasks ≡ s.tasks)
          (has_commands r.verification.commands) refl refl)

  -- Running the verifiers changes no task.
  pub execute_verification-tasks :
      (id : String) (r : Runtime) (now : ℕ) (s : Service J S) (w : W)
      → (execute_verification env sys ck id r now s w).1.tasks ≡ s.tasks
  unfolding execute_verification
  execute_verification-tasks id r now s w =
      verify_commands-tasks id r now _ _ _ ∙ verify_workspace-tasks id r now s w

  run_verification-Follows :
      (id : String) (r : Runtime) (now : ℕ) (s : Service J S) (w : W) (j : String) {a : TaskStatus}
      → Follows j a s
      → Follows j a (run_verification env ops sys ck zero_runtime id r now s w).0
  unfolding run_verification
  run_verification-Follows id r now s w j (u, f, q) =
      finish_verification-Follows id r _ now _ j
        (u, ap (lookup j) (execute_verification-tasks id r now s w) ∙ f, q)

  exited_well-Follows :
      (id : String) (now : ℕ) (e : Option ServiceError) (s : Service J S) (w : W) (j : String)
      {a : TaskStatus}
      → Follows j a s
      → Follows j a (exited_well env ops sys ck zero_runtime id now (e, s) w).0
  exited_well-Follows id now (some x) s w j h = h
  exited_well-Follows id now none s w j h = run_verification-Follows id _ now s w j h

  exit-Follows :
      (id : String) (now : ℕ) (d : AgentExitData) (s : Service J S) (w : W) (j : String)
      {a : TaskStatus}
      → Follows j a s
      → Follows j a (on_exit env ops sys ck zero_runtime id now (exit d) s w).0
  unfolding on_exit
  exit-Follows id now d s w j {a} h =
      if_both (λ (x : Service J S × W). Follows j a x.0) (ended_status (lookup id s.tasks)) h
        (if_both (λ (x : Service J S × W). Follows j a x.0) (not (is_zero_ℤ d.exit_code))
          (fail-Follows id _ _ now s j h)
          (exited_well-Follows id now _ _ w j (transition-Follows id verifying _ now s j h)))

  on_exit-Follows :
      (id : String) (now : ℕ) (d : EventData) (s : Service J S) (w : W) (j : String)
      {a : TaskStatus}
      → Follows j a s
      → Follows j a (on_exit env ops sys ck zero_runtime id now d s w).0
  unfolding on_exit
  on_exit-Follows id now (exit d) s w j h = exit-Follows id now d s w j h
  on_exit-Follows id now d s w j h = fail-Follows id (negsuc 0) _ now s j h

  consume_each-Follows :
      (id : String) (es : List (ℕ × Event)) (s : Service J S) (w : W) (j : String) {a : TaskStatus}
      → Follows j a s
      → Follows j a (consume_each env ops sys ck zero_runtime id es s w).0
  unfolding consume_each consume_event
  consume_each-Follows id [] s w j h = h
  consume_each-Follows id ((now, e) ∷ es) s w j {a} h = consume_each-Follows id es _ _ j (
      if_both (λ (x : Service J S × W). Follows j a x.0) (not (is_exit e.type)) h
        (on_exit-Follows id now e.payload _ w j h))

  -- Whatever events the stream of a command delivers, when it is closed the command's task has no runtime, and
  -- every task of the service is still there, in a status that the table reaches from the one it had.
  pub consume_events-Reach :
      (id : String) (es : List (ℕ × Event)) (s : Service J S) (w : W) (j : String) {t : Task}
      → lookup j s.tasks ≡ some t
      → let s' = (consume_events env ops sys ck zero_runtime id es s w).0 in
        (lookup id s'.runtimes ≡ none)
        × (u : Task) × (lookup j s'.tasks ≡ some u)
        × Reach t.status u.status
  unfolding consume_events
  consume_events-Reach id es s w j {t} f =
      let (u, g, r) = consume_each-Follows id es s w j (t, f, here) in
      (lookup-delete id id _ ∙ rw eq_refl refl, u, g, r)
