-- ===== src/App/Verify/Laws.antt =====
-- What `executeVerification` and `finishVerification` of internal/app/service.go guarantee.
use cyber_foreman.Prelude.{
  ℕ, String, ◌≡◌, refl, sym, ap, subst, ◌∙◌, true, false, ◌&&◌, [], ◌∷◌, none, some, ◌⊎◌, inl, inr,
  lookup, lookup-insert, eq_refl, Bool-cases,
}
use cyber_foreman.Domain.{Task, verifying, completed, attention}
use cyber_foreman.Task.{can_transition}
use cyber_foreman.Event.Bus.Defs.{Env}
use cyber_foreman.Verification.Workspace.{Checkout, WorkspaceResult}
use cyber_foreman.Verification.Command.{System}
use cyber_foreman.App.Types.{Runtime, TaskStore, Service}
use cyber_foreman.App.Service.{
  put, stored_then, commit, needs_attention, state_event, attention_event, attention_found,
  require_attention,
}
use cyber_foreman.App.Service.Moves.{stored_then-tasks}
use cyber_foreman.App.Verify.{
  has_commands, VerificationReport, verify_baseline, verify_workspace, verify_commands,
  execute_verification, finish_verification, workspace_report,
}

report_result :
    (o : String ⊎ WorkspaceResult) {r : WorkspaceResult}
    → (workspace_report o).workspace ≡ some r
    → r.passed ≡ false
    → (workspace_report o).passed ≡ false
report_result (inl e) h f = refl
report_result (inr x) {r} h f = let q : x ≡ r = cc h in subst (λ y. y.passed ≡ false) (sym q) f

report_test : (o : String ⊎ WorkspaceResult) → (workspace_report o).test ≡ none
report_test (inl e) = refl
report_test (inr x) = refl

module _ {J S W : Type 0} (env : Env J) (sys : System W) (ck : Checkout W) where
  verify_commands-workspace :
      (id : String) (r : Runtime) (now : ℕ) (p : VerificationReport) (s : Service J S) (w : W)
      → (verify_commands env sys ck id r now (p, s, w)).0.workspace ≡ p.workspace
  unfolding verify_commands
  verify_commands-workspace id r now p s w =
      elim (Bool-cases (p.passed && has_commands r.verification.commands)) [
        | inl y ↦ rw y refl
        | inr n ↦ elim (Bool-cases (has_commands r.verification.commands)) [
          | inl c ↦ rw (n, c) refl
          | inr d ↦ rw (n, d) refl
        ]
      ]

  verify_commands-skipped :
      (id : String) (r : Runtime) (now : ℕ) (p : VerificationReport) (s : Service J S) (w : W)
      → p.passed ≡ false
      → p.test ≡ none
      → let out = verify_commands env sys ck id r now (p, s, w) in
        (out.0.test ≡ none) × (out.0.passed ≡ false) × (out.2 ≡ w)
  unfolding verify_commands
  verify_commands-skipped id r now p s w f t =
      elim (Bool-cases (has_commands r.verification.commands)) [
        | inl c ↦ rw (f, c) (t, refl, refl)
        | inr d ↦ rw (f, d) (t, refl, refl)
      ]

  -- The commands of a repository never run after its workspace was found unsafe: if the workspace is verified
  -- and its result is negative, the report has no result of commands and is negative, and the world is the one
  -- that the verification of the workspace left.
  pub execute_verification_unsafe :
      (id : String) (r : Runtime) (now : ℕ) (s : Service J S) (w : W) {result : WorkspaceResult}
      → r.verification.workspace ≡ true
      → (execute_verification env sys ck id r now s w).0.workspace ≡ some result
      → result.passed ≡ false
      → let out = execute_verification env sys ck id r now s w in
        (out.0.test ≡ none)
        × (out.0.passed ≡ false)
        × (out.2 ≡ (verify_baseline env sys ck r.baseline r.verification.workspace_policy w).1)
  unfolding execute_verification verify_workspace verify_commands
  execute_verification_unsafe id r now s w v h f =
      let o = (verify_baseline env sys ck r.baseline r.verification.workspace_policy w).0 in
      let x = verify_workspace env sys ck id r now s w in
      let same : x.0 ≡ workspace_report o = rw v refl in
      let k =
        sym (ap (λ p. p.workspace) same)
        ∙ sym (verify_commands-workspace id r now x.0 x.1 x.2)
        ∙ h in
      let (a, b, c) =
        verify_commands-skipped id r now x.0 x.1 x.2 (ap (λ p. p.passed) same ∙ report_result o k f)
          (ap (λ p. p.test) same ∙ report_test o) in
      (a, b, c ∙ rw v refl)

module _ {J S : Type 0} (env : Env J) (ops : TaskStore S) where
  require_attention-lookup :
      (id reason : String) (now : ℕ) (s : Service J S) {t u : Task}
      → lookup id s.tasks ≡ some t
      → lookup id (require_attention env ops id reason now s).1.tasks ≡ some u
      → (u ≡ t) ⊎ (u.status ≡ attention)
  unfolding require_attention attention_found commit
  require_attention-lookup id reason now s {t} {u} f g =
      elim (Bool-cases (can_transition t.status attention)) [
        | inr n ↦ inl (cc (rw (f, n) at g, f))
        | inl y ↦
            let v = needs_attention reason now t in
            let es =
              state_event id t.status attention reason now ∷ attention_event id reason now ∷ [] in
            let k : lookup id (stored_then env ops (put env ops s.store v) id v es s).1.tasks
                ≡ some u =
              rw (f, y) at g in
            elim (stored_then-tasks env ops (put env ops s.store v) id v es s).0 [
              | inl e ↦ inl (cc (sym (ap (lookup id) e) ∙ k, f))
              | inr e ↦
                  let m = sym (ap (lookup id) e ∙ lookup-insert id id v s.tasks) ∙ k in
                  let q : v ≡ u = cc (rw (eq_refl id) at m) in inr (ap (λ x. x.status) (sym q))
            ]
      ]

  -- A task is completed by its verification only if the report is positive or nothing was to be verified.
  pub finish_verification_sound :
      (id : String) (r : Runtime) (p : VerificationReport) (now : ℕ) (s : Service J S) {t u : Task}
      → lookup id s.tasks ≡ some t
      → t.status ≡ verifying
      → lookup id (finish_verification env ops id r p now s).tasks ≡ some u
      → u.status ≡ completed
      → (p.required ≡ false) ⊎ (p.passed ≡ true)
  unfolding finish_verification
  finish_verification_sound id r p now s {t} {u} f v g c = elim (Bool-cases p.required) [
    | inr n ↦ inl n
    | inl q ↦ elim (Bool-cases p.passed) [
      | inl y ↦ inr y
      | inr n ↦
          elim (require_attention-lookup id "deterministic verification failed" now s f
            (rw (q, n) at g)) [
              | inl e ↦ absurd (cc (sym c ∙ ap (λ x. x.status) e ∙ v))
              | inr e ↦ absurd (cc (sym c ∙ e))
            ]
    ]
  ]
