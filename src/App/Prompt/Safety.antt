-- ===== src/App/Prompt/Safety.antt =====
-- internal/app/prompt.go: what `consumePrompt` can do to the tasks of the service and to the budgets of its
-- supervision.
use cyber_foreman.Prelude.{
  ℕ, String, str_eq, ◌≡◌, refl, ◌∙◌, subst, true, false, List, some, lookup, Map, inl, inr, arith,
}
use cyber_foreman.Domain.{Task, TaskStatus, completed, attention, waiting, is_status}
use cyber_foreman.Task.Graph.{Reach, here}
use cyber_foreman.Supervisor.Types.{Snapshot, Decision, Within}
use cyber_foreman.Supervisor.Ledger.Laws.{after, apply_decision-Within}
use cyber_foreman.Supervisor.Ledger.{apply_decision}
use cyber_foreman.App.Types.{Service}
use cyber_foreman.App.Service.Changed.{
  Changed, Changed-other, Changed-Reach, transition-Changed, require_attention-Changed,
  finish_verification-Changed,
}
use cyber_foreman.App.Verify.{VerificationReport}
use cyber_foreman.App.Prompt.State.{Plant, stay, loop_of, new_prompt_snapshot}
use cyber_foreman.App.Prompt.Rounds.{Input, rounds, begin}
use cyber_foreman.App.Prompt.Invariant.{stands, Invariant}
use cyber_foreman.App.Prompt.Invariant.Rounds.{rounds-Holds, begin-Holds}

after-task_id : (n : Snapshot) (d : Decision) → (after n (apply_decision n d)).task_id ≡ n.task_id
unfolding apply_decision
after-task_id n d = ground arith

module _ {J S W : Type 0} (p : Plant J S W) where
  -- A property of the tasks that the loop's changes of its task keep, where `R` holds of every report of its
  -- verifications. Only a report that does not stand against the task completes it, in a session that is not
  -- interactive.
  pub record Kept (R : VerificationReport → Type 0) (K : Map Task → Type 0) : Type 0 where
    pub changes :
        (to : TaskStatus) {s s' : Service J S}
        → is_status to completed ≡ false
        → Changed p.task_id to s s'
        → K s.tasks
        → K s'.tasks
    pub completes :
        (r : VerificationReport) {s s' : Service J S}
        → R r
        → stands r ≡ true
        → p.runtime.interactive ≡ false
        → Changed p.task_id completed s s'
        → K s.tasks
        → K s'.tasks

  pub Kept-Invariant :
      {R : VerificationReport → Type 0} {K : Map Task → Type 0}
      → Kept R K
      → Invariant p R (λ s n g. K s.tasks)
  Kept-Invariant {K = K} k = record {
    announces = λ e h. h;
    transits = λ to reason now {s} e h.
        k.changes to e (transition-Changed p.env p.ops p.task_id to reason now s) h;
    attends = λ reason now {s} h.
        k.changes attention refl (require_attention-Changed p.env p.ops p.task_id reason now s) h;
    finishes = λ r now {s} given ok h.
        elim (finish_verification-Changed p.env p.ops p.task_id p.runtime r now s) [
          | inl c ↦ k.changes waiting refl c h
          | inr (inl c) ↦ k.changes attention refl c h
          | inr (inr (i, c)) ↦ k.completes r given ok i c h
        ];
    replaces = λ rs h. h;
    observes = λ st t i h. h;
    restarts = λ now h. h;
    charges = λ d h. h;
    begins = λ h. h;
  }

  -- What the tasks have before the loop, they have after any of its rounds.
  rounds-Kept :
      {K : Map Task → Type 0} (now : ℕ) (is : List (ℕ × Input)) (s : Service J S) (w : W)
      → Kept (λ r. Unit) K
      → K s.tasks
      → K (loop_of (rounds p is (stay (begin p now s w)))).service.tasks
  rounds-Kept now is s w k h =
      rounds-Holds (Kept-Invariant k) (λ r. tt) is _ (begin-Holds (Kept-Invariant k) now s w h)

  -- Whatever the loop receives, and whatever fails, a task of the service stays in the map, and its status
  -- moves along allowed transitions only.
  pub rounds-Reach :
      (now : ℕ) (is : List (ℕ × Input)) (s : Service J S) (w : W) (id : String) {t : Task}
      → lookup id s.tasks ≡ some t
      → (u : Task) × (lookup id (loop_of (rounds p is (stay (begin p now s w)))).service.tasks
          ≡ some u)
        × Reach t.status u.status
  rounds-Reach now is s w id {t} f =
      rounds-Kept {K = λ m. (u : Task) × (lookup id m ≡ some u) × Reach t.status u.status} now is s
        w
        (record {
          changes = λ to e c (u, g, r). Changed-Reach id c g r;
          completes = λ v given ok i c (u, g, r). Changed-Reach id c g r;
        })
        (t, f, here)

  -- Whatever the loop receives, every task but its own is as it was.
  pub rounds_others :
      (now : ℕ) (is : List (ℕ × Input)) (s : Service J S) (w : W) (id : String)
      → str_eq p.task_id id ≡ false
      → lookup id (loop_of (rounds p is (stay (begin p now s w)))).service.tasks ≡ lookup id s.tasks
  rounds_others now is s w id n =
      rounds-Kept {K = λ m. lookup id m ≡ lookup id s.tasks} now is s w
        (record {
          changes = λ to e c h. Changed-other id n c ∙ h;
          completes = λ v given ok i c h. Changed-other id n c ∙ h;
        })
        refl

  -- The charges are within the policy, which is the runtime's, as the task is the loop's.
  abbrev Charged : Snapshot → Type 0
  Charged n = Within n.budget n.policy × (n.policy ≡ p.runtime.policy) × (n.task_id ≡ p.task_id)

  start : (now : ℕ) → Charged (new_prompt_snapshot p.task_id p.runtime.policy now)
  unfolding new_prompt_snapshot
  start now = (omega arith, refl, refl)

  budget_Invariant : Invariant p (λ r. Unit) (λ s n g. Charged n)
  unfolding new_prompt_snapshot
  budget_Invariant = record {
    announces = λ e h. h;
    transits = λ to reason now e h. h;
    attends = λ reason now h. h;
    finishes = λ r now given ok h. h;
    replaces = λ rs h. h;
    observes = λ st t i h. h;
    restarts = λ now h. start now;
    charges = λ d {s} {n} (b, e, i).
        let (c, f, _, _, _) = apply_decision-Within n d b in (c, f ∙ e, after-task_id n d ∙ i);
    begins = λ h. h;
  }

  -- Whatever the loop receives and whatever its actions cost, what is charged stays within the budgets of the
  -- task's policy, and the policy and the task of the snapshot are the runtime's.
  pub rounds-Within :
      (now : ℕ) (is : List (ℕ × Input)) (s : Service J S) (w : W)
      → let l = loop_of (rounds p is (stay (begin p now s w))) in
        Within l.snapshot.budget p.runtime.policy
        × (l.snapshot.policy ≡ p.runtime.policy)
        × (l.snapshot.task_id ≡ p.task_id)
  rounds-Within now is s w =
      let (b, e, i) =
        rounds-Holds budget_Invariant (λ r. tt) is _
          (begin-Holds budget_Invariant now s w (start now)) in
      (subst (Within _) e b, e, i)
