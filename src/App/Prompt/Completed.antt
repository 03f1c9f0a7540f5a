-- ===== src/App/Prompt/Completed.antt =====
-- internal/app/prompt.go: which round of `consumePrompt` completes the task.
use cyber_foreman.Prelude.{
  ℕ, Bool, true, false, false≢true, List, [], ◌∷◌, ◌++◌, some, lookup, Map, ◌≡◌, refl, sym, ap, ◌∙◌,
  ◌⊎◌, inl, inr, Option,
}
use cyber_foreman.Domain.{Task, TaskStatus, completed, is_status}
use cyber_foreman.Event.{Event}
use cyber_foreman.Task.Graph.{here}
use cyber_foreman.App.Types.{Service}
use cyber_foreman.App.Service.Changed.{Changed, Changed-status, Changed-Reach}
use cyber_foreman.App.Verify.{VerificationReport}
use cyber_foreman.App.Prompt.State.{Plant, Loop, Outcome, stay, leave, loop_of}
use cyber_foreman.App.Prompt.Turn.{start_prompt, remember_prompt, stop_mid_turn_review}
use cyber_foreman.App.Prompt.TurnEnd.{PromptOutcome}
use cyber_foreman.App.Prompt.Rounds.{Input, ended_turn, round, rounds, begin}
use cyber_foreman.App.Prompt.Invariant.{report_of, stands}
use cyber_foreman.App.Prompt.Invariant.Rounds.{round-Holds}
use cyber_foreman.App.Prompt.Safety.{Kept, Kept-Invariant}

module _ {J S W : Type 0} (p : Plant J S W) where
  -- The task is there, and it is not completed.
  unfoldable pub IsOpen : Map Task → Type 0
  IsOpen m = (t : Task) × (lookup p.task_id m ≡ some t) × (is_status t.status completed ≡ false)

  -- The round takes the end of a turn, the session is not interactive, and the verification that starts in this
  -- very round, when only events were published in it so far, gives a report that is positive or requires nothing.
  unfoldable pub Completes : ℕ → Input → Loop J S W → Type 0
  Completes now i l =
      (ended : Bool) × (o : PromptOutcome) × (es : List Event) × (i ≡ ended_turn ended o)
      × (p.runtime.interactive ≡ false)
      × (stands (report_of p now l es) ≡ true)

  -- A report of the round's own verification.
  abbrev OfRound : ℕ → Input → Loop J S W → VerificationReport → Type 0
  OfRound now i l r =
      (ended : Bool) × (o : PromptOutcome) × (es : List Event) × (i ≡ ended_turn ended o)
      × (report_of p now l es ≡ r)

  Changed-IsOpen :
      (to : TaskStatus) {s s' : Service J S}
      → is_status to completed ≡ false
      → Changed p.task_id to s s'
      → IsOpen s.tasks
      → IsOpen s'.tasks
  unfolding IsOpen
  Changed-IsOpen to e c (t, f, n) =
      let (u, g, r) = Changed-Reach p.task_id c f here in
      (
        u,
        g,
        elim (Changed-status c g) [
          | inl o ↦
              let x : t ≡ u = cc (sym f ∙ o) in
              let m : is_status t.status completed ≡ is_status u.status completed =
                ap (λ y. is_status y.status completed) x in
              sym m ∙ n
          | inr q ↦ ap (λ x. is_status x completed) q ∙ e
        ],
      )

  round-Completes :
      (now : ℕ) (i : Input) (l : Loop J S W)
      → Kept p (OfRound now i l) (λ m. IsOpen m ⊎ Completes now i l)
  unfolding Completes
  round-Completes now i l = record {
    changes = λ to e c h. elim h [ inl o ↦ inl (Changed-IsOpen to e c o) | inr q ↦ inr q ];
    completes = λ r (ended, o, b, e, q) ok n c h. inr (ended, o, b, e, n, ap stands q ∙ ok);
  }

  -- A round leaves an open task open, or completes it.
  round-IsOpen :
      (now : ℕ) (i : Input) (l : Loop J S W)
      → IsOpen l.service.tasks
      → IsOpen (loop_of (round p now i l)).service.tasks ⊎ Completes now i l
  round-IsOpen now i l h =
      round-Holds (Kept-Invariant p (round-Completes now i l)) now i l
        (λ ended o b e. (ended, o, b, e, refl)) (inl h)

  -- Some round among these, each with its time, completes the task, from where the rounds before it have led.
  unfoldable pub SomeCompletes : List (ℕ × Input) → Outcome J S W → Type 0
  SomeCompletes is o =
      (before : List (ℕ × Input)) × (at : ℕ) × (i : Input) × (later : List (ℕ × Input)) × (l : Loop
        J S W)
      × (is ≡ before ++ (at, i) ∷ later)
      × (rounds p before o ≡ stay l)
      × Completes at i l

  rounds-IsOpen :
      (is : List (ℕ × Input)) (o : Outcome J S W)
      → IsOpen (loop_of o).service.tasks
      → IsOpen (loop_of (rounds p is o)).service.tasks ⊎ SomeCompletes is o
  unfolding rounds SomeCompletes
  rounds-IsOpen [] o h = inl h
  rounds-IsOpen (j ∷ is) (leave l) h = inl h
  rounds-IsOpen ((now, i) ∷ is) (stay l) h = elim (round-IsOpen now i l h) [
    | inr c ↦ inr ([], now, i, is, l, refl, refl, c)
    | inl k ↦ elim (rounds-IsOpen is (round p now i l) k) [
      | inl m ↦ inl m
      | inr (before, at, x, later, v, e, q, c) ↦
          inr ((now, i) ∷ before, at, x, later, v, ap (λ l. (now, i) ∷ l) e, q, c)
    ]
  ]

  begin-tasks : (now : ℕ) (s : Service J S) (w : W) → (begin p now s w).service.tasks ≡ s.tasks
  unfolding begin start_prompt remember_prompt stop_mid_turn_review
  begin-tasks now s w = refl

  -- If a task was not completed before the loop and is completed after some of its rounds, with no other call of
  -- the service in between, then some round among them takes the end of a turn, in a session that is not
  -- interactive, and the verification that starts in that round, at its time and from the service and the
  -- world that the rounds before it have left, with nothing done in it so far but publications, gives a report that is positive or requires nothing.
  pub rounds_completed :
      (now : ℕ) (is : List (ℕ × Input)) (s : Service J S) (w : W) {t u : Task}
      → lookup p.task_id s.tasks ≡ some t
      → is_status t.status completed ≡ false
      → lookup p.task_id (loop_of (rounds p is (stay (begin p now s w)))).service.tasks ≡ some u
      → u.status ≡ completed
      → SomeCompletes is (stay (begin p now s w))
  unfolding IsOpen
  rounds_completed now is s w {t} f n g c =
      elim (rounds-IsOpen is (stay (begin p now s w))
        (t, ap (lookup p.task_id) (begin-tasks now s w) ∙ f, n)) [
          | inr q ↦ q
          | inl (v, h, m) ↦
              let e : v.status ≡ completed = ap (λ x. x.status) (some_inj h g) ∙ c in
              absurd (false≢true (sym m ∙ ap (λ x. is_status x completed) e))
        ]
    where
      some_inj : {x y : Task} {o : Option Task} → o ≡ some x → o ≡ some y → x ≡ y
      some_inj a b = cc (sym a ∙ b)
