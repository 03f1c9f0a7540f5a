-- ===== src/App/Prompt/Ending.antt =====
-- internal/app/prompt.go: how `consumePrompt` ends.
use cyber_foreman.Prelude.{
  ℕ, ◌≡◌, refl, arith, List, [], ◌∷◌, ◌++◌, Option, none, some, lookup, ◌⊎◌, inl, inr,
}
use cyber_foreman.Supervisor.Types.{Decision}
use cyber_foreman.App.Types.{Runtime, Service}
use cyber_foreman.App.Prompt.State.{Plant, Loop, Outcome, stay, leave, loop_of, attend_and_leave}
use cyber_foreman.App.Prompt.Timers.{on_hard_due, hard_by}
use cyber_foreman.App.Prompt.Rounds.{
  Input, hard_due, done, round, rounds, clean_up, ended, consume_prompt, consume_found, consume,
  with_runtime,
}

module _ {J S W : Type 0} (p : Plant J S W) where
  -- The round is the last one.
  abbrev Leaves : Outcome J S W → Type 0
  Leaves o = o ≡ leave (loop_of o)

  hard_by-Leaves : (now : ℕ) (ds : List Decision) (l : Loop J S W) → Leaves (hard_by p now ds l)
  unfolding hard_by attend_and_leave
  hard_by-Leaves now [] l = refl
  hard_by-Leaves now (d ∷ ds) l = refl

  last-Leaves :
      (now : ℕ) (i : Input) (l : Loop J S W)
      → (i ≡ hard_due) ⊎ (i ≡ done)
      → Leaves (round p now i l)
  unfolding round on_hard_due
  last-Leaves now i l (inl e) = rw e (hard_by-Leaves now _ _)
  last-Leaves now i l (inr e) = rw e refl

  rounds-left : (js : List (ℕ × Input)) (o : Outcome J S W) → Leaves o → Leaves (rounds p js o)
  unfolding rounds
  rounds-left [] o h = h
  rounds-left (j ∷ js) (stay l) h = absurd (ground arith)
  rounds-left (j ∷ js) (leave l) h = refl

  rounds-Leaves :
      (is js : List (ℕ × Input)) (now : ℕ) (i : Input) (o : Outcome J S W)
      → (i ≡ hard_due) ⊎ (i ≡ done)
      → Leaves (rounds p (is ++ (now, i) ∷ js) o)
  unfolding rounds
  rounds-Leaves [] js now i (stay l) h = rounds-left js (round p now i l) (last-Leaves now i l h)
  rounds-Leaves [] js now i (leave l) h = refl
  rounds-Leaves ((t, x) ∷ is) js now i (stay l) h = rounds-Leaves is js now i (round p t x l) h
  rounds-Leaves ((t, x) ∷ is) js now i (leave l) h = refl

  ended-Leaves : (o : Outcome J S W) → Leaves o → (out : Service J S × W) × (ended p o ≡ some out)
  ended-Leaves (stay l) h = absurd (ground arith)
  ended-Leaves (leave l) h = (clean_up p l, refl)

module _ {J S W : Type 0} (p : Plant J S W) where
  -- `consumePrompt` returns at the latest when the hard timer fires or its context ends, whatever came before.
  pub consume_ends :
      (now : ℕ) (is js : List (ℕ × Input)) (later : ℕ) (i : Input) (s : Service J S) (w : W)
      → (i ≡ hard_due) ⊎ (i ≡ done)
      → (out : Service J S × W) × (consume p now (is ++ (later, i) ∷ js) s w ≡ some out)
  unfolding consume consume_prompt
  consume_ends now is js later i s w h = go (lookup p.task_id s.runtimes)
    where
      go :
          (o : Option Runtime)
          → (out : Service J S × W) × (consume_found p o now (is ++ (later, i) ∷ js) s w ≡ some out)
      go none = (_, refl)
      go (some r) = let q = with_runtime r p in ended-Leaves q _ (rounds-Leaves q is js later i _ h)
