-- ===== src/Supervisor/Executor/Laws.antt =====
-- What internal/supervisor/executor.go does to the world, on every branch.
use cyber_foreman.Prelude.{
  ℕ, String, Bool, true, false, List, [], ◌∷◌, ◌++◌, Option, none, some, ◌≡◌, refl, ◌⊎◌, inl, inr,
  append_assoc, Bool-cases, false≢true,
}
use cyber_foreman.Event.{Event}
use cyber_foreman.Supervisor.Types.{Snapshot, Decision, Action}
use cyber_foreman.Supervisor.Ledger.{Applied, refused, duplicate, reserved, apply_decision}
use cyber_foreman.Supervisor.Ledger.Once.{apply_decision_twice}
use cyber_foreman.Supervisor.Executor.{
  Executor, Performer, execute, execute_applied, supported, decided_event, started_event,
  finished_event, no_result,
}

module _ {W : Type 0} (e : Executor W) (s : Snapshot) (d : Decision) (p : Option (Performer W))
    (w : W) where
  -- Unless the result says that the action was applied, the snapshot and the world are unchanged:
  -- nothing was charged, published or performed.
  pub execute_unapplied :
      (execute e s d p w).0.1.applied ≡ false
      → ((execute e s d p w).0.0 ≡ s) × ((execute e s d p w).1 ≡ w)
  unfolding execute
  execute_unapplied h = elim (Bool-cases (supported p d.action)) [
    | inl y ↦ rw y (go (apply_decision s d) (rw y at h))
    | inr n ↦ rw n (refl, refl)
  ]
    where
      go :
          (r : Applied)
          → (execute_applied e s d p w r).0.1.applied ≡ false
          → ((execute_applied e s d p w r).0.0 ≡ s) × ((execute_applied e s d p w r).1 ≡ w)
      go (refused x) q = (refl, refl)
      go duplicate q = (refl, refl)
      go (reserved t) q = cc

  -- An action that was applied was supported and reserved, and the snapshot is the reserved one, also
  -- where performing it has failed: its cost stays charged.
  pub execute_applied_reserved :
      (execute e s d p w).0.1.applied ≡ true
      → (supported p d.action ≡ true) × (apply_decision s d ≡ reserved (execute e s d p w).0.0)
  unfolding execute
  execute_applied_reserved h = elim (Bool-cases (supported p d.action)) [
    | inl y ↦ rw y (refl, go (apply_decision s d) (rw y at h))
    | inr n ↦ absurd (false≢true (rw n at h))
  ]
    where
      go :
          (r : Applied)
          → (execute_applied e s d p w r).0.1.applied ≡ true
          → r ≡ reserved (execute_applied e s d p w r).0.0
      go (refused x) q = cc
      go duplicate q = cc
      go (reserved t) q = refl

execute_duplicate :
    {W : Type 0} (e : Executor W) (t : Snapshot) (d : Decision) (p : Option (Performer W)) (w : W)
    → supported p d.action ≡ true
    → apply_decision t d ≡ duplicate
    → execute e t d p w ≡ ((t, record no_result { duplicate = true }, none), w)
unfolding execute
execute_duplicate e t d p w y r = rw (y, r)

-- A decision that was applied is not performed again: the second execution is a duplicate that
-- leaves the snapshot and the world as they are.
pub execute_once :
    {W : Type 0} (e : Executor W) (s : Snapshot) (d : Decision) (p : Option (Performer W)) (w : W)
    → (execute e s d p w).0.1.applied ≡ true
    → let ((t, r, x), w') = execute e s d p w in
      execute e t d p w' ≡ ((t, record no_result { duplicate = true }, none), w')
execute_once e s d p w h =
    let (y, r) = execute_applied_reserved e s d p w h in
    execute_duplicate e _ d p _ y (apply_decision_twice s d r)

-- What a recording world has seen.
pub data Entry : Type 0 where
  published : Event → Entry
  performed : Decision → Entry

-- Publishing and performing are recorded; performing fails as `fails` says.
abbrev pub recorder : (List Entry → ℕ) → Executor (List Entry)
recorder clock = record {
  publisher = some (λ event log. log ++ (published event ∷ []));
  clock = some clock;
  system = clock;
}

abbrev pub recording : (Action → Bool) → (Decision → Option String) → Performer (List Entry)
recording supports fails = record {
  supports = supports;
  perform = λ d log. (fails d, log ++ (performed d ∷ []));
}

-- An applied action leaves this trace, in this order: the decision and the start are published
-- before it is performed, and the finish, with its error, after; at any other result nothing is.
pub execute_trace :
    (clock : List Entry → ℕ) (supports : Action → Bool) (fails : Decision → Option String)
    (s : Snapshot) (d : Decision) (log : List Entry)
    → let ((t, r, x), log') = execute (recorder clock) s d (some (recording supports fails)) log in
      ((r.applied ≡ false) × (log' ≡ log))
      ⊎ ((n : ℕ) × (m : ℕ) × (r.applied ≡ true)
          × (log'
              ≡ log
                ++ (published (decided_event s d n)
                    ∷ published (started_event s d n)
                    ∷ performed d
                    ∷ published (finished_event s d m (fails d))
                    ∷ [])))
unfolding execute
execute_trace clock supports fails s d log = elim (Bool-cases (supports d.action)) [
  | inl y ↦ rw y (go (apply_decision s d))
  | inr n ↦ rw n (inl (refl, refl))
]
  where
    go :
        (a : Applied)
        → let ((t, r, x), log') =
            execute_applied (recorder clock) s d (some (recording supports fails)) log a in
          ((r.applied ≡ false) × (log' ≡ log))
          ⊎ ((n : ℕ) × (m : ℕ) × (r.applied ≡ true)
              × (log'
                  ≡ log
                    ++ (published (decided_event s d n)
                        ∷ published (started_event s d n)
                        ∷ performed d
                        ∷ published (finished_event s d m (fails d))
                        ∷ [])))
    go (refused x) = inl (refl, refl)
    go duplicate = inl (refl, refl)
    go (reserved t) =
        let n = clock log in
        let w =
          log
          ++ (published (decided_event s d n) ∷ [])
          ++ (published (started_event s d n) ∷ [])
          ++ (performed d ∷ []) in
        inr (n, clock w, refl, simp append_assoc)
