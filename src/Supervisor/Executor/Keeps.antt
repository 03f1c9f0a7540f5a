-- ===== src/Supervisor/Executor/Keeps.antt =====
-- What an execution of internal/supervisor/executor.go can do to a world and to a snapshot.
use cyber_foreman.Prelude.{some, ◌≡◌, refl, ◌⊎◌, inl, inr, Bool-cases}
use cyber_foreman.Event.{Event}
use cyber_foreman.Supervisor.Types.{Snapshot, Decision}
use cyber_foreman.Supervisor.Ledger.{Applied, refused, duplicate, reserved, apply_decision}
use cyber_foreman.Supervisor.Ledger.Laws.{after}
use cyber_foreman.Supervisor.Executor.{Executor, Performer, execute, execute_applied, publish}

-- The publisher and the performer keep a property of the world.
pub record Keeps {W : Type 0} (e : Executor W) (p : Performer W) (K : W → Type 0) : Type 0 where
  pub publishing : (x : Event) (w : W) → K w → K (publish e x w)
  pub performing : (d : Decision) (w : W) → K w → K (p.perform d w).1

module _ {W : Type 0} (e : Executor W) (s : Snapshot) (d : Decision) (p : Performer W) where
  applied-keeps :
      {K : W → Type 0}
      → Keeps e p K
      → (w : W) → K w
      → (r : Applied) → K (execute_applied e s d (some p) w r).1
  unfolding execute_applied
  applied-keeps k w h (refused x) = h
  applied-keeps k w h duplicate = h
  applied-keeps k w h (reserved t) =
      k.publishing _ _ (k.performing d _ (k.publishing _ _ (k.publishing _ _ h)))

  -- An execution keeps every property of the world that publishing and performing keep.
  pub execute-keeps :
      {K : W → Type 0} → Keeps e p K → (w : W) → K w → K (execute e s d (some p) w).1
  unfolding execute
  execute-keeps k w h = elim (Bool-cases (p.supports d.action)) [
    | inl y ↦ rw y (applied-keeps k w h (apply_decision s d))
    | inr n ↦ rw n h
  ]

  applied-after : (w : W) (r : Applied) → (execute_applied e s d (some p) w r).0.0 ≡ after s r
  unfolding execute_applied
  applied-after w (refused x) = refl
  applied-after w duplicate = refl
  applied-after w (reserved t) = refl

  -- The snapshot that an execution returns is the old one or the one of the ledger.
  pub execute-after :
      (w : W)
      → ((execute e s d (some p) w).0.0 ≡ s)
        ⊎ ((execute e s d (some p) w).0.0 ≡ after s (apply_decision s d))
  unfolding execute
  execute-after w = elim (Bool-cases (p.supports d.action)) [
    | inl y ↦ inr (rw y (applied-after w (apply_decision s d)))
    | inr n ↦ inl (rw n refl)
  ]
