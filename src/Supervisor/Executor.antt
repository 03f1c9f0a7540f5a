-- ===== src/Supervisor/Executor.antt =====
-- internal/supervisor/executor.go: an action is performed only once its decision is reserved. What the
-- publisher and the performer act on is a world `W`; each call takes it and gives it back.
pub mod Laws
pub mod Keeps
use cyber_foreman.Prelude.{
  ℕ, String, Bool, true, false, not, List, [], ◌∷◌, Option, none, some, if◌then◌else◌,
}
use cyber_foreman.Domain.{supervisor_decision, supervisor_started, supervisor_finished, EventType}
use cyber_foreman.Event.{Event, EventData, new_event, decision_data, fields, text, flag, action}
use cyber_foreman.Supervisor.Types.{Snapshot, Decision, Action}
use cyber_foreman.Supervisor.Ledger.{
  LedgerError, missing_dedupe_key, budget_exceeded, Applied, refused, duplicate, reserved,
  apply_decision,
}

pub data ExecuteError : Type 0 where
  unsupported_action : ExecuteError
  ledger : LedgerError → ExecuteError
  perform_error : String → ExecuteError

pub record ExecutionResult : Type 0 where
  pub applied : Bool
  pub duplicate : Bool
  pub error : String

abbrev pub no_result : ExecutionResult
no_result = record { applied = false; duplicate = false; error = "" }

-- The text of an error, `err.Error()`.
abbrev pub error_text : ExecuteError → String
error_text unsupported_action = "supervision action is unsupported"
error_text (ledger missing_dedupe_key) = "decision dedupe key is required"
error_text (ledger budget_exceeded) = "supervision budget exceeded"
error_text (perform_error e) = e

abbrev pub error_or_empty : Option String → String
error_or_empty none = ""
error_or_empty (some e) = e

abbrev pub is_none : {A : Type 0} → Option A → Bool
is_none none = true
is_none (some a) = false

pub record Performer (W : Type 0) : Type 0 where
  pub supports : Action → Bool
  pub perform : Decision → W → Option String × W

-- `Publisher` and `Clock` may be nil; `system` is the time of the machine.
pub record Executor (W : Type 0) : Type 0 where
  pub publisher : Option (Event → W → W)
  pub clock : Option (W → ℕ)
  pub system : W → ℕ

-- The events of an execution.
abbrev pub decided_event : Snapshot → Decision → ℕ → Event
decided_event s d t = new_event s.task_id "" supervisor_decision t (decision_data d)

abbrev pub started_event : Snapshot → Decision → ℕ → Event
started_event s d t = new_event s.task_id "" supervisor_started t (
    fields (
      ("rule_id", text d.rule_id)
      ∷ ("action", action d.action)
      ∷ ("dedupe_key", text d.dedupe_key)
      ∷ []))

abbrev pub finished_event : Snapshot → Decision → ℕ → Option String → Event
finished_event s d t err = new_event s.task_id "" supervisor_finished t (
    fields (
      ("rule_id", text d.rule_id)
      ∷ ("action", action d.action)
      ∷ ("dedupe_key", text d.dedupe_key)
      ∷ ("success", flag (is_none err))
      ∷ ("error", text (error_or_empty err))
      ∷ []))

abbrev perform_errors : Option String → Option ExecuteError
perform_errors none = none
perform_errors (some e) = some (perform_error e)

module _ {W : Type 0} where
  now : Executor W → W → ℕ
  now e w = elim e.clock [ some c ↦ c w | none ↦ e.system w ]

  unfoldable pub publish : Executor W → Event → W → W
  publish e event w = elim e.publisher [ some p ↦ p event w | none ↦ w ]

  abbrev pub supported : Option (Performer W) → Action → Bool
  supported none a = false
  supported (some p) a = p.supports a

  abbrev perform_with : Option (Performer W) → Decision → W → Option String × W
  perform_with none d w = (none, w)
  perform_with (some p) d w = p.perform d w

  -- The part of `Execute` that follows a reservation.
  execute_reserved :
      Executor W
      → Snapshot
      → Snapshot
      → Decision
      → Option (Performer W)
      → W
      → (Snapshot × ExecutionResult × Option ExecuteError) × W
  unfolding now publish
  execute_reserved e s next d performer w =
      let t = now e w in
      let w1 = publish e (decided_event s d t) w in
      let w2 = publish e (started_event s d t) w1 in
      let (err, w3) = perform_with performer d w2 in
      let w4 = publish e (finished_event s d (now e w3) err) w3 in
      (
        (
          next,
          record { applied = true; duplicate = false; error = error_or_empty err },
          perform_errors err,
        ),
        w4,
      )

  execute_applied :
      Executor W
      → Snapshot
      → Decision
      → Option (Performer W)
      → W
      → Applied
      → (Snapshot × ExecutionResult × Option ExecuteError) × W
  unfolding execute_reserved
  execute_applied e s d performer w (refused x) =
      ((s, record no_result { error = error_text (ledger x) }, some (ledger x)), w)
  execute_applied e s d performer w duplicate =
      ((s, record no_result { duplicate = true }, none), w)
  execute_applied e s d performer w (reserved next) = execute_reserved e s next d performer w

  -- `Executor.Execute`.
  unfoldable pub execute :
      Executor W
      → Snapshot
      → Decision
      → Option (Performer W)
      → W
      → (Snapshot × ExecutionResult × Option ExecuteError) × W
  unfolding execute_applied
  execute e s d performer w =
      if not (supported performer d.action)
      then (
        (s, record no_result { error = error_text unsupported_action }, some unsupported_action),
        w,
      )
      else execute_applied e s d performer w (apply_decision s d)
