-- ===== src/App/Consume.antt =====
-- internal/app/service.go: `consume`, which accompanies a task that is a command, and `runVerification`.
pub mod Laws
use cyber_foreman.Prelude.{
  ℕ, String, Bool, true, false, not, List, [], ◌∷◌, Option, none, some, if◌then◌else◌, lookup,
  delete,
}
use cyber_foreman.Domain.{
  Task, TaskStatus, EventType, AgentExitData, ℤ, negsuc, verifying, is_terminal, agent_exited,
  is_zero_ℤ,
}
use cyber_foreman.Event.{Event, EventData, exit}
use cyber_foreman.Event.Bus.Defs.{Env}
use cyber_foreman.Verification.Command.{System}
use cyber_foreman.Verification.Workspace.{Checkout}
use cyber_foreman.App.Types.{ServiceError, Runtime, TaskStore, Service}
use cyber_foreman.App.Service.{announce, transition, fail}
use cyber_foreman.App.Verify.{VerificationReport, execute_verification, finish_verification}

abbrev pub is_exit : EventType → Bool
is_exit agent_exited = true
is_exit _ = false

abbrev pub ended_status : Option Task → Bool
ended_status none = true
ended_status (some t) = is_terminal t.status

-- `runtime` is what the service keeps for the task: `Runtime` has no zero value, so where it is missing, the
-- verification of Go's zero runtime requires nothing and ends as such.
module _ {J S W : Type 0} (env : Env J) (ops : TaskStore S) (sys : System W) (ck : Checkout W)
    (zero_runtime : Runtime) where
  abbrev or_zero : Option Runtime → Runtime
  or_zero none = zero_runtime
  or_zero (some r) = r

  -- `Service.runVerification`.
  unfoldable pub run_verification : String → Runtime → ℕ → Service J S → W → Service J S × W
  run_verification id r now s w =
      let (report, s1, w1) = execute_verification env sys ck id r now s w in
      (finish_verification env ops id r report now s1, w1)

  abbrev pub exited_well : String → ℕ → Option ServiceError × Service J S → W → Service J S × W
  exited_well id now (some x, s) w = (s, w)
  exited_well id now (none, s) w = run_verification id (or_zero (lookup id s.runtimes)) now s w

  -- The part for an event of an exit.
  unfoldable pub on_exit : String → ℕ → EventData → Service J S → W → Service J S × W
  on_exit id now (exit d) s w =
      if ended_status (lookup id s.tasks)
      then (s, w)
      else if not (is_zero_ℤ d.exit_code)
      then ((fail env ops id d.exit_code d.error now s).1, w)
      else exited_well id now (transition env ops id verifying "process exited successfully" now s)
          w
  on_exit id now _ s w =
      ((fail env ops id (negsuc 0) "agent returned malformed exit event" now s).1, w)

  unfoldable pub consume_event : String → ℕ → Event → Service J S → W → Service J S × W
  consume_event id now e s w =
      if not (is_exit e.type)
      then (announce env e s, w)
      else on_exit id now e.payload (announce env e s) w

  unfoldable pub consume_each : String → List (ℕ × Event) → Service J S → W → Service J S × W
  consume_each id [] s w = (s, w)
  consume_each id ((now, e) ∷ es) s w =
      let (s1, w1) = consume_event id now e s w in consume_each id es s1 w1

  -- `Service.consume` on the events up to the close of the stream.
  unfoldable pub consume_events : String → List (ℕ × Event) → Service J S → W → Service J S × W
  consume_events id es s w =
      let (s1, w1) = consume_each id es s w in (record s1 { runtimes = delete id s1.runtimes }, w1)
