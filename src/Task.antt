-- ===== src/Task.antt =====
-- internal/task/state_machine.go: the table of transitions that a task may make. A pair that the
-- table does not list reads as false, as a missing key of the Go maps does.
pub mod Graph
use cyber_foreman.Prelude.{Bool, true, false}
use cyber_foreman.Domain.{
  TaskStatus, queued, running, recovering, verifying, permission, waiting, completed, failed,
  stopped, attention,
}

unfoldable pub can_transition : TaskStatus → TaskStatus → Bool
can_transition queued running = true
can_transition queued failed = true
can_transition queued stopped = true
can_transition queued attention = true
can_transition running recovering = true
can_transition running verifying = true
can_transition running permission = true
can_transition running failed = true
can_transition running stopped = true
can_transition running attention = true
can_transition permission running = true
can_transition permission recovering = true
can_transition permission failed = true
can_transition permission stopped = true
can_transition permission attention = true
can_transition recovering running = true
can_transition recovering waiting = true
can_transition recovering failed = true
can_transition recovering stopped = true
can_transition recovering attention = true
can_transition verifying running = true
can_transition verifying waiting = true
can_transition verifying completed = true
can_transition verifying failed = true
can_transition verifying stopped = true
can_transition verifying attention = true
can_transition waiting running = true
can_transition waiting recovering = true
can_transition waiting completed = true
can_transition waiting stopped = true
can_transition waiting attention = true
can_transition attention running = true
can_transition attention stopped = true
can_transition _ _ = false
