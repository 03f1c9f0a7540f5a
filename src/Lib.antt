-- ===== src/Lib.antt =====
-- cyber-foreman: a local control plane that starts coding agents, watches them and decides what to do.
--
-- The parts, and the modules that model them:
-- * internal/domain/types.go (Domain, Event): tasks, statuses, events and their payloads. Times and
--   durations are natural numbers of nanoseconds; a time of 0 is Go's zero time.
-- * internal/task/state_machine.go (Task): the table of status transitions; Task.Graph has its paths.
-- * internal/supervisor (Supervisor): Engine.evaluate is Engine.Evaluate, Ledger.apply_decision is
--   ApplyDecision, Executor.execute is Executor.Execute over a world that publishing and performing
--   change, Clock.observe is TimeoutProbe.Observe, Progress has the functions of progress.go.
-- * internal/event/bus.go (Event.Bus): the bus as a state, with one function for each method. A method
--   runs under the bus's mutex, so calls are a sequence. The journal of internal/storage/store.go and the
--   sizes of JSON texts are the parameter Env.
-- * internal/agent (Agent): adapter.go, what the control plane asks of an adapter without starting it, and
--   registry.go (Agent.Registry).
-- * internal/app/service.go (App): the service's maps (Types), the operations that change a task (Service),
--   queueTask and restoreTasks (Queue), what an operator asks for (Control), and executeVerification and
--   finishVerification (Verify), startQueuedTask (Start) and consume (Consume). The store of
--   internal/storage/store.go is the parameter TaskStore; every call of it may fail. The preparation of a
--   Git worktree is a parameter of the start. A call of the service that takes its mutex several times is
--   one step of the model. An error carries of its text what tells it from the others.
-- * internal/app/semantic_review.go and internal/supervisor/semantic.go (App.Review, Supervisor.Semantic): what
--   a semantic reviewer is asked and what is made of its answer. The reviewer is a parameter, and its toolbox,
--   which only reads, is not modelled. Of the reviewer of internal/supervisor/openai_reviewer.go,
--   Supervisor.Answer has what it tells a model and what it makes of the decoded answer. Supervisor.Plan is
--   the plan of internal/supervisor/planner.go and what openai_planner.go makes of a decoded one.
-- * internal/app/prompt.go (App.Prompt): consumePrompt, the loop that accompanies the session of an agent. State
--   has its local variables (Loop), what stays the same meanwhile (Plant), and the calls of the session's adapter
--   (Agents). Each case of the select is a function: Actions, Events, MidTurn, TurnEnd, Timers; Turn has
--   startPrompt and recoverSession, Performers the performers of decisions, Texts what is written to agents.
--   Rounds puts them together: what the select receives is an Input, a run of the loop is a list of inputs, each
--   with its time, and which of several ready channels is taken is up to that list. A timer is the duration for
--   which its channel is armed. The goroutines that send a prompt and review an active turn are calls of Agents,
--   and what they answer comes back as an input. Invariant says what a property must survive to be kept by the
--   whole loop; its child modules prove that once, and Safety, Completed and
--   Stale use it. What an operator calls on the service between two rounds (StopTask, FinishTask, DeleteTask) is
--   not among the inputs: App.Control has these calls by themselves.
-- * internal/verification (Verification): Tail is the buffer for the output of a process, Command the verifier
--   that runs commands, with redact.go, and Workspace the one that compares a Git workspace with its baseline.
--   Processes, the walk through the files and Go's text functions are the parameters System and Checkout.
-- * internal/access/policy.go (Access): the roots of workspaces and the allowlist of commands. The file system
--   is the parameter Files.
--
-- The parts meet where the code has them meet: the executor charges through the ledger what the engine
-- decides, and the service publishes on the bus what it has written to the store.
--
-- Limits of the model: budgets and limits are natural numbers (the HTTP layer refuses negative ones) and
-- sequence numbers do not wrap at 2 ^ 64. Itoa runs on fuel of one more than its argument, which has
-- fewer digits. A round of the loop reads the clock once. Durations do not
-- overflow. Subprocesses, HTTP, SQL, JSON texts, Git and the web console are not modelled: they are input
-- and output of the code that is. Prelude holds the shared names, lists, maps and tests; Tests holds
-- runs at concrete inputs.
mod Prelude
pub mod Domain
pub mod Task
pub mod Supervisor
pub mod Event
pub mod Agent
pub mod Access
pub mod App
pub mod Verification
mod Tests
