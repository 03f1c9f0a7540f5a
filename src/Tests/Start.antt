-- ===== src/Tests/Start.antt =====
-- The start of a task and the consumer of a command of internal/app/service.go at concrete inputs.
use cyber_foreman.Prelude.{
  ℕ, eq_iff, str_eq_cases, arith, true, ◌≡◌, refl, sym, ap, ◌∙◌, [], ◌∷◌, none, some, Map, lookup,
  insert, inl, inr,
}
use cyber_foreman.Domain.{Task, queued, running, agent_exited, pos}
use cyber_foreman.Task.Graph.{Reach}
use cyber_foreman.Event.{Event, exit, new_event}
use cyber_foreman.Event.Bus.Defs.{new_bus}
use cyber_foreman.Agent.Registry.{get, new_registry, register_each, register}
use cyber_foreman.Agent.Registry.Laws.{new_registry-get}
use cyber_foreman.App.Types.{Service}
use cyber_foreman.App.Service.Kept.{Keyed}
use cyber_foreman.App.Start.{Launcher, start_queued_task}
use cyber_foreman.App.Start.Laws.{Settled, start_queued_task-Settled}
use cyber_foreman.App.Consume.{consume_events}
use cyber_foreman.App.Consume.Laws.{consume_events-Reach}
use cyber_foreman.Tests.Bus.{env}
use cyber_foreman.Tests.Control.{task_at, session, store_of_three, request, codex}
use cyber_foreman.Tests.Verification.{machine}
use cyber_foreman.Tests.Verify.{counted}
use cyber_foreman.Tests.Prompt.{agents}

abbrev launcher : Launcher Unit (Map Task) ℕ
launcher = record {
  env = env;
  ops = store_of_three;
  agents = agents;
  checkout = counted;
  trim = λ s. s;
  prepare = λ cwd id w. (inl "not a repository", w);
  reviewer = true;
}

abbrev queued_service : Service Unit (Map Task)
queued_service = record {
  tasks = ("t", task_at "t" queued) ∷ [];
  runtimes = [];
  store = some [];
  bus = new_bus 4 none;
  session_calls = [];
}

queued_service-Keyed : Keyed queued_service
unfolding lookup
queued_service-Keyed = record {
  key = λ id {t} f. elim (str_eq_cases "t" id) [
    | inl y ↦
        let m : task_at "t" queued ≡ t = cc (rw (lookup, (eq_iff "t" id).1 y) at f) in
        ap (λ x. x.id) (sym m) ∙ y
    | inr n ↦ absurd (ground arith)
  ];
}

start_queued_task-Settled_example :
    Settled launcher "t" (start_queued_task launcher "t" request codex 7 queued_service 0)
unfolding lookup
start_queued_task-Settled_example =
    start_queued_task-Settled launcher "t" request codex 7 queued_service 0 queued_service-Keyed
      refl

abbrev exited : Event
exited = new_event "t" "s1" agent_exited 9 (exit (record { exit_code = pos 1; error = "failed" }))

abbrev running_command : Service Unit (Map Task)
running_command = record queued_service {
  tasks = ("t", task_at "t" running) ∷ [];
  runtimes = ("t", session) ∷ [];
}

consume_events-Reach_example :
    let s =
      (consume_events env store_of_three machine counted session "t"
        ((9, exited) ∷ [])
        running_command
        0).0 in
    (lookup "t" s.runtimes ≡ none)
    × (u : Task) × (lookup "t" s.tasks ≡ some u)
    × Reach running u.status
unfolding lookup
consume_events-Reach_example =
    consume_events-Reach env store_of_three machine counted session "t" ((9, exited) ∷ [])
      running_command 0 "t" {t = task_at "t" running} refl

new_registry-get_example : get "codex" (("codex", codex) ∷ []) ≡ inr codex
unfolding new_registry register_each register lookup insert
new_registry-get_example = new_registry-get (λ s. s) [] codex [] {m = ("codex", codex) ∷ []} refl
