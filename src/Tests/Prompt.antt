-- ===== src/Tests/Prompt.antt =====
-- The loop of internal/app/prompt.go at concrete inputs.
use cyber_foreman.Prelude.{
  ℕ, ◌+◌, ◌≤◌, arith, itoa, true, false, ◌≡◌, refl, List, [], ◌∷◌, none, some, Map, lookup, insert,
  inl, inr,
}
use cyber_foreman.Domain.{Task, running, waiting, completed}
use cyber_foreman.Task.Graph.{Reach}
use cyber_foreman.Event.Bus.Defs.{new_bus, publish_checked, record_history}
use cyber_foreman.Supervisor.Types.{Observation, Within, default_policy, agent_disconnected, nil}
use cyber_foreman.App.Types.{Runtime, Service}
use cyber_foreman.App.Prompt.State.{
  new_prompt_snapshot, run_decision, transit, Agents, Plant, Loop, stay, loop_of,
}
use cyber_foreman.App.Prompt.Turn.{
  recover_session, recover_by, retry_from, after_retry, resume, adopt_session, start_prompt,
  remember_prompt, stop_mid_turn_review,
}
use cyber_foreman.App.Prompt.Performers.{retry_perform}
use cyber_foreman.Supervisor.Engine.{evaluate}
use cyber_foreman.Supervisor.Ledger.{apply_decision}
use cyber_foreman.Supervisor.Executor.{execute}
use cyber_foreman.App.Service.{moved, transition, commit, publish_each}
use cyber_foreman.Task.{can_transition}
use cyber_foreman.App.Verify.{execute_verification, finish_verification}
use cyber_foreman.App.Prompt.MidTurn.{on_mid_turn_outcome}
use cyber_foreman.App.Prompt.TurnEnd.{
  PromptOutcome, on_outcome, finish_turn, verify_by, on_verified, settle,
}
use cyber_foreman.App.Prompt.Rounds.{
  round, Input, ended_turn, hard_due, idle_due, rounds, begin, mid_turn_policy, consume,
}
use cyber_foreman.App.Prompt.Safety.{rounds-Reach, rounds_others, rounds-Within}
use cyber_foreman.App.Prompt.Stale.{recovered_stale}
use cyber_foreman.App.Prompt.Ending.{consume_ends}
use cyber_foreman.App.Prompt.Completed.{rounds_completed, SomeCompletes}
use cyber_foreman.Tests.Bus.{env}
use cyber_foreman.Tests.Control.{task_at, session, store_of_three}
use cyber_foreman.Tests.Verification.{machine}
use cyber_foreman.Tests.Verify.{counted}

-- Agents that accept every call and count it; a new session is called "s2".
abbrev pub agents : Agents ℕ
agents = record {
  start = λ r w. (inr "s2", 1 + w);
  subscribe = λ s w. (none, 1 + w);
  set_model = λ s m w. (none, 1 + w);
  cancel = λ s w. (none, 1 + w);
  stop = λ s w. (none, 1 + w);
  resolve = λ s r o w. (none, 1 + w);
  prompt = λ s m w. 1 + w;
  review = λ i r w. 1 + w;
}

abbrev plain_session : Runtime
plain_session = record session { interactive = false; semantic_final = false }

abbrev plant : Plant Unit (Map Task) ℕ
plant = record {
  env = env;
  ops = store_of_three;
  agents = agents;
  reviewer = none;
  sys = machine;
  checkout = counted;
  trim = λ s. s;
  decode_update = λ s. none;
  decode_message = λ s. none;
  task_id = "t";
  runtime = plain_session;
  mid_turn = mid_turn_policy {W = ℕ} none;
}

abbrev running_service : Service Unit (Map Task)
running_service = record {
  tasks = ("t", task_at "t" running) ∷ ("u", task_at "u" waiting) ∷ [];
  runtimes = ("t", plain_session) ∷ [];
  store = some [];
  bus = new_bus 4 none;
  session_calls = [];
}

-- The first turn ends well.
abbrev turn_over : List (ℕ × Input)
turn_over =
    (
      7,
      ended_turn false
          (record { session_id = "s1"; generation = 1; stop_reason = "end_turn"; error = none }),
    )
    ∷ []

rounds-Reach_example :
    (u : Task) × (lookup "t"
        (loop_of (rounds plant turn_over (stay (begin plant 5 running_service 0)))).service.tasks
      ≡ some u)
    × Reach running u.status
unfolding lookup
rounds-Reach_example =
    rounds-Reach plant 5 turn_over running_service 0 "t" {t = task_at "t" running} refl

rounds_others_example :
    lookup "u"
      (loop_of (rounds plant turn_over (stay (begin plant 5 running_service 0)))).service.tasks
    ≡ lookup "u" running_service.tasks
rounds_others_example = rounds_others plant 5 turn_over running_service 0 "u" refl

rounds-Within_example :
    let l = loop_of (rounds plant turn_over (stay (begin plant 5 running_service 0))) in
    Within l.snapshot.budget default_policy
    × (l.snapshot.policy ≡ default_policy)
    × (l.snapshot.task_id ≡ "t")
rounds-Within_example = rounds-Within plant 5 turn_over running_service 0

abbrev over : Loop Unit (Map Task) ℕ
over = loop_of (rounds plant turn_over (stay (begin plant 5 running_service 0)))

abbrev task_done : Task
task_done = record (task_at "t" completed) { updated_at = 7 }

over_completed : lookup "t" over.service.tasks ≡ some task_done
unfolding rounds round begin lookup insert on_outcome start_prompt remember_prompt
    stop_mid_turn_review finish_turn verify_by evaluate new_prompt_snapshot itoa run_decision
    execute apply_decision default_policy transit transition can_transition moved commit
    publish_each publish_checked new_bus record_history execute_verification on_verified settle
    finish_verification
over_completed = refl

rounds_completed_example : SomeCompletes plant turn_over (stay (begin plant 5 running_service 0))
unfolding lookup
rounds_completed_example =
    rounds_completed plant 5 turn_over running_service 0 {t = task_at "t" running} {u = task_done}
      refl refl over_completed refl

consume_ends_example :
    (out : Service Unit (Map Task) × ℕ) × (consume plant 5
        ((6, idle_due) ∷ (8, hard_due) ∷ [])
        running_service
        0
      ≡ some out)
consume_ends_example =
    consume_ends plant 5 ((6, idle_due) ∷ []) [] 8 hard_due running_service 0 (inl refl)

abbrev lost : Observation
lost = record {
  id = "t:disconnect:1";
  task_id = "t";
  session_id = "s1";
  type = agent_disconnected;
  timestamp = 6;
  payload = nil;
}

abbrev rebuilt : Loop Unit (Map Task) ℕ
rebuilt = loop_of (recover_session plant lost true 6 (begin plant 5 running_service 0))

recovered : recover_session plant lost true 6 (begin plant 5 running_service 0) ≡ stay rebuilt
unfolding recover_session recover_by retry_from after_retry resume adopt_session begin lookup insert
    start_prompt remember_prompt stop_mid_turn_review evaluate new_prompt_snapshot itoa run_decision
    execute apply_decision default_policy transit transition can_transition moved commit
    publish_each retry_perform publish_checked new_bus record_history
recovered = refl

abbrev late : PromptOutcome
late = record { session_id = "s1"; generation = 1; stop_reason = "end_turn"; error = none }

first_turn : late.generation ≤ (begin plant 5 running_service 0).generation
unfolding begin start_prompt remember_prompt stop_mid_turn_review
first_turn = omega arith

recovered_stale_example :
    let l = loop_of (rounds plant ((7, idle_due) ∷ []) (stay rebuilt)) in
    (on_outcome plant false late 8 l ≡ stay l) × (on_mid_turn_outcome plant 1 none 8 l ≡ stay l)
recovered_stale_example =
    recovered_stale plant lost true 6 (begin plant 5 running_service 0) recovered
      ((7, idle_due) ∷ []) false late none 8 first_turn
