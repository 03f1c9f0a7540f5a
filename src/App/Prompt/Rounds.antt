-- ===== src/App/Prompt/Rounds.antt =====
-- internal/app/prompt.go: `consumePrompt` as a whole. What the `select` of its loop receives is an input;
-- which of several ready channels it takes is up to the sequence of inputs.
use cyber_foreman.Prelude.{
  ℕ, Bool, true, false, ◌||◌, List, [], ◌∷◌, Option, none, some, if◌then◌else◌, ◌==◌, lookup,
  delete,
}
use cyber_foreman.Domain.{negsuc}
use cyber_foreman.Event.{Event}
use cyber_foreman.Supervisor.Semantic.{SemanticReview, SemanticMidTurnPolicy}
use cyber_foreman.App.Types.{TaskAction, Runtime, Service, cancelled, stopped_session}
use cyber_foreman.App.Service.{fail}
use cyber_foreman.App.Review.{Reviewer}
use cyber_foreman.App.Prompt.State.{
  Plant, Loop, Outcome, stay, leave, new_prompt_snapshot, reset_timer,
}
use cyber_foreman.App.Prompt.Turn.{start_prompt}
use cyber_foreman.App.Prompt.Actions.{on_action}
use cyber_foreman.App.Prompt.Events.{on_event, on_closed}
use cyber_foreman.App.Prompt.MidTurn.{on_mid_turn_due, on_mid_turn_outcome}
use cyber_foreman.App.Prompt.TurnEnd.{PromptOutcome, on_outcome}
use cyber_foreman.App.Prompt.Timers.{on_idle_due, on_hard_due, on_waiting_due}

-- The cases of the `select`. For `closed` and `ended_turn` the flag says whether the context has ended when
-- the code looks at it.
pub data Input : Type 0 where
  acted : TaskAction → Input
  event : Event → Input
  closed : Bool → Input
  mid_turn_due : Input
  mid_turn_reviewed : ℕ → Option SemanticReview → Input
  ended_turn : Bool → PromptOutcome → Input
  idle_due hard_due waiting_due done : Input

-- The policy for reviews of active turns that the loop goes by.
abbrev pub mid_turn_policy : {W : Type 0} → Option (Reviewer W) → SemanticMidTurnPolicy
mid_turn_policy none = record {
  enabled = false;
  interval = 0;
  min_output_runes = 0;
  max_reviews = 0;
}
mid_turn_policy (some r) =
    if m.interval == 0 || (m.min_output_runes == 0 || m.max_reviews == 0)
    then record m { enabled = false }
    else m
  where
    open r.descriptor use {mid_turn as m}

module _ {J S W : Type 0} (p : Plant J S W) where
  -- One round, at the time `now`.
  unfoldable pub round : ℕ → Input → Loop J S W → Outcome J S W
  round now (acted a) l = stay (on_action p a now l)
  round now (event e) l = on_event p e now l
  round now (closed ended) l = on_closed p ended now l
  round now mid_turn_due l = stay (on_mid_turn_due p l)
  round now (mid_turn_reviewed generation review) l = on_mid_turn_outcome p generation review now l
  round now (ended_turn ended o) l = on_outcome p ended o now l
  round now idle_due l = on_idle_due p now l
  round now hard_due l = on_hard_due p now l
  round now waiting_due l = on_waiting_due p now l
  round now done l = leave l

  -- Rounds until the loop ends or the inputs do.
  unfoldable pub rounds : List (ℕ × Input) → Outcome J S W → Outcome J S W
  rounds [] o = o
  rounds ((now, i) ∷ is) (stay l) = rounds is (round now i l)
  rounds ((now, i) ∷ is) (leave l) = leave l

  -- The variables before the loop, and the first prompt.
  unfoldable pub begin : ℕ → Service J S → W → Loop J S W
  begin now s w = start_prompt p p.runtime.prompt p.runtime.prompt "operator" true now (record {
    service = s;
    world = w;
    snapshot = new_prompt_snapshot p.task_id p.runtime.policy now;
    session_id = p.runtime.session_id;
    prompt_active = false;
    generation = 0;
    trusted_prompts = [];
    replay_on_next_prompt = false;
    turn_response = "";
    turn_response_runes = 0;
    current_instruction = "";
    current_instruction_source = "";
    mid_turn_active = false;
    mid_turn_reviews = 0;
    mid_turn_timer = none;
    idle_timer = reset_timer p.runtime.policy.idle_timeout p.runtime.policy.idle_timeout;
    hard_timer = reset_timer p.runtime.policy.hard_timeout p.runtime.policy.hard_timeout;
    waiting_timer = none;
    sequence = 0;
    pending_follow_up = "";
    pending_follow_up_source = "";
    manual_interrupted = false;
    review_context = none;
    replies = [];
  })

  -- The deferred end: the session is cancelled and stopped, and the runtime is removed.
  unfoldable pub clean_up : Loop J S W → Service J S × W
  clean_up l = (
    record l.service {
      session_calls = stopped_session l.session_id ∷ cancelled p.task_id ∷ l.service.session_calls;
      runtimes = delete p.task_id l.service.runtimes;
    },
    (p.agents.stop l.session_id l.world).1,
  )

  abbrev pub ended : Outcome J S W → Option (Service J S × W)
  ended (stay l) = none
  ended (leave l) = some (clean_up l)

  -- `consumePrompt` once the runtime is found, over the inputs that it receives: `none` while the loop goes
  -- on.
  unfoldable pub consume_prompt : ℕ → List (ℕ × Input) → Service J S → W → Option (Service J S × W)
  consume_prompt now is s w = ended (rounds is (stay (begin now s w)))

module _ {J S W : Type 0} where
  abbrev pub with_runtime : Runtime → Plant J S W → Plant J S W
  with_runtime r p = record p { runtime = r; mid_turn = mid_turn_policy p.reviewer }

  abbrev pub consume_found :
      Plant J S W
      → Option Runtime
      → ℕ
      → List (ℕ × Input)
      → Service J S
      → W
      → Option (Service J S × W)
  consume_found p none now is s w =
      some ((fail p.env p.ops p.task_id (negsuc 0) "prompt runtime is missing" now s).1, w)
  consume_found p (some r) now is s w = consume_prompt (with_runtime r p) now is s w

  -- `Service.consumePrompt`: the runtime is the one that the service keeps for the task.
  unfoldable pub consume :
      Plant J S W → ℕ → List (ℕ × Input) → Service J S → W → Option (Service J S × W)
  consume p now is s w = consume_found p (lookup p.task_id s.runtimes) now is s w
