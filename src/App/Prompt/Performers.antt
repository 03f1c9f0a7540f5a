-- ===== src/App/Prompt/Performers.antt =====
-- internal/app/prompt.go: the performers of the decisions that the loop executes.
use cyber_foreman.Prelude.{
  String, str_eq, append, Bool, true, false, ◌&&◌, Option, none, some, if◌then◌else◌, ◌⊎◌, inl, inr,
}
use cyber_foreman.Agent.{capabilities_of}
use cyber_foreman.Supervisor.Types.{
  Action, is_action, nudge, cancel_and_follow_up, retry_session, attention_required, stop,
}
use cyber_foreman.Supervisor.Executor.{Performer}
use cyber_foreman.App.Prompt.State.{Plant, Acting}

-- `errors.Join` of two errors.
abbrev join_errors : Option String → Option String → Option String
join_errors none b = b
join_errors (some a) none = some a
join_errors (some a) (some b) = some (append a (append "\n" b))

module _ {J S W : Type 0} (p : Plant J S W) where
  -- `promptActionPerformer.Supports`.
  unfoldable pub prompt_supports : Action → Bool
  prompt_supports nudge =
      (capabilities_of p.runtime.adapter).cancel_turn && (capabilities_of p.runtime.adapter).prompt
  prompt_supports cancel_and_follow_up =
      (capabilities_of p.runtime.adapter).cancel_turn && (capabilities_of p.runtime.adapter).prompt
  prompt_supports attention_required = true
  prompt_supports stop = true
  prompt_supports _ = false

  abbrev cancel_turn : String → Acting J S W → Option String × Acting J S W
  cancel_turn session a =
      let (err, w) = p.agents.cancel session a.world in (err, record a { world = w })

  abbrev end_session : String → Acting J S W → Option String × Acting J S W
  end_session session a =
      let (err, w) = p.agents.cancel session a.world in
      let (err', w') = p.agents.stop session w in (join_errors err err', record a { world = w' })

  -- `promptActionPerformer.Perform`.
  unfoldable pub prompt_perform : String → Action → Acting J S W → Option String × Acting J S W
  prompt_perform session nudge a = cancel_turn session a
  prompt_perform session cancel_and_follow_up a = cancel_turn session a
  prompt_perform session attention_required a = end_session session a
  prompt_perform session stop a = end_session session a
  prompt_perform session _ a = (some "supervision action is unsupported", a)

  abbrev pub prompt_performer : String → Performer (Acting J S W)
  prompt_performer session = record {
    supports = prompt_supports;
    perform = λ d a. prompt_perform session d.action a;
  }

  -- `noOpPerformer{action: true}`.
  abbrev pub no_op_performer : Action → Performer (Acting J S W)
  no_op_performer action = record { supports = is_action action; perform = λ d a. (none, a) }

  -- The clean-up of a replacement session that cannot be used.
  abbrev failed_session : String → String → Acting J S W → Option String × Acting J S W
  failed_session session text a =
      (some text, record a { world = (p.agents.stop session a.world).1 })

  chosen_model : String → Option String × W → Acting J S W → Option String × Acting J S W
  chosen_model session (some e, w) a =
      failed_session session (append "restore replacement session model: " e)
        (record a { world = w })
  chosen_model session (none, w) a = (none, record a { world = w; retried = some session })

  subscribed_session : String → Option String × W → Acting J S W → Option String × Acting J S W
  unfolding chosen_model
  subscribed_session session (some e, w) a =
      failed_session session (append "subscribe replacement session: " e) (record a { world = w })
  subscribed_session session (none, w) a =
      if str_eq p.runtime.model ""
      then (none, record a { world = w; retried = some session })
      else chosen_model session (p.agents.set_model session p.runtime.model w) a

  started_session : (String ⊎ String) × W → Acting J S W → Option String × Acting J S W
  unfolding subscribed_session
  started_session (inl e, w) a =
      (some (append "start replacement session: " e), record a { world = w })
  started_session (inr session, w) a = subscribed_session session (p.agents.subscribe session w) a

  -- `sessionRetryPerformer.Perform`, whose field for the session is `retried`.
  unfoldable pub retry_perform : String → Acting J S W → Option String × Acting J S W
  unfolding started_session
  retry_perform previous a =
      started_session (p.agents.start p.runtime.start_request (p.agents.stop previous a.world).1) a

  abbrev pub retry_performer : String → Performer (Acting J S W)
  retry_performer previous = record {
    supports = is_action retry_session;
    perform = λ d a. retry_perform previous a;
  }
