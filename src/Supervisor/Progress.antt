-- ===== src/Supervisor/Progress.antt =====
-- internal/supervisor/progress.go: which events of an agent count as progress, and which become
-- observations. `session_update` is what `json.Unmarshal` reads from the field `sessionUpdate` of a raw
-- update, or nothing where the text is not such JSON.
use cyber_foreman.Prelude.{
  String, str_eq, Bool, true, false, Option, none, some, if◌then◌else◌, any, List, [], ◌∷◌,
}
use cyber_foreman.Domain.{
  EventType, agent_output, agent_session_update, agent_disconnected as disconnected_event,
  agent_exited as exited_event,
}
use cyber_foreman.Event.{Event, EventData, session_update, exit as exit_data}
use cyber_foreman.Supervisor.Types.{
  Observation, agent_progress, agent_disconnected, agent_exited, nil, exit,
}

-- `meaningfulACPUpdates`.
abbrev pub meaningful_updates : List String
meaningful_updates =
    "agent_message_chunk" ∷ "agent_thought_chunk" ∷ "tool_call" ∷ "tool_call_update" ∷ "plan"
    ∷ "plan_update" ∷ []

abbrev pub is_meaningful_update : String → Bool
is_meaningful_update u = any (λ k. str_eq k u) meaningful_updates

module _ (decode : String → Option String) where
  meaningful_data : EventData → Bool
  meaningful_data (session_update u) = elim (decode u.update) [
    | some k ↦ is_meaningful_update k
    | none ↦ false
  ]
  meaningful_data _ = false

  meaningful : EventType → EventData → Bool
  meaningful agent_output p = true
  meaningful agent_session_update p = meaningful_data p
  meaningful _ p = false

  -- `IsMeaningfulProgress`.
  unfoldable pub is_meaningful_progress : Event → Bool
  unfolding meaningful meaningful_data
  is_meaningful_progress e = meaningful e.type e.payload

  chunk_data : EventType → EventData → Bool
  chunk_data agent_session_update (session_update u) = elim (decode u.update) [
    | some k ↦ str_eq k "agent_message_chunk"
    | none ↦ false
  ]
  chunk_data _ _ = false

  -- `IsAgentMessageChunk`.
  unfoldable pub is_agent_message_chunk : Event → Bool
  unfolding chunk_data
  is_agent_message_chunk e = chunk_data e.type e.payload

  exit_observation : Observation → EventData → Option Observation
  exit_observation base (exit_data d) =
      some (record base { type = agent_exited; payload = exit d.exit_code })
  exit_observation base _ = none

  lost_observation : Observation → EventType → EventData → Option Observation
  unfolding exit_observation
  lost_observation base disconnected_event p = some (record base { type = agent_disconnected })
  lost_observation base exited_event p = exit_observation base p
  lost_observation base _ p = none

  -- `ObservationFromEvent`; the second result of the source is whether there is an observation.
  unfoldable pub observation_from_event : String → Event → Option Observation
  unfolding lost_observation
  observation_from_event id e =
      let base : Observation = record {
        id = id;
        task_id = e.task_id;
        session_id = e.session_id;
        type = agent_progress;
        timestamp = e.timestamp;
        payload = nil;
      } in
      if is_meaningful_progress e then some base else lost_observation base e.type e.payload
