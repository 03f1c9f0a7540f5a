-- ===== src/Event.antt =====
-- internal/domain/types.go, `Event`: what the bus carries. The `Data any` of an event is one of the
-- payload types that the control plane publishes; a map of fields is a list of them.
pub mod Bus
use cyber_foreman.Prelude.{ℕ, String, Bool, List}
use cyber_foreman.Domain.{
  Task, EventType, AgentOutputData, AgentExitData, TaskStateData, AgentSessionUpdateData,
  ConversationMessageData, AgentPermissionData, ℤ,
}
use cyber_foreman.Supervisor.Types.{Decision, Action}

-- The values that such a map holds.
pub data FieldValue : Type 0 where
  text : String → FieldValue
  flag : Bool → FieldValue
  number : ℕ → FieldValue
  action : Action → FieldValue
  texts : List String → FieldValue

pub data EventData : Type 0 where
  nil : EventData
  task_data : Task → EventData
  state_data : TaskStateData → EventData
  output : AgentOutputData → EventData
  exit : AgentExitData → EventData
  session_update : AgentSessionUpdateData → EventData
  message : ConversationMessageData → EventData
  stderr : String → EventData
  disconnected : String → EventData
  permission_request : AgentPermissionData → EventData
  decision_data : Decision → EventData
  fields : List (String × FieldValue) → EventData

pub record Event : Type 0 where
  pub id : String
  pub version : String
  pub sequence : ℕ
  pub task_id : String
  pub session_id : String
  pub type : EventType
  pub timestamp : ℕ
  pub payload : EventData

-- An event as its publisher writes it: the bus gives it an id, a version and a sequence number.
abbrev pub new_event : String → String → EventType → ℕ → EventData → Event
new_event task_id session_id type timestamp payload = record {
  id = "";
  version = "";
  sequence = 0;
  task_id = task_id;
  session_id = session_id;
  type = type;
  timestamp = timestamp;
  payload = payload;
}
