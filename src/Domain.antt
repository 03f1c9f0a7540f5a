-- ===== src/Domain.antt =====
-- internal/domain/types.go: tasks, their status, the kinds of event and the payloads that the
-- control plane reads back. `time.Time` is the number of nanoseconds since Go's zero time, so
-- `IsZero` is a test against 0; pointers that may be nil are `Option`.
mod Int
pub use Int.{ℤ, pos, negsuc, is_zero_ℤ}
use cyber_foreman.Prelude.{ℕ, String, Bool, true, false, ◌||◌, Option, List, ◌==◌}

pub data TaskKind : Type 0 where
  command_kind agent_kind : TaskKind

pub data TaskStatus : Type 0 where
  queued running recovering verifying permission waiting completed failed stopped attention :
      TaskStatus

abbrev pub status_code : TaskStatus → ℕ
status_code queued = 0
status_code running = 1
status_code recovering = 2
status_code verifying = 3
status_code permission = 4
status_code waiting = 5
status_code completed = 6
status_code failed = 7
status_code stopped = 8
status_code attention = 9

-- Go's `==` on statuses.
abbrev pub is_status : TaskStatus → TaskStatus → Bool
is_status s t = status_code s == status_code t

-- `TaskStatus.Terminal`.
unfoldable pub is_terminal : TaskStatus → Bool
is_terminal s =
    is_status s completed || is_status s failed || is_status s stopped || is_status s attention

abbrev pub is_agent_kind : TaskKind → Bool
is_agent_kind agent_kind = true
is_agent_kind command_kind = false

pub record Task : Type 0 where
  pub id : String
  pub kind : TaskKind
  pub adapter : String
  pub command : List String
  pub cwd : String
  pub source_cwd : String
  pub worktree_root : String
  pub base_revision : String
  pub status : TaskStatus
  pub exit_code : Option ℤ
  pub error : String
  pub created_at : ℕ
  pub updated_at : ℕ

pub data EventType : Type 0 where
  task_created task_state task_workspace : EventType
  agent_started agent_output agent_error agent_exited agent_session_update agent_stderr : EventType
  agent_disconnected agent_permission agent_permission_done agent_interrupt : EventType
  agent_follow_up conversation_message : EventType
  supervisor_decision supervisor_started supervisor_finished : EventType
  semantic_review_start semantic_review_end semantic_tool_call : EventType
  verification_start verification_finish task_attention : EventType

pub record AgentOutputData : Type 0 where
  pub stream : String
  pub line : String

pub record AgentExitData : Type 0 where
  pub exit_code : ℤ
  pub error : String

pub record TaskStateData : Type 0 where
  pub from : TaskStatus
  pub to : TaskStatus
  pub reason : String

-- The raw JSON text of an ACP session update.
pub record AgentSessionUpdateData : Type 0 where
  pub update : String

pub record ConversationMessageData : Type 0 where
  pub role : String
  pub source : String
  pub text : String

pub record PermissionOptionData : Type 0 where
  pub id : String
  pub name : String
  pub kind : String

pub record AgentPermissionData : Type 0 where
  pub request_id : String
  pub title : String
  pub options : List PermissionOptionData
