-- ===== src/Agent.antt =====
-- internal/agent/adapter.go: what the control plane knows of an adapter. The adapters themselves drive
-- processes outside the program; `driver` stands for one with its optional interfaces, `configured`
-- for the wrapper that `WithMetadata` makes.
pub mod Registry
use cyber_foreman.Prelude.{String, Bool, true, false, Option, none, some, List}

pub record Capabilities : Type 0 where
  pub command : Bool
  pub structured_events : Bool
  pub resume_session : Bool
  pub prompt : Bool
  pub mid_turn_message : Bool
  pub cancel_turn : Bool
  pub session_config : Bool
  pub tool_events : Bool
  pub permission_events : Bool

pub record AdapterStatus : Type 0 where
  pub installed : Bool
  pub healthy : Bool
  pub error : String

pub record Metadata : Type 0 where
  pub selectable : Bool
  pub driver_name : String
  pub provider_format : String
  pub default_model : String
  pub default_workspace : String

-- An adapter that is not wrapped: `status` and `metadata` are there if it implements `StatusProvider`
-- and `MetadataProvider`, and `resolves` says whether it implements `PermissionResolver`.
pub record Driver : Type 0 where
  pub name : String
  pub capabilities : Capabilities
  pub status : Option AdapterStatus
  pub metadata : Option Metadata
  pub resolves : Bool

pub data Adapter : Type 0 where
  driver : Driver → Adapter
  configured : Adapter → Metadata → Adapter

-- `Name` and `Capabilities`, which the wrapper passes on.
abbrev pub adapter_name : Adapter → String
adapter_name (driver d) = d.name
adapter_name (configured a m) = adapter_name a

abbrev pub capabilities_of : Adapter → Capabilities
capabilities_of (driver d) = d.capabilities
capabilities_of (configured a m) = capabilities_of a

abbrev status_or_healthy : Option AdapterStatus → AdapterStatus
status_or_healthy none = record { installed = true; healthy = true; error = "" }
status_or_healthy (some s) = s

-- `StatusOf`.
abbrev pub status_of : Adapter → AdapterStatus
status_of (driver d) = status_or_healthy d.status
status_of (configured a m) = status_of a

abbrev metadata_or_empty : Option Metadata → Metadata
metadata_or_empty none = record {
  selectable = false;
  driver_name = "";
  provider_format = "";
  default_model = "";
  default_workspace = "";
}
metadata_or_empty (some m) = m

-- `MetadataOf`.
abbrev pub metadata_of : Adapter → Metadata
metadata_of (driver d) = metadata_or_empty d.metadata
metadata_of (configured a m) = m

-- `CanResolvePermission`: the loop through the wrappers.
abbrev pub can_resolve_permission : Adapter → Bool
can_resolve_permission (driver d) = d.resolves
can_resolve_permission (configured a m) = can_resolve_permission a

pub record StartRequest : Type 0 where
  pub task_id : String
  pub command : List String
  pub cwd : String
