-- ===== src/Lane.antt =====
-- packages/agent/src/harness: the lane snapshot that a client follows, and its events.
-- A value that the reducer only carries is a String, its JSON text. An event's payload has the fields
-- that the reducer reads.
pub mod Reducer
use livi_agent.Prelude.{ℕ, String, Bool, Option, List}

-- `OperationError`, `DeferredHandle`, tool arguments and results, `Usage`, queue items and models.
abbrev pub Json : Type 0
Json = String

pub data OperationKind : Type 0 where
  run compaction navigation : OperationKind

pub data OperationStatus : Type 0 where
  running open_ aborting : OperationStatus

pub data TerminalStatus : Type 0 where
  completed declined aborted : TerminalStatus
  failed : Json → TerminalStatus

pub record OperationResultRecord : Type 0 where
  pub operation_id : String
  pub kind : OperationKind
  pub status : TerminalStatus
  pub from_tip_id : Option String
  pub tip_id : Option String
  pub started_at : ℕ
  pub ended_at : ℕ

pub data ToolState : Type 0 where
  running : Option Json → ToolState
  settled : Json → Bool → ToolState

-- `LaneSnapshotTool`.
pub record Tool : Type 0 where
  pub tool_call_id : String
  pub tool_name : String
  pub args : Json
  pub state : ToolState

pub data Role : Type 0 where
  assistant : Role
  tool_result : String → Role
  other : Role

-- `pending` is `stopReason === "pending"`.
pub record Message : Type 0 where
  pub role : Role
  pub pending : Bool
  pub content : Json

pub data EntryKind : Type 0 where
  message : Message → EntryKind
  compaction : EntryKind
  other : EntryKind

pub record Entry : Type 0 where
  pub id : String
  pub kind : EntryKind
  pub content : Json

pub record Retry : Type 0 where
  pub attempt : ℕ
  pub max_attempts : ℕ
  pub next_attempt_at : ℕ

pub record Deferred : Type 0 where
  pub handle : Json
  pub poll : ℕ

pub record Operation : Type 0 where
  pub id : String
  pub kind : OperationKind
  pub started_at : ℕ
  pub from_tip_id : Option String
  pub status : OperationStatus
  pub retry : Option Retry
  pub deferred : Option Deferred
  pub streaming_message : Option Message
  pub running_tools : List Tool

pub record LaneConfiguration : Type 0 where
  pub model : Json
  pub thinking_level : String
  pub active_tool_names : List String

pub record SessionStats : Type 0 where
  pub message_count : ℕ
  pub usage : Json

pub record LaneSnapshot : Type 0 where
  pub lane : String
  pub transcript : List Entry
  pub tip_id : Option String
  pub last_result : Option OperationResultRecord
  pub configuration : LaneConfiguration
  pub stats : SessionStats
  pub operation : Option Operation
  pub queues : List Json
  pub faulted : Bool

pub data Property : Type 0 where
  model : Json → Property
  thinking_level : String → Property
  active_tools : List String → Property
  global : Property

pub data Payload : Type 0 where
  run_start : String → ℕ → Payload
  run_resume : String → Payload
  run_suspend : String → Json → ℕ → Payload
  operation_abort : String → Payload
  run_end : String → Option String → Option String → ℕ → TerminalStatus → Payload
  fault handler_error turn_start turn_end value_update lane_created : Payload
  retry_scheduled : String → Retry → Payload
  retry_start : String → Payload
  retry_end : String → Payload
  message_start : Option String → Message → Payload
  message_update : String → Message → Payload
  message_end : Option String → Payload
  tool_start : String → String → String → Json → Payload
  tool_update : String → String → Json → Payload
  tool_end : String → String → String → Json → Bool → Payload
  entry_added : Entry → Payload
  queue_update : List Json → Payload
  config_update : Property → Payload
  compaction_start : String → ℕ → Payload
  compaction_end : String → ℕ → TerminalStatus → Payload
  navigation_start : String → ℕ → Payload
  navigation_end : Payload
  usage : Json → Payload

-- `HarnessEvent`: a payload, and the lane that it names.
pub record Event : Type 0 where
  pub lane : Option String
  pub payload : Payload
