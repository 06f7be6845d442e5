-- ===== src/Studio/Contract.antt =====
-- decorator-agent/src/services/studio.ts and agent-controller.ts: the values that Studio and the
-- agent exchange. A number that these components only carry is a `Double`, the 64 bits of a
-- JavaScript number. A field that the code tests at run time against the wire is a `Field`.
use livi_agent.Prelude.{ℕ, String, Option, List, Bool, true, false}

abbrev pub Double : Type 0
Double = ℕ

-- A property of a received object: missing, `null`, or a value of its type.
pub data Field (A : Type 0) : Type 0 where
  absent : Field A
  null : Field A
  present : A → Field A

abbrev pub is_present : {A : Type 0} → Field A → Bool
is_present (present a) = true
is_present null = false
is_present absent = false

abbrev pub is_null : {A : Type 0} → Field A → Bool
is_null null = true
is_null absent = false
is_null (present a) = false

pub record Vector3 : Type 0 where
  pub x : Double
  pub y : Double
  pub z : Double

pub record Transform : Type 0 where
  pub position : Vector3
  pub rotation : Vector3
  pub scale : Vector3

pub record Money : Type 0 where
  pub amount_minor : Double
  pub currency : String

pub record Product : Type 0 where
  pub catalog_id : String
  pub price : Option Money

pub record StudioObject : Type 0 where
  pub id : String
  pub name : String
  pub category : String
  pub transform : Transform
  pub dimensions : Vector3
  pub product : Option Product

pub data OpeningKind : Type 0 where
  door window : OpeningKind

pub record Opening : Type 0 where
  pub id : String
  pub kind : OpeningKind
  pub position : Vector3
  pub dimensions : Vector3

pub record Geometry : Type 0 where
  pub floor : List (Double × Double)
  pub height : Double

pub record Snapshot : Type 0 where
  pub design_id : String
  pub revision : String
  pub geometry : Geometry
  pub openings : List Opening
  pub objects : List StudioObject
  pub selected_object_ids : List String
  pub budget : Option Money

pub record Binding : Type 0 where
  pub design_id : String
  pub tab_id : String

pub record Registration : Type 0 where
  pub binding : Binding
  pub label : String
  pub contract_version : ℕ

abbrev pub studio_contract_version : ℕ
studio_contract_version = 1

pub record ContextUpdate : Type 0 where
  pub generation : String
  pub sequence : ℕ
  pub snapshot : Snapshot

pub record SelectionUpdate : Type 0 where
  pub generation : String
  pub sequence : ℕ
  pub selected_object_ids : List String

pub data Placement : Type 0 where
  absolute : Vector3 → Option Vector3 → Placement
  relative : String → Option Vector3 → Placement

-- `StudioAction`: the edits of an object, then the two that create objects.
pub data Action : Type 0 where
  move : Vector3 → Action
  rotate : Vector3 → Action
  remove : Action
  replace : String → Option String → Action
  add : String → ℕ → Option Placement → Action
  duplicate : String → ℕ → Option Placement → Action

pub record CommandEdit : Type 0 where
  pub object_id : Option String
  pub action : Action
  pub reverses_command_id : Option String
  pub reverses_edit_index : Option ℕ

pub data CommandAction : Type 0 where
  single : CommandEdit → CommandAction
  batch : List CommandEdit → CommandAction

pub record Command : Type 0 where
  pub command_id : String
  pub conversation_id : String
  pub binding : Binding
  pub expected_revision : String
  pub action : CommandAction

pub record CreatedInstance : Type 0 where
  pub object_id : String
  pub transform : Transform

pub data EditResult : Type 0 where
  edit : Field Transform → Field Transform → EditResult
  create : Field (List CreatedInstance) → EditResult

pub data ErrorCode : Type 0 where
  studio_unavailable wrong_binding invalid_target invalid_arguments : ErrorCode
  stale_revision save_rejected outcome_unknown : ErrorCode

pub record StudioError : Type 0 where
  pub code : ErrorCode
  pub message : String

-- The kinds of a saved result: `batch` with the results of its edits, or that of one edit.
pub data Saved : Type 0 where
  batch : Field (List EditResult) → Saved
  one : EditResult → Saved

pub data Outcome : Type 0 where
  saved : Saved → String → Snapshot → Outcome
  rejected : StudioError → Outcome
  unknown : String → Outcome

pub record CommandResult : Type 0 where
  pub command_id : String
  pub outcome : Outcome

pub data RequestPayload : Type 0 where
  context : RequestPayload
  execute : Command → RequestPayload

pub record MailboxRequest : Type 0 where
  pub request_id : String
  pub generation : String
  pub binding : Binding
  pub payload : RequestPayload

pub data ResponsePayload : Type 0 where
  context : ContextUpdate → ResponsePayload
  result : CommandResult → Option ContextUpdate → ResponsePayload
  error : StudioError → ResponsePayload

pub record Response : Type 0 where
  pub request_id : String
  pub generation : String
  pub payload : ResponsePayload

pub data Phase : Type 0 where
  offline ready : Phase

pub data PromptAction : Type 0 where
  add_asset : String → ℕ → PromptAction
  replace_asset : String → String → String → String → Option String → PromptAction
