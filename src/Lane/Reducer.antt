-- ===== src/Lane/Reducer.antt =====
-- packages/agent/src/harness/runtime/reducer.ts: an event applied to a lane snapshot.
pub mod Tools
pub mod Messages
mod Tests
use livi_agent.Prelude.{
  ℕ, suc, ◌+◌, String, Bool, true, false, not, ◌&&◌, ◌||◌, Option, none, some, List, [], ◌∷◌, ◌++◌,
  if◌then◌else◌, any, ◌==◌, string_eq,
}
use livi_agent.Lane.{
  Json, Operation, OperationKind, OperationStatus, TerminalStatus, ToolState, Tool, Role, Message,
  EntryKind, Entry, Retry, LaneSnapshot, Property, Payload, Event, OperationResultRecord,
}
use livi_agent.Lane.Payload.{
  run_start, run_resume, run_suspend, operation_abort, run_end, fault, handler_error, turn_start,
  turn_end, value_update, lane_created, retry_scheduled, retry_start, retry_end, message_start,
  message_update, message_end, tool_start, tool_update, tool_end, entry_added, queue_update,
  config_update, compaction_start, compaction_end, navigation_start, navigation_end, usage,
}

pub is_call : String → Tool → Bool
is_call id t = t.tool_call_id == id

-- The first tool of the call, changed.
pub change_tool : String → (Tool → Tool) → List Tool → List Tool
unfolding is_call
change_tool id f [] = []
change_tool id f (t ∷ ts) =
    let rest = change_tool id f ts in if is_call id t then f t ∷ ts else t ∷ rest

-- Without the first tool of the call.
pub remove_tool : String → List Tool → List Tool
unfolding is_call
remove_tool id [] = []
remove_tool id (t ∷ ts) = let rest = remove_tool id ts in if is_call id t then ts else t ∷ rest

pub upsert_tool : Tool → List Tool → List Tool
unfolding is_call change_tool
upsert_tool t ts =
    if any (is_call t.tool_call_id) ts then change_tool t.tool_call_id (λ _. t) ts else ts ++ t ∷ []

-- A change of the operation that has the id.
pub on_operation : LaneSnapshot → String → (Operation → Operation) → LaneSnapshot
on_operation s id f = elim s.operation [
  | none ↦ s
  | some o ↦ if o.id == id then record s { operation = some (f o) } else s
]

pub start : LaneSnapshot → String → OperationKind → ℕ → LaneSnapshot
start s id kind at = record s {
  operation = some (record {
    id = id;
    kind = kind;
    started_at = at;
    from_tip_id = s.tip_id;
    status = OperationStatus.open_;
    retry = none;
    deferred = none;
    streaming_message = none;
    running_tools = [];
  });
}

pub updated : Json → Tool → Tool
updated result t = elim t.state [
  | ToolState.running r ↦ record t { state = ToolState.running (some result) }
  | ToolState.settled r e ↦ t
]

pub settled : String → Json → Bool → Tool → Tool
settled name result is_error t = record t {
  tool_name = name;
  state = ToolState.settled result is_error;
}

abbrev with_tools : (List Tool → List Tool) → Operation → Operation
with_tools f o = record o { running_tools = f o.running_tools }

-- A tool's result entry takes the tool from the list, whatever the operation's id.
pub tools_after_entry : Entry → Operation → Operation
unfolding remove_tool
tools_after_entry e o = elim e.kind [
  | EntryKind.message m ↦ elim m.role [
    | Role.tool_result id ↦ with_tools (remove_tool id) o
    | Role.assistant ↦ o
    | Role.other ↦ o
  ]
  | EntryKind.compaction ↦ o
  | EntryKind.other ↦ o
]

pub counted : EntryKind → ℕ
counted (EntryKind.message m) = 1
counted EntryKind.compaction = 0
counted EntryKind.other = 0

pub transcript_after : Entry → List Entry → List Entry
transcript_after e l = elim e.kind [
  | EntryKind.compaction ↦ e ∷ []
  | EntryKind.message m ↦ l ++ e ∷ []
  | EntryKind.other ↦ l ++ e ∷ []
]

pub add_entry : LaneSnapshot → Entry → LaneSnapshot
unfolding tools_after_entry counted transcript_after
add_entry s e = record s {
  operation = elim s.operation [ none ↦ none | some o ↦ some (tools_after_entry e o) ];
  transcript = transcript_after e s.transcript;
  tip_id = some e.id;
  stats = record (s.stats) { message_count = s.stats.message_count + counted e.kind };
}

is_assistant : Message → Bool
is_assistant m = elim m.role [
  | Role.assistant ↦ true
  | Role.tool_result _ ↦ false
  | Role.other ↦ false
]

pub configure : LaneSnapshot → Property → LaneSnapshot
configure s (Property.model m) = record s { configuration = record (s.configuration) { model = m } }
configure s (Property.thinking_level l) = record s {
  configuration = record (s.configuration) { thinking_level = l };
}
configure s (Property.active_tools names) = record s {
  configuration = record (s.configuration) { active_tool_names = names };
}
configure s Property.global = s

pub end_run :
    LaneSnapshot → String → Option String → Option String → ℕ → TerminalStatus → LaneSnapshot
end_run s id from tip at status = elim s.operation [
  | none ↦ s
  | some o ↦
      if (o.id == id) && elim o.kind [ OperationKind.run ↦ true | _ ↦ false ]
      then record s {
        last_result = some (record {
          operation_id = id;
          kind = OperationKind.run;
          status = status;
          from_tip_id = from;
          tip_id = tip;
          started_at = o.started_at;
          ended_at = at;
        });
        operation = none;
        tip_id = tip;
      }
      else s
]

pub end_compaction : LaneSnapshot → String → ℕ → TerminalStatus → LaneSnapshot
end_compaction s id at status = elim s.operation [
  | none ↦ s
  | some o ↦
      if (o.id == id) && elim o.kind [ OperationKind.compaction ↦ true | _ ↦ false ]
      then record s {
        last_result = some (record {
          operation_id = id;
          kind = OperationKind.compaction;
          status = status;
          from_tip_id = o.from_tip_id;
          tip_id = s.tip_id;
          started_at = o.started_at;
          ended_at = at;
        });
        operation = none;
      }
      else s
]

-- The `switch` of `reduceLaneSnapshot`; `names_lane` says that the event names the snapshot's lane.
pub apply : LaneSnapshot → Bool → Payload → LaneSnapshot
unfolding start on_operation is_assistant upsert_tool change_tool updated settled add_entry
    configure end_run end_compaction
apply s names_lane (run_start id at) = start s id OperationKind.run at
apply s names_lane (compaction_start id at) = elim s.operation [
  | some o ↦ s
  | none ↦ start s id OperationKind.compaction at
]
apply s names_lane (navigation_start id at) = start s id OperationKind.navigation at
apply s names_lane (operation_abort id) =
    on_operation s id (λ o. record o { status = OperationStatus.aborting })
apply s names_lane (run_resume id) = on_operation s id (λ o. record o { deferred = none })
apply s names_lane (run_suspend id handle poll) = on_operation s id (λ o. record o {
  streaming_message = none;
  deferred = some (record { handle = handle; poll = poll });
})
apply s names_lane (retry_scheduled id retry) =
    on_operation s id (λ o. record o { retry = some retry })
apply s names_lane (retry_start id) = on_operation s id (λ o. record o { retry = none })
apply s names_lane (retry_end id) = on_operation s id (λ o. record o { retry = none })
apply s names_lane (message_start none m) = s
apply s names_lane (message_start (some id) m) =
    if is_assistant m && m.pending
    then on_operation s id (λ o. record o { streaming_message = some m })
    else s
apply s names_lane (message_update id m) =
    if is_assistant m then on_operation s id (λ o. record o { streaming_message = some m }) else s
apply s names_lane (message_end none) = s
apply s names_lane (message_end (some id)) =
    on_operation s id (λ o. record o { streaming_message = none })
apply s names_lane (tool_start id call name args) = on_operation s id (
    with_tools (
      upsert_tool (record {
        tool_call_id = call;
        tool_name = name;
        args = args;
        state = ToolState.running none;
      })))
apply s names_lane (tool_update id call result) =
    on_operation s id (with_tools (change_tool call (updated result)))
apply s names_lane (tool_end id call name result is_error) =
    on_operation s id (with_tools (change_tool call (settled name result is_error)))
apply s names_lane (entry_added e) = add_entry s e
apply s names_lane (queue_update queues) = record s { queues = queues }
apply s names_lane (usage totals) = record s { stats = record (s.stats) { usage = totals } }
apply s names_lane (config_update property) = if names_lane then configure s property else s
apply s names_lane (run_end id from tip at status) = end_run s id from tip at status
apply s names_lane (compaction_end id at status) = end_compaction s id at status
apply s names_lane navigation_end = s
apply s names_lane fault = record s { faulted = true }
apply s names_lane handler_error = s
apply s names_lane turn_start = s
apply s names_lane turn_end = s
apply s names_lane value_update = s
apply s names_lane lane_created = s

pub names : Event → String → Bool
names e lane = elim e.lane [ none ↦ false | some l ↦ l == lane ]

-- The guard: an event of another lane, unless it is `usage`.
pub is_foreign : Event → String → Bool
unfolding names
is_foreign e lane = elim e.payload [
  | usage totals ↦ false
  | _ ↦ elim e.lane [ none ↦ false | some l ↦ not (l == lane) ]
]

rebases : Payload → Bool
rebases navigation_end = true
rebases _ = false

-- The snapshot, and `true` for "rebase".
pub reduce_lane_snapshot : LaneSnapshot → Event → LaneSnapshot × Bool
unfolding is_foreign names apply rebases
reduce_lane_snapshot s e =
    if is_foreign e s.lane
    then (s, false)
    else (apply s (names e s.lane) e.payload, rebases e.payload)

pub reduce_all : LaneSnapshot → List Event → LaneSnapshot
reduce_all s [] = s
reduce_all s (e ∷ es) = reduce_all (reduce_lane_snapshot s e).0 es
