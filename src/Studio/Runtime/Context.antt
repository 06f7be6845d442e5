-- ===== src/Studio/Runtime/Context.antt =====
-- `context` of packages/decorator-agent/src/studio-session.ts: the room that a model turn or a tool sees.
use livi_agent.Prelude.{
  String, Bool, true, false, not, ◌&&◌, ◌||◌, Option, none, some, List, if◌then◌else◌, ◌==◌,
  string_eq, pair_eq, is_some,
}
use livi_agent.Studio.Contract.{Binding, Snapshot}
use livi_agent.Studio.Journal
use livi_agent.Studio.Journal.{Journal, Admission, PlanningSnapshot}
use livi_agent.Studio.Journal.Calls.{Call, run}
use livi_agent.Studio.Runtime.{same_binding}

-- The turn in which the call is made, and the tool invocation it is made for.
pub record TurnIdentity : Type 0 where
  pub in_tools : Bool
  pub operation_id : String
  pub turn_id : String

pub record Invocation : Type 0 where
  pub operation_id : String
  pub turn_id : String

-- A snapshot that was got, or the message of an error.
pub data Attempt : Type 0 where
  fetched : Snapshot → Attempt
  refused : String → Attempt

-- What happens meanwhile: whether the call is aborted before it starts, the calls on the journal while
-- the broker is waited for, its answer, and the reason's message where the call is aborted then.
pub record Meanwhile : Type 0 where
  pub aborted : Bool
  pub has_broker : Bool
  pub between : List Call
  pub answer : Attempt
  pub aborted_then : Option String

pub data ContextError : Type 0 where
  aborted : ContextError
  missing_operation : ContextError
  refused_context : String → ContextError
  studio_unavailable : Option String → ContextError

pub data Given : Type 0 where
  nothing : Given
  given : PlanningSnapshot → Given
  thrown : ContextError → Given

-- The session's journal and `this.refreshed` after the call, and what it gives.
pub record InContext : Type 0 where
  pub journal : Journal
  pub refreshed : Option PlanningSnapshot
  pub outcome : Given

unfoldable pub is_foreign : Option TurnIdentity → Option Invocation → Bool
is_foreign identity none = false
is_foreign none (some i) = true
is_foreign (some t) (some i) =
    not t.in_tools || not (t.operation_id == i.operation_id) || not (t.turn_id == i.turn_id)

unfoldable pub reused : Option PlanningSnapshot → String → Option Invocation → Option Snapshot
reused refreshed op (some i) = none
reused none op none = none
reused (some p) op none = if p.operation_id == op then p.snapshot else none

abbrev pub changed_after : String
changed_after =
    "wrong_binding: The conversation changed rooms after this request; submit a new request"

abbrev pub changed_during : String
changed_during =
    "wrong_binding: The conversation changed rooms during refresh; submit a new request"

-- What the broker gives, or the snapshot that is at hand.
unfoldable pub evidence : Option Snapshot → Attempt → Attempt
evidence (some s) answer = fetched s
evidence none answer = answer

-- The tests behind the broker's answer.
unfoldable pub confirm : Journal → Binding → Meanwhile → Attempt → Attempt
unfolding same_binding
confirm later b w (refused m) = refused m
confirm later b w (fetched s) = elim w.aborted_then [
  | some m ↦ refused m
  | none ↦
      if not (same_binding (Journal.binding later) (some b))
      then refused changed_during
      else fetched s
]

-- The `try` of `context`.
unfoldable pub attempt : Journal → Binding → Option Snapshot → Meanwhile → Journal × Attempt
unfolding confirm evidence same_binding
attempt j b at_hand w =
    if not (same_binding (Journal.binding j) (some b))
    then (j, refused changed_after)
    else (run j w.between, confirm (run j w.between) b w (evidence at_hand w.answer))

abbrev pub admitted_binding : Option Admission → Option Binding
admitted_binding none = none
admitted_binding (some a) = a.value

abbrev pub unavailable_of : Option Admission → String
unavailable_of none = "This operation has no recorded room binding; submit a new request"
unavailable_of (some a) = "Attach a connected Studio to use room actions"

unfoldable pub planning_of :
    TurnIdentity → Option Admission → Option Snapshot → Option String → PlanningSnapshot
planning_of t a snapshot unavailable = record {
  original_query = elim a [ none ↦ none | some x ↦ x.original_query ];
  operation_id = t.operation_id;
  turn_id = t.turn_id;
  binding = admitted_binding a;
  snapshot = snapshot;
  unavailable = unavailable;
  action = elim a [ none ↦ none | some x ↦ x.action ];
}

-- The end of `context`: a tool's refresh is kept for the next turn, a turn's plan goes to the journal.
unfoldable pub conclude : Journal → Option Invocation → PlanningSnapshot → InContext
conclude j none p =
    let (k, q) = Journal.plan j p in record { journal = k; refreshed = none; outcome = given q }
conclude j (some i) p = elim p.snapshot [
  | none ↦ record {
    journal = j;
    refreshed = none;
    outcome = thrown (studio_unavailable p.unavailable);
  }
  | some s ↦ record { journal = j; refreshed = some p; outcome = given p }
]

-- What the `try` gives, and the `catch`.
unfoldable pub recovered :
    Journal × Attempt → Option Invocation → TurnIdentity → Option Admission → InContext
unfolding conclude planning_of
recovered (j, fetched s) invocation t a = conclude j invocation (planning_of t a (some s) none)
recovered (j, refused m) none t a = conclude j none (planning_of t a none (some m))
recovered (j, refused m) (some i) t a = record {
  journal = j;
  refreshed = none;
  outcome = thrown (refused_context m);
}

unfoldable pub refresh :
    Journal × Option Admission
    → Option PlanningSnapshot
    → Option Invocation
    → TurnIdentity
    → Meanwhile
    → InContext
unfolding recovered attempt reused conclude planning_of
refresh (j, a) refreshed invocation t w = elim (admitted_binding a) [
  | none ↦ conclude j invocation (planning_of t a none (some (unavailable_of a)))
  | some b ↦
      if w.has_broker
      then recovered (attempt j b (reused refreshed t.operation_id invocation) w) invocation t a
      else conclude j invocation (planning_of t a none (some (unavailable_of a)))
]

unfoldable pub existing_of : Option PlanningSnapshot → Given
existing_of none = nothing
existing_of (some p) = given p

unfoldable pub in_turn :
    Journal → Option PlanningSnapshot → Option Invocation → TurnIdentity → Meanwhile → InContext
unfolding refresh existing_of
in_turn j refreshed invocation t w =
    let existing = Journal.planning j t.operation_id t.turn_id in
    if not (is_some invocation) && (is_some existing || t.in_tools)
    then record { journal = j; refreshed = refreshed; outcome = existing_of existing }
    else refresh (Journal.admission j t.operation_id) refreshed invocation t w

unfoldable pub context :
    Journal
    → Option PlanningSnapshot
    → Option TurnIdentity
    → Option Invocation
    → Meanwhile
    → InContext
unfolding is_foreign in_turn
context j refreshed identity invocation w =
    if w.aborted
    then record { journal = j; refreshed = refreshed; outcome = thrown aborted }
    else if is_foreign identity invocation
    then record { journal = j; refreshed = refreshed; outcome = thrown missing_operation }
    else elim identity [
      | none ↦ record { journal = j; refreshed = refreshed; outcome = nothing }
      | some t ↦ in_turn j refreshed invocation t w
    ]
