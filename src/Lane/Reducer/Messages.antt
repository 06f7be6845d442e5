-- ===== src/Lane/Reducer/Messages.antt =====
-- The message count of a lane snapshot in reducer.ts.
use livi_agent.Prelude.{
  ◌+◌, String, ◌≡◌, Bool, true, false, ◌&&◌, ◌==◌, none, some, List, [], ◌∷◌, length, keep_if,
  if◌then◌else◌, arith, string_eq,
}
use livi_agent.Lane.{LaneSnapshot, EntryKind, Payload, Event}
use livi_agent.Lane.Payload.{entry_added}
use livi_agent.Lane.Reducer.{
  start, on_operation, add_entry, configure, end_run, end_compaction, apply, reduce_lane_snapshot,
  reduce_all, counted, is_foreign, names,
}

is_message : EntryKind → Bool
is_message (EntryKind.message m) = true
is_message EntryKind.compaction = false
is_message EntryKind.other = false

is_addition : Payload → Bool
is_addition (entry_added e) = is_message e.kind
is_addition _ = false

-- The event adds a message entry, and names the lane or none.
unfoldable pub adds_message : String → Event → Bool
unfolding is_message is_addition
adds_message lane e = is_addition e.payload && elim e.lane [ none ↦ true | some l ↦ l == lane ]

apply-message_count :
    (s : LaneSnapshot) (here : Bool) (p : Payload)
    → (apply s here p).stats.message_count
      ≡ s.stats.message_count + (if is_addition p then 1 else 0)
unfolding apply counted is_message is_addition start on_operation add_entry configure end_run
    end_compaction
apply-message_count s here p = ground arith

reduce-message_count :
    (s : LaneSnapshot) (e : Event)
    → (reduce_lane_snapshot s e).0.stats.message_count
      ≡ s.stats.message_count + (if adds_message s.lane e then 1 else 0)
unfolding adds_message reduce_lane_snapshot is_foreign is_addition
reduce-message_count s e = ground (arith, apply-message_count s (names e s.lane) e.payload)

apply-lane : (s : LaneSnapshot) (here : Bool) (p : Payload) → (apply s here p).lane ≡ s.lane
unfolding apply start on_operation add_entry configure end_run end_compaction
apply-lane s here p = ground arith

reduce-lane : (s : LaneSnapshot) (e : Event) → (reduce_lane_snapshot s e).0.lane ≡ s.lane
unfolding reduce_lane_snapshot
reduce-lane s e = ground (arith, apply-lane s (names e s.lane) e.payload)

-- After any events the message count has grown by the number of those events that add an entry of the
-- kind message and name the snapshot's lane or none; a compaction, which shortens the transcript, and
-- the events of other lanes leave it.
pub reduce_all-message_count :
    (s : LaneSnapshot) (es : List Event)
    → (reduce_all s es).stats.message_count
      ≡ s.stats.message_count + length (keep_if (adds_message s.lane) es)
unfolding reduce_all
reduce_all-message_count s [] = omega arith
reduce_all-message_count s (e ∷ es) =
    let rest = reduce_all-message_count (reduce_lane_snapshot s e).0 es in
    ground (arith, rest, reduce-message_count s e, reduce-lane s e)
