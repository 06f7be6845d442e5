-- ===== src/Lane/Reducer/Tests.antt =====
-- Runs of the reducer of reducer.ts on small data.
use livi_agent.Prelude.{◌+◌, ◌≡◌, true, none, some, List, [], ◌∷◌, arith}
use livi_agent.Lane.{Entry, EntryKind, Event, LaneSnapshot, Role}
use livi_agent.Lane.Payload.{run_start, tool_start, entry_added}
use livi_agent.Lane.Reducer.{reduce_all}
use livi_agent.Lane.Reducer.Tools.{Distinct, count_calls, reduce_all-Distinct}
use livi_agent.Lane.Reducer.Messages.{adds_message, reduce_all-message_count}

abbrev idle : LaneSnapshot
idle = record {
  lane = "main";
  transcript = [];
  tip_id = none;
  last_result = none;
  configuration = record { model = "m"; thinking_level = "off"; active_tool_names = [] };
  stats = record { message_count = 2; usage = "{}" };
  operation = none;
  queues = [];
  faulted = true;
}

abbrev reply : Entry
reply = record {
  id = "e1";
  kind = EntryKind.message (record { role = Role.tool_result "t2"; pending = true; content = "" });
  content = "";
}

abbrev summary : Entry
summary = record { id = "e2"; kind = EntryKind.compaction; content = "" }

abbrev tool_run : List Event
tool_run =
    record { lane = some "main"; payload = run_start "r" 5 }
    ∷ record { lane = some "main"; payload = tool_start "r" "t1" "look" "{}" }
    ∷ record { lane = some "main"; payload = tool_start "r" "t2" "look" "{}" }
    ∷ record { lane = some "main"; payload = tool_start "r" "t1" "look" "[]" }
    ∷ record { lane = some "side"; payload = entry_added reply }
    ∷ record { lane = some "main"; payload = entry_added reply }
    ∷ record { lane = none; payload = entry_added reply }
    ∷ record { lane = some "main"; payload = entry_added summary }
    ∷ []

reduce_all-Distinct_example : Distinct (reduce_all idle tool_run)
unfolding count_calls
reduce_all-Distinct_example = reduce_all-Distinct idle tool_run (λ id. omega arith)

reduce_all-message_count_example : (reduce_all idle tool_run).stats.message_count ≡ 2 + 2
unfolding adds_message
reduce_all-message_count_example = reduce_all-message_count idle tool_run
