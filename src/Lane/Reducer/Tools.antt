-- ===== src/Lane/Reducer/Tools.antt =====
-- The running tools of a lane snapshot in reducer.ts, counted by call.
use livi_agent.Prelude.{
  ℕ, suc, ◌+◌, ◌≤◌, String, ◌≡◌, refl, Bool, true, false, Option, none, some, List, [], ◌∷◌, ◌++◌,
  if◌then◌else◌, any, arith, string_eq, ◌==◌, Option-cases, Bool-cases, inl, inr,
}
use livi_agent.Lane.{
  Operation, Tool, LaneSnapshot, Payload, Event, Entry, TerminalStatus, Property, OperationKind,
}
use livi_agent.Lane.Payload.{
  run_start, run_resume, run_suspend, operation_abort, run_end, fault, handler_error, turn_start,
  turn_end, value_update, lane_created, retry_scheduled, retry_start, retry_end, message_start,
  message_update, message_end, tool_start, tool_update, tool_end, entry_added, queue_update,
  config_update, compaction_start, compaction_end, navigation_start, navigation_end, usage,
}
use livi_agent.Lane.Reducer.{
  is_call, change_tool, remove_tool, upsert_tool, updated, settled, on_operation, tools_after_entry,
  start, add_entry, configure, end_run, end_compaction, apply, reduce_lane_snapshot, reduce_all,
  names,
}

-- How many of the tools belong to the call.
unfoldable pub count_calls : String → List Tool → ℕ
unfolding is_call
count_calls id [] = 0
count_calls id (t ∷ ts) = let n = count_calls id ts in if is_call id t then suc n else n

count-change_tool :
    (id call : String) (f : Tool → Tool) (ts : List Tool)
    → ((t : Tool) → (f t).tool_call_id ≡ t.tool_call_id)
    → count_calls id (change_tool call f ts) ≡ count_calls id ts
unfolding count_calls change_tool
count-change_tool id call f [] same = refl
count-change_tool id call f (t ∷ ts) same =
    ground (arith, same t, count-change_tool id call f ts same)

count-replace :
    (id : String) (new : Tool) (ts : List Tool)
    → count_calls id (change_tool new.tool_call_id (λ _. new) ts) ≡ count_calls id ts
unfolding count_calls change_tool
count-replace id new [] = refl
count-replace id new (t ∷ ts) =
    ground (arith, string_eq.beq_iff t.tool_call_id new.tool_call_id, count-replace id new ts)

count-remove_tool :
    (id call : String) (ts : List Tool) → count_calls id (remove_tool call ts) ≤ count_calls id ts
unfolding count_calls remove_tool
count-remove_tool id call [] = omega arith
count-remove_tool id call (t ∷ ts) = ground (arith, count-remove_tool id call ts)

count-absent : (id : String) (ts : List Tool) → any (is_call id) ts ≡ false → count_calls id ts ≡ 0
unfolding count_calls
count-absent id [] h = refl
count-absent id (t ∷ ts) h = ground (arith, count-absent id ts)

count-snoc :
    (id : String) (t : Tool) (ts : List Tool)
    → count_calls id (ts ++ t ∷ []) ≡ count_calls id ts + (if is_call id t then 1 else 0)
unfolding count_calls
count-snoc id t [] = ground arith
count-snoc id t (u ∷ ts) = ground (arith, count-snoc id t ts)

count-upsert_tool :
    (id : String) (new : Tool) (ts : List Tool)
    → count_calls id ts ≤ 1
    → count_calls id (upsert_tool new ts) ≤ 1
unfolding upsert_tool
count-upsert_tool id new ts le = elim (Bool-cases (any (is_call new.tool_call_id) ts)) [
  | inl e ↦ ground (arith, count-replace id new ts)
  | inr e ↦ ground (
    arith,
    count-snoc id new ts,
    count-absent new.tool_call_id ts,
    string_eq.beq_iff new.tool_call_id id,
  )
]

abbrev pub tools_of : LaneSnapshot → List Tool
tools_of s = elim s.operation [ none ↦ [] | some o ↦ o.running_tools ]

-- No two running tools belong to one call.
abbrev pub Distinct : LaneSnapshot → Type 0
Distinct s = (id : String) → count_calls id (tools_of s) ≤ 1

on_operation-Distinct :
    (s : LaneSnapshot) (op : String) (f : Operation → Operation)
    → ((o : Operation) (id : String)
        → count_calls id o.running_tools ≤ 1
        → count_calls id (f o).running_tools ≤ 1)
    → Distinct s
    → Distinct (on_operation s op f)
unfolding on_operation
on_operation-Distinct s op f keeps h id = elim (Option-cases s.operation) [
  | inl e ↦ rw (e, on_operation) (h id)
  | inr (o, e) ↦ elim (Bool-cases (o.id == op)) [
    | inl same ↦ ground (arith, e, same, keeps o id, h id)
    | inr differs ↦ ground (arith, e, differs, h id)
  ]
]

add_entry-Distinct : (s : LaneSnapshot) (e : Entry) → Distinct s → Distinct (add_entry s e)
unfolding add_entry tools_after_entry count_calls
add_entry-Distinct s e h id = elim (Option-cases s.operation) [
  | inl n ↦ rw n (omega arith)
  | inr (o, is) ↦
      grind (arith, is, h id, λ (call : String). count-remove_tool id call o.running_tools)
]

start-Distinct :
    (s : LaneSnapshot) (op : String) (k : OperationKind) (at : ℕ) → Distinct (start s op k at)
unfolding start count_calls
start-Distinct s op k at id = omega arith

end_run-Distinct :
    (s : LaneSnapshot) (op : String) (from tip : Option String) (at : ℕ) (status : TerminalStatus)
    → Distinct s
    → Distinct (end_run s op from tip at status)
unfolding end_run count_calls
end_run-Distinct s op from tip at status h id = ground (arith, h id)

end_compaction-Distinct :
    (s : LaneSnapshot) (op : String) (at : ℕ) (status : TerminalStatus)
    → Distinct s
    → Distinct (end_compaction s op at status)
unfolding end_compaction count_calls
end_compaction-Distinct s op at status h id = ground (arith, h id)

configure-Distinct : (s : LaneSnapshot) (p : Property) → Distinct s → Distinct (configure s p)
unfolding configure
configure-Distinct s p h id = ground (arith, h id)

apply-Distinct :
    (s : LaneSnapshot) (here : Bool) (p : Payload) → Distinct s → Distinct (apply s here p)
unfolding apply updated settled
apply-Distinct s here (run_start id at) h = start-Distinct s id OperationKind.run at
apply-Distinct s here (compaction_start id at) h = elim (Option-cases s.operation) [
  | inl e ↦ rw (e, apply) (start-Distinct s id OperationKind.compaction at)
  | inr (o, e) ↦ rw (e, apply) h
]
apply-Distinct s here (navigation_start id at) h = start-Distinct s id OperationKind.navigation at
apply-Distinct s here (operation_abort id) h = on_operation-Distinct s id _ (λ o i le. le) h
apply-Distinct s here (run_resume id) h = on_operation-Distinct s id _ (λ o i le. le) h
apply-Distinct s here (run_suspend id handle poll) h = on_operation-Distinct s id _ (λ o i le. le) h
apply-Distinct s here (retry_scheduled id retry) h = on_operation-Distinct s id _ (λ o i le. le) h
apply-Distinct s here (retry_start id) h = on_operation-Distinct s id _ (λ o i le. le) h
apply-Distinct s here (retry_end id) h = on_operation-Distinct s id _ (λ o i le. le) h
apply-Distinct s here (message_start none m) h = h
apply-Distinct s here (message_start (some id) m) h = λ i.
    let changed =
      on_operation-Distinct s id (λ o. record o { streaming_message = some m }) (λ o j le. le) h
        i in
    ground (arith, changed, h i)
apply-Distinct s here (message_update id m) h = λ i.
    let changed =
      on_operation-Distinct s id (λ o. record o { streaming_message = some m }) (λ o j le. le) h
        i in
    ground (arith, changed, h i)
apply-Distinct s here (message_end none) h = h
apply-Distinct s here (message_end (some id)) h = on_operation-Distinct s id _ (λ o i le. le) h
apply-Distinct s here (tool_start id call name args) h =
    on_operation-Distinct s id _ (λ o i le. count-upsert_tool i _ o.running_tools le) h
apply-Distinct s here (tool_update id call result) h =
    on_operation-Distinct s id _
      (λ o i le.
        omega
          (arith, count-change_tool i call (updated result) o.running_tools (λ t. ground arith)))
      h
apply-Distinct s here (tool_end id call name result is_error) h =
    on_operation-Distinct s id _
      (λ o i le. omega (
        arith,
        count-change_tool i call (settled name result is_error) o.running_tools (λ t. refl),
      ))
      h
apply-Distinct s here (entry_added e) h = add_entry-Distinct s e h
apply-Distinct s here (queue_update queues) h = h
apply-Distinct s here (usage totals) h = h
apply-Distinct s true (config_update property) h = configure-Distinct s property h
apply-Distinct s false (config_update property) h = h
apply-Distinct s here (run_end id from tip at status) h = end_run-Distinct s id from tip at status h
apply-Distinct s here (compaction_end id at status) h = end_compaction-Distinct s id at status h
apply-Distinct s here navigation_end h = h
apply-Distinct s here fault h = h
apply-Distinct s here handler_error h = h
apply-Distinct s here turn_start h = h
apply-Distinct s here turn_end h = h
apply-Distinct s here value_update h = h
apply-Distinct s here lane_created h = h

reduce-Distinct :
    (s : LaneSnapshot) (e : Event) → Distinct s → Distinct (reduce_lane_snapshot s e).0
unfolding reduce_lane_snapshot
reduce-Distinct s e h i = ground (arith, h i, apply-Distinct s (names e s.lane) e.payload h i)

-- From a snapshot whose running tools belong to distinct calls, no sequence of events makes one where
-- two running tools belong to the same call.
pub reduce_all-Distinct :
    (s : LaneSnapshot) (es : List Event) → Distinct s → Distinct (reduce_all s es)
unfolding reduce_all
reduce_all-Distinct s [] h = h
reduce_all-Distinct s (e ∷ es) h =
    reduce_all-Distinct (reduce_lane_snapshot s e).0 es (reduce-Distinct s e h)
