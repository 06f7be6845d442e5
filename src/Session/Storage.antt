-- ===== src/Session/Storage.antt =====
-- packages/agent/src/harness/session/in-memory-storage-state.ts: the materialized state of a session.
-- The key of a value is its address as a pair. A limit of a query is a natural number or missing.
pub mod Queries
pub mod Branch
pub mod Linked
pub mod Walk
pub mod Numbers
pub mod Wanted
pub mod Scans
mod Tests
use livi_agent.Prelude.{
  ℕ, suc, ◌+◌, ◌<◌, ◌≤◌, max, String, Bool, true, false, not, ◌&&◌, ◌||◌, Option, none, some, List,
  [], ◌∷◌, ◌++◌, if◌then◌else◌, ltb, leb, contains, string_eq, pair_eq, is_some,
}
use livi_agent.Prelude.Assoc
use livi_agent.Prelude.Assoc.{Assoc, put}
use livi_agent.Session.{
  Json, Double, Address, EntryType, NewEntry, Entry, UsageRow, NewUsage, Usage, StoredValue,
  ListElement, SessionStats, Write, empty_usage, add_usage, message, compaction, branch_summary,
  custom,
}
use livi_agent.Session.Commit.{
  CommittedWrite, entry, usage, value_set, value_delete, list_append, list_delete, seq_of,
  PreparedCommit, CommitError, prepare_storage_commit, validate_committed_writes,
}

pub record Store : Type 0 where
  pub entries : Assoc String Entry
  pub entries_by_seq : List Entry
  pub scalar_values : Assoc Address StoredValue
  pub list_values : Assoc Address (List ListElement)
  pub usage : Assoc String UsageRow
  pub stats : SessionStats
  pub next_seq : ℕ

unfoldable pub new_store : Store
unfolding empty_usage
new_store = record {
  entries = [];
  entries_by_seq = [];
  scalar_values = [];
  list_values = [];
  usage = [];
  stats = record { message_count = 0; usage = empty_usage };
  next_seq = 1;
}

unfoldable pub has_entry_id : Store → String → Bool
has_entry_id s id = is_some (Assoc.get s.entries id)

unfoldable pub has_entry_or_usage_id : Store → String → Bool
unfolding has_entry_id
has_entry_or_usage_id s id = has_entry_id s id || is_some (Assoc.get s.usage id)

unfoldable pub validate_committed : Store → List CommittedWrite → Option CommitError
unfolding validate_committed_writes has_entry_id has_entry_or_usage_id
validate_committed s ws =
    validate_committed_writes ws s.next_seq (has_entry_or_usage_id s) (has_entry_id s)

pub data Prepared : Type 0 where
  accepted : PreparedCommit → Prepared
  refused : CommitError → Prepared

unfoldable pub prepare_commit : Store → List Write → ℕ → Prepared
unfolding prepare_storage_commit validate_committed
prepare_commit s ws timestamp =
    let prepared = prepare_storage_commit ws s.next_seq timestamp in
    elim (validate_committed s prepared.writes) [ none ↦ accepted prepared | some e ↦ refused e ]

unfoldable pub is_message : EntryType → Bool
is_message message = true
is_message compaction = false
is_message branch_summary = false
is_message custom = false

unfoldable pub apply_entry : Store → Entry → Store
unfolding is_message
apply_entry s e = record s {
  entries = put s.entries e.id e;
  entries_by_seq = s.entries_by_seq ++ e ∷ [];
  stats =
      if is_message e.type
      then record (s.stats) { message_count = s.stats.message_count + 1 }
      else s.stats;
}

unfoldable pub append_element : Option (List ListElement) → ListElement → List ListElement
append_element none x = x ∷ []
append_element (some xs) x = xs ++ x ∷ []

-- `plus` is the platform's addition of doubles.
module _ (plus : Double → Double → Double) where
  unfoldable pub apply_usage : Store → UsageRow → Store
  apply_usage s r = record s {
    usage = put s.usage r.id r;
    stats = record (s.stats) { usage = add_usage plus s.stats.usage r.usage };
  }

  -- The `switch` of `applyValidated`.
  unfoldable pub apply_kind : Store → CommittedWrite → Store
  unfolding apply_entry apply_usage append_element
  apply_kind s (entry e) = apply_entry s e
  apply_kind s (usage r) = apply_usage s r
  apply_kind s (value_set seq a v) = record s {
    scalar_values = put s.scalar_values a (record { address = a; value = v; seq = seq });
  }
  apply_kind s (value_delete seq a) = record s { scalar_values = Assoc.remove s.scalar_values a }
  apply_kind s (list_append seq a v) = record s {
    list_values =
        put s.list_values a
          (append_element (Assoc.get s.list_values a) (record { seq = seq; value = v }));
  }
  apply_kind s (list_delete seq a) = record s { list_values = Assoc.remove s.list_values a }

  unfoldable pub apply_write : Store → CommittedWrite → Store
  unfolding apply_kind seq_of
  apply_write s w = record (apply_kind s w) { next_seq = suc (seq_of w) }

  unfoldable pub apply_validated : Store → List CommittedWrite → Store
  unfolding apply_write
  apply_validated s [] = s
  apply_validated s (w ∷ ws) = apply_validated (apply_write s w) ws

  -- `MemoryStorage.commit` of memory.ts on an open storage: prepare, then apply.
  unfoldable pub commit : Store → List Write → ℕ → Store × Prepared
  unfolding prepare_commit apply_validated
  commit s ws timestamp = elim (prepare_commit s ws timestamp) [
    | refused e ↦ (s, refused e)
    | accepted p ↦ (apply_validated s p.writes, accepted p)
  ]

-- `none` is the error for a mark that is no positive number.
unfoldable pub advance_next_seq : Store → ℕ → Option Store
advance_next_seq s n = if ltb n 1 then none else some (record s { next_seq = max s.next_seq n })
