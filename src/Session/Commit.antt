-- ===== src/Session/Commit.antt =====
-- packages/agent/src/harness/session/commit.ts: the numbering and the validation of a transaction.
use livi_agent.Prelude.{
  ℕ, suc, String, Bool, ◌||◌, Option, none, some, List, [], ◌∷◌, if◌then◌else◌, ltb, contains,
  string_eq, map,
}
use livi_agent.Session.{Json, Address, Write, NewEntry, Entry, UsageRow}

pub data CommittedWrite : Type 0 where
  entry : Entry → CommittedWrite
  usage : UsageRow → CommittedWrite
  value_set : ℕ → Address → Json → CommittedWrite
  value_delete : ℕ → Address → CommittedWrite
  list_append : ℕ → Address → Json → CommittedWrite
  list_delete : ℕ → Address → CommittedWrite

unfoldable pub seq_of : CommittedWrite → ℕ
seq_of (CommittedWrite.entry e) = e.seq
seq_of (CommittedWrite.usage r) = r.seq
seq_of (CommittedWrite.value_set seq a v) = seq
seq_of (CommittedWrite.value_delete seq a) = seq
seq_of (CommittedWrite.list_append seq a v) = seq
seq_of (CommittedWrite.list_delete seq a) = seq

unfoldable pub materialize_committed_entry : NewEntry → ℕ → ℕ → Entry
materialize_committed_entry e seq timestamp = record { new = e; seq = seq; timestamp = timestamp }

unfoldable pub commit_write : Write → ℕ → ℕ → CommittedWrite
unfolding materialize_committed_entry
commit_write (Write.entry e) seq timestamp =
    CommittedWrite.entry (materialize_committed_entry e seq timestamp)
commit_write (Write.usage row) seq timestamp =
    CommittedWrite.usage (record { new = row; seq = seq })
commit_write (Write.value_set a v) seq timestamp = CommittedWrite.value_set seq a v
commit_write (Write.value_delete a) seq timestamp = CommittedWrite.value_delete seq a
commit_write (Write.list_append a v) seq timestamp = CommittedWrite.list_append seq a v
commit_write (Write.list_delete a) seq timestamp = CommittedWrite.list_delete seq a

-- `writes.map((write, index) => commitWrite(write, firstSeq + index, timestamp))`.
unfoldable pub commit_writes : List Write → ℕ → ℕ → List CommittedWrite
unfolding commit_write
commit_writes [] seq timestamp = []
commit_writes (w ∷ ws) seq timestamp =
    commit_write w seq timestamp ∷ commit_writes ws (suc seq) timestamp

pub record PreparedCommit : Type 0 where
  pub writes : List CommittedWrite
  pub first_seq : ℕ
  pub seqs : List ℕ
  pub timestamp : ℕ

unfoldable pub prepare_storage_commit : List Write → ℕ → ℕ → PreparedCommit
unfolding commit_writes seq_of
prepare_storage_commit ws first_seq timestamp =
    let committed = commit_writes ws first_seq timestamp in
    record {
      writes = committed;
      first_seq = first_seq;
      seqs = map seq_of committed;
      timestamp = timestamp;
    }

pub data CommitError : Type 0 where
  non_monotonic : ℕ → CommitError
  duplicate_id : String → CommitError
  missing_parent : String → CommitError

-- What the validation knows of the store, and of the transaction so far. `least` is one more than the
-- code's `previousSeq`.
pub record Known : Type 0 where
  pub has_entry_or_usage_id : String → Bool
  pub has_entry_id : String → Bool
  pub least : ℕ
  pub transaction_ids : List String
  pub transaction_entry_ids : List String

unfoldable pub is_used : Known → String → Bool
is_used k id = k.has_entry_or_usage_id id || contains id k.transaction_ids

unfoldable pub is_entry : Known → String → Bool
is_entry k id = k.has_entry_id id || contains id k.transaction_entry_ids

unfoldable pub check_parent : Known → Option String → Option CommitError
unfolding is_entry
check_parent k none = none
check_parent k (some p) = if is_entry k p then none else some (missing_parent p)

-- The checks on a write; `none` lets it through.
unfoldable pub check_write : Known → CommittedWrite → Option CommitError
unfolding is_used check_parent
check_write k (CommittedWrite.entry e) =
    if is_used k e.id then some (duplicate_id e.id) else check_parent k e.parent_id
check_write k (CommittedWrite.usage r) = if is_used k r.id then some (duplicate_id r.id) else none
check_write k _ = none

unfoldable pub learn : Known → CommittedWrite → Known
learn k (CommittedWrite.entry e) = record k {
  least = suc e.seq;
  transaction_ids = e.id ∷ k.transaction_ids;
  transaction_entry_ids = e.id ∷ k.transaction_entry_ids;
}
learn k (CommittedWrite.usage r) = record k {
  least = suc r.seq;
  transaction_ids = r.id ∷ k.transaction_ids;
}
learn k (CommittedWrite.value_set seq a v) = record k { least = suc seq }
learn k (CommittedWrite.value_delete seq a) = record k { least = suc seq }
learn k (CommittedWrite.list_append seq a v) = record k { least = suc seq }
learn k (CommittedWrite.list_delete seq a) = record k { least = suc seq }

-- The loop of `validateCommittedWrites`.
unfoldable pub check_writes : Known → List CommittedWrite → Option CommitError
unfolding check_write learn seq_of
check_writes k [] = none
check_writes k (w ∷ ws) =
    let rest = check_writes (learn k w) ws in
    if ltb (seq_of w) k.least
    then some (non_monotonic (seq_of w))
    else elim (check_write k w) [ some e ↦ some e | none ↦ rest ]

unfoldable pub validate_committed_writes :
    List CommittedWrite → ℕ → (String → Bool) → (String → Bool) → Option CommitError
unfolding check_writes
validate_committed_writes ws first_seq has_entry_or_usage_id has_entry_id =
    check_writes
      (record {
        has_entry_or_usage_id = has_entry_or_usage_id;
        has_entry_id = has_entry_id;
        least = first_seq;
        transaction_ids = [];
        transaction_entry_ids = [];
      })
      ws
