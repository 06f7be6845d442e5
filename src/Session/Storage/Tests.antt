-- ===== src/Session/Storage/Tests.antt =====
-- Runs of in-memory-storage-state.ts on small transactions.
use livi_agent.Prelude.{
  ℕ, String, ◌≡◌, ◌≢◌, refl, ◌+◌, Option, none, some, List, [], ◌∷◌, map, length, arith,
}
use livi_agent.Prelude.Assoc
use livi_agent.Session.{desc, Entry, Write, message}
use livi_agent.Session.Commit.{
  PreparedCommit, prepare_storage_commit, duplicate_id, non_monotonic, seq_of,
}
use livi_agent.Session.Storage.{Store, new_store, commit}
use livi_agent.Session.Storage.Branch.{StorageBranchScan, newest_first, scan_branch, select, ok}
use livi_agent.Session.Storage.Linked.{IsLinked, commit-IsLinked}
use livi_agent.Session.Storage.Walk.{IsBranch, scan_branch_total}
use livi_agent.Session.Storage.Scans.{IsScan, scan_entries-IsScan}
use livi_agent.Session.Storage.Queries.{EntryScan, scan_entries}
use livi_agent.Session.Storage.Numbers.{
  IsCounted, count_from, commit-IsCounted, commit_numbers, commit_refused,
}

abbrev sum_of : ℕ → ℕ → ℕ
sum_of a b = a + b

abbrev note : String → Option String → Write
note id parent =
    Write.entry
      (record { id = id; parent_id = parent; type = message; custom_type = none; body = "text" })

abbrev talk : List Write
talk = note "a" none ∷ Write.value_set ("room", "name") "den" ∷ note "b" (some "a") ∷ []

-- The store after the first transaction.
abbrev told : Store
told = (commit sum_of new_store talk 7).0

new_store-IsLinked : IsLinked new_store
unfolding new_store Assoc.get
new_store-IsLinked = λ id e is. absurd (ground (arith, is))

told-IsLinked : IsLinked told
told-IsLinked = commit-IsLinked sum_of new_store talk 7 new_store-IsLinked

-- A branch from the root, and an answer that reuses an id.
abbrev again : List Write
again = note "c" (some "b") ∷ note "a" none ∷ []

told_next : told.next_seq ≡ 4
unfolding commit new_store Assoc.get Assoc.put
told_next = refl

commit-IsLinked_example : IsLinked (commit sum_of told (note "c" (some "b") ∷ []) 8).0
commit-IsLinked_example = commit-IsLinked sum_of told (note "c" (some "b") ∷ []) 8 told-IsLinked

commit-IsCounted_example : IsCounted (commit sum_of new_store talk 7).0
unfolding new_store
commit-IsCounted_example = commit-IsCounted sum_of new_store talk 7 refl

told_messages : told.stats.message_count ≡ 2
unfolding commit new_store Assoc.get Assoc.put
told_messages = refl

commit_refused_example :
    ((commit sum_of told again 8).0 ≡ told) × (duplicate_id "a" ≢ non_monotonic 5)
unfolding commit new_store Assoc.get Assoc.put
commit_refused_example =
    commit_refused sum_of told (commit sum_of told again 8).0 again 8 5 (duplicate_id "a") refl

abbrev third : Write
third = note "c" (some "b")

-- The prepared form of a third note.
abbrev third_prepared : PreparedCommit
unfolding prepare_storage_commit
third_prepared = prepare_storage_commit (third ∷ []) 4 8

commit_numbers_example :
    (third_prepared.first_seq ≡ told.next_seq)
    × (third_prepared.seqs ≡ count_from told.next_seq (length (third ∷ [])))
    × (map seq_of third_prepared.writes ≡ third_prepared.seqs)
    × ((commit sum_of told (third ∷ []) 8).0.next_seq ≡ told.next_seq + length (third ∷ []))
unfolding commit new_store Assoc.get Assoc.put prepare_storage_commit
commit_numbers_example =
    commit_numbers sum_of told (commit sum_of told (third ∷ []) 8).0 (third ∷ []) 8 third_prepared
      refl

abbrev upwards : StorageBranchScan
upwards = record {
  start = "b";
  stop_at_type = none;
  stop_at_id = none;
  type = none;
  custom_type = none;
  order = newest_first;
  limit = none;
  cursor = none;
}

abbrev second : Entry
second = record {
  new = record {
    id = "b";
    parent_id = some "a";
    type = message;
    custom_type = none;
    body = "text";
  };
  seq = 3;
  timestamp = 7;
}

scan_branch_total_example :
    (path : List Entry) × (scan_branch told upwards ≡ ok (select upwards path))
    × IsBranch told.entries second path
unfolding commit new_store Assoc.get Assoc.put
scan_branch_total_example = scan_branch_total told upwards second told-IsLinked refl

abbrev newest : EntryScan
newest = record {
  type = none;
  custom_type = none;
  from_seq = some 2;
  to_seq = none;
  order = desc;
  limit = some 1;
}

scan_entries-IsScan_example : IsScan newest told.entries_by_seq (second ∷ [])
unfolding scan_entries commit new_store Assoc.get Assoc.put
scan_entries-IsScan_example = scan_entries-IsScan told newest

newest_found : scan_entries told newest ≡ second ∷ []
unfolding scan_entries commit new_store Assoc.get Assoc.put
newest_found = refl
