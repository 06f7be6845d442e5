-- ===== src/Session/Storage/Branch.antt =====
-- `scanBranch` of packages/agent/src/harness/session/in-memory-storage-state.ts.
use Prim.Native.String.{String}
use livi_agent.Prelude.{
  ℕ, zero, suc, Bool, true, false, ◌&&◌, ◌||◌, Option, none, some, List, [], ◌∷◌, if◌then◌else◌,
  ltb, reverse, map, keep_if, string_eq, pair_eq, nat_eq, ◌==◌,
}
use livi_agent.Prelude.Assoc
use livi_agent.Prelude.Assoc.{Assoc, put, values}
use livi_agent.Session.{EntryType, Entry}
use livi_agent.Session.Storage.{Store}
use livi_agent.Session.Storage.Queries.{same_type, has_type, has_custom_type, limited}

-- `newestFirst` is the order in which a branch is walked.
pub data BranchOrder : Type 0 where
  newest_first oldest_first : BranchOrder

pub record StorageBranchScan : Type 0 where
  pub start : String
  pub stop_at_type : Option EntryType
  pub stop_at_id : Option String
  pub type : Option EntryType
  pub custom_type : Option String
  pub order : BranchOrder
  pub limit : Option ℕ
  pub cursor : Option ℕ

pub data ScanError : Type 0 where
  unknown_start : String → ScanError
  corrupt_branch : ScanError
  out_of_fuel : ScanError

pub data Scan (A : Type 0) : Type 0 where
  ok : A → Scan A
  err : ScanError → Scan A

unfoldable pub after_entry : Entry → Scan (List Entry) → Scan (List Entry)
after_entry e (ok path) = ok (e ∷ path)
after_entry e (err f) = err f

-- The walk from an entry to the root.
unfoldable pub walk : ℕ → Assoc String Entry → Entry → Scan (List Entry)
unfolding after_entry
walk zero m e = err out_of_fuel
walk (suc fuel) m e = elim e.parent_id [
  | none ↦ ok (e ∷ [])
  | some p ↦ elim (Assoc.get m p) [
    | none ↦ err corrupt_branch
    | some q ↦ after_entry e (walk fuel m q)
  ]
]

-- A missing field of the query, or one that is equal.
unfoldable pub is_type : Option EntryType → EntryType → Bool
unfolding same_type
is_type none t = false
is_type (some u) t = same_type t u

unfoldable pub is_id : Option String → String → Bool
is_id none id = false
is_id (some i) id = id == i

unfoldable pub stops_at : StorageBranchScan → Entry → Bool
unfolding is_id is_type
stops_at q e = is_id q.stop_at_id e.id || is_type q.stop_at_type e.type

-- The path up to the stop, which is kept.
unfoldable pub stopped : (Entry → Bool) → List Entry → List Entry
stopped stop [] = []
stopped stop (e ∷ es) = let rest = e ∷ stopped stop es in if stop e then e ∷ [] else rest

unfoldable pub behind_cursor : BranchOrder → Option ℕ → ℕ → Bool
behind_cursor order none seq = true
behind_cursor oldest_first (some cursor) seq = ltb cursor seq
behind_cursor newest_first (some cursor) seq = ltb seq cursor

unfoldable pub matches_branch : StorageBranchScan → Entry → Bool
unfolding has_type has_custom_type behind_cursor
matches_branch q e =
    has_type q.type e.type
    && has_custom_type q.custom_type e.custom_type
    && behind_cursor q.order q.cursor e.seq

unfoldable pub ordered_path : BranchOrder → List Entry → List Entry
ordered_path newest_first path = path
ordered_path oldest_first path = reverse path

-- The part of `scanBranch` behind the walk.
unfoldable pub select : StorageBranchScan → List Entry → List Entry
unfolding ordered_path stopped stops_at matches_branch limited
select q path =
    limited q.limit (keep_if (matches_branch q) (stopped (stops_at q) (ordered_path q.order path)))

unfoldable pub scan_branch : Store → StorageBranchScan → Scan (List Entry)
unfolding walk select
scan_branch s q = elim (Assoc.get s.entries q.start) [
  | none ↦ err (unknown_start q.start)
  | some start ↦ elim (walk s.next_seq s.entries start) [
    | err e ↦ err e
    | ok path ↦ ok (select q path)
  ]
]

pub record EntryStructure : Type 0 where
  pub id : String
  pub parent_id : Option String
  pub seq : ℕ
  pub timestamp : ℕ
  pub type : EntryType
  pub custom_type : Option String

structure_of : Entry → EntryStructure
structure_of e = record {
  id = e.id;
  parent_id = e.parent_id;
  seq = e.seq;
  timestamp = e.timestamp;
  type = e.type;
  custom_type = e.custom_type;
}

pub scan_branch_structure : Store → StorageBranchScan → Scan (List EntryStructure)
unfolding structure_of
scan_branch_structure s q = elim (scan_branch s q) [
  | err e ↦ err e
  | ok es ↦ ok (map structure_of es)
]
