-- ===== src/Session/Storage/Walk.antt =====
-- The walk of `scanBranch` in in-memory-storage-state.ts from an entry to the root.
use livi_agent.Prelude.{ℕ, zero, suc, ◌<◌, String, string_eq, ◌≡◌, none, some, List, [], ◌∷◌, arith}
use livi_agent.Prelude.Assoc
use livi_agent.Prelude.Assoc.{Assoc}
use livi_agent.Session.{Entry}
use livi_agent.Session.Storage.{Store}
use livi_agent.Session.Storage.Branch.{
  StorageBranchScan, ok, walk, after_entry, select, scan_branch,
}
use livi_agent.Session.Storage.Linked.{ParentIn, root, child, Linked, IsLinked}

-- The entries from `e` to the root: each the parent of the one before, with a smaller number.
pub data IsBranch (m : Assoc String Entry) : Entry → List Entry → Type 0 where
  only : (e : Entry) → e.parent_id ≡ none → IsBranch m e (e ∷ [])
  above :
      (e q : Entry) (p : String) (path : List Entry)
      → e.parent_id ≡ some p
      → Assoc.get m p ≡ some q
      → q.seq < e.seq
      → IsBranch m q path
      → IsBranch m e (e ∷ path)

walk-root :
    (fuel : ℕ) (m : Assoc String Entry) (e : Entry)
    → e.parent_id ≡ none
    → walk (suc fuel) m e ≡ ok (e ∷ [])
unfolding walk
walk-root fuel m e r = simp (walk, r)

walk-child :
    (fuel : ℕ) (m : Assoc String Entry) (e q : Entry) (p : String) (path : List Entry)
    → e.parent_id ≡ some p
    → Assoc.get m p ≡ some q
    → walk fuel m q ≡ ok path
    → walk (suc fuel) m e ≡ ok (e ∷ path)
unfolding walk after_entry
walk-child fuel m e q p path names there walked = simp (walk, names, there, walked)

pub walk-IsBranch :
    (fuel : ℕ) (m : Assoc String Entry) (n : ℕ) (id : String) (e : Entry)
    → Linked m n
    → Assoc.get m id ≡ some e
    → e.seq < fuel
    → (path : List Entry) × (walk fuel m e ≡ ok path) × IsBranch m e path
unfolding walk
walk-IsBranch zero m n id e h is less = absurd (omega arith)
walk-IsBranch (suc fuel) m n id e h is less = by_parent (h id e is).parent (walk-IsBranch fuel m n)
  where
    by_parent :
        ParentIn m e
        → ((p : String) (q : Entry)
            → Linked m n
            → Assoc.get m p ≡ some q
            → q.seq < fuel
            → (path : List Entry) × (walk fuel m q ≡ ok path) × IsBranch m q path)
        → (path : List Entry) × (walk (suc fuel) m e ≡ ok path) × IsBranch m e path
    by_parent (root r) rec = (e ∷ [], walk-root fuel m e r, only e r)
    by_parent (child p q names there lower) rec =
        let (path, walked, branch) = rec p q h there (omega arith) in
        (
          e ∷ path,
          walk-child fuel m e q p path names there walked,
          above e q p path names there lower branch,
        )

-- A branch scan of linked entries always ends with a result: from a stored start it is never cut short
-- by a missing parent or a cycle, and what it selects from is the chain of parents up to a root.
pub scan_branch_total :
    (s : Store) (q : StorageBranchScan) (e : Entry)
    → IsLinked s
    → Assoc.get s.entries q.start ≡ some e
    → (path : List Entry) × (scan_branch s q ≡ ok (select q path)) × IsBranch s.entries e path
unfolding scan_branch
scan_branch_total s q e h is =
    let (path, walked, branch) =
      walk-IsBranch s.next_seq s.entries s.next_seq q.start e h is (h q.start e is).numbered in
    (path, rw (is, scan_branch) (rw walked), branch)
