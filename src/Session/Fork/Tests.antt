-- ===== src/Session/Fork/Tests.antt =====
-- Runs of fork.ts on a branch of three notes.
use livi_agent.Prelude.{
  ℕ, ◌+◌, String, ◌≡◌, refl, Option, none, some, [], ◌∷◌, contains, All, string_eq, arith,
  if◌then◌else◌, ◌==◌,
}
use livi_agent.Prelude.Assoc
use livi_agent.Prelude.Assoc.{Assoc}
use livi_agent.Session.{Json, Entry, StoredValue, Write, message}
use livi_agent.Session.Storage.Linked.{Linked, commit-IsLinked}
use livi_agent.Session.Storage.{new_store, commit}
use livi_agent.Session.Storage.Walk.{IsBranch, only, above}
use livi_agent.Session.Fork.{ForkOptions, branch, at, ok, Selecting, select_branch}
use livi_agent.Session.Fork.Snapshot.{
  Stored, ForkSourceSnapshot, ForkDestinationSnapshot, create_fork_snapshot,
}
use livi_agent.Session.Fork.Ancestors.{select_branch_lem, nothing_yet, ids_of, cut_at}
use livi_agent.Session.Fork.Values.{IsNumberedSnapshot, create_fork_snapshot-numbers}
use livi_agent.Session.Fork.Policy.{IsKept, create_fork_snapshot-IsKept}

abbrev note : String → Option String → ℕ → Entry
note id parent n = record {
  new = record { id = id; parent_id = parent; type = message; custom_type = none; body = "text" };
  seq = n;
  timestamp = 7;
}

abbrev a : Entry
a = note "a" none 1

abbrev b : Entry
b = note "b" (some "a") 2

abbrev c : Entry
c = note "c" (some "b") 3

abbrev notes : Assoc String Entry
notes = ("a", a) ∷ ("b", b) ∷ ("c", c) ∷ []

abbrev stored : Stored
stored = record {
  tip_of = λ v. if v == "null" then none else some v;
  of_tip = λ t. elim t [ none ↦ "null" | some id ↦ id ];
  idle_lane = "idle";
}

abbrev value_at : String → String → Json → StoredValue
value_at namespace key v = record { address = (namespace, key); value = v; seq = 4 }

abbrev source : ForkSourceSnapshot
source = record {
  entries = a ∷ b ∷ c ∷ [];
  scalar_values =
      value_at "pi.branch.tip" "main" "c"
      ∷ value_at "pi.lane.config" "main" "fast"
      ∷ value_at "pi.lane.state" "main" "busy"
      ∷ value_at "pi.session.name" "" "den"
      ∷ value_at "pi.op.meta" "op" "run"
      ∷ [];
  entries_complete = none;
}

abbrev at_b : ForkOptions
at_b = branch "main" (some "b") at

-- The new session has the first two notes, the tip and an idle lane, and the name.
abbrev forked_at_b : ForkDestinationSnapshot
forked_at_b = record {
  entries = ("b", b) ∷ ("a", a) ∷ [];
  scalar_values =
      record { address = ("pi.branch.tip", "main"); value = "b"; seq = 3 }
      ∷ record { address = ("pi.lane.config", "main"); value = "fast"; seq = 4 }
      ∷ record { address = ("pi.lane.state", "main"); value = "idle"; seq = 5 }
      ∷ record { address = ("pi.session.name", ""); value = "den"; seq = 6 }
      ∷ [];
  next_seq = 7;
}

fork_at_b : create_fork_snapshot stored source at_b ≡ ok forked_at_b
unfolding create_fork_snapshot Assoc.get Assoc.put
fork_at_b = refl

abbrev sum_of : ℕ → ℕ → ℕ
sum_of m n = m + n

new_store-Linked : Linked new_store.entries new_store.next_seq
unfolding new_store Assoc.get
new_store-Linked = λ id e is. absurd (ground (arith, is))

notes-Linked : Linked notes 4
unfolding commit new_store Assoc.get Assoc.put
notes-Linked =
    commit-IsLinked sum_of new_store
      (Write.entry a.new ∷ Write.entry b.new ∷ Write.entry c.new ∷ []) 7 new_store-Linked

notes-IsBranch : IsBranch notes c (c ∷ b ∷ a ∷ [])
unfolding Assoc.get
notes-IsBranch =
    above c b "b" _ refl refl (omega arith) (above b a "a" _ refl refl (omega arith) (only a refl))

select_branch_lem_example :
    (s : Selecting) × (select_branch 5 notes (some "b") at (some c.id) nothing_yet ≡ ok s)
    × (s.found ≡ contains "b" (ids_of (c ∷ b ∷ a ∷ [])))
    × (contains "a" s.ids ≡ contains "a" (ids_of (cut_at "b" (c ∷ b ∷ a ∷ []))))
unfolding Assoc.get
select_branch_lem_example =
    select_branch_lem notes 4 5 c (c ∷ b ∷ a ∷ []) "b" "a" notes-Linked refl notes-IsBranch
      (omega arith)

create_fork_snapshot-numbers_example : IsNumberedSnapshot forked_at_b
create_fork_snapshot-numbers_example =
    create_fork_snapshot-numbers stored source at_b forked_at_b fork_at_b

create_fork_snapshot-IsKept_example : All IsKept forked_at_b.scalar_values
create_fork_snapshot-IsKept_example =
    create_fork_snapshot-IsKept stored source at_b forked_at_b fork_at_b
