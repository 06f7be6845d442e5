-- ===== src/Session/Fork.antt =====
-- packages/agent/src/harness/session/fork.ts and fork-policy.ts: what a fork copies of a session.
-- The state of an idle lane and the values of branch tips are `Json`, as which they are stored.
pub mod Snapshot
pub mod Ancestors
pub mod Largest
pub mod Values
pub mod Policy
mod Tests
use text.Mathlib.Text.{starts_with}
use livi_agent.Prelude.{
  ℕ, zero, suc, ◌+◌, max, String, Bool, true, false, not, ◌&&◌, ◌||◌, Option, none, some, List, [],
  ◌∷◌, ◌++◌, if◌then◌else◌, leb, contains, keep_if, map, length, string_eq, ◌==◌, is_some,
}
use livi_agent.Prelude.Assoc
use livi_agent.Prelude.Assoc.{Assoc, put, keys, values}
use livi_agent.Prelude.Sort.{sort_by}
use livi_agent.Session.{Json, Address, Entry, StoredValue}
use livi_agent.Session.Commit.{CommittedWrite, seq_of}

pub data ForkDisposition : Type 0 where
  copy exclude reconstruct : ForkDisposition

pub data Position : Type 0 where
  before at : Position

-- The entry of a branch fork is the tip where it is missing, and `at` is the default position.
pub data ForkOptions : Type 0 where
  branch : String → Option String → Position → ForkOptions
  tree : ForkOptions

pub data ForkError : Type 0 where
  unknown_reserved_namespace : String → ForkError
  unknown_source_branch : String → ForkError
  missing_parent : String → ForkError
  not_on_branch : Option String → ForkError
  missing_tip : String → ForkError
  incomplete_lane : String → ForkError
  not_a_lane : String → ForkError
  unknown_tip : String → ForkError
  out_of_fuel : ForkError

pub data Fork (A : Type 0) : Type 0 where
  ok : A → Fork A
  err : ForkError → Fork A

unfoldable pub is_tree : ForkOptions → Bool
is_tree (ForkOptions.branch b e p) = false
is_tree tree = true

abbrev pub session_name : String
session_name = "pi.session.name"

abbrev pub entry_label : String
entry_label = "pi.entry.label"

abbrev pub branch_tip : String
branch_tip = "pi.branch.tip"

abbrev pub lane_config : String
lane_config = "pi.lane.config"

abbrev pub lane_state : String
lane_state = "pi.lane.state"

abbrev pub result_namespace : String
result_namespace = "pi.result"

unfoldable pub copied : Bool → ForkDisposition
copied true = copy
copied false = exclude

unfoldable pub classify_fork_address :
    Address → ForkOptions → (String → Bool) → Fork ForkDisposition
unfolding copied is_tree
classify_fork_address (namespace, key) options is_entry_copied =
    if namespace == session_name
    then ok copy
    else if namespace == entry_label
    then ok (copied (is_entry_copied key))
    else if (namespace == branch_tip) || (namespace == lane_config) || (namespace == lane_state)
    then ok reconstruct
    else if namespace == result_namespace
    then ok exclude
    else if starts_with namespace "pi.op." || starts_with namespace "pi.pending."
    then ok exclude
    else if (namespace == "pi") || starts_with namespace "pi."
    then err (unknown_reserved_namespace namespace)
    else ok (copied (is_tree options))

-- `Set.add` on ids.
unfoldable pub add_id : String → List String → List String
add_id id ids = if contains id ids then ids else ids ++ id ∷ []

-- The variables of the walk in `selectForkContents`.
pub record Selecting : Type 0 where
  pub found : Bool
  pub tip : Option String
  pub ids : List String

unfoldable pub is_requested : Option String → String → Bool
is_requested none id = false
is_requested (some r) id = id == r

-- The entry where the fork is cut.
unfoldable pub meet : Position → Entry → Selecting → Selecting
unfolding add_id
meet before e s = record s { found = true; tip = e.parent_id }
meet at e s = record { found = true; tip = some e.id; ids = add_id e.id s.ids }

unfoldable pub visit : Option String → Position → Entry → Selecting → Selecting
unfolding is_requested meet add_id
visit requested position e s =
    if is_requested requested e.id
    then meet position e s
    else if s.found
    then record s { ids = add_id e.id s.ids }
    else s

unfoldable pub select_branch :
    ℕ → Assoc String Entry → Option String → Position → Option String → Selecting → Fork Selecting
unfolding visit
select_branch zero m requested position id s = err out_of_fuel
select_branch (suc fuel) m requested position none s = ok s
select_branch (suc fuel) m requested position (some id) s = elim (Assoc.get m id) [
  | none ↦ err (missing_parent id)
  | some e ↦ select_branch fuel m requested position e.parent_id (visit requested position e s)
]
