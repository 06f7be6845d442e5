-- ===== src/Session/Fork/Snapshot.antt =====
-- `createForkSnapshot` and `forkSnapshotWrites` of packages/agent/src/harness/session/fork.ts.
use livi_agent.Prelude.{
  ℕ, suc, max, String, Bool, true, false, not, ◌&&◌, ◌||◌, Option, none, some, List, [], ◌∷◌, ◌++◌,
  if◌then◌else◌, leb, contains, keep_if, map, string_eq, pair_eq, ◌==◌, is_some,
}
use livi_agent.Prelude.Assoc
use livi_agent.Prelude.Assoc.{Assoc, put, keys, values}
use livi_agent.Prelude.Sort.{sort_by}
use livi_agent.Session.{Json, Address, Entry, StoredValue}
use livi_agent.Session.Commit.{CommittedWrite, seq_of}
use livi_agent.Session.Fork.{
  ForkOptions, branch, tree, ForkError, unknown_source_branch, not_on_branch, missing_tip,
  incomplete_lane, not_a_lane, unknown_tip, Fork, ok, err, ForkDisposition, copy, exclude,
  reconstruct, classify_fork_address, Selecting, select_branch, branch_tip, lane_config, lane_state,
  is_tree,
}

pub record ForkSourceSnapshot : Type 0 where
  pub entries : List Entry
  pub scalar_values : List StoredValue
  pub entries_complete : Option Bool

pub record ForkDestinationSnapshot : Type 0 where
  pub entries : Assoc String Entry
  pub scalar_values : List StoredValue
  pub next_seq : ℕ

-- How tips and an idle lane are stored.
pub record Stored : Type 0 where
  pub tip_of : Json → Option String
  pub of_tip : Option String → Json
  pub idle_lane : Json

unfoldable pub entry_map : Assoc String Entry → List Entry → Assoc String Entry
entry_map m [] = m
entry_map m (e ∷ es) = entry_map (put m e.id e) es

unfoldable pub stored_values_in_namespace : List StoredValue → String → List StoredValue
stored_values_in_namespace vs namespace = keep_if (λ (v : StoredValue). v.address.0 == namespace) vs

unfoldable pub find_stored_value : List StoredValue → Address → Option StoredValue
find_stored_value [] a = none
find_stored_value (v ∷ vs) a =
    let rest = find_stored_value vs a in if v.address == a then some v else rest

unfoldable pub find_key : List StoredValue → String → Option StoredValue
find_key [] key = none
find_key (v ∷ vs) key = let rest = find_key vs key in if v.address.1 == key then some v else rest

-- The largest number, 0 where there is no entry; the callers add one.
unfoldable pub highest : List Entry → ℕ
highest [] = 0
highest (e ∷ es) = max e.seq (highest es)

pub record Contents : Type 0 where
  pub entry_ids : List String
  pub destination_tips : Assoc String (Option String)

unfoldable pub entries_of :
    Assoc String Entry → List String → Assoc String Entry → Assoc String Entry
entries_of m [] found = found
entries_of m (id ∷ ids) found = elim (Assoc.get m id) [
  | none ↦ entries_of m ids found
  | some e ↦ entries_of m ids (put found id e)
]

-- The values that are emitted so far, and the next number.
pub record Emitted : Type 0 where
  pub scalar_values : List StoredValue
  pub next_seq : ℕ

unfoldable pub store : Emitted → Address → Json → Emitted
store s a v = record {
  scalar_values = s.scalar_values ++ record { address = a; value = v; seq = s.next_seq } ∷ [];
  next_seq = suc s.next_seq;
}

-- The `switch` on the disposition: what it gives where the value is stored, and where it is not.
unfoldable pub disposed : Fork ForkDisposition → Fork Emitted → Fork Emitted → Fork Emitted
disposed (err e) with_value without = err e
disposed (ok copy) with_value without = with_value
disposed (ok exclude) with_value without = without
disposed (ok reconstruct) with_value without = without

unfoldable pub copy_values :
    List StoredValue → ForkOptions → (String → Bool) → Emitted → Fork Emitted
unfolding store disposed classify_fork_address
copy_values [] options is_copied s = ok s
copy_values (v ∷ vs) options is_copied s =
    disposed (classify_fork_address v.address options is_copied)
      (copy_values vs options is_copied (store s v.address v.value))
      (copy_values vs options is_copied s)

-- A lane's value under a key without a tip.
unfoldable pub check_lanes : List String → List StoredValue → Option ForkError
check_lanes tip_keys [] = none
check_lanes tip_keys (v ∷ vs) =
    let rest = check_lanes tip_keys vs in
    if ((v.address.0 == lane_config) || (v.address.0 == lane_state))
      && not (contains v.address.1 tip_keys)
    then some (missing_tip v.address.1)
    else rest

abbrev is_branch : ForkOptions → String → Bool
is_branch tree key = false
is_branch (branch b e p) key = key == b

abbrev is_false : Option Bool → Bool
is_false (some false) = true
is_false _ = false

abbrev is_unknown : Option String → Assoc String Entry → Bool
is_unknown none m = false
is_unknown (some id) m = not (is_some (Assoc.get m id))

unfoldable pub built : Assoc String Entry → Fork Emitted → Fork ForkDestinationSnapshot
built entries (err e) = err e
built entries (ok s) =
    ok (record { entries = entries; scalar_values = s.scalar_values; next_seq = s.next_seq })

-- The steps of a fork, each on what the one before it lets through.
unfoldable pub forked :
    Option ForkError
    → Fork Contents
    → (Contents → Fork ForkDestinationSnapshot)
    → Fork ForkDestinationSnapshot
forked (some e) contents make = err e
forked none (err e) make = err e
forked none (ok c) make = make c

module _ (stored : Stored) where
  unfoldable pub check_tips :
      ForkSourceSnapshot → Assoc String Entry → ForkOptions → List StoredValue → Option ForkError
  check_tips source m options [] = none
  check_tips source m options (t ∷ ts) =
      let rest = check_tips source m options ts in
      let key = t.address.1 in
      let configured = is_some (find_stored_value source.scalar_values (lane_config, key)) in
      let running = is_some (find_stored_value source.scalar_values (lane_state, key)) in
      if (configured && not running) || (running && not configured)
      then some (incomplete_lane key)
      else if is_branch options key && not configured
      then some (not_a_lane key)
      else if (not (is_false source.entries_complete) || is_tree options)
          && is_unknown (stored.tip_of t.value) m
      then some (unknown_tip key)
      else rest

  unfoldable pub validate_fork_source_snapshot :
      ForkSourceSnapshot → Assoc String Entry → List StoredValue → ForkOptions → Option ForkError
  unfolding check_lanes check_tips
  validate_fork_source_snapshot source m tips options =
      elim (check_lanes (map (λ (t : StoredValue). t.address.1) tips) source.scalar_values) [
        | some e ↦ some e
        | none ↦ check_tips source m options tips
      ]

  unfoldable pub tips_of :
      Assoc String (Option String) → List StoredValue → Assoc String (Option String)
  tips_of m [] = m
  tips_of m (t ∷ ts) = tips_of (put m t.address.1 (stored.tip_of t.value)) ts

  unfoldable pub branch_contents : String → Option String → Selecting → Fork Contents
  branch_contents b requested s =
      if s.found
      then ok (record { entry_ids = s.ids; destination_tips = (b, s.tip) ∷ [] })
      else err (not_on_branch requested)

  -- The walk runs on as many rounds as the largest number, and two more.
  unfoldable pub select_fork_contents :
      ℕ → Assoc String Entry → List StoredValue → ForkOptions → Fork Contents
  unfolding tips_of find_key select_branch branch_contents
  select_fork_contents fuel m tips tree =
      ok (record { entry_ids = keys m; destination_tips = tips_of [] tips })
  select_fork_contents fuel m tips (branch b entry position) = elim (find_key tips b) [
    | none ↦ err (unknown_source_branch b)
    | some t ↦
        let tip = stored.tip_of t.value in
        let requested : Option String = elim entry [ some id ↦ some id | none ↦ tip ] in
        elim (select_branch fuel m requested position tip
          (record { found = not (is_some requested); tip = none; ids = [] })) [
            | err e ↦ err e
            | ok s ↦ branch_contents b requested s
          ]
  ]

  unfoldable pub store_tips : List StoredValue → Assoc String (Option String) → Emitted → Emitted
  unfolding store find_stored_value
  store_tips vs [] s = s
  store_tips vs ((b, tip) ∷ rest) s =
      let with_tip = store s (branch_tip, b) (stored.of_tip tip) in
      elim (find_stored_value vs (lane_config, b)) [
        | none ↦ store_tips vs rest with_tip
        | some c ↦
            store_tips vs rest
              (store (store with_tip (lane_config, b) c.value) (lane_state, b) stored.idle_lane)
      ]

  unfoldable pub snapshot_of :
      ForkSourceSnapshot
      → ForkOptions
      → Contents
      → Assoc String Entry
      → Fork ForkDestinationSnapshot
  unfolding entries_of highest store_tips copy_values built
  snapshot_of source options c m =
      let entries = entries_of m c.entry_ids [] in
      let start : Emitted = record {
        scalar_values = [];
        next_seq = suc (highest (values entries));
      } in
      built entries (
        copy_values source.scalar_values options (λ id. contains id c.entry_ids)
          (store_tips source.scalar_values c.destination_tips start))

  unfoldable pub create_fork_snapshot :
      ForkSourceSnapshot → ForkOptions → Fork ForkDestinationSnapshot
  unfolding entry_map stored_values_in_namespace validate_fork_source_snapshot select_fork_contents
      snapshot_of highest forked
  create_fork_snapshot source options =
      let m = entry_map [] source.entries in
      let tips = stored_values_in_namespace source.scalar_values branch_tip in
      forked (validate_fork_source_snapshot source m tips options)
        (select_fork_contents (suc (suc (highest source.entries))) m tips options)
        (λ c. snapshot_of source options c m)

abbrev set_write : StoredValue → CommittedWrite
set_write v = CommittedWrite.value_set v.seq v.address v.value

unfoldable pub fork_snapshot_writes : ForkDestinationSnapshot → List CommittedWrite
fork_snapshot_writes s =
    sort_by (λ (l r : CommittedWrite). leb (seq_of l) (seq_of r))
      (map CommittedWrite.entry (values s.entries) ++ map set_write s.scalar_values)
