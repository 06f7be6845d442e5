-- ===== src/Session/Fork/Policy.antt =====
-- Which namespaces fork.ts and fork-policy.ts let into a new session.
use text.Mathlib.Text.{starts_with}
use livi_agent.Prelude.{
  suc, String, ◌≡◌, refl, ap, subst, Bool, true, not, ◌||◌, Option, List, [], ◌∷◌, ◌++◌, contains,
  All, arith, Option-cases, inl, inr, string_eq, pair_eq, ◌==◌,
}
use livi_agent.Prelude.Assoc.{Assoc, values}
use livi_agent.Session.{Json, Address, Entry, StoredValue}
use livi_agent.Session.Fork.{
  ForkOptions, Fork, ok, err, copy, copied, classify_fork_address, session_name, entry_label,
  branch_tip, lane_config, lane_state,
}
use livi_agent.Session.Fork.Snapshot.{
  Stored, Emitted, store, copy_values, store_tips, find_stored_value, built, snapshot_of,
  create_fork_snapshot, ForkSourceSnapshot, ForkDestinationSnapshot, highest, entries_of, entry_map,
  stored_values_in_namespace, validate_fork_source_snapshot, select_fork_contents,
}
use livi_agent.Session.Fork.Values.{copied_of, ok-injective, disposed-cases}

-- Not reserved, or one of those that are kept.
abbrev pub is_kept : String → Bool
is_kept n =
    (n == session_name)
    || (n == entry_label)
    || (n == branch_tip)
    || (n == lane_config)
    || (n == lane_state)
    || not ((n == "pi") || starts_with n "pi.")

abbrev pub IsKept : StoredValue → Type 0
IsKept v = is_kept v.address.0 ≡ true

classify_copy-kept :
    (namespace key : String) (options : ForkOptions) (is_entry_copied : String → Bool)
    → classify_fork_address (namespace, key) options is_entry_copied ≡ ok copy
    → is_kept namespace ≡ true
unfolding classify_fork_address copied
classify_copy-kept namespace key options is_entry_copied h = ground arith

All-snoc :
    (vs : List StoredValue) (v : StoredValue) → All IsKept vs → IsKept v → All IsKept (vs ++ v ∷ [])
All-snoc [] v h k = (k, tt)
All-snoc (w ∷ vs) v (h, hs) k = (h, All-snoc vs v hs k)

store-All :
    (s : Emitted) (a : Address) (v : Json)
    → is_kept a.0 ≡ true
    → All IsKept s.scalar_values
    → All IsKept (store s a v).scalar_values
unfolding store
store-All s a v k h =
    All-snoc s.scalar_values (record { address = a; value = v; seq = s.next_seq }) h k

copy_values-All :
    (vs : List StoredValue) (options : ForkOptions) (is_copied : String → Bool) (s t : Emitted)
    → All IsKept s.scalar_values
    → copy_values vs options is_copied s ≡ ok t
    → All IsKept t.scalar_values
unfolding copy_values
copy_values-All [] options is_copied s t h is =
    subst (λ (x : Emitted). All IsKept x.scalar_values) (ok-injective s t is) h
copy_values-All (v ∷ vs) options is_copied s t h is =
    elim (disposed-cases (classify_fork_address v.address options is_copied)
      (copy_values vs options is_copied (store s v.address v.value))
      (copy_values vs options is_copied s) t is) [
        | inl (let_in, with_value) ↦
            copy_values-All vs options is_copied (store s v.address v.value) t
              (store-All s v.address v.value
                (classify_copy-kept v.address.0 v.address.1 options is_copied let_in) h)
              with_value
        | inr without ↦ copy_values-All vs options is_copied s t h without
      ]

module _ (stored : Stored) where
  store_tips-All :
      (vs : List StoredValue) (tips : Assoc String (Option String)) (s : Emitted)
      → All IsKept s.scalar_values
      → All IsKept (store_tips stored vs tips s).scalar_values
  unfolding store_tips
  store_tips-All vs [] s h = h
  store_tips-All vs ((b, tip) ∷ rest) s h =
      let with_tip = store s (branch_tip, b) (stored.of_tip tip) in
      let tipped = store-All s (branch_tip, b) (stored.of_tip tip) refl h in
      elim (Option-cases (find_stored_value vs (lane_config, b))) [
        | inl none_found ↦ rw (store_tips, none_found) (store_tips-All vs rest with_tip tipped)
        | inr (c, found) ↦
            rw (store_tips, found)
              (store_tips-All vs rest
                (store (store with_tip (lane_config, b) c.value) (lane_state, b) stored.idle_lane)
                (store-All (store with_tip (lane_config, b) c.value) (lane_state, b)
                  stored.idle_lane refl (store-All with_tip (lane_config, b) c.value refl tipped)))
      ]

  built-All :
      (entries : Assoc String Entry) (r : Fork Emitted) (d : ForkDestinationSnapshot)
      → ((t : Emitted) → r ≡ ok t → All IsKept t.scalar_values)
      → built entries r ≡ ok d
      → All IsKept d.scalar_values
  unfolding built
  built-All entries (err e) d kept is = absurd (ground (arith, is))
  built-All entries (ok t) d kept is =
      subst (All IsKept)
        (ap (λ (f : Fork ForkDestinationSnapshot). elim f [ ok x ↦ x.scalar_values | err e ↦ [] ])
          is)
        (kept t refl)

  -- A fork that succeeds has no value of an operation, a pending entry or a result, nor any other
  -- reserved one: each namespace of its values is that of the session's name, an entry's label, a
  -- branch's tip or a lane's configuration or state, or it is neither `pi` nor starts with `pi.`.
  pub create_fork_snapshot-IsKept :
      (source : ForkSourceSnapshot) (options : ForkOptions) (d : ForkDestinationSnapshot)
      → create_fork_snapshot stored source options ≡ ok d
      → All IsKept d.scalar_values
  unfolding create_fork_snapshot snapshot_of
  create_fork_snapshot-IsKept source options d is =
      let m = entry_map [] source.entries in
      let tips = stored_values_in_namespace source.scalar_values branch_tip in
      let (c, made) =
        copied_of stored (validate_fork_source_snapshot stored source m tips options)
          (select_fork_contents stored (suc (suc (highest source.entries))) m tips options)
          (λ c. snapshot_of stored source options c m) d is in
      let entries = entries_of m c.entry_ids [] in
      let tipped =
        store_tips stored source.scalar_values c.destination_tips
          (record { scalar_values = []; next_seq = suc (highest (values entries)) }) in
      built-All entries
        (copy_values source.scalar_values options (λ id. contains id c.entry_ids) tipped) d
        (λ t done.
          copy_values-All source.scalar_values options (λ id. contains id c.entry_ids) tipped t
            (store_tips-All source.scalar_values c.destination_tips
              (record { scalar_values = []; next_seq = suc (highest (values entries)) }) tt)
            done)
        made
