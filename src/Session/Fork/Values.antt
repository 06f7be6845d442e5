-- ===== src/Session/Fork/Values.antt =====
-- The values that fork.ts emits and their numbers.
use livi_agent.Prelude.{
  ℕ, zero, suc, ◌+◌, String, ◌≡◌, refl, sym, ap, subst, ◌⊎◌, ◌∙◌, Bool, Option, none, some, List,
  [], ◌∷◌, ◌++◌, map, length, length-append, arith, Option-cases, inl, inr, string_eq, pair_eq,
  contains,
}
use livi_agent.Prelude.Assoc.{Assoc, values}
use livi_agent.Session.{Json, Address, Entry, StoredValue}
use livi_agent.Session.Storage.Numbers.{count_from}
use livi_agent.Session.Fork.{
  ForkOptions, Fork, ok, err, ForkDisposition, copy, exclude, reconstruct, classify_fork_address,
  branch_tip, lane_config, lane_state, ForkError,
}
use livi_agent.Session.Fork.Largest.{IsLargest, highest-IsLargest}
use livi_agent.Session.Fork.Snapshot.{
  Stored, Emitted, store, copy_values, built, forked, disposed, store_tips, find_stored_value,
  snapshot_of, create_fork_snapshot, ForkSourceSnapshot, ForkDestinationSnapshot, Contents, highest,
  entries_of, entry_map, stored_values_in_namespace, validate_fork_source_snapshot,
  select_fork_contents,
}

abbrev pub seqs : List StoredValue → List ℕ
seqs vs = map (λ (v : StoredValue). v.seq) vs

-- The values are numbered one by one from the given number on.
record IsNumbered (first : ℕ) (s : Emitted) : Type 0 where
  pub numbers : seqs s.scalar_values ≡ count_from first (length s.scalar_values)
  pub next : s.next_seq ≡ first + length s.scalar_values

count_from-snoc : (n k : ℕ) → count_from n k ++ (n + k) ∷ [] ≡ count_from n (suc k)
count_from-snoc n zero = ap (λ i. i ∷ []) (omega arith)
count_from-snoc n (suc k) =
    ap (λ l. n ∷ l)
      (ap (λ i. count_from (suc n) k ++ i ∷ []) (omega arith) ∙ count_from-snoc (suc n) k)

seqs-snoc : (vs : List StoredValue) (v : StoredValue) → seqs (vs ++ v ∷ []) ≡ seqs vs ++ v.seq ∷ []
seqs-snoc [] v = refl
seqs-snoc (w ∷ vs) v = ap (λ l. w.seq ∷ l) (seqs-snoc vs v)

store-IsNumbered :
    (first : ℕ) (s : Emitted) (a : Address) (v : Json)
    → IsNumbered first s
    → IsNumbered first (store s a v)
unfolding store
store-IsNumbered first s a v h =
    let new : StoredValue = record { address = a; value = v; seq = s.next_seq } in
    let len : length (s.scalar_values ++ new ∷ []) ≡ suc (length s.scalar_values) =
      omega (arith, length-append s.scalar_values (new ∷ [])) in
    record {
      numbers =
          seqs-snoc s.scalar_values new
          ∙ ap (λ i. seqs s.scalar_values ++ i ∷ []) h.next
          ∙ ap (λ l. l ++ (first + length s.scalar_values) ∷ []) h.numbers
          ∙ count_from-snoc first (length s.scalar_values)
          ∙ ap (count_from first) (sym len);
      next = omega (arith, h.next, len);
    }

pub ok-injective : (s t : Emitted) → Path (Fork Emitted) (ok s) (ok t) → s ≡ t
ok-injective s t is = ap (λ (f : Fork Emitted). elim f [ ok x ↦ x | err e ↦ s ]) is

pub disposed-cases :
    (d : Fork ForkDisposition) (a b : Fork Emitted) (t : Emitted)
    → disposed d a b ≡ ok t
    → ((d ≡ ok copy) × (a ≡ ok t)) ⊎ (b ≡ ok t)
unfolding disposed
disposed-cases (err e) a b t is = absurd (ground (arith, is))
disposed-cases (ok copy) a b t is = inl (refl, is)
disposed-cases (ok exclude) a b t is = inr is
disposed-cases (ok reconstruct) a b t is = inr is

copy_values-IsNumbered :
    (first : ℕ) (vs : List StoredValue) (options : ForkOptions) (is_copied : String → Bool)
    (s t : Emitted)
    → IsNumbered first s
    → copy_values vs options is_copied s ≡ ok t
    → IsNumbered first t
unfolding copy_values
copy_values-IsNumbered first [] options is_copied s t h is =
    subst (IsNumbered first) (ok-injective s t is) h
copy_values-IsNumbered first (v ∷ vs) options is_copied s t h is =
    elim (disposed-cases (classify_fork_address v.address options is_copied)
      (copy_values vs options is_copied (store s v.address v.value))
      (copy_values vs options is_copied s) t is) [
        | inl (_, with_value) ↦
            copy_values-IsNumbered first vs options is_copied (store s v.address v.value) t
              (store-IsNumbered first s v.address v.value h) with_value
        | inr without ↦ copy_values-IsNumbered first vs options is_copied s t h without
      ]

-- The numbers of a snapshot's values follow the largest of its entries.
pub record IsNumberedSnapshot (d : ForkDestinationSnapshot) : Type 0 where
  pub largest : ℕ
  pub is_largest : IsLargest largest (values d.entries)
  pub numbers : seqs d.scalar_values ≡ count_from (suc largest) (length d.scalar_values)
  pub next : d.next_seq ≡ suc largest + length d.scalar_values

module _ (stored : Stored) where
  store_tips-IsNumbered :
      (first : ℕ) (vs : List StoredValue) (tips : Assoc String (Option String)) (s : Emitted)
      → IsNumbered first s
      → IsNumbered first (store_tips stored vs tips s)
  unfolding store_tips
  store_tips-IsNumbered first vs [] s h = h
  store_tips-IsNumbered first vs ((b, tip) ∷ rest) s h =
      let with_tip = store s (branch_tip, b) (stored.of_tip tip) in
      let tipped = store-IsNumbered first s (branch_tip, b) (stored.of_tip tip) h in
      elim (Option-cases (find_stored_value vs (lane_config, b))) [
        | inl none_found ↦
            rw (store_tips, none_found) (store_tips-IsNumbered first vs rest with_tip tipped)
        | inr (c, found) ↦
            rw (store_tips, found)
              (store_tips-IsNumbered first vs rest
                (store (store with_tip (lane_config, b) c.value) (lane_state, b) stored.idle_lane)
                (store-IsNumbered first (store with_tip (lane_config, b) c.value) (lane_state, b)
                  stored.idle_lane
                  (store-IsNumbered first with_tip (lane_config, b) c.value tipped)))
      ]

  built-IsNumberedSnapshot :
      (entries : Assoc String Entry) (r : Fork Emitted) (d : ForkDestinationSnapshot)
      → ((t : Emitted) → r ≡ ok t → IsNumbered (suc (highest (values entries))) t)
      → built entries r ≡ ok d
      → IsNumberedSnapshot d
  unfolding built
  built-IsNumberedSnapshot entries (err e) d numbered is = absurd (ground (arith, is))
  built-IsNumberedSnapshot entries (ok t) d numbered is =
      let h = numbered t refl in
      let same : record {
        entries = entries;
        scalar_values = t.scalar_values;
        next_seq = t.next_seq;
      }
          ≡ d =
        ap (λ (f : Fork ForkDestinationSnapshot). elim f [ ok x ↦ x | err e ↦ d ]) is in
      subst IsNumberedSnapshot same (record {
        largest = highest (values entries);
        is_largest = highest-IsLargest (values entries);
        numbers = h.numbers;
        next = h.next;
      })

  -- A fork that succeeds was let through and has its contents.
  pub copied_of :
      (failure : Option ForkError) (contents : Fork Contents)
      (make : Contents → Fork ForkDestinationSnapshot) (d : ForkDestinationSnapshot)
      → forked failure contents make ≡ ok d
      → (c : Contents) × (make c ≡ ok d)
  unfolding forked
  copied_of (some e) contents make d is = absurd (ground (arith, is))
  copied_of none (err e) make d is = absurd (ground (arith, is))
  copied_of none (ok c) make d is = (c, is)

  snapshot_of-IsNumberedSnapshot :
      (source : ForkSourceSnapshot) (options : ForkOptions) (c : Contents) (m : Assoc String Entry)
      (d : ForkDestinationSnapshot)
      → snapshot_of stored source options c m ≡ ok d
      → IsNumberedSnapshot d
  unfolding snapshot_of
  snapshot_of-IsNumberedSnapshot source options c m d is =
      let entries = entries_of m c.entry_ids [] in
      let first = suc (highest (values entries)) in
      let start : Emitted = record { scalar_values = []; next_seq = first } in
      let tipped =
        store_tips-IsNumbered first source.scalar_values c.destination_tips start
          (record { numbers = refl; next = omega arith }) in
      built-IsNumberedSnapshot entries
        (copy_values source.scalar_values options (λ id. contains id c.entry_ids)
          (store_tips stored source.scalar_values c.destination_tips start))
        d
        (λ t done.
          copy_values-IsNumbered first source.scalar_values options (λ id. contains id c.entry_ids)
            (store_tips stored source.scalar_values c.destination_tips start) t tipped done)
        is

  -- Where a fork succeeds, the values of the new session are numbered one by one from the number after
  -- the largest of its entries, or from 1 where it has none, and its next number follows theirs.
  pub create_fork_snapshot-numbers :
      (source : ForkSourceSnapshot) (options : ForkOptions) (d : ForkDestinationSnapshot)
      → create_fork_snapshot stored source options ≡ ok d
      → IsNumberedSnapshot d
  unfolding create_fork_snapshot
  create_fork_snapshot-numbers source options d is =
      let m = entry_map [] source.entries in
      let tips = stored_values_in_namespace source.scalar_values branch_tip in
      let (c, made) =
        copied_of (validate_fork_source_snapshot stored source m tips options)
          (select_fork_contents stored (suc (suc (highest source.entries))) m tips options)
          (λ c. snapshot_of stored source options c m) d is in
      snapshot_of-IsNumberedSnapshot source options c m d made
