-- ===== src/Session/Storage/Linked.antt =====
-- The entries of in-memory-storage-state.ts under commits: their ids, numbers and parents.
use livi_agent.Prelude.{
  ℕ, suc, ◌<◌, ◌≤◌, String, ◌≡◌, refl, sym, subst, false, ◌||◌, none, some, List, [], ◌∷◌, ltb,
  string_eq, ◌==◌, is_some, arith, Option-cases, Bool-cases, inl, inr,
}
use livi_agent.Prelude.Assoc
use livi_agent.Prelude.Assoc.{Assoc, put, get-put}
use livi_agent.Session.{Double, Entry, UsageRow, Write}
use livi_agent.Session.Commit.{
  CommittedWrite, entry, usage, value_set, value_delete, list_append, list_delete, seq_of, Known,
  is_used, is_entry, check_parent, check_write, learn, check_writes, validate_committed_writes,
  prepare_storage_commit,
}
use livi_agent.Session.Storage.{
  Store, has_entry_id, has_entry_or_usage_id, apply_kind, apply_write, apply_validated,
  validate_committed, prepare_commit, commit,
}

-- The entry is a root, or its parent is there with a smaller number.
pub data ParentIn (m : Assoc String Entry) (e : Entry) : Type 0 where
  root : e.parent_id ≡ none → ParentIn m e
  child :
      (p : String) (q : Entry)
      → e.parent_id ≡ some p
      → Assoc.get m p ≡ some q
      → q.seq < e.seq
      → ParentIn m e

-- Each entry stands under its id, has a number that was given out, and a parent if it names one.
pub record IsLinkedEntry (m : Assoc String Entry) (next : ℕ) (id : String) (e : Entry)
    : Type 0 where
  pub own_id : e.id ≡ id
  pub numbered : e.seq < next
  pub parent : ParentIn m e

abbrev pub Linked : Assoc String Entry → ℕ → Type 0
Linked m next = (id : String) (e : Entry) → Assoc.get m id ≡ some e → IsLinkedEntry m next id e

abbrev pub IsLinked : Store → Type 0
IsLinked s = Linked s.entries s.next_seq

ParentIn-put :
    (m : Assoc String Entry) (k : String) (v e : Entry)
    → Assoc.get m k ≡ none
    → ParentIn m e
    → ParentIn (put m k v) e
ParentIn-put m k v e new (root r) = root r
ParentIn-put m k v e new (child p q is there less) =
    child p q is (ground (arith, get-put m k p v, string_eq.beq_iff k p, new, there)) less

Linked-later : (m : Assoc String Entry) (n n' : ℕ) → n ≤ n' → Linked m n → Linked m n'
Linked-later m n n' le h id e is =
    let old = h id e is in
    record { own_id = old.own_id; numbered = omega (arith, old.numbered); parent = old.parent }

Linked-put :
    (m : Assoc String Entry) (n : ℕ) (e : Entry)
    → Linked m n
    → Assoc.get m e.id ≡ none
    → n ≤ e.seq
    → ParentIn m e
    → Linked (put m e.id e) (suc e.seq)
Linked-put m n e h new le p id f is = elim (Bool-cases (e.id == id)) [
  | inl same ↦
      let f_is : e ≡ f = ground (arith, get-put m e.id id e, is, same) in
      subst (IsLinkedEntry (put m e.id e) (suc e.seq) id) f_is (record {
        own_id = (string_eq.beq_iff e.id id).0 same;
        numbered = omega arith;
        parent = ParentIn-put m e.id e e new p;
      })
  | inr differs ↦
      let old = h id f (ground (arith, get-put m e.id id e, is, differs)) in
      record {
        own_id = old.own_id;
        numbered = omega (arith, old.numbered);
        parent = ParentIn-put m e.id e f new old.parent;
      }
]

-- What the validation has learnt agrees with the store to which the same writes were applied.
pub record Knows (k : Known) (s : Store) : Type 0 where
  pub next : k.least ≡ s.next_seq
  pub entries : (id : String) → is_entry k id ≡ is_some (Assoc.get s.entries id)
  pub used :
      (id : String)
      → is_used k id ≡ (is_some (Assoc.get s.entries id) || is_some (Assoc.get s.usage id))

-- What the validation starts from.
abbrev pub known_of : Store → Known
known_of s = record {
  has_entry_or_usage_id = has_entry_or_usage_id s;
  has_entry_id = has_entry_id s;
  least = s.next_seq;
  transaction_ids = [];
  transaction_entry_ids = [];
}

known_of-Knows : (s : Store) → Knows (known_of s) s
unfolding is_entry is_used has_entry_id has_entry_or_usage_id
known_of-Knows s = record { next = refl; entries = λ id. ground arith; used = λ id. ground arith }

check_parent-ParentIn :
    (k : Known) (s : Store) (e : Entry)
    → Knows k s
    → IsLinked s
    → s.next_seq ≤ e.seq
    → check_parent k e.parent_id ≡ none
    → ParentIn s.entries e
unfolding check_parent
check_parent-ParentIn k s e kn h le c = elim (Option-cases e.parent_id) [
  | inl no_parent ↦ root no_parent
  | inr (p, is) ↦ elim (Option-cases (Assoc.get s.entries p)) [
    | inl gone ↦ absurd (ground (arith, is, gone, kn.entries p, c))
    | inr (q, there) ↦ child p q is there (omega (arith, (h p q there).numbered))
  ]
]

module _ (plus : Double → Double → Double) where
  entry-step :
      (k : Known) (s : Store) (e : Entry)
      → Knows k s
      → IsLinked s
      → ltb e.seq k.least ≡ false
      → check_write k (entry e) ≡ none
      → IsLinked (apply_write plus s (entry e))
        × Knows (learn k (entry e)) (apply_write plus s (entry e))
  unfolding check_write apply_write seq_of learn is_entry is_used
  entry-step k s e kn h fresh c =
      let le : s.next_seq ≤ e.seq = ground (arith, kn.next, fresh) in
      let new : Assoc.get s.entries e.id ≡ none = ground (arith, kn.used e.id, c) in
      let parent = check_parent-ParentIn k s e kn h le (ground (arith, c)) in
      (
        Linked-put s.entries s.next_seq e h new le parent,
        record {
          next = refl;
          entries = λ id.
              ground (arith, kn.entries id, get-put s.entries e.id id e, string_eq.beq_iff e.id id);
          used = λ id.
              ground (arith, kn.used id, get-put s.entries e.id id e, string_eq.beq_iff e.id id);
        },
      )

  usage-step :
      (k : Known) (s : Store) (r : UsageRow)
      → Knows k s
      → IsLinked s
      → ltb r.seq k.least ≡ false
      → IsLinked (apply_write plus s (usage r))
        × Knows (learn k (usage r)) (apply_write plus s (usage r))
  unfolding apply_write seq_of learn is_entry is_used
  usage-step k s r kn h fresh = (
    Linked-later s.entries s.next_seq (suc r.seq) (ground (arith, kn.next, fresh)) h,
    record {
      next = refl;
      entries = λ id. ground (arith, kn.entries id);
      used = λ id. ground (arith, kn.used id, get-put s.usage r.id id r, string_eq.beq_iff r.id id);
    },
  )

  -- A write of a value or a list leaves entries and usage.
  value-step :
      (k : Known) (s t : Store) (seq : ℕ)
      → t.entries ≡ s.entries
      → t.usage ≡ s.usage
      → Knows k s
      → IsLinked s
      → ltb seq k.least ≡ false
      → IsLinked (record t { next_seq = suc seq })
        × Knows (record k { least = suc seq }) (record t { next_seq = suc seq })
  unfolding is_entry is_used
  value-step k s t seq same_entries same_usage kn h fresh = (
    subst (λ m. Linked m (suc seq)) (sym same_entries)
        (Linked-later s.entries s.next_seq (suc seq) (ground (arith, kn.next, fresh)) h),
    record {
      next = refl;
      entries = λ id. rw same_entries (kn.entries id);
      used = λ id. rw (same_entries, same_usage) (kn.used id);
    },
  )

  write-step :
      (k : Known) (s : Store) (w : CommittedWrite)
      → Knows k s
      → IsLinked s
      → ltb (seq_of w) k.least ≡ false
      → check_write k w ≡ none
      → IsLinked (apply_write plus s w) × Knows (learn k w) (apply_write plus s w)
  unfolding apply_write seq_of learn
  write-step k s (entry e) kn h fresh c = entry-step k s e kn h fresh c
  write-step k s (usage r) kn h fresh c = usage-step k s r kn h fresh
  write-step k s (value_set seq a v) kn h fresh c =
      value-step k s (apply_kind plus s (value_set seq a v)) seq refl refl kn h fresh
  write-step k s (value_delete seq a) kn h fresh c =
      value-step k s (apply_kind plus s (value_delete seq a)) seq refl refl kn h fresh
  write-step k s (list_append seq a v) kn h fresh c =
      value-step k s (apply_kind plus s (list_append seq a v)) seq refl refl kn h fresh
  write-step k s (list_delete seq a) kn h fresh c =
      value-step k s (apply_kind plus s (list_delete seq a)) seq refl refl kn h fresh

  writes-IsLinked :
      (k : Known) (s : Store) (ws : List CommittedWrite)
      → Knows k s
      → IsLinked s
      → check_writes k ws ≡ none
      → IsLinked (apply_validated plus s ws)
  unfolding check_writes apply_validated
  writes-IsLinked k s [] kn h c = h
  writes-IsLinked k s (w ∷ ws) kn h c =
      let fresh : ltb (seq_of w) k.least ≡ false = ground (arith, c) in
      let passed : check_write k w ≡ none = ground (arith, fresh, c) in
      let rest : check_writes (learn k w) ws ≡ none = ground (arith, fresh, passed, c) in
      let (linked, known) = write-step k s w kn h fresh passed in
      writes-IsLinked (learn k w) (apply_write plus s w) ws known linked rest

  -- Validated writes keep the entries linked, whoever numbered them: after them each entry stands under
  -- its id, has a number below the next one, and is a root or has a parent with a smaller number.
  pub apply_validated-IsLinked :
      (s : Store) (ws : List CommittedWrite)
      → IsLinked s
      → validate_committed s ws ≡ none
      → IsLinked (apply_validated plus s ws)
  unfolding validate_committed validate_committed_writes
  apply_validated-IsLinked s ws h c = writes-IsLinked (known_of s) s ws (known_of-Knows s) h c

  -- A commit keeps the entries linked, accepted or refused: when each entry stands under its id, has a
  -- number below the next one, and is a root or has a stored parent with a smaller number, so it is
  -- after the commit.
  pub commit-IsLinked :
      (s : Store) (ws : List Write) (timestamp : ℕ)
      → IsLinked s
      → IsLinked (commit plus s ws timestamp).0
  unfolding commit prepare_commit
  commit-IsLinked s ws timestamp h =
      let p = prepare_storage_commit ws s.next_seq timestamp in
      elim (Option-cases (validate_committed s p.writes)) [
        | inl passed ↦ rw (passed, commit) (apply_validated-IsLinked s p.writes h passed)
        | inr (e, failed) ↦ rw (failed, commit) h
      ]
