-- ===== src/Session/Storage/Numbers.antt =====
-- The sequence numbers and the totals of in-memory-storage-state.ts.
use livi_agent.Prelude.{
  ℕ, zero, suc, ◌+◌, ◌≡◌, ◌≢◌, refl, ap, subst, ◌∙◌, some, List, [], ◌∷◌, ◌++◌, map, subst, length,
  arith, Option-cases, Bool-cases, inl, inr, if◌then◌else◌, keep_if, string_eq,
}
use livi_agent.Session.{Double, Entry, Write}
use livi_agent.Session.Commit.{
  CommittedWrite, entry, usage, value_set, value_delete, list_append, list_delete, seq_of,
  commit_write, commit_writes, Known, check_write, check_parent, learn, check_writes, CommitError,
  non_monotonic, validate_committed_writes, prepare_storage_commit, PreparedCommit,
}
use livi_agent.Session.Storage.Linked.{known_of}
use livi_agent.Session.Storage.{
  Store, is_message, apply_entry, apply_usage, apply_kind, apply_write, apply_validated,
  validate_committed, prepare_commit, commit, accepted, refused,
}

-- n, n + 1, … of the given length.
abbrev pub count_from : ℕ → ℕ → List ℕ
count_from n zero = []
count_from n (suc k) = n ∷ count_from (suc n) k

seq_of-commit_write : (w : Write) (n t : ℕ) → seq_of (commit_write w n t) ≡ n
unfolding seq_of commit_write
seq_of-commit_write w n t = ground arith

seqs-commit_writes :
    (ws : List Write) (n t : ℕ) → map seq_of (commit_writes ws n t) ≡ count_from n (length ws)
unfolding commit_writes
seqs-commit_writes [] n t = refl
seqs-commit_writes (w ∷ ws) n t = cc (seq_of-commit_write w n t, seqs-commit_writes ws (suc n) t)

least-learn : (k : Known) (w : CommittedWrite) → (learn k w).least ≡ suc (seq_of w)
unfolding learn seq_of
least-learn k w = ground arith

check_write-monotonic :
    (k : Known) (w : CommittedWrite) (n : ℕ) → check_write k w ≢ some (non_monotonic n)
unfolding check_write check_parent
check_write-monotonic k w n = ground arith

check_writes-monotonic :
    (k : Known) (ws : List Write) (t n : ℕ)
    → check_writes k (commit_writes ws k.least t) ≢ some (non_monotonic n)
unfolding check_writes commit_writes
check_writes-monotonic k [] t n = ground arith
check_writes-monotonic k (w ∷ ws) t n =
    let m = seq_of-commit_write w k.least t in
    let l = least-learn k (commit_write w k.least t) ∙ ap suc m in
    let c = check_write-monotonic k (commit_write w k.least t) n in
    let rec =
      subst
        (λ j.
          check_writes (learn k (commit_write w k.least t)) (commit_writes ws j t)
          ≢ some (non_monotonic n))
        l (check_writes-monotonic (learn k (commit_write w k.least t)) ws t n) in
    ground arith

next_seq-apply_validated :
    (plus : Double → Double → Double) (s : Store) (ws : List Write) (t : ℕ)
    → (apply_validated plus s (commit_writes ws s.next_seq t)).next_seq ≡ s.next_seq + length ws
unfolding apply_validated commit_writes apply_write
next_seq-apply_validated plus s [] t = omega arith
next_seq-apply_validated plus s (w ∷ ws) t =
    let s1 = apply_write plus s (commit_write w s.next_seq t) in
    let l : s1.next_seq ≡ suc s.next_seq = ap suc (seq_of-commit_write w s.next_seq t) in
    let rec =
      subst (λ j. (apply_validated plus s1 (commit_writes ws j t)).next_seq ≡ j + length ws) l
        (next_seq-apply_validated plus s1 ws t) in
    rec ∙ omega arith

-- The messages among stored entries.
abbrev pub messages : List Entry → ℕ
messages es = length (keep_if (λ e. is_message e.type) es)

-- The total of a store counts the messages in its log.
abbrev pub IsCounted : Store → Type 0
IsCounted s = s.stats.message_count ≡ messages s.entries_by_seq

messages-snoc :
    (es : List Entry) (e : Entry)
    → messages (es ++ e ∷ []) ≡ messages es + (if is_message e.type then 1 else 0)
messages-snoc [] e = ground arith
messages-snoc (x ∷ es) e = let rec = messages-snoc es e in ground arith

apply_entry-IsCounted : (s : Store) (e : Entry) → IsCounted s → IsCounted (apply_entry s e)
unfolding apply_entry
apply_entry-IsCounted s e h = elim (Bool-cases (is_message e.type)) [
  | inl is ↦ ground (arith, messages-snoc s.entries_by_seq e, is, h)
  | inr is ↦ ground (arith, messages-snoc s.entries_by_seq e, is, h)
]

module _ (plus : Double → Double → Double) where
  apply_write-IsCounted :
      (s : Store) (w : CommittedWrite) → IsCounted s → IsCounted (apply_write plus s w)
  unfolding apply_write apply_kind apply_usage
  apply_write-IsCounted s (entry e) h = apply_entry-IsCounted s e h
  apply_write-IsCounted s (usage r) h = h
  apply_write-IsCounted s (value_set seq a v) h = h
  apply_write-IsCounted s (value_delete seq a) h = h
  apply_write-IsCounted s (list_append seq a v) h = h
  apply_write-IsCounted s (list_delete seq a) h = h

  apply_validated-IsCounted :
      (s : Store) (ws : List CommittedWrite) → IsCounted s → IsCounted (apply_validated plus s ws)
  unfolding apply_validated
  apply_validated-IsCounted s [] h = h
  apply_validated-IsCounted s (w ∷ ws) h =
      apply_validated-IsCounted (apply_write plus s w) ws (apply_write-IsCounted s w h)

  -- A commit keeps the total right: whether it is accepted or refused, the count of messages is that of
  -- the message entries in the log, when it was before.
  pub commit-IsCounted :
      (s : Store) (ws : List Write) (timestamp : ℕ)
      → IsCounted s
      → IsCounted (commit plus s ws timestamp).0
  unfolding commit prepare_commit
  commit-IsCounted s ws timestamp h =
      let p = prepare_storage_commit ws s.next_seq timestamp in
      elim (Option-cases (validate_committed s p.writes)) [
        | inl passed ↦ rw (passed, commit) (apply_validated-IsCounted s p.writes h)
        | inr (e, failed) ↦ rw (failed, commit) h
      ]

  -- An accepted transaction takes the numbers that follow the last one, a number for each write in the
  -- order they were given, and the next transaction starts behind them.
  pub commit_numbers :
      (s t : Store) (ws : List Write) (timestamp : ℕ) (p : PreparedCommit)
      → commit plus s ws timestamp ≡ (t, accepted p)
      → (p.first_seq ≡ s.next_seq)
        × (p.seqs ≡ count_from s.next_seq (length ws))
        × (map seq_of p.writes ≡ p.seqs)
        × (t.next_seq ≡ s.next_seq + length ws)
  unfolding commit prepare_commit prepare_storage_commit
  commit_numbers s t ws timestamp p is =
      let seqs = seqs-commit_writes ws s.next_seq timestamp in
      let next = next_seq-apply_validated plus s ws timestamp in ground arith

  -- A transaction that is refused leaves the store as it was, and it is refused for an id that is used
  -- or a parent that is missing, never for its numbers.
  pub commit_refused :
      (s t : Store) (ws : List Write) (timestamp n : ℕ) (e : CommitError)
      → commit plus s ws timestamp ≡ (t, refused e)
      → (t ≡ s) × (e ≢ non_monotonic n)
  unfolding commit prepare_commit prepare_storage_commit validate_committed
      validate_committed_writes
  commit_refused s t ws timestamp n e is =
      let c = check_writes-monotonic (known_of s) ws timestamp n in ground arith
