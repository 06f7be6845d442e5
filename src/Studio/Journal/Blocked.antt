-- ===== src/Studio/Journal/Blocked.antt =====
-- The blocked operations of studio-journal.ts.
use livi_agent.Prelude.{
  ℕ, String, ◌≡◌, ◌≢◌, Bool, true, false, not, none, some, inl, inr, List, [], ◌∷◌, arith,
  string_eq, ◌==◌, beq_refl, contains, contains-append, keep_if, All, Option-cases,
}
use livi_agent.Prelude.Assoc
use livi_agent.Studio.Contract.{CommandResult, Outcome}
use livi_agent.Studio.Journal.{
  Journal, CommandRecord, Submission, err, mutation_blocked, mutation_blocked?, block_mutations,
  prepare, dispatch, settle, admit, set_binding, discard_admission, admission, plan, after_settle,
  cancel_prepared, is_batch, prepare_admitted, enter,
}
use livi_agent.Studio.Journal.Calls.{
  Call, binds, blocks, admits, discards, reads_admission, plans, prepares, dispatches, settles,
  cancels, step, run,
}

abbrev IsBlocked : String → Journal → Type 0
IsBlocked op j = contains op j.blocked ≡ true

block-IsBlocked :
    (j : Journal) (new op : String) → IsBlocked op j → IsBlocked op (block_mutations j new)
unfolding block_mutations
block-IsBlocked j new op h = ground (arith, contains-append op j.blocked (new ∷ []))

block-IsBlocked_self : (j : Journal) (op : String) → IsBlocked op (block_mutations j op)
unfolding block_mutations mutation_blocked?
block-IsBlocked_self j op = ground (arith, contains-append op j.blocked (op ∷ []), beq_refl op)

contains-keep_if :
    (op gone : String) (l : List String)
    → op ≢ gone
    → contains op l ≡ true
    → contains op (keep_if (λ o. not (o == gone)) l) ≡ true
contains-keep_if op gone [] d h = h
contains-keep_if op gone (x ∷ l) d h =
    ground (arith, contains-keep_if op gone l d, string_eq.beq_iff x op, string_eq.beq_iff x gone)

blocked-prepare : (j : Journal) (s : Submission) (now : ℕ) → (prepare j s now).0.blocked ≡ j.blocked
unfolding prepare prepare_admitted enter admission
blocked-prepare j s now = ground arith

blocked-dispatch : (j : Journal) (id : String) (a : Bool) → (dispatch j id a).0.blocked ≡ j.blocked
unfolding dispatch
blocked-dispatch j id a = ground arith

after_settle-IsBlocked :
    (j : Journal) (r : CommandRecord) (result : CommandResult) (stored : Bool) (op : String)
    → IsBlocked op j
    → IsBlocked op (after_settle j r result stored)
unfolding after_settle
after_settle-IsBlocked j r result stored op h =
    ground (arith, block-IsBlocked j r.operation_id op h)

settle-IsBlocked :
    (j : Journal) (r : CommandResult) (stored : Bool) (op : String)
    → IsBlocked op j
    → IsBlocked op (settle j r stored).0
unfolding settle
settle-IsBlocked j r stored op h = elim (Option-cases (Assoc.get j.current r.command_id)) [
  | inl e ↦ rw (e, settle) h
  | inr (q, e) ↦ elim (Option-cases q.result) [
    | inl f ↦ rw (e, settle) (rw (f, settle) (after_settle-IsBlocked _ _ r stored op h))
    | inr (old, f) ↦ rw (e, settle) (rw (f, settle) h)
  ]
]

-- The call does not discard the operation.
abbrev pub Keeps : String → Call → Type 0
Keeps op (discards gone stored) = op ≢ gone
Keeps op _ = Unit {0}

step-IsBlocked :
    (j : Journal) (c : Call) (op : String) → Keeps op c → IsBlocked op j → IsBlocked op (step j c)
unfolding step set_binding admit discard_admission cancel_prepared admission plan
step-IsBlocked j (binds b true) op k h = h
step-IsBlocked j (binds b false) op k h = h
step-IsBlocked j (blocks new) op k h = block-IsBlocked j new op h
step-IsBlocked j (admits o a q true) op k h = h
step-IsBlocked j (admits o a q false) op k h = h
step-IsBlocked j (discards gone stored) op k h = contains-keep_if op gone j.blocked k h
step-IsBlocked j (reads_admission o) op k h = ground arith
step-IsBlocked j (plans s) op k h = ground arith
step-IsBlocked j (prepares s now) op k h = rw (blocked-prepare j s now) h
step-IsBlocked j (dispatches id a) op k h = rw (blocked-dispatch j id a) h
step-IsBlocked j (settles r stored) op k h = settle-IsBlocked j r stored op h
step-IsBlocked j (cancels o) op k h = h

pub run-IsBlocked :
    (j : Journal) (cs : List Call) (op : String)
    → All (Keeps op) cs
    → IsBlocked op j
    → IsBlocked op (run j cs)
unfolding run
run-IsBlocked j [] op k h = h
run-IsBlocked j (c ∷ cs) op k h = run-IsBlocked (step j c) cs op k.1 (step-IsBlocked j c op k.0 h)

prepare_when_blocked :
    (j : Journal) (s : Submission) (now : ℕ)
    → IsBlocked s.operation_id j
    → prepare j s now ≡ (j, err mutation_blocked)
unfolding prepare mutation_blocked?
prepare_when_blocked j s now h = rw h

settle_unknown-IsBlocked :
    (j : Journal) (r : CommandResult) (stored : Bool) (q : CommandRecord) (message : String)
    → Assoc.get j.current r.command_id ≡ some q
    → q.result ≡ none
    → is_batch q.command ≡ true
    → r.outcome ≡ Outcome.unknown message
    → IsBlocked q.operation_id (settle j r stored).0
unfolding settle after_settle
settle_unknown-IsBlocked j r stored q message e f b u =
    rw (e, settle)
      (rw (f, settle) (rw (u, after_settle) (rw b (block-IsBlocked_self _ q.operation_id))))

-- Once a batch without a result came back with an unknown outcome, its operation can prepare no further command:
-- after any calls that do not discard the operation, `prepare` fails and changes nothing.
pub unknown_batch_blocks :
    (j : Journal) (r : CommandResult) (stored : Bool) (q : CommandRecord) (message : String)
    (cs : List Call) (s : Submission) (now : ℕ)
    → Assoc.get j.current r.command_id ≡ some q
    → q.result ≡ none
    → is_batch q.command ≡ true
    → r.outcome ≡ Outcome.unknown message
    → All (Keeps q.operation_id) cs
    → s.operation_id ≡ q.operation_id
    → prepare (run (settle j r stored).0 cs) s now
      ≡ (run (settle j r stored).0 cs, err mutation_blocked)
unknown_batch_blocks j r stored q message cs s now e f b u keeps same =
    prepare_when_blocked _ s now (
      rw same (
        run-IsBlocked _ cs q.operation_id keeps
          (settle_unknown-IsBlocked j r stored q message e f b u)))
