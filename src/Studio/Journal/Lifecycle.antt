-- ===== src/Studio/Journal/Lifecycle.antt =====
-- The life of a command in studio-journal.ts: its dispatch, its result and its state.
use livi_agent.Prelude.{
  ℕ, String, ◌≡◌, ◌≢◌, refl, Bool, true, false, Option, none, some, List, [], ◌∷◌, arith, ◌⊎◌, inl,
  inr, string_eq, ◌==◌, ◌&&◌, beq_refl, Option-cases, Bool-cases,
}
use livi_agent.Prelude.Assoc
use livi_agent.Prelude.Assoc.{get-put, get-update_all}
use livi_agent.Prelude.Assoc.Entries.{
  Entries, Entries-put, Entries-get, Entries-drop_where, Entries-update_all,
}
use livi_agent.Studio.Contract.{CommandResult, Outcome, Saved, Snapshot, StudioError}
use livi_agent.Studio.Journal.Calls.{
  Call, binds, blocks, admits, discards, reads_admission, plans, prepares, dispatches, settles,
  cancels, step, run,
}
use livi_agent.Studio.Journal.Cases.{
  dispatched, settled, fresh, dispatch-cases, settle-cases, prepare-cases, current-admission,
  current-block_mutations, current-plan,
}
use livi_agent.Studio.Journal.{
  set_binding, admit, discard_admission, cancel_record, is_prepared, Journal, CommandRecord,
  CommandState, Submission, ok, prepared, outcome_unknown, cancelled_before_send, committed,
  rejected, dispatch, settle, cancel_prepared, prepare, settled_state,
}

-- After a dispatch that returned a record, every further dispatch returns that record and changes
-- nothing, and the record is no longer prepared.
pub dispatch_once :
    (j k : Journal) (id : String) (aborted again : Bool) (r : CommandRecord)
    → dispatch j id aborted ≡ (k, ok r)
    → (r.state ≢ prepared) × (dispatch k id again ≡ (k, ok r))
unfolding dispatch
dispatch_once j k id aborted again r h = elim (Option-cases (Assoc.get j.current id)) [
  | inl e ↦ ground arith
  | inr (q, e) ↦ ground (
    arith,
    beq_refl id,
    get-put j.current id id (record q { state = cancelled_before_send }),
    get-put j.current id id (record q { state = outcome_unknown }),
  )
]

-- The first result of a command is final: once `settle` returned a record, settling the command
-- again, with whatever result, returns that record and leaves the journal as it is.
pub settle_once :
    (j k : Journal) (first later : CommandResult) (stored again : Bool) (r : CommandRecord)
    → settle j first stored ≡ (k, ok r)
    → later.command_id ≡ first.command_id
    → settle k later again ≡ (k, ok r)
unfolding settle
settle_once j k first later stored again r h same =
    elim (Option-cases (Assoc.get j.current first.command_id)) [
      | inl e ↦ ground arith
      | inr (q, e) ↦ ground (
        arith,
        beq_refl first.command_id,
        get-put j.current first.command_id first.command_id
            (record q { state = settled_state first.outcome; result = some first }),
      )
    ]

-- The state of a command that has a result: a saved result commits it, a rejected one rejects it, and
-- after an unknown one its outcome is unknown.
pub data Settled : Outcome → CommandState → Type 0 where
  commits :
      (saved : Saved) (revision : String) (snapshot : Snapshot)
      → Settled (Outcome.saved saved revision snapshot) committed
  rejects : (e : StudioError) → Settled (Outcome.rejected e) rejected
  leaves : (message : String) → Settled (Outcome.unknown message) outcome_unknown

pub settled_state-Settled : (o : Outcome) → Settled o (settled_state o)
unfolding settled_state
settled_state-Settled (Outcome.saved saved revision snapshot) = commits saved revision snapshot
settled_state-Settled (Outcome.rejected e) = rejects e
settled_state-Settled (Outcome.unknown message) = leaves message

not_prepared : (o : Outcome) (s : CommandState) → Settled o s → s ≢ prepared
not_prepared o s (commits saved revision snapshot) = λ p. cc
not_prepared o s (rejects e) = λ p. cc
not_prepared o s (leaves message) = λ p. cc

abbrev ResultAgrees : Option CommandResult → CommandState → String → Type 0
ResultAgrees none s id = (s ≡ prepared) ⊎ (s ≡ outcome_unknown) ⊎ (s ≡ cancelled_before_send)
ResultAgrees (some r) s id = Settled r.outcome s × (r.command_id ≡ id)

-- An entry stands under its command's id; with no result it is prepared, sent or cancelled, and
-- with a result it has the result's id and the state that belongs to its outcome.
abbrev pub IsCoherent : String → CommandRecord → Type 0
IsCoherent id r = (r.command.command_id ≡ id) × ResultAgrees r.result r.state id

abbrev pub Coherent : Journal → Type 0
Coherent j = Entries IsCoherent j.current

-- Only a record with no result is prepared, so it may be sent or cancelled.
prepared-ResultAgrees :
    (result : Option CommandResult) (s t : CommandState) (id : String)
    → s ≡ prepared
    → (t ≡ outcome_unknown) ⊎ (t ≡ cancelled_before_send)
    → ResultAgrees result s id
    → ResultAgrees result t id
prepared-ResultAgrees none s t id p q h = ground arith
prepared-ResultAgrees (some r) s t id p q h = absurd (not_prepared r.outcome s h.0 p)

dispatch-Coherent :
    (j : Journal) (id : String) (aborted : Bool) → Coherent j → Coherent (dispatch j id aborted).0
dispatch-Coherent j id aborted h = elim (dispatch-cases j id aborted) [
  | inl e ↦ rw e h
  | inr (q, e, f, g) ↦
      let was : IsCoherent id q = Entries-get IsCoherent j.current id q h e in
      rw g (
        Entries-put IsCoherent j.current id (dispatched q aborted)
          (was.0, prepared-ResultAgrees q.result q.state _ id f (ground arith) was.1) h)
]

settle-Coherent :
    (j : Journal) (r : CommandResult) (stored : Bool) → Coherent j → Coherent (settle j r stored).0
settle-Coherent j r stored h = elim (settle-cases j r stored) [
  | inl e ↦ rw e h
  | inr (q, e, f, g) ↦
      let was : IsCoherent r.command_id q = Entries-get IsCoherent j.current r.command_id q h e in
      rw g (
        Entries-put IsCoherent j.current r.command_id (settled q r)
          (was.0, (settled_state-Settled r.outcome, refl)) h)
]

prepare-Coherent :
    (j : Journal) (s : Submission) (now : ℕ) → Coherent j → Coherent (prepare j s now).0
prepare-Coherent j s now h = elim (prepare-cases j s now) [
  | inl e ↦ rw e h
  | inr (e, g) ↦
      rw g (Entries-put IsCoherent j.current s.command.command_id (fresh s now) (refl, inl refl) h)
]

cancel-IsCoherent :
    (op id : String) (r : CommandRecord) → IsCoherent id r → IsCoherent id (cancel_record op r)
unfolding cancel_record is_prepared
cancel-IsCoherent op id r h = elim (Bool-cases ((r.operation_id == op) && is_prepared r.state)) [
  | inl e ↦ rw e (h.0, prepared-ResultAgrees r.result r.state _ id (ground arith) (inr refl) h.1)
  | inr e ↦ rw e h
]

pub step-Coherent : (j : Journal) (c : Call) → Coherent j → Coherent (step j c)
unfolding step set_binding admit discard_admission cancel_prepared
step-Coherent j (binds b true) h = h
step-Coherent j (binds b false) h = h
step-Coherent j (blocks op) h = rw (current-block_mutations j op) h
step-Coherent j (admits op a q true) h = h
step-Coherent j (admits op a q false) h = h
step-Coherent j (discards op stored) h = Entries-drop_where IsCoherent _ j.current h
step-Coherent j (reads_admission op) h = rw (current-admission j op) h
step-Coherent j (plans s) h = rw (current-plan j s) h
step-Coherent j (prepares s now) h = prepare-Coherent j s now h
step-Coherent j (dispatches id aborted) h = dispatch-Coherent j id aborted h
step-Coherent j (settles r stored) h = settle-Coherent j r stored h
step-Coherent j (cancels op) h =
    Entries-update_all IsCoherent (cancel_record op) j.current (cancel-IsCoherent op) h

-- Whatever the calls, every current command stands under its own id; without a result it is prepared,
-- sent or cancelled; with a result, which is of the same id, it is committed where the result is saved,
-- rejected where that is rejected, and of unknown outcome where that is unknown.
pub run-Coherent : (j : Journal) (cs : List Call) → Coherent j → Coherent (run j cs)
unfolding run
run-Coherent j [] h = h
run-Coherent j (c ∷ cs) h = run-Coherent (step j c) cs (step-Coherent j c h)
