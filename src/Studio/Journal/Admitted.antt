-- ===== src/Studio/Journal/Admitted.antt =====
-- An admitted product in studio-journal.ts and the adds that its request submits.
use livi_agent.Prelude.{
  ℕ, ◌≤◌, String, ◌≡◌, ◌≢◌, refl, subst, true, false, none, some, List, [], ◌∷◌, arith, string_eq,
  ◌==◌, Bool-cases, inl, inr, ◌⊎◌,
}
use livi_agent.Prelude.Assoc
use livi_agent.Prelude.Assoc.{
  Assoc, get-put, get-put_ne, get-remove_ne, put, drop_where, update_all, values,
}
use livi_agent.Prelude.Assoc.Total.{
  total-put_new, total-put_old, total-drop_where, total-update_all,
}
use livi_agent.Prelude.Assoc.Entries.{Entries-get}
use livi_agent.Studio.Journal.{
  Journal, CommandRecord, Submission, add, prepared, outcome_unknown, ok, err, Result, prepare,
  prepare_admitted, admission, admission_check, admitted_type, enter, cancelled_before_send,
  cancel_record, admit, store_admission, discard_admission, set_binding, cancel_prepared,
}
use livi_agent.Studio.Journal.Calls.{
  Call, binds, blocks, admits, discards, reads_admission, plans, prepares, dispatches, settles,
  cancels, step, run,
}
use livi_agent.Studio.Journal.Cases.{
  dispatched, settled, fresh, dispatch-cases, settle-cases, current-admission,
  current-block_mutations, current-plan,
}
use livi_agent.Studio.Journal.Lifecycle.{Coherent, IsCoherent, step-Coherent}
use livi_agent.Studio.Journal.Submitted.{
  live_edits_of, live_edits, live_edits_of-other, live_edits_of-dispatched, live_edits_of-settled,
  live_edits_of-cancel, enter_add-bound,
}
use livi_agent.Studio.Journal.Seen.{seen, Fair, FairRun, step-seen}

-- `prepare` leaves the journal, or goes on to the admission with a command id that is not current.
prepare-path :
    (j : Journal) (s : Submission) (now : ℕ)
    → ((prepare j s now).0 ≡ j)
      ⊎ ((Assoc.get j.current s.command.command_id ≡ none)
          × (prepare j s now ≡ prepare_admitted j s now))
unfolding prepare
prepare-path j s now = ground arith

admission-seen : (j : Journal) (op : String) → (admission j op).1 ≡ seen j op
unfolding admission
admission-seen j op = ground arith

-- A command of another operation adds nothing, however the tests end.
enter_other-bound :
    (j : Journal) (s : Submission) (now : ℕ) (r : Result (Unit {0})) (op : String)
    → Assoc.get j.current s.command.command_id ≡ none
    → s.operation_id ≢ op
    → live_edits add op (enter j s now r).0.current ≤ live_edits add op j.current
unfolding enter live_edits
enter_other-bound j s now (err e) op h d = omega arith
enter_other-bound j s now (ok x) op h d = omega (
  arith,
  live_edits_of-other add op s now d,
  total-put_new (live_edits_of add op) j.current s.command.command_id (fresh s now) h,
)

prepare_admitted_lem :
    (j : Journal) (s : Submission) (now : ℕ)
    → prepare_admitted j s now
      ≡ enter (admission j s.operation_id).0 s now (
          admission_check
            (admission j s.operation_id).0
            s
            (admitted_type (admission j s.operation_id).1))
unfolding prepare_admitted
prepare_admitted_lem j s now = refl

prepare_own-bound :
    (j : Journal) (s : Submission) (now : ℕ)
    → Assoc.get j.current s.command.command_id ≡ none
    → admitted_type (seen j s.operation_id) ≡ some add
    → live_edits add s.operation_id j.current ≤ 1
    → live_edits add s.operation_id (prepare_admitted j s now).0.current ≤ 1
prepare_own-bound j s now h a le =
    rw (prepare_admitted_lem, admission-seen, a)
      (enter_add-bound (admission j s.operation_id).0 s now
        (rw (current-admission j s.operation_id) h) (rw (current-admission j s.operation_id) le))

prepare_other-bound :
    (j : Journal) (s : Submission) (now : ℕ) (op : String)
    → Assoc.get j.current s.command.command_id ≡ none
    → s.operation_id ≢ op
    → live_edits add op (prepare_admitted j s now).0.current ≤ live_edits add op j.current
prepare_other-bound j s now op h d =
    subst
      (λ (m : Assoc String CommandRecord).
        live_edits add op (prepare_admitted j s now).0.current ≤ live_edits add op m)
      (current-admission j s.operation_id)
      (rw prepare_admitted_lem (
        enter_other-bound (admission j s.operation_id).0 s now
          (admission_check (admission j s.operation_id).0 s
            (admitted_type (admission j s.operation_id).1))
          op (rw (current-admission j s.operation_id) h) d))

prepare_add-bound :
    (j : Journal) (s : Submission) (now : ℕ) (op : String)
    → admitted_type (seen j op) ≡ some add
    → live_edits add op j.current ≤ 1
    → live_edits add op (prepare j s now).0.current ≤ 1
prepare_add-bound j s now op a le = elim (prepare-path j s now) [
  | inl e ↦ rw e le
  | inr (h, e) ↦ elim (Bool-cases (s.operation_id == op)) [
    | inl q ↦ rw e (
        subst
          (λ (o : String).
            admitted_type (seen j o) ≡ some add
            → live_edits add o j.current ≤ 1
            → live_edits add o (prepare_admitted j s now).0.current ≤ 1)
          ((string_eq.beq_iff s.operation_id op).0 q) (prepare_own-bound j s now h) a le)
    | inr q ↦ rw e (
        omega (
          arith,
          prepare_other-bound j s now op h (ground (arith, string_eq.beq_iff s.operation_id op)),
        ))
  ]
]

-- A coherent record with no result that is not cancelled is prepared or sent.
sendable :
    (q : CommandRecord) (id : String)
    → q.result ≡ none
    → IsCoherent id q
    → q.state ≢ cancelled_before_send
    → (q.state ≡ prepared) ⊎ (q.state ≡ outcome_unknown)
sendable q id n h c = ground arith

step-live_edits :
    (j : Journal) (c : Call) (op : String)
    → Fair op j c
    → Coherent j
    → admitted_type (seen j op) ≡ some add
    → live_edits add op j.current ≤ 1
    → live_edits add op (step j c).current ≤ 1
unfolding step live_edits set_binding admit store_admission discard_admission cancel_prepared
step-live_edits j (binds b true) op f co a le = le
step-live_edits j (binds b false) op f co a le = le
step-live_edits j (blocks o) op f co a le = rw (current-block_mutations j o) le
step-live_edits j (admits o act q true) op f co a le = le
step-live_edits j (admits o act q false) op f co a le = le
step-live_edits j (discards o stored) op f co a le =
    omega
      (arith, total-drop_where {0, 0} (live_edits_of add op) (λ r. r.operation_id == o) j.current)
step-live_edits j (reads_admission o) op f co a le = rw (current-admission j o) le
step-live_edits j (plans s) op f co a le = rw (current-plan j s) le
step-live_edits j (prepares s now) op f co a le = prepare_add-bound j s now op a le
step-live_edits j (dispatches id ab) op f co a le = elim (dispatch-cases j id ab) [
  | inl e ↦ rw e le
  | inr (q, e, p, g) ↦ rw g (
      omega (
        arith,
        total-put_old (live_edits_of add op) j.current id q (dispatched q ab) e
            (live_edits_of-dispatched add op q ab p),
      ))
]
step-live_edits j (settles r stored) op f co a le = elim (settle-cases j r stored) [
  | inl e ↦ rw e le
  | inr (q, e, n, g) ↦ rw g (
      omega (
        arith,
        total-put_old (live_edits_of add op) j.current r.command_id q (settled q r) e (
            live_edits_of-settled add op q r (
              sendable q r.command_id n (Entries-get IsCoherent j.current r.command_id q co e)
                (f q e))),
      ))
]
step-live_edits j (cancels o) op f co a le = omega (
  arith,
  total-update_all {0, 0} (live_edits_of add op) (cancel_record o) j.current
      (live_edits_of-cancel add op o),
)

-- While an admitted add is open, its operation never has more than one add edit submitted: in a
-- coherent journal where it has at most one, it has at most one after any calls, if none of them
-- admits or discards that operation or settles a command that was cancelled before it was sent.
pub admitted_add_once :
    (j : Journal) (cs : List Call) (op : String)
    → FairRun op j cs
    → Coherent j
    → admitted_type (seen j op) ≡ some add
    → live_edits add op j.current ≤ 1
    → live_edits add op (run j cs).current ≤ 1
unfolding run
admitted_add_once j [] op f co a le = le
admitted_add_once j (c ∷ cs) op f co a le =
    admitted_add_once (step j c) cs op f.1 (step-Coherent j c co) (rw (step-seen j c op f.0) a)
      (step-live_edits j c op f.0 co a le)
