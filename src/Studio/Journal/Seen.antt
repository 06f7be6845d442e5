-- ===== src/Studio/Journal/Seen.antt =====
-- The admission of an operation of studio-journal.ts across the calls on the journal.
use livi_agent.Prelude.{
  ℕ, String, ◌≡◌, ◌≢◌, refl, Bool, true, false, Option, none, some, List, [], ◌∷◌, arith, string_eq,
  Option-cases, inl, inr,
}
use livi_agent.Prelude.Assoc
use livi_agent.Prelude.Assoc.{
  Assoc, get-put, get-put_ne, get-remove_ne, put, drop_where, update_all, values,
}
use livi_agent.Studio.Contract.{CommandResult}
use livi_agent.Studio.Journal.{
  Journal, Admission, CommandRecord, Submission, ok, err, Result, prepare, binding,
  prepare_admitted, admission, admission_check, admitted_type, enter, cancelled_before_send, admit,
  store_admission, discard_admission, settle, after_settle, dispatch, plan, block_mutations,
  set_binding, cancel_prepared,
}
use livi_agent.Studio.Journal.Calls.{
  Call, binds, blocks, admits, discards, reads_admission, plans, prepares, dispatches, settles,
  cancels, step,
}

-- What `admission` returns for the operation.
abbrev pub seen : Journal → String → Option Admission
seen j op = elim (Assoc.get j.admissions op) [
  | some a ↦ some a
  | none ↦ Assoc.get j.session.admissions op
]

pub seen-admission : (j : Journal) (o op : String) → seen (admission j o).0 op ≡ seen j op
unfolding admission
seen-admission j o op = elim (Option-cases (Assoc.get j.session.admissions o)) [
  | inl e ↦ ground arith
  | inr (a, e) ↦ ground (arith, get-put j.admissions o op a, string_eq.beq_iff o op)
]

pub seen-enter :
    (j : Journal) (s : Submission) (now : ℕ) (r : Result (Unit {0})) (op : String)
    → seen (enter j s now r).0 op ≡ seen j op
unfolding enter
seen-enter j s now (ok x) op = refl
seen-enter j s now (err e) op = refl

pub seen-prepare :
    (j : Journal) (s : Submission) (now : ℕ) (op : String) → seen (prepare j s now).0 op ≡ seen j op
unfolding prepare prepare_admitted
seen-prepare j s now op = ground (
  arith,
  seen-admission j s.operation_id op,
  seen-enter (admission j s.operation_id).0 s now
      (admission_check (admission j s.operation_id).0 s
        (admitted_type (admission j s.operation_id).1))
      op,
)

pub seen-dispatch :
    (j : Journal) (id : String) (a : Bool) (op : String) → seen (dispatch j id a).0 op ≡ seen j op
unfolding dispatch
seen-dispatch j id a op = ground arith

pub seen-settle :
    (j : Journal) (r : CommandResult) (stored : Bool) (op : String)
    → seen (settle j r stored).0 op ≡ seen j op
unfolding settle after_settle block_mutations
seen-settle j r stored op = ground arith

-- The calls of a request that was admitted: no second admission and no discarding of the operation,
-- and a result is settled for a command that was sent, not for one cancelled before.
abbrev pub Fair : String → Journal → Call → Type 0
Fair op j (admits o a q stored) = o ≢ op
Fair op j (discards o stored) = o ≢ op
Fair op j (settles r stored) =
    (q : CommandRecord)
    → Assoc.get j.current r.command_id ≡ some q
    → q.state ≢ cancelled_before_send
Fair op j _ = Unit {0}

abbrev pub FairRun : String → Journal → List Call → Type 0
FairRun op j [] = Unit {0}
FairRun op j (c ∷ cs) = Fair op j c × FairRun op (step j c) cs

pub step-seen :
    (j : Journal) (c : Call) (op : String) → Fair op j c → seen (step j c) op ≡ seen j op
unfolding step set_binding admit store_admission discard_admission cancel_prepared plan
    block_mutations
step-seen j (binds b true) op f = refl
step-seen j (binds b false) op f = refl
step-seen j (blocks o) op f = ground arith
step-seen j (admits o a q true) op f = ground (
  arith,
  get-put_ne j.session.admissions o op
      (record { value = binding j; action = a; original_query = q }) f,
  get-put_ne j.admissions o op (record { value = binding j; action = a; original_query = q }) f,
)
step-seen j (admits o a q false) op f = ground (
  arith,
  get-remove_ne (put j.admissions o (record { value = binding j; action = a; original_query = q }))
      o op f,
  get-put_ne j.admissions o op (record { value = binding j; action = a; original_query = q }) f,
)
step-seen j (discards o true) op f =
    ground (arith, get-remove_ne j.admissions o op f, get-remove_ne j.session.admissions o op f)
step-seen j (discards o false) op f = ground (arith, get-remove_ne j.admissions o op f)
step-seen j (reads_admission o) op f = seen-admission j o op
step-seen j (plans s) op f = ground arith
step-seen j (prepares s now) op f = seen-prepare j s now op
step-seen j (dispatches id a) op f = seen-dispatch j id a op
step-seen j (settles r stored) op f = seen-settle j r stored op
step-seen j (cancels o) op f = refl
