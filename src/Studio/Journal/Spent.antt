-- ===== src/Studio/Journal/Spent.antt =====
-- Commands of studio-journal.ts that are no longer prepared.
use livi_agent.Prelude.{
  ℕ, String, ◌≡◌, ◌≢◌, ap, Bool, true, false, none, some, List, [], ◌∷◌, arith, inl, inr, string_eq,
  ◌==◌, beq_refl, Option-cases, Bool-cases, All,
}
use livi_agent.Prelude.Assoc
use livi_agent.Prelude.Assoc.{Assoc, get-put, get-update_all}
use livi_agent.Studio.Contract.{CommandResult}
use livi_agent.Studio.Journal.Calls.{
  Call, binds, blocks, admits, discards, reads_admission, plans, prepares, dispatches, settles,
  cancels, step, run,
}
use livi_agent.Studio.Journal.Cases.{
  dispatched, settled, fresh, dispatch-cases, settle-cases, prepare-cases, current-admission,
  current-block_mutations, current-plan,
}
use livi_agent.Studio.Journal.{
  set_binding, admit, cancel_record, is_prepared, Journal, CommandRecord, CommandState, Submission,
  prepared, dispatch, ok, settle, cancel_prepared, prepare, settled_state, block_mutations,
  admission, plan,
}

-- The command is current and was sent, settled or cancelled.
abbrev pub IsSpent : String → Journal → Type 0
IsSpent id j = (r : CommandRecord) × (Assoc.get j.current id ≡ some r) × (r.state ≢ prepared)

IsSpent-same : (id : String) (j k : Journal) → k.current ≡ j.current → IsSpent id j → IsSpent id k
IsSpent-same id j k same (r, is, spent) = (r, rw same is, spent)

put-spent :
    (m : Assoc String CommandRecord) (k id : String) (v r : CommandRecord)
    → Assoc.get m id ≡ some r
    → r.state ≢ prepared
    → (k ≡ id → v.state ≢ prepared)
    → (x : CommandRecord) × (Assoc.get (Assoc.put m k v) id ≡ some x) × (x.state ≢ prepared)
put-spent m k id v r is spent new = elim (Bool-cases (k == id)) [
  | inl same ↦ (v, ground (arith, get-put m k id v, same), new ((string_eq.beq_iff k id).0 same))
  | inr differs ↦ (r, ground (arith, get-put m k id v, differs, is), spent)
]

-- A prepared command is not the one that is spent.
other-command :
    (m : Assoc String CommandRecord) (at id : String) (q r : CommandRecord)
    → Assoc.get m id ≡ some r
    → r.state ≢ prepared
    → Assoc.get m at ≡ some q
    → q.state ≡ prepared
    → at ≢ id
other-command m at id q r is spent e f =
    λ same. spent (ground (arith, ap (Assoc.get m) same, is, e, f))

settled-spent : (result : CommandResult) → settled_state result.outcome ≢ prepared
unfolding settled_state
settled-spent result = ground arith

pub dispatch-IsSpent :
    (j : Journal) (id at : String) (aborted : Bool)
    → IsSpent id j
    → IsSpent id (dispatch j at aborted).0
dispatch-IsSpent j id at aborted (r, is, spent) = elim (dispatch-cases j at aborted) [
  | inl e ↦ rw e (r, is, spent)
  | inr (q, e, f, g) ↦ rw g (
      put-spent j.current at id (dispatched q aborted) r is spent
        (λ same. absurd (other-command j.current at id q r is spent e f same)))
]

pub settle-IsSpent :
    (j : Journal) (id : String) (result : CommandResult) (stored : Bool)
    → IsSpent id j
    → IsSpent id (settle j result stored).0
settle-IsSpent j id result stored (r, is, spent) = elim (settle-cases j result stored) [
  | inl e ↦ rw e (r, is, spent)
  | inr (q, e, f, g) ↦
      let (x, found, not_prepared) =
        put-spent j.current result.command_id id (settled q result) r is spent
          (λ same. settled-spent result) in
      (x, rw g found, not_prepared)
]

prepare-IsSpent :
    (j : Journal) (id : String) (s : Submission) (now : ℕ)
    → IsSpent id j
    → IsSpent id (prepare j s now).0
prepare-IsSpent j id s now (r, is, spent) = elim (prepare-cases j s now) [
  | inl e ↦ (r, rw e is, spent)
  | inr (e, g) ↦
      let (x, found, not_prepared) =
        put-spent j.current s.command.command_id id (fresh s now) r is spent
          (λ same. absurd (ground (arith, ap (Assoc.get j.current) same, is, e))) in
      (x, rw g found, not_prepared)
]

cancel_record-spent :
    (op : String) (r : CommandRecord) → r.state ≢ prepared → (cancel_record op r).state ≢ prepared
unfolding cancel_record is_prepared
cancel_record-spent op r spent = ground arith

-- A discard forgets the commands of its operation.
abbrev pub is_discard : Call → Bool
is_discard (discards op stored) = true
is_discard _ = false

step-IsSpent :
    (j : Journal) (c : Call) (id : String)
    → is_discard c ≡ false
    → IsSpent id j
    → IsSpent id (step j c)
unfolding step set_binding admit cancel_prepared
step-IsSpent j (binds b true) id d h = h
step-IsSpent j (binds b false) id d h = h
step-IsSpent j (blocks op) id d h =
    IsSpent-same id j (block_mutations j op) (current-block_mutations j op) h
step-IsSpent j (admits op a q true) id d h = h
step-IsSpent j (admits op a q false) id d h = h
step-IsSpent j (discards op stored) id d h = absurd (ground (arith, d))
step-IsSpent j (reads_admission op) id d h =
    IsSpent-same id j (admission j op).0 (current-admission j op) h
step-IsSpent j (plans s) id d h = IsSpent-same id j (plan j s).0 (current-plan j s) h
step-IsSpent j (prepares s now) id d h = prepare-IsSpent j id s now h
step-IsSpent j (dispatches at aborted) id d h = dispatch-IsSpent j id at aborted h
step-IsSpent j (settles r stored) id d h = settle-IsSpent j id r stored h
step-IsSpent j (cancels op) id d (r, is, spent) = (
  cancel_record op r,
  ground (arith, get-update_all (cancel_record op) j.current id, is),
  cancel_record-spent op r spent,
)

pub run-IsSpent :
    (j : Journal) (cs : List Call) (id : String)
    → All (λ c. is_discard c ≡ false) cs
    → IsSpent id j
    → IsSpent id (run j cs)
unfolding run
run-IsSpent j [] id d h = h
run-IsSpent j (c ∷ cs) id (d, ds) h = run-IsSpent (step j c) cs id ds (step-IsSpent j c id d h)

-- A dispatch that returns leaves the command spent.
pub dispatch_ok-IsSpent :
    (j k : Journal) (id : String) (aborted : Bool) (r : CommandRecord)
    → dispatch j id aborted ≡ (k, ok r)
    → IsSpent id k
unfolding dispatch is_prepared
dispatch_ok-IsSpent j k id aborted r h = elim (Option-cases (Assoc.get j.current id)) [
  | inl e ↦ absurd (ground (arith, e, h))
  | inr (q, e) ↦ elim (Bool-cases (is_prepared q.state)) [
    | inl yes_prepared ↦ (
      dispatched q aborted,
      ground
          (arith, e, h, yes_prepared, get-put j.current id id (dispatched q aborted), beq_refl id),
      ground arith,
    )
    | inr spent ↦ (q, ground (arith, e, h, spent), ground (arith, spent))
  ]
]

-- The first result of a current command is recorded.
pub settle_first :
    (j : Journal) (result : CommandResult) (stored : Bool) (q : CommandRecord)
    → Assoc.get j.current result.command_id ≡ some q
    → q.result ≡ none
    → (settle j result stored).1 ≡ ok (settled q result)
unfolding settle
settle_first j result stored q e f = ground (arith, e, f)

pub prepared_false : (s : CommandState) → s ≢ prepared → is_prepared s ≡ false
unfolding is_prepared
prepared_false s h = ground arith

pub dispatch_first :
    (j : Journal) (id : String) (q : CommandRecord)
    → Assoc.get j.current id ≡ some q
    → q.state ≡ prepared
    → dispatch j id false ≡ (
      record j { current = Assoc.put j.current id (dispatched q false) },
      ok (dispatched q false),
    )
unfolding dispatch is_prepared
dispatch_first j id q e f = ground (arith, e, f)

pub prepared_true : (s : CommandState) → s ≡ prepared → is_prepared s ≡ true
unfolding is_prepared
prepared_true s h = ground arith
