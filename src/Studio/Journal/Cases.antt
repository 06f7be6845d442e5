-- ===== src/Studio/Journal/Cases.antt =====
-- How each operation of studio-journal.ts can change the current records.
use livi_agent.Prelude.{
  ℕ, String, ◌≡◌, Bool, none, some, ◌⊎◌, inl, inr, arith, string_eq, Option-cases, Bool-cases,
  if◌then◌else◌,
}
use livi_agent.Prelude.Assoc
use livi_agent.Studio.Contract.{CommandResult}
use livi_agent.Studio.Journal.{
  Journal, PlanningSnapshot, CommandRecord, Submission, prepared, outcome_unknown,
  cancelled_before_send, dispatch, is_prepared, settle, prepare, admission, settled_state,
  after_settle, block_mutations, plan,
}

abbrev pub dispatched : CommandRecord → Bool → CommandRecord
dispatched r aborted = record r {
  state = if aborted then cancelled_before_send else outcome_unknown;
}

abbrev pub settled : CommandRecord → CommandResult → CommandRecord
settled r result = record r { state = settled_state result.outcome; result = some result }

abbrev pub fresh : Submission → ℕ → CommandRecord
fresh s now = record { submission = s; state = prepared; result = none; created_at = now }

pub dispatch-cases :
    (j : Journal) (id : String) (aborted : Bool)
    → ((dispatch j id aborted).0 ≡ j)
      ⊎ ((q : CommandRecord) × (Assoc.get j.current id ≡ some q)
          × (q.state ≡ prepared)
          × ((dispatch j id aborted).0
              ≡ record j { current = Assoc.put j.current id (dispatched q aborted) }))
unfolding dispatch
dispatch-cases j id aborted = elim (Option-cases (Assoc.get j.current id)) [
  | inl e ↦ inl (ground arith)
  | inr (q, e) ↦ elim (Bool-cases (is_prepared q.state)) [
    | inl f ↦ inr (q, e, ground arith, ground arith)
    | inr f ↦ inl (ground arith)
  ]
]

pub current-after_settle :
    (j : Journal) (r : CommandRecord) (result : CommandResult) (stored : Bool)
    → (after_settle j r result stored).current ≡ j.current
unfolding after_settle block_mutations
current-after_settle j r result stored = ground arith

pub settle-cases :
    (j : Journal) (result : CommandResult) (stored : Bool)
    → ((settle j result stored).0 ≡ j)
      ⊎ ((q : CommandRecord) × (Assoc.get j.current result.command_id ≡ some q)
          × (q.result ≡ none)
          × ((settle j result stored).0.current
              ≡ Assoc.put j.current result.command_id (settled q result)))
unfolding settle
settle-cases j result stored = elim (Option-cases (Assoc.get j.current result.command_id)) [
  | inl e ↦ inl (ground arith)
  | inr (q, e) ↦ elim (Option-cases q.result) [
    | inl f ↦ inr (
      q,
      e,
      f,
      ground (
        arith,
        current-after_settle
            (record j { current = Assoc.put j.current result.command_id (settled q result) })
            (settled q result) result stored,
      ),
    )
    | inr (old, f) ↦ inl (ground arith)
  ]
]

pub current-admission : (j : Journal) (op : String) → (admission j op).0.current ≡ j.current
unfolding admission
current-admission j op = ground arith

pub prepare-cases :
    (j : Journal) (s : Submission) (now : ℕ)
    → ((prepare j s now).0.current ≡ j.current)
      ⊎ ((Assoc.get j.current s.command.command_id ≡ none)
          × ((prepare j s now).0.current ≡ Assoc.put j.current s.command.command_id (fresh s now)))
unfolding prepare
prepare-cases j s now = ground (arith, current-admission j s.operation_id)

pub current-block_mutations :
    (j : Journal) (op : String) → (block_mutations j op).current ≡ j.current
unfolding block_mutations
current-block_mutations j op = ground arith

pub current-plan : (j : Journal) (s : PlanningSnapshot) → (plan j s).0.current ≡ j.current
unfolding plan
current-plan j s = ground arith
