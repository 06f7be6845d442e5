-- ===== src/Studio/Journal/Submitted.antt =====
-- The edits of an admitted type that an operation of studio-journal.ts has submitted.
use livi_agent.Prelude.{
  ℕ, ◌≤◌, String, ◌≡◌, ◌≢◌, refl, Bool, false, not, ◌&&◌, none, some, List, [], ◌∷◌, arith,
  string_eq, ◌==◌, any, keep_if, length, if◌then◌else◌, ◌⊎◌,
}
use livi_agent.Prelude.Assoc
use livi_agent.Prelude.Assoc.{
  Assoc, get-put, get-put_ne, get-remove_ne, put, drop_where, update_all, values,
}
use livi_agent.Prelude.Assoc.Total.{total, total-put_new}
use livi_agent.Studio.Contract.{CommandResult, CommandEdit}
use livi_agent.Studio.Journal.{
  Journal, CommandRecord, Submission, AdmittedType, add, prepared, outcome_unknown, admission_check,
  enter, count_edits, submits, is_over, has_type, edits_of, cancel_record,
}
use livi_agent.Studio.Journal.Cases.{dispatched, settled, fresh}

-- The edits of the type that a record submits for the operation: none once it is rejected or
-- cancelled.
unfoldable pub live_edits_of : AdmittedType → String → CommandRecord → ℕ
live_edits_of t op r =
    if (r.operation_id == op) && not (is_over r.state) then count_edits t r.command else 0

-- The edits of the type that the operation has submitted in all.
unfoldable pub live_edits : AdmittedType → String → Assoc String CommandRecord → ℕ
live_edits t op = total (live_edits_of t op)

module _ (t : AdmittedType) (op : String) where
  pub none_of_type :
      (es : List CommandEdit) → any (has_type t) es ≡ false → length (keep_if (has_type t) es) ≡ 0
  none_of_type [] h = refl
  none_of_type (e ∷ es) h = ground (arith, none_of_type es)

  pub not-submits : (r : CommandRecord) → submits t op r ≡ false → live_edits_of t op r ≡ 0
  unfolding submits live_edits_of count_edits
  not-submits r h = ground (arith, none_of_type (edits_of r.command))

  pub none-submits :
      (m : Assoc String CommandRecord)
      → any (submits t op) (values m) ≡ false
      → total (live_edits_of t op) m ≡ 0
  none-submits [] h = refl
  none-submits ((id, r) ∷ m) h = ground (arith, not-submits r, none-submits m)

  pub live_edits_of-fresh :
      (s : Submission) (now : ℕ) → live_edits_of t op (fresh s now) ≤ count_edits t s.command
  unfolding live_edits_of is_over
  live_edits_of-fresh s now = ground arith

  pub live_edits_of-other :
      (s : Submission) (now : ℕ) → s.operation_id ≢ op → live_edits_of t op (fresh s now) ≡ 0
  unfolding live_edits_of
  live_edits_of-other s now h = ground (arith, string_eq.beq_iff s.operation_id op)

  pub live_edits_of-dispatched :
      (q : CommandRecord) (aborted : Bool)
      → q.state ≡ prepared
      → live_edits_of t op (dispatched q aborted) ≤ live_edits_of t op q
  unfolding live_edits_of is_over
  live_edits_of-dispatched q aborted h = ground arith

  pub live_edits_of-settled :
      (q : CommandRecord) (r : CommandResult)
      → (q.state ≡ prepared) ⊎ (q.state ≡ outcome_unknown)
      → live_edits_of t op (settled q r) ≤ live_edits_of t op q
  unfolding live_edits_of is_over
  live_edits_of-settled q r h = ground arith

  pub live_edits_of-cancel :
      (o : String) (q : CommandRecord)
      → live_edits_of t op (cancel_record o q) ≤ live_edits_of t op q
  unfolding live_edits_of is_over cancel_record
  live_edits_of-cancel o q = ground arith

-- The tests of `prepare` let a second add of the operation through in no case.
pub enter_add-bound :
    (j : Journal) (s : Submission) (now : ℕ)
    → Assoc.get j.current s.command.command_id ≡ none
    → live_edits add s.operation_id j.current ≤ 1
    → live_edits add s.operation_id (enter j s now (admission_check j s (some add))).0.current ≤ 1
unfolding enter admission_check live_edits
enter_add-bound j s now h le = ground (
  arith,
  none-submits add s.operation_id j.current,
  live_edits_of-fresh add s.operation_id s now,
  total-put_new (live_edits_of add s.operation_id) j.current s.command.command_id (fresh s now) h,
)
