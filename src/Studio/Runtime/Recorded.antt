-- ===== src/Studio/Runtime/Recorded.antt =====
-- What an execution of studio-session.ts records of the broker's answer.
use livi_agent.Prelude.{
  ℕ, String, true, false, ◌≡◌, refl, sym, ap, ◌∙◌, subst, none, some, List, [], string_eq, All,
  arith, beq_refl,
}
use livi_agent.Prelude.Assoc
use livi_agent.Prelude.Assoc.{get-put}
use livi_agent.Studio.Contract.{Command, CommandResult, Outcome}
use livi_agent.Studio.Journal
use livi_agent.Studio.Journal.{
  Journal, CommandRecord, CommandState, Submission, Result, prepared, outcome_unknown, ok, err,
  is_prepared, settled_state, is_batch, mutation_blocked,
}
use livi_agent.Studio.Journal.Calls.{Call, run}
use livi_agent.Studio.Journal.Lifecycle.{Settled, settled_state-Settled}
use livi_agent.Studio.Journal.Spent.{dispatch_first, settle_first, prepared_true}
use livi_agent.Studio.Journal.Blocked.{Keeps, unknown_batch_blocks}
use livi_agent.Studio.Runtime.{
  World, Answer, answered, Executed, returned, raised, result_of, execute, send, finish,
  is_cancelled, of_result,
}
use livi_agent.Studio.Runtime.Sent.{execute-send}

-- The record as it was sent, and the journal that has it.
abbrev pub sent_record : CommandRecord → CommandRecord
sent_record r = record r { state = outcome_unknown }

abbrev pub sent_journal : Journal → CommandRecord → Journal
sent_journal j r = record j { current = Assoc.put j.current r.command.command_id (sent_record r) }

-- A current command is prepared, and the world lets it be sent while nothing else happens.
pub record CanSend (j : Journal) (r : CommandRecord) (w : World) : Type 0 where
  pub current : Assoc.get j.current r.command.command_id ≡ some r
  pub prepared : r.state ≡ prepared
  pub no_result : r.result ≡ none
  pub has_broker : w.has_broker ≡ true
  pub not_aborted : w.aborted ≡ false
  pub alone : w.between ≡ []

sent_current :
    (j : Journal) (r : CommandRecord)
    → Assoc.get (sent_journal j r).current r.command.command_id ≡ some (sent_record r)
sent_current j r = ground (
  arith,
  get-put j.current r.command.command_id r.command.command_id (sent_record r),
  beq_refl r.command.command_id,
)

execute-finish :
    (j : Journal) (r : CommandRecord) (w : World)
    → CanSend j r w
    → execute j r w ≡ finish (sent_journal j r) (sent_record r) w
unfolding send is_cancelled
execute-finish j r w h =
    execute-send j r w (prepared_true r.state h.prepared) h.has_broker
    ∙ ap (λ d. send d w)
        (ap (Journal.dispatch j r.command.command_id) h.not_aborted
          ∙ dispatch_first j r.command.command_id r h.current h.prepared)

finish_alone :
    (j : Journal) (q : CommandRecord) (w : World)
    → w.between ≡ []
    → (finish j q w).outcome
      ≡ of_result (Journal.settle j (result_of q.command w.answer) w.stored).1
unfolding finish run
finish_alone j q w h =
    ap (λ cs. of_result (Journal.settle (run j cs) (result_of q.command w.answer) w.stored).1) h

finish_journal :
    (j : Journal) (q : CommandRecord) (w : World)
    → w.between ≡ []
    → (finish j q w).journal ≡ (Journal.settle j (result_of q.command w.answer) w.stored).0
unfolding finish run
finish_journal j q w h =
    ap (λ cs. (Journal.settle (run j cs) (result_of q.command w.answer) w.stored).0) h

-- The result that the broker's answer means: its own, or an unknown outcome where it failed.
pub data Answers (c : Command) : Answer → CommandResult → Type 0 where
  arrived : (r : CommandResult) → Answers c (answered r) r
  lost :
      (m : String)
      → Answers c (raised m) (record { command_id = c.command_id; outcome = Outcome.unknown m })

result_of-Answers :
    (c : Command) (a : Answer) (res : CommandResult) → Answers c a res → result_of c a ≡ res
unfolding result_of
result_of-Answers c a res (arrived r) = refl
result_of-Answers c a res (lost m) = refl

-- The execution of a current prepared command returns its record with the broker's result, or with a
-- result of unknown outcome and the failure's message where the broker failed, and with the state that
-- belongs to the result's outcome: committed for a saved one, rejected for a rejected one, unknown for
-- an unknown one. This is so when there is a broker, the signal is not aborted, nothing else is called
-- meanwhile, the command has no result, and the result is of the command's id.
pub execute_recorded :
    (j : Journal) (r : CommandRecord) (w : World) (res : CommandResult)
    → CanSend j r w
    → Answers r.command w.answer res
    → res.command_id ≡ r.command.command_id
    → (state : CommandState) × ((execute j r w).outcome
        ≡ returned (record r { state = state; result = some res }))
      × Settled res.outcome state
unfolding of_result
execute_recorded j r w res h answers about = (
  settled_state res.outcome,
  ap (λ (e : Executed). e.outcome) (execute-finish j r w h)
      ∙ finish_alone (sent_journal j r) (sent_record r) w h.alone
      ∙ ap (λ x. of_result (Journal.settle (sent_journal j r) x w.stored).1)
          (result_of-Answers r.command w.answer res answers)
      ∙ ap of_result (
          settle_first (sent_journal j r) res w.stored (sent_record r)
            (ap (Assoc.get (sent_journal j r).current) about ∙ sent_current j r) h.no_result),
  settled_state-Settled res.outcome,
)

-- A batch whose execution fails in the broker blocks its operation: as long as no call discards the
-- operation, it prepares no further command, when the batch was current, prepared and without a result,
-- there is a broker, the signal is not aborted and nothing else is called meanwhile.
pub execute_failure_blocks :
    (j : Journal) (r : CommandRecord) (w : World) (message : String) (cs : List Call)
    (s : Submission) (now : ℕ)
    → CanSend j r w
    → w.answer ≡ raised message
    → is_batch r.command ≡ true
    → All (Keeps r.operation_id) cs
    → s.operation_id ≡ r.operation_id
    → Journal.prepare (run (execute j r w).journal cs) s now
      ≡ (run (execute j r w).journal cs, err mutation_blocked)
unfolding result_of
execute_failure_blocks j r w message cs s now h failed batch keeps same =
    let res : CommandResult = record {
      command_id = r.command.command_id;
      outcome = Outcome.unknown message;
    } in
    let settled = (Journal.settle (sent_journal j r) res w.stored).0 in
    let left : (execute j r w).journal ≡ settled =
      ap (λ (e : Executed). e.journal) (execute-finish j r w h)
      ∙ finish_journal (sent_journal j r) (sent_record r) w h.alone
      ∙ ap (λ a. (Journal.settle (sent_journal j r) (result_of r.command a) w.stored).0) failed in
    subst (λ k. Journal.prepare (run k cs) s now ≡ (run k cs, err mutation_blocked)) (sym left)
      (unknown_batch_blocks (sent_journal j r) res w.stored (sent_record r) message cs s now
        (sent_current j r) h.no_result batch refl keeps same)
