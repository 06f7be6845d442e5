-- ===== src/Studio/Runtime/Sent.antt =====
-- What studio-session.ts hands to the broker, and what it records of the answer.
use livi_agent.Prelude.{
  String, true, false, ◌≡◌, ◌≢◌, refl, sym, ap, ◌∙◌, subst, none, some, List, string_eq, All, arith,
  Bool-cases, inl, inr,
}
use livi_agent.Prelude.Assoc
use livi_agent.Prelude.Assoc.{get-put}
use livi_agent.Studio.Contract.{Command}
use livi_agent.Studio.Journal
use livi_agent.Studio.Journal.{
  Journal, CommandRecord, CommandState, Submission, Result, prepared, outcome_unknown,
  cancelled_before_send, ok, err, is_prepared, settled_state, is_batch, mutation_blocked,
}
use livi_agent.Studio.Journal.Calls.{Call, run}
use livi_agent.Studio.Journal.Spent.{
  IsSpent, prepared_false, is_discard, run-IsSpent, settle-IsSpent, dispatch_ok-IsSpent,
}
use livi_agent.Studio.Runtime.{World, Executed, result_of, execute, send, finish, is_cancelled}

-- A record that is not prepared is returned as it is.
execute-spent :
    (j : Journal) (r : CommandRecord) (w : World) → r.state ≢ prepared → (execute j r w).sent ≡ none
unfolding execute
execute-spent j r w h = rw (execute, prepared_false r.state h) refl

-- What was sent had been dispatched.
send-IsSpent :
    (j k : Journal) (id : String) (d : Result CommandRecord) (w : World) (c : Command)
    → Journal.dispatch j id w.aborted ≡ (k, d)
    → All (λ x. is_discard x ≡ false) w.between
    → (send (k, d) w).sent ≡ some c
    → IsSpent id (send (k, d) w).journal
unfolding send finish
send-IsSpent j k id (err f) w c h keeps is = absurd (ground (arith, is))
send-IsSpent j k id (ok r) w c h keeps is = elim (Bool-cases (is_cancelled r.state)) [
  | inl cancelled ↦ absurd (ground (arith, is, cancelled))
  | inr going ↦
      rw (send, going)
        (settle-IsSpent (run k w.between) id (result_of r.command w.answer) w.stored
          (run-IsSpent k w.between id keeps (dispatch_ok-IsSpent j k id w.aborted r h)))
]

-- Where a prepared record meets a broker, it is dispatched and sent.
pub execute-send :
    (j : Journal) (r : CommandRecord) (w : World)
    → is_prepared r.state ≡ true
    → w.has_broker ≡ true
    → execute j r w ≡ send (Journal.dispatch j r.command.command_id w.aborted) w
unfolding execute
execute-send j r w can here = ground (arith, can, here)

execute_spends :
    (j : Journal) (r : CommandRecord) (w : World) (c : Command)
    → All (λ x. is_discard x ≡ false) w.between
    → (execute j r w).sent ≡ some c
    → IsSpent r.command.command_id (execute j r w).journal
unfolding execute
execute_spends j r w c keeps is = elim (Bool-cases (is_prepared r.state)) [
  | inr spent ↦ absurd (ground (arith, is, spent))
  | inl can ↦ elim (Bool-cases w.has_broker) [
    | inr no_broker ↦ absurd (ground (arith, is, can, no_broker))
    | inl here ↦
        let d = Journal.dispatch j r.command.command_id w.aborted in
        let same = execute-send j r w can here in
        subst (λ e. IsSpent r.command.command_id e.journal) (sym same)
          (send-IsSpent j d.0 r.command.command_id d.1 w c refl keeps
            (sym (ap (λ (e : Executed). e.sent) same) ∙ is))
  ]
]

-- A command that was handed to the broker is not handed to it again: whatever calls that discard no
-- operation come while it waits and after it, an execution of the current record of the command sends
-- nothing.
pub execute_once :
    (j : Journal) (r again : CommandRecord) (w v : World) (c : Command) (cs : List Call)
    → All (λ x. is_discard x ≡ false) w.between
    → All (λ x. is_discard x ≡ false) cs
    → (execute j r w).sent ≡ some c
    → Assoc.get (run (execute j r w).journal cs).current r.command.command_id ≡ some again
    → (execute (run (execute j r w).journal cs) again v).sent ≡ none
execute_once j r again w v c cs keeps kept is found =
    let (x, there, spent) =
      run-IsSpent (execute j r w).journal cs r.command.command_id kept
        (execute_spends j r w c keeps is) in
    execute-spent (run (execute j r w).journal cs) again v (ground (arith, found, there, spent))
