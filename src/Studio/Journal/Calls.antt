-- ===== src/Studio/Journal/Calls.antt =====
-- The calls that the agent makes on the journal of studio-journal.ts, as a step function.
use livi_agent.Prelude.{ℕ, String, Bool, Option, List, [], ◌∷◌}
use livi_agent.Studio.Contract.{Binding, PromptAction, CommandResult}
use livi_agent.Studio.Journal.{
  Journal, PlanningSnapshot, Submission, set_binding, block_mutations, admit, discard_admission,
  admission, plan, prepare, dispatch, settle, cancel_prepared,
}

pub data Call : Type 0 where
  binds : Option Binding → Bool → Call
  blocks : String → Call
  admits : String → Option PromptAction → Option String → Bool → Call
  discards : String → Bool → Call
  reads_admission : String → Call
  plans : PlanningSnapshot → Call
  prepares : Submission → ℕ → Call
  dispatches : String → Bool → Call
  settles : CommandResult → Bool → Call
  cancels : String → Call

unfoldable pub step : Journal → Call → Journal
step j (binds b stored) = (set_binding j b stored).0
step j (blocks op) = block_mutations j op
step j (admits op a q stored) = (admit j op a q stored).0
step j (discards op stored) = discard_admission j op stored
step j (reads_admission op) = (admission j op).0
step j (plans s) = (plan j s).0
step j (prepares s now) = (prepare j s now).0
step j (dispatches id aborted) = (dispatch j id aborted).0
step j (settles r stored) = (settle j r stored).0
step j (cancels op) = cancel_prepared j op

unfoldable pub run : Journal → List Call → Journal
run j [] = j
run j (c ∷ cs) = run (step j c) cs
