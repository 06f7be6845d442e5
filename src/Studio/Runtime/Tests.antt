-- ===== src/Studio/Runtime/Tests.antt =====
-- Runs of studio-session.ts on a batch of one chair.
use livi_agent.Prelude.{◌≡◌, refl, true, false, none, some, [], ◌∷◌}
use livi_agent.Prelude.Assoc
use livi_agent.Studio.Contract.{
  Snapshot, Binding, CommandEdit, CommandAction, Action, CommandResult, Outcome,
}
use livi_agent.Studio.Journal
use livi_agent.Studio.Journal.{
  Journal, PlanningSnapshot, CommandRecord, Submission, Result, prepared, outcome_unknown,
  CommandState, mutation_blocked, err, Admission,
}
use livi_agent.Studio.Journal.Calls.{run, binds, dispatches, step}
use livi_agent.Studio.Journal.Lifecycle.{Settled}
use livi_agent.Studio.Runtime.{World, raised, execute, returned}
use livi_agent.Studio.Runtime.Context.{TurnIdentity, Invocation, Meanwhile, fetched, context}
use livi_agent.Studio.Runtime.Evidence.{IsEvidence, context-IsEvidence}
use livi_agent.Studio.Runtime.Sent.{execute_once}
use livi_agent.Studio.Runtime.Recorded.{Answers, CanSend, execute_recorded, execute_failure_blocks}

abbrev room : Binding
room = record { design_id = "design"; tab_id = "tab" }

abbrev chair : CommandEdit
chair = record {
  object_id = none;
  action = Action.add "chair" 1 none;
  reverses_command_id = none;
  reverses_edit_index = none;
}

abbrev one_chair : Submission
one_chair = record {
  command = record {
    command_id = "c1";
    conversation_id = "talk";
    binding = room;
    expected_revision = "r1";
    action = CommandAction.batch (chair ∷ []);
  };
  operation_id = "op";
  turn_id = "turn";
  invocation_id = "call";
  observed_before = none;
}

abbrev waiting : CommandRecord
waiting = record { submission = one_chair; state = prepared; result = none; created_at = 5 }

abbrev journal : Journal
journal = record {
  session = record { binding = some (some room); admissions = []; commands = [] };
  admissions = [];
  plans = [];
  current = ("c1", waiting) ∷ [];
  blocked = [];
}

abbrev lost : World
lost = record {
  has_broker = true;
  aborted = false;
  between = [];
  answer = raised "timeout";
  stored = true;
}

waiting-CanSend : CanSend journal waiting lost
unfolding Assoc.get
waiting-CanSend = record {
  current = refl;
  prepared = refl;
  no_result = refl;
  has_broker = refl;
  not_aborted = refl;
  alone = refl;
}

abbrev unanswered : CommandResult
unanswered = record { command_id = "c1"; outcome = Outcome.unknown "timeout" }

execute_recorded_example :
    (state : CommandState) × ((execute journal waiting lost).outcome
      ≡ returned (record waiting { state = state; result = some unanswered }))
    × Settled (Outcome.unknown "timeout") state
execute_recorded_example =
    execute_recorded journal waiting lost unanswered waiting-CanSend (Answers.lost "timeout") refl

execute_failure_blocks_example :
    Journal.prepare (run (execute journal waiting lost).journal (binds none true ∷ [])) one_chair 6
    ≡ (run (execute journal waiting lost).journal (binds none true ∷ []), err mutation_blocked)
execute_failure_blocks_example =
    execute_failure_blocks journal waiting lost "timeout" (binds none true ∷ []) one_chair 6
      waiting-CanSend refl refl (tt, tt) refl

abbrev after : CommandRecord
after = record waiting {
  state = outcome_unknown;
  result = some (record { command_id = "c1"; outcome = Outcome.unknown "timeout" });
}

execute_once_example :
    (execute
      (run (execute journal waiting lost).journal (dispatches "c1" true ∷ []))
      after
      lost).sent
    ≡ none
unfolding execute run step Assoc.get Assoc.put Journal.dispatch Journal.settle
execute_once_example =
    execute_once journal waiting after lost lost waiting.command (dispatches "c1" true ∷ []) tt
      (refl, tt) refl refl

-- A caller that still holds the prepared record sends the command a second time.
stale_sends_again :
    (execute (execute journal waiting lost).journal waiting lost).sent ≡ some waiting.command
unfolding execute run Assoc.get Assoc.put Journal.dispatch Journal.settle
stale_sends_again = refl

abbrev empty_room : Snapshot
empty_room = record {
  design_id = "design";
  revision = "r1";
  geometry = record { height = 3; floor = [] };
  openings = [];
  objects = [];
  selected_object_ids = [];
  budget = none;
}

abbrev admitted : Journal
admitted = record journal {
  admissions =
      ("op", record { original_query = some "a chair"; value = some room; action = none }) ∷ [];
}

abbrev tools_turn : TurnIdentity
tools_turn = record { in_tools = true; operation_id = "op"; turn_id = "turn" }

abbrev tool_call : Invocation
tool_call = record { operation_id = "op"; turn_id = "turn" }

abbrev answering : Meanwhile
answering = record {
  aborted = false;
  has_broker = true;
  between = dispatches "c1" false ∷ [];
  answer = fetched empty_room;
  aborted_then = none;
}

abbrev evidence_of_room : PlanningSnapshot
evidence_of_room = record {
  original_query = some "a chair";
  operation_id = "op";
  turn_id = "turn";
  binding = some room;
  snapshot = some empty_room;
  unavailable = none;
  action = none;
}

abbrev admission_of_room : Admission
admission_of_room = record { original_query = some "a chair"; value = some room; action = none }

context-IsEvidence_example :
    IsEvidence
      (some admission_of_room)
      admitted
      (context admitted none (some tools_turn) (some tool_call) answering).journal
      evidence_of_room
unfolding context Journal.admission Journal.binding Journal.dispatch run step Assoc.get Assoc.put
context-IsEvidence_example =
    context-IsEvidence admitted none tools_turn tool_call answering evidence_of_room refl
