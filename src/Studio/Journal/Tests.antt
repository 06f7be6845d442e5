-- ===== src/Studio/Journal/Tests.antt =====
-- Runs of the journal of studio-journal.ts on small data.
use livi_agent.Prelude.{◌≡◌, ◌≢◌, ◌≤◌, refl, true, false, none, some, List, [], ◌∷◌, arith}
use livi_agent.Prelude.Assoc.{get, put}
use livi_agent.Prelude.Assoc.Total.{total}
use livi_agent.Studio.Contract.{
  Binding, Command, CommandEdit, CommandAction, Action, CommandResult, Outcome, add_asset,
}
use livi_agent.Studio.Journal.{
  Journal, Submission, CommandRecord, prepared, prepare, dispatch, settle, outcome_unknown, ok, err,
  mutation_blocked, add, admission, admitted_type, prepare_admitted, enter,
}
use livi_agent.Studio.Journal.Calls.{Call, prepares, dispatches, settles, cancels, run, step}
use livi_agent.Studio.Journal.Lifecycle.{dispatch_once, run-Coherent, Coherent}
use livi_agent.Studio.Journal.Blocked.{unknown_batch_blocks}
use livi_agent.Studio.Journal.Seen.{seen}
use livi_agent.Studio.Journal.Submitted.{live_edits}
use livi_agent.Studio.Journal.Admitted.{admitted_add_once}

abbrev room : Binding
room = record { design_id = "design"; tab_id = "tab" }

abbrev edits : List CommandEdit
edits =
    record {
      object_id = none;
      action = Action.add "chair" 1 none;
      reverses_command_id = none;
      reverses_edit_index = none;
    }
    ∷ []

abbrev chairs : Command
chairs = record {
  command_id = "c1";
  conversation_id = "talk";
  binding = room;
  expected_revision = "r1";
  action = CommandAction.batch edits;
}

abbrev more_chairs : Command
more_chairs = record chairs { command_id = "c2" }

abbrev submits_of : Command → Submission
submits_of c = record {
  command = c;
  operation_id = "op";
  turn_id = "turn";
  invocation_id = "call";
  observed_before = none;
}

abbrev chairs_record : CommandRecord
chairs_record = record {
  submission = submits_of chairs;
  state = prepared;
  result = none;
  created_at = 7;
}

abbrev sent_record : CommandRecord
sent_record = record chairs_record { state = outcome_unknown }

abbrev empty_journal : Journal
empty_journal = record {
  session = record { binding = none; admissions = []; commands = [] };
  admissions = [];
  plans = [];
  current = [];
  blocked = [];
}

abbrev prepared_journal : Journal
prepared_journal = record empty_journal { current = ("c1", chairs_record) ∷ [] }

abbrev sent_journal : Journal
sent_journal = record empty_journal { current = ("c1", sent_record) ∷ [] }

abbrev lost : CommandResult
lost = record { command_id = "c1"; outcome = Outcome.unknown "timeout" }

abbrev admitted_journal : Journal
admitted_journal = record empty_journal {
  admissions =
      (
        "op",
        record { original_query = none; value = some room; action = some (add_asset "chair" 1) },
      )
      ∷ [];
}

dispatch_once_example :
    (sent_record.state ≢ prepared)
    × (dispatch sent_journal "c1" true ≡ (sent_journal, ok sent_record))
unfolding dispatch get put
dispatch_once_example = dispatch_once prepared_journal sent_journal "c1" false true sent_record refl

abbrev life : List Call
life =
    prepares (submits_of chairs) 7
    ∷ dispatches "c1" false
    ∷ settles lost true
    ∷ prepares (submits_of more_chairs) 8
    ∷ cancels "op"
    ∷ []

run-Coherent_example : Coherent (run empty_journal life)
run-Coherent_example = run-Coherent empty_journal life tt

unknown_batch_blocks_example :
    prepare (run (settle sent_journal lost true).0 (cancels "op" ∷ [])) (submits_of more_chairs) 9
    ≡ (run (settle sent_journal lost true).0 (cancels "op" ∷ []), err mutation_blocked)
unfolding get
unknown_batch_blocks_example =
    unknown_batch_blocks sent_journal lost true sent_record "timeout" (cancels "op" ∷ [])
      (submits_of more_chairs) 9 refl refl refl refl (tt, tt) refl

abbrev two_adds : List Call
two_adds =
    prepares (submits_of chairs) 7
    ∷ dispatches "c1" false
    ∷ prepares (submits_of more_chairs) 8
    ∷ []

admitted_add_once_example : live_edits add "op" (run admitted_journal two_adds).current ≤ 1
unfolding live_edits total get seen admission admitted_type step prepare dispatch prepare_admitted
    enter
admitted_add_once_example =
    admitted_add_once admitted_journal two_adds "op" (tt, (tt, (tt, tt))) tt refl (omega arith)
