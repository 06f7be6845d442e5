-- ===== src/Studio/Broker/Tests.antt =====
-- Runs of the broker of studio-broker.ts on small data.
use livi_agent.Prelude.{◌+◌, ◌≤◌, ◌≡◌, refl, true, false, none, some, List, [], ◌∷◌}
use livi_agent.Prelude.Assoc.{get}
use livi_agent.Studio.Contract.{
  Binding, Registration, Snapshot, Command, CommandAction, Action, CommandResult, EditResult, Field,
  Outcome, RequestPayload, Response, ResponsePayload, Phase, Saved, Transform, Vector3,
}
use livi_agent.Studio.Broker.{Broker, Connection, Pending, ok, new_broker, nth, attached}
use livi_agent.Studio.Broker.Connections.{authorize, is_current, valid_snapshot}
use livi_agent.Studio.Broker.Requests.{close, finish}
use livi_agent.Studio.Broker.Replies.{
  respond, deliver, result_error, saved_fits, all_fit, fits, accept_result, accept, created, edited,
}
use livi_agent.Studio.Broker.Calls.{
  Call, attaches, registers, readies, begins, responds, stops, run,
}
use livi_agent.Studio.Broker.Answers.{ledger, begun, run-ledger, waiting, answers, close-answers}
use livi_agent.Studio.Broker.Saves.{IsSave, respond-saved}

abbrev room : Binding
room = record { design_id = "design"; tab_id = "tab" }

abbrev here : Registration
here = record { binding = room; label = "Studio"; contract_version = 1 }

abbrev remove_chair : Command
remove_chair = record {
  command_id = "c1";
  conversation_id = "talk";
  binding = room;
  expected_revision = "r1";
  action = CommandAction.batch (
      record {
        object_id = some "chair";
        action = Action.remove;
        reverses_command_id = none;
        reverses_edit_index = none;
      }
      ∷ []);
}

abbrev after_remove : Snapshot
after_remove = record {
  design_id = "design";
  revision = "r2";
  geometry = record { floor = []; height = 0 };
  openings = [];
  objects = [];
  selected_object_ids = [];
  budget = none;
}

abbrev origin : Vector3
origin = record { x = 0; y = 0; z = 0 }

abbrev place : Transform
place = record { position = origin; rotation = origin; scale = origin }

abbrev removed : CommandResult
removed = record {
  command_id = "c1";
  outcome =
      Outcome.saved
        (Saved.batch (Field.present (EditResult.edit (Field.present place) Field.null ∷ []))) "r2"
        after_remove;
}

abbrev saved_reply : Response
saved_reply = record {
  request_id = "q1";
  generation = "g1";
  payload = ResponsePayload.result removed none;
}

abbrev connect : List Call
connect =
    attaches
    ∷ registers 0 here "g1"
    ∷ readies 0 "g1"
    ∷ begins room (RequestPayload.execute remove_chair) false "q1"
    ∷ []

abbrev reply_twice : List Call
reply_twice = responds 0 saved_reply ∷ stops "q1" ∷ responds 0 saved_reply ∷ []

run-ledger_example :
    ledger "q1" (run (run new_broker connect) reply_twice)
    ≤ ledger "q1" (run new_broker connect) + begun "q1" reply_twice
run-ledger_example = run-ledger "q1" (run new_broker connect) reply_twice

close-answers_example :
    (waiting "q1" (close (run new_broker connect)).pending ≡ 0)
    × (answers "q1" (close (run new_broker connect)).settled
        ≡ answers "q1" (run new_broker connect).settled
          + waiting "q1" (run new_broker connect).pending)
close-answers_example = close-answers "q1" (run new_broker connect)

abbrev sent : Pending
sent = record {
  attachment = 0;
  request = record {
    request_id = "q1";
    generation = "g1";
    binding = room;
    payload = RequestPayload.execute remove_chair;
  };
}

-- A registered Studio with one request in its mailbox.
abbrev waiting_broker : Broker
waiting_broker = record {
  attachments =
      record {
        mailbox = sent.request ∷ [];
        connection = some (record {
          binding = room;
          label = "Studio";
          generation = "g1";
          sequence = none;
          phase = Phase.ready;
          snapshot = none;
          subscribed = true;
        });
        released = false;
      }
      ∷ [];
  connections = ("tab", 0) ∷ [];
  pending = ("q1", sent) ∷ [];
  settled = [];
  directory = [];
  closed = false;
}

respond-saved_example :
    (sent.attachment ≡ 0)
    × IsSave remove_chair removed
        (record {
          object_id = some "chair";
          action = Action.remove;
          reverses_command_id = none;
          reverses_edit_index = none;
        }
          ∷ [])
        (EditResult.edit (Field.present place) Field.null ∷ [])
        "r2"
        after_remove
    × ((c : Connection) × (authorize waiting_broker 0 "g1" ≡ ok c)
        × (after_remove.design_id ≡ c.binding.design_id))
unfolding respond authorize attached nth deliver result_error saved_fits all_fit fits accept_result
    accept get is_current valid_snapshot created edited finish
respond-saved_example =
    respond-saved waiting_broker 0 saved_reply sent remove_chair removed none _ _ "r2" after_remove
      refl refl refl refl refl refl
