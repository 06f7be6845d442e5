-- ===== src/Studio/Runtime.antt =====
-- packages/decorator-agent/src/studio-session.ts: the session that drives the journal and the broker.
-- What happens while the broker is waited for is a list of calls on the journal.
pub mod Sent
pub mod Recorded
pub mod Context
pub mod Evidence
mod Tests
use livi_agent.Prelude.{
  ℕ, String, Bool, true, false, not, ◌&&◌, Option, none, some, List, [], ◌∷◌, if◌then◌else◌, ◌==◌,
  string_eq, is_some,
}
use livi_agent.Studio.Contract.{Binding, Phase, ready, offline, Command, CommandResult, Outcome}
use livi_agent.Studio.Journal
use livi_agent.Studio.Journal.{
  Journal, CommandRecord, CommandState, Submission, Failure, Result, ok, err, is_prepared,
  cancelled_before_send,
}
use livi_agent.Studio.Journal.Calls.{Call, run}

pub data SessionError : Type 0 where
  closed : SessionError
  unavailable : SessionError
  wrong_binding : SessionError
  failed : Failure → SessionError

pub data Reply (A : Type 0) : Type 0 where
  returned : A → Reply A
  thrown : SessionError → Reply A

unfoldable pub of_result : {A : Type 0} → Result A → Reply A
of_result (ok a) = returned a
of_result (err f) = thrown (failed f)

unfoldable pub same_binding : Option Binding → Option Binding → Bool
same_binding none none = true
same_binding none (some r) = false
same_binding (some l) none = false
same_binding (some l) (some r) = (l.design_id == r.design_id) && (l.tab_id == r.tab_id)

-- What a call of the session leaves and gives.
pub record Ended (A : Type 0) : Type 0 where
  pub journal : Journal
  pub outcome : Reply A

-- `bind`; `shut` is `shutdown.signal.aborted`.
unfoldable pub bind : Journal → Bool → Bool → Option Binding → Bool → Ended (Unit {0})
unfolding of_result
bind j shut has_broker b stored =
    let (k, r) = Journal.set_binding j b stored in
    if shut
    then record { journal = j; outcome = thrown closed }
    else if not has_broker && is_some b
    then record { journal = j; outcome = thrown unavailable }
    else record { journal = k; outcome = of_result r }

abbrev is_ready : Option Phase → Bool
is_ready none = false
is_ready (some offline) = false
is_ready (some ready) = true

-- `prepare`; `phase` is that of the broker's state, `none` where there is no broker.
unfoldable pub prepare : Journal → Bool → Option Phase → Submission → ℕ → Ended CommandRecord
unfolding of_result same_binding
prepare j shut phase s now =
    let (k, r) = Journal.prepare j s now in
    if shut
    then record { journal = j; outcome = thrown closed }
    else if not (same_binding (Journal.binding j) (some s.command.binding))
    then record { journal = j; outcome = thrown wrong_binding }
    else if not (is_ready phase)
    then record { journal = j; outcome = thrown unavailable }
    else record { journal = k; outcome = of_result r }

-- How `broker.execute` ends.
pub data Answer : Type 0 where
  answered : CommandResult → Answer
  raised : String → Answer

-- An error of the broker leaves the outcome unknown.
unfoldable pub result_of : Command → Answer → CommandResult
result_of c (answered r) = r
result_of c (raised m) = record { command_id = c.command_id; outcome = Outcome.unknown m }

-- What the calls on the world are while a command is executed: the signal when it is dispatched, the
-- calls on the journal and the broker's answer while it is waited for, and whether the result is stored.
pub record World : Type 0 where
  pub has_broker : Bool
  pub aborted : Bool
  pub between : List Call
  pub answer : Answer
  pub stored : Bool

-- The command that was handed to the broker, if one was.
pub record Executed : Type 0 where
  pub journal : Journal
  pub outcome : Reply CommandRecord
  pub sent : Option Command

unfoldable pub is_cancelled : CommandState → Bool
is_cancelled cancelled_before_send = true
is_cancelled _ = false

-- `execute` behind the broker's answer.
unfoldable pub finish : Journal → CommandRecord → World → Executed
unfolding result_of of_result
finish j r w =
    let (k, settled) = Journal.settle (run j w.between) (result_of r.command w.answer) w.stored in
    record { journal = k; outcome = of_result settled; sent = some r.command }

unfoldable pub send : Journal × Result CommandRecord → World → Executed
unfolding is_cancelled finish
send (j, err f) w = record { journal = j; outcome = thrown (failed f); sent = none }
send (j, ok r) w =
    if is_cancelled r.state
    then record { journal = j; outcome = returned r; sent = none }
    else finish j r w

unfoldable pub execute : Journal → CommandRecord → World → Executed
unfolding send
execute j r w =
    if not (is_prepared r.state)
    then record { journal = j; outcome = returned r; sent = none }
    else if not w.has_broker
    then record { journal = j; outcome = thrown unavailable; sent = none }
    else send (Journal.dispatch j r.command.command_id w.aborted) w
