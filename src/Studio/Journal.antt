-- ===== src/Studio/Journal.antt =====
-- decorator-agent/src/studio-journal.ts: the journal of a conversation's Studio commands.
-- The calls take the journal and return it with their result. `stored` says whether the session
-- storage accepted the write of the call; reads of the storage do not fail, and a call runs to its
-- end before the next one starts. The order of the stored entries is not modelled.
mod Cases
pub mod Calls
pub mod Lifecycle
pub mod Blocked
pub mod Submitted
pub mod Seen
pub mod Admitted
pub mod Spent
pub mod Reads
mod Tests
use livi_agent.Prelude.{
  ℕ, String, Bool, true, false, not, ◌&&◌, Option, none, some, List, [], ◌∷◌, ◌++◌, leb,
  if◌then◌else◌, length, any, keep_if, contains, ◌==◌, string_eq, pair_eq,
}
use livi_agent.Prelude.Assoc
use livi_agent.Prelude.Assoc.{Assoc, values, drop_where, update_all, put}
use livi_agent.Studio.Contract.{
  Binding, PromptAction, Snapshot, Command, CommandResult, CommandAction, CommandEdit, Transform,
  Action, Outcome, ErrorCode, add_asset, replace_asset,
}

pub record Admission : Type 0 where
  pub original_query : Option String
  pub value : Option Binding
  pub action : Option PromptAction

pub record PlanningSnapshot : Type 0 where
  pub original_query : Option String
  pub operation_id : String
  pub turn_id : String
  pub binding : Option Binding
  pub snapshot : Option Snapshot
  pub unavailable : Option String
  pub action : Option PromptAction

pub data CommandState : Type 0 where
  prepared outcome_unknown committed rejected cancelled_before_send : CommandState

pub record Submission : Type 0 where
  pub command : Command
  pub operation_id : String
  pub turn_id : String
  pub invocation_id : String
  pub observed_before : Option Transform

pub record CommandRecord : Type 0 where
  pub submission : Submission
  pub open submission use *
  pub state : CommandState
  pub result : Option CommandResult
  pub created_at : ℕ

-- The session values under the journal's three addresses.
pub record Stored : Type 0 where
  pub binding : Option (Option Binding)
  pub admissions : Assoc String Admission
  pub commands : Assoc String CommandRecord

pub record Journal : Type 0 where
  pub session : Stored
  pub admissions : Assoc String Admission
  pub plans : Assoc (String × String) PlanningSnapshot
  pub current : Assoc String CommandRecord
  pub blocked : List String

pub data Failure : Type 0 where
  storage_failed : Failure
  mutation_blocked : Failure
  stale_retry_limit : Failure
  too_many_admitted_edits : Failure
  already_submitted : Failure
  not_current : Failure
  unknown_command : Failure

pub data Result (A : Type 0) : Type 0 where
  ok : A → Result A
  err : Failure → Result A

pub mutation_blocked? : Journal → String → Bool
mutation_blocked? j op = contains op j.blocked

-- `Set.add`.
pub block_mutations : Journal → String → Journal
unfolding mutation_blocked?
block_mutations j op =
    if mutation_blocked? j op then j else record j { blocked = j.blocked ++ op ∷ [] }

unfoldable pub binding : Journal → Option Binding
binding j = elim j.session.binding [ none ↦ none | some b ↦ b ]

pub set_binding : Journal → Option Binding → Bool → Journal × Result (Unit {0})
set_binding j b true = (record j { session = record (j.session) { binding = some b } }, ok tt)
set_binding j b false = (j, err storage_failed)

pub store_admission : Journal → String → Admission → Bool → Journal × Result (Unit {0})
store_admission j op a true = (
  record j {
    admissions = put j.admissions op a;
    session = record (j.session) { admissions = put j.session.admissions op a };
  },
  ok tt,
)
store_admission j op a false =
    (record j { admissions = Assoc.remove (put j.admissions op a) op }, err storage_failed)

pub admit :
    Journal → String → Option PromptAction → Option String → Bool → Journal × Result (Unit {0})
unfolding store_admission binding
admit j op action query stored =
    store_admission j op (record { value = binding j; action = action; original_query = query })
      stored

drop_stored : Stored → String → Bool → Stored
drop_stored s op true = record s { admissions = Assoc.remove s.admissions op }
drop_stored s op false = s

pub discard_admission : Journal → String → Bool → Journal
unfolding drop_stored
discard_admission j op stored = record j {
  admissions = Assoc.remove j.admissions op;
  blocked = keep_if (λ o. not (o == op)) j.blocked;
  plans = drop_where (λ p. p.operation_id == op) j.plans;
  current = drop_where (λ r. r.operation_id == op) j.current;
  session = drop_stored j.session op stored;
}

unfoldable pub admission : Journal → String → Journal × Option Admission
admission j op = elim (Assoc.get j.admissions op) [
  | some a ↦ (j, some a)
  | none ↦ elim (Assoc.get j.session.admissions op) [
    | none ↦ (j, none)
    | some a ↦ (record j { admissions = put j.admissions op a }, some a)
  ]
]

-- The key `JSON.stringify([operationId, turnId])` is the pair.
pub planning : Journal → String → String → Option PlanningSnapshot
planning j op turn = Assoc.get j.plans (op, turn)

pub plan : Journal → PlanningSnapshot → Journal × PlanningSnapshot
unfolding planning
plan j s = elim (planning j s.operation_id s.turn_id) [
  | some existing ↦ (j, existing)
  | none ↦ (record j { plans = put j.plans (s.operation_id, s.turn_id) s }, s)
]

put_all : Assoc String CommandRecord → Assoc String CommandRecord → Assoc String CommandRecord
put_all m [] = m
put_all m ((id, r) ∷ rest) = put_all (put m id r) rest

-- A stored record is entered under the id of its command.
by_command_id : Assoc String CommandRecord → Assoc String CommandRecord
by_command_id [] = []
by_command_id ((k, r) ∷ m) = (r.command.command_id, r) ∷ by_command_id m

pub records : Journal → List CommandRecord
unfolding put_all by_command_id
records j = values (put_all (put_all [] (by_command_id j.session.commands)) j.current)

pub get : Journal → String → Option CommandRecord
get j id = elim (Assoc.get j.current id) [
  | some r ↦ some r
  | none ↦ Assoc.get j.session.commands id
]

abbrev pub edits_of : Command → List CommandEdit
edits_of c = elim c.action [ CommandAction.single e ↦ e ∷ [] | CommandAction.batch es ↦ es ]

abbrev pub is_batch : Command → Bool
is_batch c = elim c.action [ CommandAction.single e ↦ false | CommandAction.batch es ↦ true ]

pub data AdmittedType : Type 0 where
  add replace : AdmittedType

-- `edit.action.type === admittedType`.
pub has_type : AdmittedType → CommandEdit → Bool
has_type add e = elim e.action [ Action.add _ _ _ ↦ true | _ ↦ false ]
has_type replace e = elim e.action [ Action.replace _ _ ↦ true | _ ↦ false ]

pub admitted_type : Option Admission → Option AdmittedType
admitted_type none = none
admitted_type (some a) = elim a.action [
  | none ↦ none
  | some act ↦ elim act [ add_asset _ _ ↦ some add | replace_asset _ _ _ _ _ ↦ some replace ]
]

is_stale : Option CommandResult → Bool
is_stale none = false
is_stale (some r) = elim r.outcome [
  | Outcome.rejected e ↦ elim e.code [ ErrorCode.stale_revision ↦ true | _ ↦ false ]
  | _ ↦ false
]

-- The entries that count against the retries of a batch.
pub stale_entries : Journal → String → ℕ
unfolding is_stale
stale_entries j op =
    length (keep_if (λ r. (r.operation_id == op) && is_stale r.result) (values j.current))

pub is_over : CommandState → Bool
is_over rejected = true
is_over cancelled_before_send = true
is_over _ = false

-- An entry of the operation, not rejected or cancelled, with an edit of the admitted type.
pub submits : AdmittedType → String → CommandRecord → Bool
unfolding is_over has_type
submits t op r =
    (r.operation_id == op) && not (is_over r.state) && any (has_type t) (edits_of r.command)

pub count_edits : AdmittedType → Command → ℕ
unfolding has_type
count_edits t c = length (keep_if (has_type t) (edits_of c))

-- The tests that an admitted action puts on a new command.
pub admission_check : Journal → Submission → Option AdmittedType → Result (Unit {0})
unfolding count_edits submits
admission_check j s none = ok tt
admission_check j s (some replace) =
    if leb (count_edits replace s.command) 1 then ok tt else err too_many_admitted_edits
admission_check j s (some add) =
    let n = count_edits add s.command in
    if not (leb n 1)
    then err too_many_admitted_edits
    else if leb 1 n && any (submits add s.operation_id) (values j.current)
    then err already_submitted
    else ok tt

pub enter : Journal → Submission → ℕ → Result (Unit {0}) → Journal × Result CommandRecord
enter j s now (err e) = (j, err e)
enter j s now (ok _) =
    let next : CommandRecord = record {
      submission = s;
      state = prepared;
      result = none;
      created_at = now;
    } in
    (record j { current = put j.current s.command.command_id next }, ok next)

-- `prepare` from the reading of the admission on.
pub prepare_admitted : Journal → Submission → ℕ → Journal × Result CommandRecord
unfolding admission admission_check enter admitted_type
prepare_admitted j s now =
    let (j', a) = admission j s.operation_id in
    enter j' s now (admission_check j' s (admitted_type a))

-- `now` is `Date.now()`.
pub prepare : Journal → Submission → ℕ → Journal × Result CommandRecord
unfolding mutation_blocked? stale_entries get prepare_admitted
prepare j s now =
    if mutation_blocked? j s.operation_id
    then (j, err mutation_blocked)
    else if is_batch s.command && leb 3 (stale_entries j s.operation_id)
    then (j, err stale_retry_limit)
    else elim (get j s.command.command_id) [
      | some existing ↦ (j, ok existing)
      | none ↦ prepare_admitted j s now
    ]

pub is_prepared : CommandState → Bool
is_prepared prepared = true
is_prepared _ = false

-- `aborted` is `signal.aborted`.
unfoldable pub dispatch : Journal → String → Bool → Journal × Result CommandRecord
unfolding is_prepared
dispatch j id aborted = elim (Assoc.get j.current id) [
  | none ↦ (j, err not_current)
  | some r ↦
      if not (is_prepared r.state)
      then (j, ok r)
      else let next : CommandRecord = record r {
        state = if aborted then cancelled_before_send else outcome_unknown;
      } in
        (record j { current = put j.current id next }, ok next)
]

pub settled_state : Outcome → CommandState
settled_state (Outcome.saved _ _ _) = committed
settled_state (Outcome.rejected _) = rejected
settled_state (Outcome.unknown _) = outcome_unknown

-- What `settle` does after it entered the record.
pub after_settle : Journal → CommandRecord → CommandResult → Bool → Journal
unfolding block_mutations
after_settle j next result stored = elim result.outcome [
  | Outcome.unknown _ ↦ if is_batch next.command then block_mutations j next.operation_id else j
  | Outcome.rejected _ ↦ j
  | Outcome.saved _ _ _ ↦
      if stored
      then record j {
        session = record (j.session) { commands = put j.session.commands result.command_id next };
      }
      else j
]

unfoldable pub settle : Journal → CommandResult → Bool → Journal × Result CommandRecord
unfolding settled_state after_settle
settle j result stored = elim (Assoc.get j.current result.command_id) [
  | none ↦ (j, err unknown_command)
  | some r ↦ elim r.result [
    | some _ ↦ (j, ok r)
    | none ↦
        let next : CommandRecord = record r {
          state = settled_state result.outcome;
          result = some result;
        } in
        let entered : Journal = record j { current = put j.current result.command_id next } in
        (after_settle entered next result stored, ok next)
  ]
]

pub cancel_record : String → CommandRecord → CommandRecord
unfolding is_prepared
cancel_record op r =
    if (r.operation_id == op) && is_prepared r.state
    then record r { state = cancelled_before_send }
    else r

pub cancel_prepared : Journal → String → Journal
unfolding cancel_record
cancel_prepared j op = record j { current = update_all (cancel_record op) j.current }
