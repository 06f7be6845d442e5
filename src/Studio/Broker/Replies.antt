-- ===== src/Studio/Broker/Replies.antt =====
-- `respond` of packages/decorator-agent/src/studio-broker.ts: the replies of a Studio.
use livi_agent.Prelude.{
  ℕ, Bool, true, false, not, ◌&&◌, Option, none, some, List, [], ◌∷◌, if◌then◌else◌, length, ◌==◌,
  string_eq, nat_eq,
}
use livi_agent.Prelude.Assoc
use livi_agent.Studio.Contract.{
  absent, null, present, is_present, is_null, CommandEdit, CommandAction, Command, CommandResult,
  Action, EditResult, ErrorCode, Outcome, RequestPayload, Response, ResponsePayload, Saved,
  ContextUpdate,
}
use livi_agent.Studio.Broker.{
  Broker, Connection, Pending, Result, ok, err, aborted, resolved, rejected,
}
use livi_agent.Studio.Broker.Connections.{authorize, apply_context, valid_snapshot}
use livi_agent.Studio.Broker.Requests.{finish}

unfoldable pub created : ℕ → EditResult → Bool
created quantity (EditResult.edit before after) = false
created quantity (EditResult.create (present l)) = length l == quantity
created quantity (EditResult.create _) = false

unfoldable pub edited : Bool → EditResult → Bool
edited removes (EditResult.create l) = false
edited removes (EditResult.edit before after) =
    is_present before && (if removes then is_null after else is_present after)

-- The result is one that the edit can have.
unfoldable pub fits : CommandEdit → EditResult → Bool
unfolding created edited
fits e r = elim e.action [
  | Action.add _ quantity _ ↦ created quantity r
  | Action.duplicate _ quantity _ ↦ created quantity r
  | Action.remove ↦ edited true r
  | Action.move _ ↦ edited false r
  | Action.rotate _ ↦ edited false r
  | Action.replace _ _ ↦ edited false r
]

-- As many results as edits, each one that its edit can have.
unfoldable pub all_fit : List CommandEdit → List EditResult → Bool
unfolding fits
all_fit [] [] = true
all_fit (e ∷ es) (r ∷ rs) = fits e r && all_fit es rs
all_fit _ _ = false

-- The kind of a saved result is the command's, and so are its edits.
unfoldable pub saved_fits : Command → Saved → Bool
unfolding all_fit
saved_fits c saved = elim c.action [
  | CommandAction.batch es ↦ elim saved [
    | Saved.batch l ↦ elim l [ present rs ↦ all_fit es rs | absent ↦ false | null ↦ false ]
    | Saved.one r ↦ false
  ]
  | CommandAction.single e ↦ elim saved [
    | Saved.batch l ↦ false
    | Saved.one r ↦ all_fit (e ∷ []) (r ∷ [])
  ]
]

-- The tests that a result for the command goes through; `none` lets it through.
unfoldable pub result_error : Connection → Command → CommandResult → Option ErrorCode
unfolding saved_fits
result_error c command result =
    if not (command.command_id == result.command_id)
    then some ErrorCode.wrong_binding
    else elim result.outcome [
      | Outcome.rejected e ↦ none
      | Outcome.unknown message ↦ none
      | Outcome.saved saved revision snapshot ↦
          if not (snapshot.design_id == c.binding.design_id)
          then some ErrorCode.wrong_binding
          else if not (saved_fits command saved)
          then some ErrorCode.invalid_arguments
          else if not (valid_snapshot snapshot)
          then some ErrorCode.invalid_arguments
          else if not (revision == snapshot.revision)
          then some ErrorCode.invalid_arguments
          else none
    ]

unfoldable pub accept : Broker → Response → Broker
accept b r = finish b r.request_id (resolved r)

-- The connection as the broker has it after the answer, for the context that came with it.
unfoldable pub accept_result :
    Broker → ℕ → Connection → Response → Option ContextUpdate → Broker × Result (Unit {0})
unfolding accept
accept_result b a c r none = (accept b r, ok tt)
accept_result b a c r (some u) = apply_context (accept b r) a c u

-- The private `respond`.
unfoldable pub deliver : Broker → ℕ → Connection → Pending → Response → Broker × Result (Unit {0})
unfolding result_error accept accept_result
deliver b a c p r = elim r.payload [
  | ResponsePayload.error e ↦ (accept b r, ok tt)
  | ResponsePayload.context u ↦ elim p.request.payload [
    | RequestPayload.execute command ↦ (b, err ErrorCode.invalid_arguments)
    | RequestPayload.context ↦
        let (b', answer) = apply_context b a c u in
        elim answer [ err e ↦ (b', err e) | aborted ↦ (b', aborted) | ok _ ↦ (accept b' r, ok tt) ]
  ]
  | ResponsePayload.result result u ↦ elim p.request.payload [
    | RequestPayload.context ↦ (b, err ErrorCode.wrong_binding)
    | RequestPayload.execute command ↦ elim (result_error c command result) [
      | some e ↦ (b, err e)
      | none ↦ accept_result b a c r u
    ]
  ]
]

is_saved : ResponsePayload → Bool
is_saved (ResponsePayload.result result u) = elim result.outcome [
  | Outcome.saved _ _ _ ↦ true
  | Outcome.rejected _ ↦ false
  | Outcome.unknown _ ↦ false
]
is_saved _ = false

is_execute : RequestPayload → Bool
is_execute RequestPayload.context = false
is_execute (RequestPayload.execute c) = true

-- What `respond` does where the private `respond` threw.
unfoldable pub recover : Broker → Pending → Response → Broker
unfolding is_saved is_execute
recover b p r =
    let failed = finish b r.request_id (rejected ErrorCode.outcome_unknown) in
    if is_execute p.request.payload && is_saved r.payload then failed else b

unfoldable pub respond : Broker → ℕ → Response → Broker × Result (Unit {0})
unfolding deliver recover
respond b a r = elim (authorize b a r.generation) [
  | err e ↦ (b, err e)
  | aborted ↦ (b, aborted)
  | ok c ↦ elim (Assoc.get b.pending r.request_id) [
    | none ↦ (b, ok tt)
    | some p ↦
        if not (p.attachment == a)
        then (b, err ErrorCode.wrong_binding)
        else let (b', answer) = deliver b a c p r in
          elim answer [
            | ok _ ↦ (b', ok tt)
            | aborted ↦ (recover b' p r, aborted)
            | err e ↦ (recover b' p r, err e)
          ]
  ]
]
