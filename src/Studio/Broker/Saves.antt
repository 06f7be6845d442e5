-- ===== src/Studio/Broker/Saves.antt =====
-- The saved results that packages/decorator-agent/src/studio-broker.ts lets through.
use livi_agent.Prelude.{
  ℕ, String, ◌≡◌, ◌≢◌, ◌∙◌, sym, ap, refl, true, Option, none, some, List, [], ◌∷◌, ◌++◌, length,
  length-append, arith, string_eq, nat_eq, Option-cases, Bool-cases, ◌==◌, inl, inr, ◌⊎◌,
}
use livi_agent.Prelude.Assoc
use livi_agent.Studio.Contract.{
  present, CommandEdit, CommandAction, Command, CommandResult, EditResult, Outcome, RequestPayload,
  Response, ResponsePayload, Saved, Snapshot, ContextUpdate, ErrorCode,
}
use livi_agent.Studio.Broker.{
  Broker, Connection, Pending, Result, ok, err, aborted, Answer, resolved, rejected, change,
}
use livi_agent.Studio.Broker.Requests.{finish}
use livi_agent.Studio.Broker.Connections.{authorize}
use livi_agent.Studio.Broker.Replies.{
  respond, deliver, result_error, saved_fits, all_fit, fits, recover,
}

-- Edit and result fit, pair by pair.
pub data FitAll : List CommandEdit → List EditResult → Type 0 where
  done : FitAll [] []
  next :
      (e : CommandEdit) (es : List CommandEdit) (r : EditResult) (rs : List EditResult)
      → fits e r ≡ true
      → FitAll es rs
      → FitAll (e ∷ es) (r ∷ rs)

all_fit-FitAll :
    (es : List CommandEdit) (rs : List EditResult) → all_fit es rs ≡ true → FitAll es rs
unfolding all_fit
all_fit-FitAll [] [] h = done
all_fit-FitAll [] (r ∷ rs) h = cc
all_fit-FitAll (e ∷ es) [] h = cc
all_fit-FitAll (e ∷ es) (r ∷ rs) h =
    next e es r rs (ground arith) (all_fit-FitAll es rs (ground arith))

-- What a saved result for the command must be.
pub record IsSave (command : Command) (result : CommandResult) (es : List CommandEdit)
    (rs : List EditResult) (revision : String) (snapshot : Snapshot) : Type 0 where
  pub same_command : command.command_id ≡ result.command_id
  pub ordered : FitAll es rs
  pub same_revision : revision ≡ snapshot.revision

result_error-none :
    (c : Connection) (command : Command) (result : CommandResult) (es : List CommandEdit)
    (rs : List EditResult) (revision : String) (snapshot : Snapshot)
    → command.action ≡ CommandAction.batch es
    → result.outcome ≡ Outcome.saved (Saved.batch (present rs)) revision snapshot
    → result_error c command result ≡ none
    → IsSave command result es rs revision snapshot × (snapshot.design_id ≡ c.binding.design_id)
unfolding result_error saved_fits
result_error-none c command result es rs revision snapshot is_batch saved e = (
  record {
    same_command = ground (arith, string_eq.beq_iff command.command_id result.command_id);
    ordered = all_fit-FitAll es rs (ground arith);
    same_revision = ground (arith, string_eq.beq_iff revision snapshot.revision);
  },
  ground (arith, string_eq.beq_iff snapshot.design_id c.binding.design_id),
)

Result-cases : {A : Type 0} (m : Result A) → ((a : A) × (m ≡ ok a)) ⊎ ((a : A) → m ≢ ok a)
Result-cases (ok a) = inl (a, refl)
Result-cases (err e) = inr (λ a h. cc)
Result-cases aborted = inr (λ a h. cc)

longer : {A : Type 0} (xs : List A) (x : A) → xs ≢ xs ++ x ∷ []
longer xs x is = absurd (omega (arith, ap length is, length-append xs (x ∷ [])))

-- Two answers at the end of the same list are one.
same_last :
    (xs : List (String × Answer)) (x y : String × Answer) → xs ++ x ∷ [] ≡ xs ++ y ∷ [] → x.1 ≡ y.1
same_last [] x y is = ap (λ (l : List (String × Answer)). elim l [ [] ↦ x.1 | z ∷ zs ↦ z.1 ]) is
same_last (w ∷ xs) x y is =
    same_last xs x y (ap (λ (l : List (String × Answer)). elim l [ [] ↦ [] | z ∷ zs ↦ zs ]) is)

-- The wait was resolved with the response.
abbrev pub Resolves : Broker → Response → Broker → Type 0
Resolves b r later = later.settled ≡ b.settled ++ (r.request_id, resolved r) ∷ []

stays : (b : Broker) (r : Response) → ¬ Resolves b r b
stays b r is = longer b.settled (r.request_id, resolved r) is

finish_settled :
    (b : Broker) (id : String) (answer : Answer) (p : Pending)
    → Assoc.get b.pending id ≡ some p
    → (finish b id answer).settled ≡ b.settled ++ (id, answer) ∷ []
unfolding finish change
finish_settled b id answer p waits = rw (finish, waits) refl

-- A wait that is rejected is not resolved.
rejected-Resolves :
    (b : Broker) (r : Response) (p : Pending) (e : ErrorCode)
    → Assoc.get b.pending r.request_id ≡ some p
    → ¬ Resolves b r (finish b r.request_id (rejected e))
rejected-Resolves b r p e waits is =
    let both =
      same_last b.settled (r.request_id, rejected e) (r.request_id, resolved r)
        (sym (finish_settled b r.request_id (rejected e) p waits) ∙ is) in
    cc

module _ (b : Broker) (a : ℕ) (r : Response) (p : Pending) (command : Command)
    (result : CommandResult) (u : Option ContextUpdate) (saved : Saved) (revision : String)
    (snapshot : Snapshot) (waits : Assoc.get b.pending r.request_id ≡ some p)
    (is_execute : p.request.payload ≡ RequestPayload.execute command)
    (is_result : r.payload ≡ ResponsePayload.result result u)
    (is_saved : result.outcome ≡ Outcome.saved saved revision snapshot) where
  -- A saved reply that does not pass the tests rejects the wait.
  respond-refused :
      (c : Connection) (e : ErrorCode)
      → authorize b a r.generation ≡ ok c
      → (p.attachment == a) ≡ true
      → result_error c command result ≡ some e
      → (respond b a r).0 ≡ finish b r.request_id (rejected ErrorCode.outcome_unknown)
  unfolding respond deliver recover
  respond-refused c e may own fails =
      ground (arith, waits, is_execute, is_result, is_saved, may, own, fails)

  unauthorized :
      (m : Result Connection)
      → authorize b a r.generation ≡ m
      → ((c : Connection) → m ≢ ok c)
      → (respond b a r).0 ≡ b
  unfolding respond
  unauthorized (ok c) is fails = absurd (fails c refl)
  unauthorized (err e) is fails = ground (arith, is)
  unauthorized aborted is fails = ground (arith, is)

  Resolves-passed :
      Resolves b r (respond b a r).0
      → (c : Connection) × (p.attachment ≡ a)
        × (authorize b a r.generation ≡ ok c)
        × (result_error c command result ≡ none)
  unfolding respond
  Resolves-passed answered = elim (Result-cases (authorize b a r.generation)) [
    | inr fails ↦ absurd (
        stays b r (
          sym
            (ap (λ (x : Broker). x.settled) (unauthorized (authorize b a r.generation) refl fails))
          ∙ answered))
    | inl (c, may) ↦ elim (Bool-cases (p.attachment == a)) [
      | inr other ↦ absurd (stays b r (ground (arith, waits, may, other, answered)))
      | inl own ↦ elim (Option-cases (result_error c command result)) [
        | inl passed ↦ (c, ground (arith, own), may, passed)
        | inr (e, fails) ↦ absurd (
            rejected-Resolves b r p ErrorCode.outcome_unknown waits
              (sym (ap (λ (x : Broker). x.settled) (respond-refused c e may own fails)) ∙ answered))
      ]
    ]
  ]

-- A batch's saved result resolves a wait, be the call of `respond` then a failure or not, only if it
-- answers the command that was sent to the same connection, edit by edit and in order, and its revision
-- is the snapshot's, which is of the connection's design.
pub respond-saved :
    (b : Broker) (a : ℕ) (r : Response) (p : Pending) (command : Command) (result : CommandResult)
    (u : Option ContextUpdate) (es : List CommandEdit) (rs : List EditResult) (revision : String)
    (snapshot : Snapshot)
    → Assoc.get b.pending r.request_id ≡ some p
    → p.request.payload ≡ RequestPayload.execute command
    → r.payload ≡ ResponsePayload.result result u
    → command.action ≡ CommandAction.batch es
    → result.outcome ≡ Outcome.saved (Saved.batch (present rs)) revision snapshot
    → (respond b a r).0.settled ≡ b.settled ++ (r.request_id, resolved r) ∷ []
    → (p.attachment ≡ a)
      × IsSave command result es rs revision snapshot
      × ((c : Connection) × (authorize b a r.generation ≡ ok c)
          × (snapshot.design_id ≡ c.binding.design_id))
respond-saved b a r p command result u es rs revision snapshot waits is_execute is_result is_batch
      saved answered =
    let (c, here, may, passed) =
      Resolves-passed b a r p command result u (Saved.batch (present rs)) revision snapshot waits
        is_execute is_result saved answered in
    let (fit, design) =
      result_error-none c command result es rs revision snapshot is_batch saved passed in
    (here, fit, (c, may, design))
