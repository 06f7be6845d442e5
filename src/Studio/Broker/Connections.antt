-- ===== src/Studio/Broker/Connections.antt =====
-- The calls of a Studio on its connection in packages/decorator-agent/src/studio-broker.ts.
use livi_agent.Prelude.{
  ℕ, ◌^◌, String, Bool, true, false, not, ◌&&◌, ◌||◌, Option, none, some, [], ◌∷◌, ◌++◌, leb, ltb,
  if◌then◌else◌, any, ◌==◌, string_eq, nat_eq,
}
use livi_agent.Prelude.Assoc
use livi_agent.Prelude.Assoc.{Assoc, put, values}
use livi_agent.Studio.Contract.{
  Registration, Snapshot, ContextUpdate, SelectionUpdate, ErrorCode, offline, ready,
  studio_contract_version,
}
use livi_agent.Studio.Broker.{
  Connection, Broker, Result, attached, change_connection, notify, ok, err, aborted,
}

-- `attach`; the new attachment has the number of those before.
unfoldable pub attach : Broker → Broker
attach b = record b {
  attachments = b.attachments ++ record { mailbox = []; connection = none; released = false } ∷ [];
}

unfoldable pub is_current : Broker → String → ℕ → Bool
is_current b tab a = elim (Assoc.get b.connections tab) [ none ↦ false | some n ↦ n == a ]

unfoldable pub authorize : Broker → ℕ → String → Result Connection
unfolding attached is_current
authorize b a generation = elim (attached b a) [
  | none ↦ err ErrorCode.wrong_binding
  | some t ↦ elim t.connection [
    | none ↦ err ErrorCode.wrong_binding
    | some c ↦
        if t.released
          || b.closed
          || not (c.generation == generation)
          || not (is_current b c.binding.tab_id a)
        then err ErrorCode.wrong_binding
        else ok c
  ]
]

-- A label that is no string is not modelled.
unfoldable pub valid_registration : Registration → Bool
valid_registration r =
    (r.contract_version == studio_contract_version)
    && not (r.binding.tab_id == "")
    && not (r.binding.design_id == "")

unfoldable pub new_connection : Registration → String → Connection
new_connection r uuid = record {
  binding = r.binding;
  label = r.label;
  generation = uuid;
  sequence = none;
  phase = offline;
  snapshot = none;
  subscribed = false;
}

unfoldable pub register : Broker → ℕ → Registration → String → Broker × Result String
unfolding attached valid_registration new_connection notify change_connection
register b a r uuid = elim (attached b a) [
  | none ↦ (b, err ErrorCode.wrong_binding)
  | some t ↦
      if t.released || b.closed || elim t.connection [ none ↦ false | some c ↦ true ]
      then (b, err ErrorCode.wrong_binding)
      else if not (valid_registration r)
      then (b, err ErrorCode.invalid_arguments)
      else elim (Assoc.get b.connections r.binding.tab_id) [
        | some n ↦ (b, err ErrorCode.wrong_binding)
        | none ↦
            let b' = change_connection b a (new_connection r uuid) in
            (notify (record b' { connections = put b.connections r.binding.tab_id a }), ok uuid)
      ]
]

unfoldable pub ready_call : Broker → ℕ → String → Broker × Result (Unit {0})
unfolding authorize notify change_connection
ready_call b a generation = elim (authorize b a generation) [
  | err e ↦ (b, err e)
  | aborted ↦ (b, aborted)
  | ok c ↦
      if c.subscribed
      then (b, ok tt)
      else (notify (change_connection b a (record c { subscribed = true; phase = ready })), ok tt)
]

-- `sequence <= connection.sequence`.
unfoldable pub not_newer : ℕ → Option ℕ → Bool
not_newer n none = false
not_newer n (some m) = leb n m

-- `validateStudioSnapshot`, for a snapshot whose fields have their types.
unfoldable pub valid_snapshot : Snapshot → Bool
valid_snapshot s = not (s.design_id == "") && not (s.revision == "")

unfoldable pub apply_context : Broker → ℕ → Connection → ContextUpdate → Broker × Result (Unit {0})
unfolding not_newer valid_snapshot notify change_connection
apply_context b a c u =
    if not (u.generation == c.generation) || not (u.snapshot.design_id == c.binding.design_id)
    then (b, err ErrorCode.wrong_binding)
    else if not (ltb u.sequence (2 ^ 53))
    then (b, err ErrorCode.invalid_arguments)
    else if not_newer u.sequence c.sequence
    then (b, ok tt)
    else if not (valid_snapshot u.snapshot)
    then (b, err ErrorCode.invalid_arguments)
    else (
      notify (
          change_connection b a
            (record c { sequence = some u.sequence; snapshot = some u.snapshot })),
      ok tt,
    )

unfoldable pub publish_context : Broker → ℕ → ContextUpdate → Broker × Result (Unit {0})
unfolding authorize apply_context
publish_context b a u = elim (authorize b a u.generation) [
  | err e ↦ (b, err e)
  | aborted ↦ (b, aborted)
  | ok c ↦ apply_context b a c u
]

unfoldable pub publish_selection : Broker → ℕ → SelectionUpdate → Broker × Result (Unit {0})
unfolding authorize not_newer notify change_connection
publish_selection b a u = elim (authorize b a u.generation) [
  | err e ↦ (b, err e)
  | aborted ↦ (b, aborted)
  | ok c ↦
      if not (ltb u.sequence (2 ^ 53))
      then (b, err ErrorCode.invalid_arguments)
      else if not_newer u.sequence c.sequence
      then (b, ok tt)
      else elim c.snapshot [
        | none ↦ (b, ok tt)
        | some s ↦
            if any (λ id. id == "") u.selected_object_ids
            then (b, err ErrorCode.invalid_target)
            else (
              notify (
                  change_connection b a (record c {
                    sequence = some u.sequence;
                    snapshot = some (record s { selected_object_ids = u.selected_object_ids });
                  })),
              ok tt,
            )
      ]
]
