-- ===== src/Delta/State.antt =====
-- The two ends of a replicated state in packages/chord/src/services/state.ts. The operations of a flush
-- are an argument; what a call delivers to the listeners, or the error that it throws, is its outcome.
pub mod Mirror
pub mod Steps
pub mod Behind
pub mod Current
mod Tests
use livi_agent.Prelude.{
  ℕ, suc, ◌+◌, Bool, true, false, not, Option, none, some, List, [], ◌∷◌, String, nat_eq, ◌==◌,
  if◌then◌else◌,
}
use livi_agent.Delta.{Json, Op, replace, change, DeltaError, Result, ok, err}
use livi_agent.Delta.Apply.Immutable.{apply_immutable}

-- `isBase`.
unfoldable pub is_base : List Op → Bool
is_base (replace v ∷ ops) = true
is_base ops = false

pub data Delivery : Type 0 where
  update : Delivery
  hydrate : Delivery

pub data StateError : Type 0 where
  delta : DeltaError → StateError
  not_a_base : StateError
  before_hydration : StateError
  gap : StateError

pub data Outcome : Type 0 where
  nothing : Outcome
  delivered : Delivery → ℕ → Option Json → Outcome
  thrown : StateError → Outcome

-- `MutableReplicatedStateImpl`.
pub record Publisher : Type 0 where
  pub published_value : Option Json
  pub sequence : ℕ

-- `ReplicatedStateReplica`.
pub record Replica : Type 0 where
  pub value : Option Json
  pub sequence : Option ℕ

unfoldable pub clear : Replica → Replica
clear r = record { value = none; sequence = none }

module _ (digits : ℕ → String) where
  -- The constructor, on the first flush.
  unfoldable pub create : List Op → Result Publisher
  unfolding apply_immutable
  create ops = elim (apply_immutable digits none ops) [
    | err e ↦ err e
    | ok v ↦ ok (record { published_value = v; sequence = 0 })
  ]

  unfoldable pub publish : Publisher → List Op → Publisher × Outcome
  unfolding apply_immutable
  publish p [] = (p, nothing)
  publish p (op ∷ ops) =
      let next = record p { sequence = suc p.sequence } in
      elim (apply_immutable digits p.published_value (op ∷ ops)) [
        | err e ↦ (next, thrown (delta e))
        | ok v ↦ (record next { published_value = v }, delivered update next.sequence v)
      ]

  unfoldable pub hydrate_replica : Replica → ℕ → List Op → Replica × Outcome
  unfolding is_base apply_immutable
  hydrate_replica r sequence ops =
      if not (is_base ops) then (r, thrown not_a_base) else elim (apply_immutable digits none ops) [
        | err e ↦ (r, thrown (delta e))
        | ok v ↦ (record { value = v; sequence = some sequence }, delivered hydrate sequence v)
      ]

  unfoldable pub update_replica : Replica → ℕ → List Op → Replica × Outcome
  unfolding clear apply_immutable
  update_replica r sequence ops = elim r.sequence [
    | none ↦ (r, thrown before_hydration)
    | some last ↦ elim r.value [
      | none ↦ (r, thrown before_hydration)
      | some v ↦
          if not (sequence == last + 1)
          then (clear r, thrown gap)
          else elim (apply_immutable digits (some v) ops) [
            | err e ↦ (r, thrown (delta e))
            | ok w ↦ (record { value = w; sequence = some sequence }, delivered update sequence w)
          ]
    ]
  ]
