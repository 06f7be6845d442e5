-- ===== src/Delta/State/Mirror.antt =====
-- A replica behind a codec, after the batches of a publisher. A batch that is not published is not sent,
-- and a replica that throws stays as the call left it.
use livi_agent.Prelude.{ℕ, Bool, true, false, List, [], ◌∷◌, String, nat_eq}
use livi_agent.Delta.{Json, Op, replace, Result, ok, ◌>>=◌}
use livi_agent.Delta.Codec.{Encoder, encoder, encode, Decoder, decoder, decode}
use livi_agent.Delta.State.{
  Publisher, Replica, nothing, delivered, thrown, publish, hydrate_replica, update_replica,
}

module _ (digits : ℕ → String) where
  -- Each batch that is published goes through the codec to the replica.
  unfoldable pub mirror :
      Encoder → Decoder → Publisher → Replica → List (List Op) → Result (Publisher × Replica)
  unfolding publish update_replica encode decode
  mirror c d p r [] = ok (p, r)
  mirror c d p r (ops ∷ batches) = elim (publish digits p ops).1 [
    | nothing ↦ mirror c d (publish digits p ops).0 r batches
    | thrown e ↦ mirror c d (publish digits p ops).0 r batches
    | delivered kind sequence v ↦ decode d ((encode c ops).1) >>= λ x.
        mirror ((encode c ops).0) x.0 ((publish digits p ops).0)
          ((update_replica digits r sequence x.1).0) batches
  ]

  -- A subscription: the value as a base batch of a new codec, and then what is published.
  unfoldable pub follow : Publisher → Json → Replica → List (List Op) → Result (Publisher × Replica)
  unfolding mirror hydrate_replica
  follow p v r batches = decode decoder ((encode encoder (replace v ∷ [])).1) >>= λ x.
      mirror ((encode encoder (replace v ∷ [])).0) x.0 p
        ((hydrate_replica digits r p.sequence x.1).0) batches

  -- Whether no call of the publisher throws.
  unfoldable pub all_published : Publisher → List (List Op) → Bool
  unfolding publish
  all_published p [] = true
  all_published p (ops ∷ batches) =
      let rest = all_published ((publish digits p ops).0) batches in
      elim (publish digits p ops).1 [ thrown e ↦ false | _ ↦ rest ]

  unfoldable pub publish_all : Publisher → List (List Op) → Publisher
  unfolding publish
  publish_all p [] = p
  publish_all p (ops ∷ batches) = publish_all ((publish digits p ops).0) batches
