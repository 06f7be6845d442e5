-- ===== src/Delta/State/Current.antt =====
-- A replica whose publisher does not throw.
use livi_agent.Prelude.{
  ℕ, suc, true, none, some, List, [], ◌∷◌, String, nat_eq, ◌≡◌, inl, inr, refl, sym, ap, ◌∙◌,
}
use livi_agent.Delta.{Json, Op, ok, Result-cases}
use livi_agent.Delta.Apply.{apply}
use livi_agent.Delta.Apply.Immutable.{apply_immutable}
use livi_agent.Delta.Apply.Immutable.Same.{to_apply}
use livi_agent.Delta.Codec.{Encoder, encoder, encode, Decoder, decoder, decode}
use livi_agent.Delta.Codec.Refer.{KnowsIds}
use livi_agent.Delta.Codec.RoundTrip.{encode_ops-Reads}
use livi_agent.Delta.Codec.Relay.{fresh-KnowsIds}
use livi_agent.Delta.State.{Publisher, Replica, update, delta, update_replica}
use livi_agent.Delta.State.Mirror.{mirror, follow, all_published, publish_all}
use livi_agent.Delta.State.Steps.{
  apply_valid, apply-some, publish_err, publish_ok, mirror_delivered, update_next, not_thrown,
  all_delivered,
}

-- A publisher and a replica that has its value and number.
abbrev pub current : Publisher → Publisher × Replica
current q = (q, record { value = q.published_value; sequence = some q.sequence })

module _ (digits : ℕ → String) where
  mirror_current :
      (c : Encoder) (d : Decoder) (p : Publisher) (r : Replica) (batches : List (List Op))
      (v : Json)
      → KnowsIds c d
      → all_published digits p batches ≡ true
      → p.published_value ≡ some v
      → r ≡ record { value = some v; sequence = some p.sequence }
      → mirror digits c d p r batches ≡ ok (current (publish_all digits p batches))
  unfolding mirror encode decode all_published publish_all
  mirror_current c d p r [] v k s h e =
      ap (λ x. ok (p, x)) (e ∙ ap (λ o. record { value = o; sequence = some p.sequence }) (sym h))
  mirror_current c d p r ([] ∷ batches) v k s h e = mirror_current c d p r batches v k s h e
  mirror_current c d p r ((op ∷ ops) ∷ batches) v k s h e =
      elim (Result-cases (apply_immutable digits p.published_value (op ∷ ops))) [
        | inl (x, q) ↦
            absurd (
              not_thrown digits p _ (delta x) (op ∷ ops) batches s
                (publish_err digits p op ops x q))
        | inr (w, q) ↦
            let valid =
              apply_valid digits p.published_value w (op ∷ ops)
                (to_apply digits p.published_value w (op ∷ ops) q) in
            let (u, a) = apply-some digits v w (op ∷ ops) (
              ap (λ o. apply digits o (op ∷ ops)) (sym h)
              ∙ to_apply digits p.published_value w (op ∷ ops) q) in
            let p' : Publisher = record { published_value = w; sequence = suc p.sequence } in
            let r' = (update_replica digits r (suc p.sequence) (op ∷ ops)).0 in
            let (d', b, k') =
              encode_ops-Reads (record c { previous = none }) (record d { previous = none })
                (op ∷ ops) (refl, k) valid in
            let n =
              update_next digits r p.sequence v u (op ∷ ops) (ap (λ x. x.value) e)
                (ap (λ x. x.sequence) e)
                (ap (λ o. apply_immutable digits o (op ∷ ops)) (sym h) ∙ q ∙ ap ok a) in
            let t =
              sym (
                all_delivered digits p p' update (suc p.sequence) w (op ∷ ops) batches
                  (publish_ok digits p op ops w q))
              ∙ s in
            let m = mirror_current ((encode c (op ∷ ops)).0) d' p' r' batches u k'.1 t a n in
            mirror_delivered digits c d d' p p' r update (suc p.sequence) w (op ∷ ops) batches
              (publish_ok digits p op ops w q) b
            ∙ m
            ∙ ap (λ x. ok (current (publish_all digits x.0 batches)))
                (sym (publish_ok digits p op ops w q))
      ]

  -- A replica that subscribes to a publisher with a value, whatever it held before: where no call of the
  -- publisher throws, it has the publisher's last value and sequence number in the end.
  pub follow_current :
      (p : Publisher) (v : Json) (r : Replica) (batches : List (List Op))
      → p.published_value ≡ some v
      → all_published digits p batches ≡ true
      → follow digits p v r batches ≡ ok (current (publish_all digits p batches))
  unfolding follow
  follow_current p v r batches h s =
      mirror_current encoder decoder p (record { value = some v; sequence = some p.sequence })
        batches v fresh-KnowsIds s h refl
