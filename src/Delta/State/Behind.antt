-- ===== src/Delta/State/Behind.antt =====
-- A replica whose publisher may throw.
use livi_agent.Prelude.{
  ℕ, suc, ◌+◌, ◌<◌, false, Option, none, some, List, [], ◌∷◌, String, nat_eq, ◌==◌, ◌≡◌, ◌⊎◌, inl,
  inr, refl, sym, ap, subst, ◌∙◌, arith, All, some_inj,
}
use livi_agent.Delta.{Json, Op, ok, Result-cases}
use livi_agent.Delta.Apply.{apply}
use livi_agent.Delta.Apply.Immutable.{apply_immutable}
use livi_agent.Delta.Apply.Immutable.Same.{to_apply}
use livi_agent.Delta.Codec.{Encoder, encoder, encode, Decoder, decoder, decode}
use livi_agent.Delta.Codec.Refer.{KnowsIds}
use livi_agent.Delta.Codec.RoundTrip.{IsValidOp, encode_ops-Reads}
use livi_agent.Delta.Codec.Relay.{fresh-KnowsIds}
use livi_agent.Delta.State.{Publisher, Replica, update, delta, clear, update_replica}
use livi_agent.Delta.State.Mirror.{mirror, follow}
use livi_agent.Delta.State.Steps.{
  apply_valid, apply-some, publish_err, publish_ok, mirror_thrown, mirror_delivered, update_next,
}

-- The replica is as far as the publisher and has its value, or it is behind.
pub Behind : Publisher → Replica → Type 0
Behind p r = (r.sequence ≡ none) ⊎ ((n : ℕ) × (r.sequence ≡ some n) × (n < p.sequence))

pub Mirrors : Publisher → Replica → Type 0
Mirrors p r =
    (v : Json) × (p.published_value ≡ some v)
    × (((r.value ≡ some v) × (r.sequence ≡ some p.sequence)) ⊎ Behind p r)

module _ (digits : ℕ → String) where
  update-Behind :
      (o : Option Json) (s : Option ℕ) (p p' : Publisher) (ops : List Op)
      → p'.sequence ≡ suc p.sequence
      → Behind p (record { value = o; sequence = s })
      → Behind p'
          ((update_replica digits (record { value = o; sequence = s }) (suc p.sequence) ops).0)
  unfolding Behind update_replica clear
  update-Behind o none p p' ops e h = inl refl
  update-Behind none (some n) p p' ops e (inl h) = cc
  update-Behind none (some n) p p' ops e (inr (m, h, l)) =
      inr (n, refl, omega (arith, some_inj h, l, e))
  update-Behind (some v) (some n) p p' ops e (inl h) = cc
  update-Behind (some v) (some n) p p' ops e (inr (m, h, l)) =
      let q : (suc p.sequence == n + 1) ≡ false = ground (arith, some_inj h, l) in rw q (inl refl)

  -- A call of the publisher that throws takes a number all the same.
  skip-Mirrors :
      (p p' : Publisher) (r : Replica)
      → p'.published_value ≡ p.published_value
      → p'.sequence ≡ suc p.sequence
      → Mirrors p r
      → Mirrors p' r
  unfolding Mirrors Behind
  skip-Mirrors p p' r a e (v, b, inl (x, y)) =
      (v, a ∙ b, inr (inr (p.sequence, y, omega (arith, e))))
  skip-Mirrors p p' r a e (v, b, inr (inl x)) = (v, a ∙ b, inr (inl x))
  skip-Mirrors p p' r a e (v, b, inr (inr (n, x, l))) =
      (v, a ∙ b, inr (inr (n, x, omega (arith, l, e))))

  update-Mirrors :
      (p : Publisher) (r : Replica) (u : Json) (ops : List Op)
      → Mirrors p r
      → apply_immutable digits p.published_value ops ≡ ok (some u)
      → Mirrors
          (record { published_value = some u; sequence = suc p.sequence })
          ((update_replica digits r (suc p.sequence) ops).0)
  unfolding Mirrors
  update-Mirrors p r u ops (v, b, inl (x, y)) h =
      let e =
        update_next digits r p.sequence v u ops x y
          (ap (λ o. apply_immutable digits o ops) (sym b) ∙ h) in
      (u, refl, inl (ap (λ x. x.value) e, ap (λ x. x.sequence) e))
  update-Mirrors p r u ops (v, b, inr x) h = (
    u,
    refl,
    inr (
        update-Behind r.value r.sequence p
          (record { published_value = some u; sequence = suc p.sequence }) ops refl x),
  )

  published_some :
      (p : Publisher) (r : Replica) (w : Option Json) (ops : List Op)
      → Mirrors p r
      → apply_immutable digits p.published_value ops ≡ ok w
      → All IsValidOp ops × ((u : Json) × (w ≡ some u))
  unfolding Mirrors
  published_some p r w ops (v, b, x) h =
      let a = to_apply digits p.published_value w ops h in
      (
        apply_valid digits p.published_value w ops a,
        apply-some digits v w ops (ap (λ o. apply digits o ops) (sym b) ∙ a),
      )

  mirror-Mirrors :
      (c : Encoder) (d : Decoder) (p : Publisher) (r : Replica) (batches : List (List Op))
      → KnowsIds c d
      → Mirrors p r
      → (last : Publisher × Replica) × (mirror digits c d p r batches ≡ ok last)
        × Mirrors last.0 last.1
  unfolding mirror encode decode
  mirror-Mirrors c d p r [] k h = ((p, r), refl, h)
  mirror-Mirrors c d p r ([] ∷ batches) k h = mirror-Mirrors c d p r batches k h
  mirror-Mirrors c d p r ((op ∷ ops) ∷ batches) k h =
      elim (Result-cases (apply_immutable digits p.published_value (op ∷ ops))) [
        | inl (e, q) ↦
            let p' = record p { sequence = suc p.sequence } in
            let (x, a, m) = mirror-Mirrors c d p' r batches k (skip-Mirrors p p' r refl refl h) in
            (
              x,
              mirror_thrown digits c d p p' r (delta e) (op ∷ ops) batches
                    (publish_err digits p op ops e q)
                  ∙ a,
              m,
            )
        | inr (w, q) ↦
            let (valid, (u, e)) = published_some p r w (op ∷ ops) h q in
            let p' : Publisher = record { published_value = w; sequence = suc p.sequence } in
            let r' = (update_replica digits r (suc p.sequence) (op ∷ ops)).0 in
            let (d', b, k') =
              encode_ops-Reads (record c { previous = none }) (record d { previous = none })
                (op ∷ ops) (refl, k) valid in
            let h' =
              subst (λ o. Mirrors (record { published_value = o; sequence = suc p.sequence }) r')
                (sym e) (update-Mirrors p r u (op ∷ ops) h (q ∙ ap ok e)) in
            let (x, a, m) = mirror-Mirrors ((encode c (op ∷ ops)).0) d' p' r' batches k'.1 h' in
            (
              x,
              mirror_delivered digits c d d' p p' r update (suc p.sequence) w (op ∷ ops) batches
                    (publish_ok digits p op ops w q) b
                  ∙ a,
              m,
            )
      ]

  -- A replica that subscribes to a publisher with a value, whatever it held before, and whatever batches are
  -- published then: the run ends, every batch that was sent is decoded, and the replica either is as far as
  -- the publisher and has its value, or is behind it or empty.
  pub follow-Mirrors :
      (p : Publisher) (v : Json) (r : Replica) (batches : List (List Op))
      → p.published_value ≡ some v
      → (last : Publisher × Replica) × (follow digits p v r batches ≡ ok last)
        × Mirrors last.0 last.1
  unfolding follow Mirrors
  follow-Mirrors p v r batches h =
      mirror-Mirrors encoder decoder p (record { value = some v; sequence = some p.sequence })
        batches fresh-KnowsIds (v, h, inl (refl, refl))
