-- ===== src/Delta/State/Steps.antt =====
-- One batch between a publisher and a replica.
use livi_agent.Prelude.{
  ℕ, suc, true, Option, some, List, [], ◌∷◌, String, nat_eq, ◌≡◌, ◌≢◌, refl, sym, ap, subst, arith,
  All,
}
use livi_agent.Delta.{
  Json, Op, replace, change, ok, err, DeltaError, bind_ok, ok_inj, assert_valid_op,
  assert_safe_path,
}
use livi_agent.Delta.Apply.{edit_at, apply_op, apply}
use livi_agent.Delta.Apply.Immutable.{apply_immutable}
use livi_agent.Delta.Codec.{Encoder, encode, Decoder, decode}
use livi_agent.Delta.Codec.RoundTrip.{IsValidOp}
use livi_agent.Delta.State.{
  Publisher, Replica, delivered, thrown, Delivery, update, StateError, delta, publish,
  update_replica,
}
use livi_agent.Delta.State.Mirror.{mirror, all_published}

module _ (digits : ℕ → String) where
  pub apply_op_valid :
      (root r : Option Json) (op : Op) → apply_op digits root op ≡ ok r → IsValidOp op
  unfolding apply_op assert_valid_op
  apply_op_valid root r (replace v) h = refl
  apply_op_valid root r (change p e) h =
      let (t, a, f) = bind_ok (assert_valid_op (change p e)) _ r h in a

  pub apply_valid :
      (root r : Option Json) (ops : List Op) → apply digits root ops ≡ ok r → All IsValidOp ops
  unfolding apply
  apply_valid root r [] h = tt
  apply_valid root r (op ∷ ops) h =
      let (r1, a, f) = bind_ok (apply_op digits root op) _ r h in
      (apply_op_valid root r1 op a, apply_valid r1 r ops f)

  pub apply_op-some :
      (v : Json) (r : Option Json) (op : Op)
      → apply_op digits (some v) op ≡ ok r
      → (w : Json) × (r ≡ some w)
  unfolding apply_op
  apply_op-some v r (replace w) h = (w, sym (ok_inj h))
  apply_op-some v r (change p e) h =
      let (t, a, f) = bind_ok (assert_valid_op (change p e)) _ r h in
      let (t', b, g) = bind_ok (assert_safe_path p) _ r f in
      let (w, c, k) = bind_ok (edit_at digits v p e) _ r g in (w, sym (ok_inj k))

  pub apply-some :
      (v : Json) (r : Option Json) (ops : List Op)
      → apply digits (some v) ops ≡ ok r
      → (w : Json) × (r ≡ some w)
  unfolding apply
  apply-some v r [] h = (v, sym (ok_inj h))
  apply-some v r (op ∷ ops) h =
      let (r1, a, f) = bind_ok (apply_op digits (some v) op) _ r h in
      let (w, e) = apply_op-some v r1 op a in
      apply-some w r ops (subst (λ x. apply digits x ops ≡ ok r) e f)

  pub publish_err :
      (p : Publisher) (op : Op) (ops : List Op) (e : DeltaError)
      → apply_immutable digits p.published_value (op ∷ ops) ≡ err e
      → publish digits p (op ∷ ops) ≡ (record p { sequence = suc p.sequence }, thrown (delta e))
  unfolding publish
  publish_err p op ops e h = ground (arith, h)

  pub publish_ok :
      (p : Publisher) (op : Op) (ops : List Op) (v : Option Json)
      → apply_immutable digits p.published_value (op ∷ ops) ≡ ok v
      → publish digits p (op ∷ ops) ≡ (
        record { published_value = v; sequence = suc p.sequence },
        delivered update (suc p.sequence) v,
      )
  unfolding publish
  publish_ok p op ops v h = ground (arith, h)

  pub mirror_thrown :
      (c : Encoder) (d : Decoder) (p p' : Publisher) (r : Replica) (e : StateError) (ops : List Op)
      (batches : List (List Op))
      → publish digits p ops ≡ (p', thrown e)
      → mirror digits c d p r (ops ∷ batches) ≡ mirror digits c d p' r batches
  unfolding mirror
  mirror_thrown c d p p' r e ops batches h =
      rw (h, mirror) (ap (λ x. mirror digits c d x.0 r batches) h)

  pub mirror_delivered :
      (c : Encoder) (d d' : Decoder) (p p' : Publisher) (r : Replica) (k : Delivery) (n : ℕ)
      (v : Option Json) (ops : List Op) (batches : List (List Op))
      → publish digits p ops ≡ (p', delivered k n v)
      → decode d ((encode c ops).1) ≡ ok (d', ops)
      → mirror digits c d p r (ops ∷ batches)
        ≡ mirror digits ((encode c ops).0) d' p' ((update_replica digits r n ops).0) batches
  unfolding mirror
  mirror_delivered c d d' p p' r k n v ops batches h g = ground (arith, h, g)

  pub update_next :
      (r : Replica) (n : ℕ) (v w : Json) (ops : List Op)
      → r.value ≡ some v
      → r.sequence ≡ some n
      → apply_immutable digits (some v) ops ≡ ok (some w)
      → (update_replica digits r (suc n) ops).0 ≡ record { value = some w; sequence = some (suc n) }
  unfolding update_replica
  update_next r n v w ops a b h = ground (arith, a, b, h)

  pub not_thrown :
      (p p' : Publisher) (e : StateError) (ops : List Op) (batches : List (List Op))
      → all_published digits p (ops ∷ batches) ≡ true
      → publish digits p ops ≢ (p', thrown e)
  unfolding all_published
  not_thrown p p' e ops batches s h = ground (arith, h, s)

  pub all_delivered :
      (p p' : Publisher) (k : Delivery) (n : ℕ) (v : Option Json) (ops : List Op)
      (batches : List (List Op))
      → publish digits p ops ≡ (p', delivered k n v)
      → all_published digits p (ops ∷ batches) ≡ all_published digits p' batches
  unfolding all_published
  all_delivered p p' k n v ops batches h = ground (arith, h)
