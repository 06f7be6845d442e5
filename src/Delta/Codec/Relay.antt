-- ===== src/Delta/Codec/Relay.antt =====
-- Batches that go from an encoder to a decoder, one after another.
use livi_agent.Prelude.{none, List, [], ◌∷◌, nat_eq, list_eq, ◌≡◌, refl, All}
use livi_agent.Prelude.Assoc
use livi_agent.Prelude.Assoc.{put}
use livi_agent.Delta.{Json, seg_eq, Op, Result, ok, ◌>>=◌}
use livi_agent.Delta.Codec.{
  WireOp, Encoder, encoder, encode_op, encode_ops, encode, Decoder, decoder, decode_op, decode_ops,
  decode,
}
use livi_agent.Delta.Codec.Refer.{KnowsIds}
use livi_agent.Delta.Codec.RoundTrip.{IsValidOp, decode_ops_cons, encode_ops-Reads}

-- Each batch is encoded and then decoded, in order.
unfoldable pub relay : Encoder → Decoder → List (List Op) → Result (List (List Op))
unfolding encode decode
relay c d [] = ok []
relay c d (ops ∷ batches) = do
  (d', got) ← decode d ((encode c ops).1)
  rest ← relay ((encode c ops).0) d' batches
  ok (got ∷ rest)

relay_cons :
    (c : Encoder) (d d' : Decoder) (ops : List Op) (batches : List (List Op))
    → decode d ((encode c ops).1) ≡ ok (d', ops)
    → relay ((encode c ops).0) d' batches ≡ ok batches
    → relay c d (ops ∷ batches) ≡ ok (ops ∷ batches)
unfolding relay
relay_cons c d d' ops batches h g = rw (h, g) refl

relay_paired :
    (c : Encoder) (d : Decoder) (batches : List (List Op))
    → KnowsIds c d
    → All (All IsValidOp) batches
    → relay c d batches ≡ ok batches
unfolding relay encode decode
relay_paired c d [] k h = refl
relay_paired c d (ops ∷ batches) k (v, h) =
    let c' = record c { previous = none } in
    let (d', a, k') = encode_ops-Reads c' (record d { previous = none }) ops (refl, k) v in
    relay_cons c d d' ops batches a (relay_paired ((encode c ops).0) d' batches k'.1 h)

pub fresh-KnowsIds : KnowsIds encoder decoder
unfolding encoder Assoc.get
fresh-KnowsIds p i g = cc

-- A new decoder reads every batch of valid operations of a new encoder as the operations that were
-- encoded, whatever ids and omitted paths are on the wire.
pub relay_lem :
    (batches : List (List Op))
    → All (All IsValidOp) batches
    → relay encoder decoder batches ≡ ok batches
relay_lem batches h = relay_paired encoder decoder batches fresh-KnowsIds h

-- A batch of valid operations that begins with `r` is a recovery point: whatever the encoder sent and the
-- decoder knew before, that batch and the batches of valid operations after it are read as they were
-- encoded.
pub relay-replace :
    (c : Encoder) (d : Decoder) (v : Json) (ops : List Op) (batches : List (List Op))
    → All IsValidOp ops
    → All (All IsValidOp) batches
    → relay c d ((Op.replace v ∷ ops) ∷ batches) ≡ ok ((Op.replace v ∷ ops) ∷ batches)
unfolding encode decode encode_ops encode_op decode_ops decode_op decoder encoder
relay-replace c d v ops batches s h =
    let (d', b, k) = encode_ops-Reads encoder decoder ops (refl, fresh-KnowsIds) s in
    let a =
      decode_ops_cons (record d { previous = none }) decoder d' (WireOp.replace v)
        ((encode_ops encoder ops).1) (Op.replace v ∷ []) ops refl b in
    relay_cons c d d' (Op.replace v ∷ ops) batches a
      (relay_paired ((encode_ops encoder ops).0) d' batches k.1 h)
