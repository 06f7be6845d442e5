-- ===== src/Delta/Codec/RoundTrip.antt =====
-- What the paired decoder makes of the encoder's operations.
use livi_agent.Prelude.{
  ◌&&◌, true, false, not, Option, none, some, List, [], ◌∷◌, ◌++◌, append_assoc, nat_eq, list_eq,
  list_beq_iff, ◌≡◌, refl, sym, ap, ◌∙◌, subst, inl, inr, arith, All, Bool-cases,
}
use livi_agent.Prelude.Assoc
use livi_agent.Prelude.Assoc.{put}
use livi_agent.Delta.{
  seg_eq, JsonPath, Edit, Op, ok, assert_safe_path, is_splice, is_empty_path, assert_valid_op,
  bind_ok, ok_inj,
}
use livi_agent.Delta.Codec.{
  WireOp, PathRef, Encoder, encoder, refer, is_previous, encode_op, encode_ops, Decoder, decoder,
  assert_valid_ref, resolve_ref, decode_op, decode_ops,
}
use livi_agent.Delta.Codec.Refer.{KnowsIds, refer-Resolves}

abbrev pub Paired : Encoder → Decoder → Type 0
Paired c d = (c.previous ≡ d.previous) × KnowsIds c d

abbrev pub IsValidOp : Op → Type 0
IsValidOp op = assert_valid_op op ≡ ok tt

-- A decoder reads an operation as it was and is then paired with the encoder.
abbrev pub Reads : Encoder → Decoder → List Op → Encoder × List WireOp → Type 0
Reads c d ops sent = (d' : Decoder) × (decode_ops d sent.1 ≡ ok (d', ops)) × Paired sent.0 d'

safe_lem :
    (path : JsonPath) (e : Edit)
    → IsValidOp (Op.change path e)
    → (assert_safe_path path ≡ ok tt) × ((not (is_splice e) && is_empty_path path) ≡ false)
unfolding assert_valid_op
safe_lem path e h = ground arith

pub decode_ops_cons :
    (d d' d'' : Decoder) (w : WireOp) (ws : List WireOp) (out rest : List Op)
    → decode_op d w ≡ ok (d', out)
    → decode_ops d' ws ≡ ok (d'', rest)
    → decode_ops d (w ∷ ws) ≡ ok (d'', out ++ rest)
unfolding decode_ops
decode_ops_cons d d' d'' w ws out rest h g = rw (h, g) refl

decode_ops-append :
    (d d' d'' : Decoder) (u v : List WireOp) (ops more : List Op)
    → decode_ops d u ≡ ok (d', ops)
    → decode_ops d' v ≡ ok (d'', more)
    → decode_ops d (u ++ v) ≡ ok (d'', ops ++ more)
unfolding decode_ops
decode_ops-append d d' d'' [] v ops more h g = ground (arith, h, g)
decode_ops-append d d' d'' (w ∷ u) v ops more h g =
    let ((d1, out), e, f) = bind_ok (decode_op d w) _ (d', ops) h in
    let ((d2, rest), e', f') = bind_ok (decode_ops d1 u) _ (d', ops) f in
    let t =
      decode_ops-append d1 d2 d'' u v rest more e'
        (subst (λ x. decode_ops x v ≡ ok (d'', more)) (sym (ap (λ x. x.0) (ok_inj f'))) g) in
    subst (λ x. decode_ops d (w ∷ (u ++ v)) ≡ ok (d'', x))
      (sym (append_assoc out rest more) ∙ ap (λ x. x.1 ++ more) (ok_inj f'))
      (decode_ops_cons d d1 d'' w (u ++ v) out (rest ++ more) e t)

decode_op_change :
    (d : Decoder) (ref : Option PathRef) (path : JsonPath) (e : Edit)
    → assert_valid_ref ref ≡ ok tt
    → resolve_ref d ref ≡ ok path
    → (not (is_splice e) && is_empty_path path) ≡ false
    → decode_ops d (WireOp.change ref e ∷ [])
      ≡ ok (record d { previous = some path }, Op.change path e ∷ [])
unfolding decode_ops decode_op
decode_op_change d ref path e v r n = rw (v, r, n) refl

encode_op_same :
    (c : Encoder) (path : JsonPath) (e : Edit)
    → is_previous c.previous path ≡ true
    → encode_op c (Op.change path e) ≡ (c, WireOp.change none e ∷ [])
unfolding encode_op
encode_op_same c path e q = rw q refl

encode_op_other :
    (c : Encoder) (path : JsonPath) (e : Edit)
    → is_previous c.previous path ≡ false
    → encode_op c (Op.change path e) ≡ (
      record ((refer c path).encoder) { previous = some path },
      (refer c path).definition ++ WireOp.change (some ((refer c path).ref)) e ∷ [],
    )
unfolding encode_op
encode_op_other c path e q = rw q refl

is_previous_lem :
    (o : Option JsonPath) (path : JsonPath) → is_previous o path ≡ true → o ≡ some path
is_previous_lem none path h = cc
is_previous_lem (some p) path h = ap some ((list_beq_iff p path).0 h)

encode_op-Reads :
    (c : Encoder) (d : Decoder) (op : Op)
    → Paired c d
    → IsValidOp op
    → Reads c d (op ∷ []) (encode_op c op)
unfolding encode_op decode_ops decode_op encoder decoder Assoc.get resolve_ref assert_valid_ref
encode_op-Reads c d (Op.replace v) k h = (decoder, refl, (refl, λ p i g. cc))
encode_op-Reads c d (Op.change path e) k h = elim (Bool-cases (is_previous c.previous path)) [
  | inl q ↦
      let p = is_previous_lem c.previous path q in
      subst (Reads c d (Op.change path e ∷ [])) (sym (encode_op_same c path e q)) (
        record d { previous = some path },
        decode_op_change d none path e refl (rw (sym k.0 ∙ p) refl) ((safe_lem path e h).1),
        (p, k.1),
      )
  | inr q ↦
      let (s, n) = safe_lem path e h in
      let r = refer c path in
      let (d', a, v, found, ids) = refer-Resolves c d path k.1 s in
      subst (Reads c d (Op.change path e ∷ [])) (sym (encode_op_other c path e q)) (
        record d' { previous = some path },
        decode_ops-append d d' _ r.definition (WireOp.change (some r.ref) e ∷ []) []
            (Op.change path e ∷ []) a (decode_op_change d' (some r.ref) path e v found n),
        (refl, ids),
      )
]

pub encode_ops-Reads :
    (c : Encoder) (d : Decoder) (ops : List Op)
    → Paired c d
    → All IsValidOp ops
    → Reads c d ops (encode_ops c ops)
unfolding encode_ops decode_ops
encode_ops-Reads c d [] k h = (d, refl, k)
encode_ops-Reads c d (op ∷ ops) k (v, h) =
    let (d', a, k') = encode_op-Reads c d op k v in
    let (d'', b, k'') = encode_ops-Reads ((encode_op c op).0) d' ops k' h in
    (
      d'',
      decode_ops-append d d' d'' ((encode_op c op).1) ((encode_ops ((encode_op c op).0) ops).1)
          (op ∷ []) ops a b,
      k'',
    )
