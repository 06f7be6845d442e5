-- ===== src/Protocol/Cbor/RoundTrip.antt =====
-- `decodeCbor` after `encodeCbor` of packages/protocol/src/cbor.
use livi_agent.Prelude.{
  ℕ, ◌+◌, ◌≤◌, ◌≡◌, refl, sym, subst, ap, ◌∙◌, true, false, not, List, [], ◌∷◌, ◌++◌, leb, length,
  arith, Bool-cases, inl, inr, contains, list_eq, nat_eq, append-nil,
}
use livi_agent.Protocol.Framing.{Bytes}
use livi_agent.Protocol.Cbor.{
  ok, Options, Platform, Text, Value, Items, Fields, null, undefined, bool, integer, float,
  not_finite, text, bytes, array, map, other, nil, cons, end, field, too_deep, hole_or_undefined,
}
use livi_agent.Protocol.Cbor.Writer.{
  take_all, Writer, IsWriter, Appends, Appends-trans, new_writer, new_writer-IsWriter, finish,
  >>=-eq-ok, guard-eq-ok, ok-injective,
}
use livi_agent.Protocol.Cbor.Encoder.{
  encode_text, encode_body, encode_items, encode_fields, encode_value, encode_cbor, count_items,
  count_entries, is_undefined,
}
use livi_agent.Protocol.Cbor.Decoder.{read_item, decode_cbor}
use livi_agent.Protocol.Cbor.Clean.{
  strip, strip_items, strip_fields, IsClean, IsCleanItems, IsCleanFields, IsResolved,
}
use livi_agent.Protocol.Cbor.Leaves.{
  Reads, Written, null-Written, bool-Written, float-Written, integer-Written, bytes-Written,
  text-Written,
}
use livi_agent.Protocol.Cbor.Containers.{
  Appends-ok, ReadsItems, ReadsFields, reads_nil, reads_end, items_cons, fields_field,
  array-Written, map-Written,
}

module _ (p : Platform) (o : Options) where
  mutual
    unfolding encode_body strip IsClean count_items count_entries

    body-Written :
        (v : Value) (depth : ℕ) (w w' : Writer)
        → IsResolved o
        → IsClean p v
        → depth ≤ o.max_depth
        → IsWriter w
        → encode_body p o v depth w ≡ ok w'
        → Written p o (strip v) depth w w'
    body-Written null depth w w' limits c le u e = null-Written p o depth w w' le u e
    body-Written undefined depth w w' limits c le u e = cc
    body-Written (bool b) depth w w' limits c le u e = bool-Written p o b depth w w' le u e
    body-Written (integer z) depth w w' limits c le u e = integer-Written p o z depth w w' le u e
    body-Written (float number) depth w w' limits c le u e =
        float-Written p o number depth w w' le u c.0 c.1 e
    body-Written not_finite depth w w' limits c le u e = cc
    body-Written (text s) depth w w' limits c le u e = text-Written p o s depth w w' limits le u e
    body-Written (bytes bs) depth w w' limits c le u e =
        bytes-Written p o bs depth w w' limits le u e
    body-Written (array xs) depth w w' limits c le u e =
        array-Written p o xs (strip_items xs) depth w w' limits le u e
          (λ w1 u1 f. items_written xs (depth + 1) w1 w' limits c u1 f)
    body-Written (map fs) depth w w' limits c le u e =
        map-Written p o fs (strip_fields fs) depth w w' limits le u e
          (λ w1 u1 f. fields_written fs [] (depth + 1) w1 w' limits c u1 f)
    body-Written other depth w w' limits c le u e = cc

    items_written :
        (xs : Items) (depth : ℕ) (w w' : Writer)
        → IsResolved o
        → IsCleanItems p xs
        → IsWriter w
        → encode_items p o xs depth w ≡ ok w'
        → (bs : Bytes) × Appends w w' bs × ReadsItems p o (strip_items xs) (count_items xs) depth bs
    items_written nil depth w w' limits c u e =
        ([], Appends-ok p o w w' u e, λ fuel rest enough. reads_nil p o fuel depth rest)
    items_written (cons v xs) depth w w' limits c u e =
        let (defined, e1) = guard-eq-ok (not (is_undefined v)) hole_or_undefined _ e in
        let (shallow, e2) = guard-eq-ok (leb depth o.max_depth) too_deep _ e1 in
        let (w1, f, g) = >>=-eq-ok (encode_body p o v depth w) (encode_items p o xs depth) e2 in
        let (bs, a, r) = body-Written v depth w w1 limits c.0 (ground arith) u f in
        let (cs, b, q) = items_written xs depth w1 w' limits c.1 a.valid g in
        (
          bs ++ cs,
          Appends-trans bs cs a b,
          items_cons p o (strip v) (strip_items xs) (count_items xs) depth bs cs r q,
        )

    fields_written :
        (fs : Fields) (keys : List Text) (depth : ℕ) (w w' : Writer)
        → IsResolved o
        → IsCleanFields p keys fs
        → IsWriter w
        → encode_fields p o fs depth w ≡ ok w'
        → (bs : Bytes) × Appends w w' bs
          × ReadsFields p o (strip_fields fs) (count_entries fs) keys depth bs
    fields_written end keys depth w w' limits c u e =
        ([], Appends-ok p o w w' u e, λ fuel rest enough. reads_end p o fuel depth keys rest)
    fields_written (field k v fs) keys depth w w' limits c u e =
        elim (Bool-cases (is_undefined v)) [
          | inl gone ↦
              rw gone (fields_written fs keys depth w w' limits (rw gone at c) u (rw gone at e))
          | inr kept ↦
              let c' : (contains k keys ≡ false) × IsClean p v × IsCleanFields p (k ∷ keys) fs =
                rw kept at c in
              let (w1, f, e1) = >>=-eq-ok (encode_text p o k w) _ (rw kept at e) in
              let (shallow, e2) = guard-eq-ok (leb depth o.max_depth) too_deep _ e1 in
              let deep_enough : depth ≤ o.max_depth = ground arith in
              let (ks, ka, kr) = text-Written p o k depth w w1 limits deep_enough u f in
              let (w2, g, h) =
                >>=-eq-ok (encode_body p o v depth w1) (encode_fields p o fs depth) e2 in
              let (bs, a, r) = body-Written v depth w1 w2 limits c'.1 deep_enough ka.valid g in
              let (cs, b, q) = fields_written fs (k ∷ keys) depth w2 w' limits c'.2 a.valid h in
              (
                ks ++ (bs ++ cs),
                Appends-trans ks (bs ++ cs) ka (Appends-trans bs cs a b),
                rw kept (
                    fields_field p o k (strip v) (strip_fields fs) (count_entries fs) depth keys ks
                      bs cs c'.0 kr r q),
              )
        ]

  finish_lem :
      (w : Writer) (out bs : Bytes)
      → w.written ≡ out
      → IsWriter w
      → ok (finish w) ≡ ok bs
      → out ≡ bs
  unfolding finish
  finish_lem w out bs h u e =
      sym h ∙ (sym (take_all w.written w.offset (omega (arith, u.stored))) ∙ ok-injective e)

  read_whole :
      (v : Value) (bs : Bytes)
      → length bs ≤ o.max_byte_length
      → Reads p o v 0 bs
      → decode_cbor p o bs ≡ ok v
  unfolding decode_cbor
  read_whole v bs short reads =
      let fits : leb (length bs) o.max_byte_length ≡ true = ground arith in
      let whole : read_item p o (o.max_depth + 2) 0 bs ≡ ok (v, []) =
        subst (λ l. read_item p o (o.max_depth + 2) 0 l ≡ ok (v, [])) (append-nil bs)
          (reads (o.max_depth + 2) [] (omega arith)) in
      rw fits (rw whole refl)

  written_whole :
      (v : Value) (w : Writer) (out bs : Bytes)
      → Appends (new_writer o.max_byte_length) w out
      → Reads p o (strip v) 0 out
      → ok (finish w) ≡ ok bs
      → decode_cbor p o bs ≡ ok (strip v)
  unfolding new_writer
  written_whole v w out bs a r e =
      let all = finish_lem w out bs a.appended a.valid e in
      let short : length out ≤ o.max_byte_length =
        omega (
          arith,
          ap length a.appended,
          a.valid.stored,
          a.valid.room,
          a.valid.within,
          a.same_limit,
        ) in
      subst (λ l. decode_cbor p o l ≡ ok (strip v)) all (read_whole (strip v) out short r)

-- Encoding and decoding agree. Take a value whose maps have distinct keys and whose floats are eight
-- bytes that the platform reads as a number that is no integer. If `encodeCbor` accepts it, under byte
-- and container limits of 32 bits, then `decodeCbor` under the same limits accepts its bytes and
-- returns that value, less the map entries that are `undefined`.
pub decode-encode :
    (p : Platform) (o : Options) (v : Value) (bs : Bytes)
    → IsResolved o
    → IsClean p v
    → encode_cbor p o v ≡ ok bs
    → decode_cbor p o bs ≡ ok (strip v)
unfolding encode_cbor encode_value new_writer
decode-encode p o v bs limits c e =
    let start = new_writer o.max_byte_length in
    let (w, f, g) = >>=-eq-ok (encode_value p o v 0 start) _ e in
    let (shallow, h) = guard-eq-ok (leb 0 o.max_depth) too_deep _ f in
    let (out, a, r) =
      body-Written p o v 0 start w limits c (omega arith) (new_writer-IsWriter o.max_byte_length)
        h in
    written_whole p o v w out bs a r g
