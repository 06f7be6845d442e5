-- ===== src/Protocol/Cbor/Encoder.antt =====
-- `writeArgument`, `encodeText`, `encodeValue` and `encodeCbor` of
-- packages/protocol/src/cbor/encoder.ts.
use Prim.Native.Nat.{bit_or}
use livi_agent.Prelude.{
  ℕ, suc, ◌+◌, ◌*◌, ◌^◌, Bool, true, false, not, Option, none, some, ltb, leb, length, ◌==◌,
  list_eq, nat_eq, if◌then◌else◌,
}
use livi_agent.Protocol.Framing.{Bytes, max_uint32}
use livi_agent.Protocol.Cbor.{
  Result, ok, err, guard, Options, Platform, Text, Value, Items, Fields, null, undefined, bool,
  integer, float, not_finite, text, bytes, array, map, other, nil, cons, end, field, pos, negsuc,
  is_safe, ◌>>=◌, ◌>>◌, too_many_bytes, too_deep, container_too_long, text_not_unicode,
  not_finite_number, unsafe_integer, hole_or_undefined, unsupported_value,
}
use livi_agent.Protocol.Cbor.Writer.{
  Writer, new_writer, write_byte, write_bytes, write_uint16, write_uint32, write_uint64,
  write_float64, finish,
}

unfoldable pub write_argument : ℕ → ℕ → Writer → Result Writer
write_argument major value w =
    let prefix = major * 2 ^ 5 in
    if ltb value 24
    then write_byte (bit_or prefix value) w
    else if leb value 0xff
    then (do w' ← write_byte (bit_or prefix 24) w; write_byte value w')
    else if leb value 0xffff
    then (do w' ← write_byte (bit_or prefix 25) w; write_uint16 value w')
    else if leb value max_uint32
    then (do w' ← write_byte (bit_or prefix 26) w; write_uint32 value w')
    else do w' ← write_byte (bit_or prefix 27) w; write_uint64 value w'

unfoldable pub count_items : Items → ℕ
count_items nil = 0
count_items (cons v xs) = suc (count_items xs)

unfoldable pub is_undefined : Value → Bool
is_undefined undefined = true
is_undefined v = false

-- The entries whose value is not `undefined`.
unfoldable pub count_entries : Fields → ℕ
count_entries end = 0
count_entries (field k v fs) =
    let rest = count_entries fs in if is_undefined v then rest else suc rest

-- `textDecoder.decode(bytes) === value`.
unfoldable pub same_text : Text → Option Text → Bool
same_text s none = false
same_text s (some t) = t == s

module _ (p : Platform) (o : Options) where
  unfoldable pub encode_text : Text → Writer → Result Writer
  unfolding same_text
  encode_text s w = do
    guard (leb (length (p.encode_text s)) o.max_byte_length) too_many_bytes
    guard (same_text s (p.decode_text (p.encode_text s))) text_not_unicode
    w' ← write_argument 3 (length (p.encode_text s)) w
    write_bytes (p.encode_text s) w'

  abbrev check_depth : ℕ → Result (Unit {0})
  check_depth depth = guard (leb depth o.max_depth) too_deep

  -- `encodeValue` behind its test of the depth, which its callers below make.
  unfoldable mutual
    pub encode_body : Value → ℕ → Writer → Result Writer
    encode_body null depth w = write_byte 0xf6 w
    encode_body (bool b) depth w = write_byte (if b then 0xf5 else 0xf4) w
    encode_body not_finite depth w = err not_finite_number
    encode_body (integer z) depth w = do
      guard (is_safe z) unsafe_integer
      elim z [ pos n ↦ write_argument 0 n w | negsuc n ↦ write_argument 1 n w ]
    encode_body (float number) depth w = write_float64 number w
    encode_body (text s) depth w = encode_text s w
    encode_body (bytes bs) depth w = do
      guard (leb (length bs) o.max_byte_length) too_many_bytes
      w' ← write_argument 2 (length bs) w
      write_bytes bs w'
    encode_body (array xs) depth w = do
      guard (leb (count_items xs) o.max_container_length) container_too_long
      w' ← write_argument 4 (count_items xs) w
      encode_items xs (depth + 1) w'
    encode_body (map fs) depth w = do
      guard (leb (count_entries fs) o.max_container_length) container_too_long
      w' ← write_argument 5 (count_entries fs) w
      encode_fields fs (depth + 1) w'
    encode_body undefined depth w = err unsupported_value
    encode_body other depth w = err unsupported_value

    pub encode_items : Items → ℕ → Writer → Result Writer
    encode_items nil depth w = ok w
    encode_items (cons v xs) depth w = do
      guard (not (is_undefined v)) hole_or_undefined
      check_depth depth
      w' ← encode_body v depth w
      encode_items xs depth w'

    pub encode_fields : Fields → ℕ → Writer → Result Writer
    encode_fields end depth w = ok w
    encode_fields (field k v fs) depth w =
        let rest = λ (w' : Writer). encode_fields fs depth w' in
        let entry : Result Writer = (do
          w1 ← encode_text k w
          check_depth depth
          w2 ← encode_body v depth w1
          rest w2) in
        if is_undefined v then rest w else entry

  unfoldable pub encode_value : Value → ℕ → Writer → Result Writer
  encode_value v depth w = do check_depth depth; encode_body v depth w

  unfoldable pub encode_cbor : Value → Result Bytes
  encode_cbor v = do w ← encode_value v 0 (new_writer o.max_byte_length); ok (finish w)
