-- ===== src/Protocol/Cbor/Decoder.antt =====
-- The class `CborReader` and `decodeCbor` of packages/protocol/src/cbor/decoder.ts. A reader is the
-- list of the bytes that it has not read.
use Prim.Native.Nat.{bit_and}
use livi_agent.Prelude.{
  ℕ, zero, suc, ◌+◌, ◌*◌, ◌/◌, ◌^◌, true, false, not, Option, none, some, List, [], ◌∷◌, ltb, leb,
  length, take, drop, contains, ◌==◌, nat_eq, list_eq, if◌then◌else◌,
}
use livi_agent.Protocol.Framing.{Bytes, empty}
use livi_agent.Protocol.Cbor.{
  CborError, Result, ok, err, guard, Options, Platform, Text, Value, Items, Fields, null, bool,
  integer, float, text, bytes, array, map, nil, cons, end, field, pos, negsuc, is_safe, integral,
  fraction, infinite, Float64, uint32_base, ◌>>=◌, ◌>>◌, too_many_bytes, too_deep,
  container_too_long, text_not_unicode, not_finite_number, unsafe_integer, truncated, trailing_data,
  bad_argument, key_not_text, duplicate_key, tag_not_supported, bad_simple, out_of_fuel,
}

unfoldable pub read_byte : Bytes → Result (ℕ × Bytes)
read_byte [] = err truncated
read_byte (b ∷ bs) = ok (b, bs)

unfoldable pub read_bytes : ℕ → Bytes → Result (Bytes × Bytes)
read_bytes n bs = if ltb (length bs) n then err truncated else ok (take n bs, drop n bs)

pub two_bytes : Bytes → ℕ
two_bytes (a ∷ b ∷ _) = a * 0x100 + b
two_bytes _ = 0

pub four_bytes : Bytes → ℕ
four_bytes (a ∷ b ∷ c ∷ d ∷ _) = a * 0x1000000 + b * 0x10000 + c * 0x100 + d
four_bytes _ = 0

unfoldable pub read_uint32 : Bytes → Result (ℕ × Bytes)
unfolding four_bytes
read_uint32 bs = do (four, rest) ← read_bytes 4 bs; ok (four_bytes four, rest)

unfoldable pub read_argument : ℕ → Bytes → Result (ℕ × Bytes)
unfolding two_bytes
read_argument info bs =
    if ltb info 24
    then ok (info, bs)
    else if info == 24
    then read_byte bs
    else if info == 25
    then (do (two, rest) ← read_bytes 2 bs; ok (two_bytes two, rest))
    else if info == 26
    then read_uint32 bs
    else if info == 27
    then (do
      (high, rest) ← read_uint32 bs
      (low, rest') ← read_uint32 rest
      guard (leb high 0x1fffff) unsafe_integer
      ok (high * uint32_base + low, rest'))
    else err bad_argument

unfoldable pub read_length : ℕ → ℕ → CborError → Bytes → Result (ℕ × Bytes)
read_length info limit over bs =
    if info == 31
    then err bad_argument
    else do (n, rest) ← read_argument info bs; guard (leb n limit) over; ok (n, rest)

-- What `readItem` returns for its caller.
abbrev pub ItemReader : Type 0
ItemReader = Bytes → Result (Value × Bytes)

unfoldable pub read_items : ItemReader → ℕ → Bytes → Result (Items × Bytes)
read_items item zero bs = ok (nil, bs)
read_items item (suc n) bs = do
  (v, rest) ← item bs
  (vs, rest') ← read_items item n rest
  ok (cons v vs, rest')

unfoldable pub as_key : Value → Result Text
as_key (text s) = ok s
as_key _ = err key_not_text

-- `keys` are the keys that were read before.
unfoldable pub read_fields : ItemReader → ℕ → List Text → Bytes → Result (Fields × Bytes)
unfolding as_key
read_fields item zero keys bs = ok (end, bs)
read_fields item (suc n) keys bs = do
  (key, rest) ← item bs
  k ← as_key key
  guard (not (contains k keys)) duplicate_key
  (v, rest') ← item rest
  (fs, rest'') ← read_fields item n (k ∷ keys) rest'
  ok (field k v fs, rest'')

module _ (p : Platform) (o : Options) where
  unfoldable pub float_value : Bytes → Float64 → Result Value
  float_value number infinite = err not_finite_number
  float_value number fraction = ok (float number)
  float_value number (integral z) = if is_safe z then ok (integer z) else err unsafe_integer

  unfoldable pub read_simple : ℕ → Bytes → Result (Value × Bytes)
  unfolding float_value
  read_simple info bs =
      if info == 20
      then ok (bool false, bs)
      else if info == 21
      then ok (bool true, bs)
      else if info == 22
      then ok (null, bs)
      else if info == 27
      then (do
        (number, rest) ← read_bytes 8 bs
        v ← float_value number (p.read_float64 number)
        ok (v, rest))
      else err bad_simple

  unfoldable pub text_value : Option Text → Result Value
  text_value none = err text_not_unicode
  text_value (some s) = ok (text s)

  -- The `switch` on the major type; `item` reads an item one level deeper.
  unfoldable pub read_major : ItemReader → ℕ → ℕ → Bytes → Result (Value × Bytes)
  unfolding text_value
  read_major item major info bs =
      if major == 0
      then (do (n, rest) ← read_argument info bs; ok (integer (pos n), rest))
      else if major == 1
      then (do
        (n, rest) ← read_argument info bs
        guard (is_safe (negsuc n)) unsafe_integer
        ok (integer (negsuc n), rest))
      else if major == 2
      then (do
        (n, rest) ← read_length info o.max_byte_length too_many_bytes bs
        (content, rest') ← read_bytes n rest
        ok (bytes content, rest'))
      else if major == 3
      then (do
        (n, rest) ← read_length info o.max_byte_length too_many_bytes bs
        (content, rest') ← read_bytes n rest
        v ← text_value (p.decode_text content)
        ok (v, rest'))
      else if major == 4
      then (do
        (n, rest) ← read_length info o.max_container_length container_too_long bs
        (vs, rest') ← read_items item n rest
        ok (array vs, rest'))
      else if major == 5
      then (do
        (n, rest) ← read_length info o.max_container_length container_too_long bs
        (fs, rest') ← read_fields item n [] rest
        ok (map fs, rest'))
      else if major == 6
      then err tag_not_supported
      else if major == 7
      then read_simple info bs
      else err bad_argument

  -- `readItem`; the fuel bounds the depth.
  unfoldable pub read_item : ℕ → ℕ → Bytes → Result (Value × Bytes)
  read_item zero depth bs = err out_of_fuel
  read_item (suc fuel) depth bs =
      let item = λ (rest : Bytes). read_item fuel (depth + 1) rest in
      do
        guard (leb depth o.max_depth) too_deep
        (initial, rest) ← read_byte bs
        read_major item (initial / 2 ^ 5) (bit_and initial 0x1f) rest

  -- Beyond the depth limit no item is read, so one level more is enough.
  unfoldable pub decode_cbor : Bytes → Result Value
  decode_cbor bs = do
    guard (leb (length bs) o.max_byte_length) too_many_bytes
    (v, rest) ← read_item (o.max_depth + 2) 0 bs
    guard (empty rest) trailing_data
    ok v
