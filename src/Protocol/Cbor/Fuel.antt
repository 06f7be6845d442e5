-- ===== src/Protocol/Cbor/Fuel.antt =====
-- The fuel of `decodeCbor` of packages/protocol/src/cbor/decoder.ts.
use livi_agent.Prelude.{
  ℕ, zero, suc, ◌+◌, ◌≤◌, ◌≢◌, Bool, true, false, Option, List, [], arith, leb, if◌then◌else◌,
  Bool-cases, inl, inr, length, ◌==◌, nat_eq,
}
use livi_agent.Protocol.Framing.{Bytes, empty}
use livi_agent.Protocol.Cbor.{
  CborError, Result, ok, err, guard, ◌>>=◌, ◌>>◌, Options, Platform, Text, Value, Float64,
  container_too_long, too_many_bytes, trailing_data, out_of_fuel, is_safe, negsuc, integer,
  duplicate_key, unsafe_integer,
}
use livi_agent.Protocol.Cbor.Decoder.{
  ItemReader, read_byte, read_bytes, read_uint32, read_argument, read_length, read_items,
  read_fields, read_simple, read_major, read_item, decode_cbor, as_key, float_value, text_value,
}

-- The result is none of the model's own.
abbrev Returns {ℓ} : {A : Type ℓ} → Result A → Type ℓ
Returns r = r ≢ err out_of_fuel

>>=-Returns {ℓ κ} :
    {A : Type ℓ} {B : Type κ} (m : Result A) (f : A → Result B)
    → Returns m
    → ((a : A) → Returns (f a))
    → Returns (m >>= f)
>>=-Returns (ok a) f h k = k a
>>=-Returns (err e) f h k = λ same. h (cc)

guard-Returns {κ} :
    {B : Type κ} (passes : Bool) (e : CborError) (r : Result B)
    → e ≢ out_of_fuel
    → Returns r
    → Returns (guard passes e >> r)
guard-Returns true e r d h = h
guard-Returns false e r d h = λ same. d (cc)

if-Returns {ℓ} :
    {A : Type ℓ} (test : Bool) (x y : Result A)
    → Returns x
    → Returns y
    → Returns (if test then x else y)
if-Returns true x y h k = h
if-Returns false x y h k = k

read_byte-Returns : (bs : Bytes) → Returns (read_byte bs)
unfolding read_byte
read_byte-Returns bs = ground arith

read_bytes-Returns : (n : ℕ) (bs : Bytes) → Returns (read_bytes n bs)
unfolding read_bytes
read_bytes-Returns n bs = ground arith

read_argument-Returns : (info : ℕ) (bs : Bytes) → Returns (read_argument info bs)
unfolding read_argument read_byte read_bytes read_uint32
read_argument-Returns info bs = ground arith

read_length-Returns :
    (info limit : ℕ) (over : CborError) (bs : Bytes)
    → over ≢ out_of_fuel
    → Returns (read_length info limit over bs)
unfolding read_length
read_length-Returns info limit over bs d =
    if-Returns (info == 31) _ _ (λ e. cc)
      (>>=-Returns (read_argument info bs) _ (read_argument-Returns info bs)
        λ read. guard-Returns (leb read.0 limit) over _ d (λ e. cc))

as_key-Returns : (v : Value) → Returns (as_key v)
unfolding as_key
as_key-Returns v = ground arith

read_items-Returns :
    (item : ItemReader) (n : ℕ) (bs : Bytes)
    → ((rest : Bytes) → Returns (item rest))
    → Returns (read_items item n bs)
unfolding read_items
read_items-Returns item zero bs h = λ e. cc
read_items-Returns item (suc n) bs h = >>=-Returns (item bs) _ (h bs) λ first.
    >>=-Returns (read_items item n first.1) _ (read_items-Returns item n first.1 h) λ others e. cc

read_fields-Returns :
    (item : ItemReader) (n : ℕ) (keys : List Text) (bs : Bytes)
    → ((rest : Bytes) → Returns (item rest))
    → Returns (read_fields item n keys bs)
unfolding read_fields
read_fields-Returns item zero keys bs h = λ e. cc
read_fields-Returns item (suc n) keys bs h = >>=-Returns (item bs) _ (h bs) λ key.
    >>=-Returns (as_key key.0) _ (as_key-Returns key.0) λ k.
      guard-Returns _ duplicate_key _ (λ e. cc)
        (>>=-Returns (item key.1) _ (h key.1) λ value.
          >>=-Returns (read_fields item n _ value.1) _ (read_fields-Returns item n _ value.1 h)
            λ others e. cc)

module _ (p : Platform) (o : Options) where
  float_value-Returns : (number : Bytes) (f : Float64) → Returns (float_value p o number f)
  unfolding float_value
  float_value-Returns number f = ground arith

  read_simple-Returns : (info : ℕ) (bs : Bytes) → Returns (read_simple p o info bs)
  unfolding read_simple
  read_simple-Returns info bs =
      if-Returns (info == 20) _ _ (λ e. cc)
        (if-Returns (info == 21) _ _ (λ e. cc)
          (if-Returns (info == 22) _ _ (λ e. cc)
            (if-Returns (info == 27) _ _
              (>>=-Returns (read_bytes 8 bs) _ (read_bytes-Returns 8 bs) λ number.
                >>=-Returns (float_value p o number.0 (p.read_float64 number.0)) _
                  (float_value-Returns number.0 (p.read_float64 number.0)) λ v e. cc)
              (λ e. cc))))

  text_value-Returns : (s : Option Text) → Returns (text_value p o s)
  unfolding text_value
  text_value-Returns s = ground arith

  read_major-Returns :
      (item : ItemReader) (major info : ℕ) (bs : Bytes)
      → ((rest : Bytes) → Returns (item rest))
      → Returns (read_major p o item major info bs)
  unfolding read_major
  read_major-Returns item major info bs h =
      if-Returns (major == 0) _ _
        (>>=-Returns (read_argument info bs) _ (read_argument-Returns info bs) λ n e. cc)
        (if-Returns (major == 1) _ _
          (>>=-Returns (read_argument info bs) _ (read_argument-Returns info bs) λ n.
            guard-Returns (is_safe (negsuc n.0)) unsafe_integer (ok (integer (negsuc n.0), n.1))
              (λ e. cc) (λ e. cc))
          (if-Returns (major == 2) _ _
            (>>=-Returns (read_length info o.max_byte_length too_many_bytes bs) _
              (read_length-Returns info o.max_byte_length too_many_bytes bs (λ e. cc))
              λ n. >>=-Returns (read_bytes n.0 n.1) _ (read_bytes-Returns n.0 n.1) λ content e. cc)
            (if-Returns (major == 3) _ _
              (>>=-Returns (read_length info o.max_byte_length too_many_bytes bs) _
                (read_length-Returns info o.max_byte_length too_many_bytes bs (λ e. cc))
                λ n. >>=-Returns (read_bytes n.0 n.1) _ (read_bytes-Returns n.0 n.1) λ content.
                  >>=-Returns (text_value p o (p.decode_text content.0)) _ (text_value-Returns _)
                    λ v e. cc)
              (if-Returns (major == 4) _ _
                (>>=-Returns (read_length info o.max_container_length container_too_long bs) _
                  (read_length-Returns info o.max_container_length container_too_long bs (λ e. cc))
                  λ n.
                    >>=-Returns (read_items item n.0 n.1) _ (read_items-Returns item n.0 n.1 h)
                      λ vs e. cc)
                (if-Returns (major == 5) _ _
                  (>>=-Returns (read_length info o.max_container_length container_too_long bs) _
                    (read_length-Returns info o.max_container_length container_too_long bs
                      (λ e. cc))
                    λ n.
                      >>=-Returns (read_fields item n.0 [] n.1) _
                        (read_fields-Returns item n.0 [] n.1 h) λ fs e. cc)
                  (if-Returns (major == 6) _ _ (λ e. cc)
                    (if-Returns (major == 7) _ _ (read_simple-Returns info bs) (λ e. cc))))))))

  -- One level beyond the depth limit the test of the depth ends the reading.
  read_item-Returns :
      (fuel depth : ℕ) (bs : Bytes)
      → depth ≤ o.max_depth + 1
      → o.max_depth + 2 ≤ fuel + depth
      → Returns (read_item p o fuel depth bs)
  unfolding read_item
  read_item-Returns zero depth bs le enough = absurd (omega arith)
  read_item-Returns (suc fuel) depth bs le enough = elim (Bool-cases (leb depth o.max_depth)) [
    | inr deep ↦ rw deep (λ e. cc)
    | inl fits ↦ rw fits (
        >>=-Returns (read_byte bs) _ (read_byte-Returns bs) λ initial.
          read_major-Returns (λ rest. read_item p o fuel (depth + 1) rest) _ _ initial.1
            (λ rest. read_item-Returns fuel (depth + 1) rest (ground arith) (omega arith)))
  ]

-- The decoder always ends: on every input and under all limits it returns a value or throws one of its
-- own errors, so the nesting that the fuel allows is never exhausted.
pub decode_cbor_returns :
    (p : Platform) (o : Options) (bs : Bytes) → decode_cbor p o bs ≢ err out_of_fuel
unfolding decode_cbor
decode_cbor_returns p o bs =
    guard-Returns (leb (length bs) o.max_byte_length) too_many_bytes _ (λ e. cc)
      (>>=-Returns (read_item p o (o.max_depth + 2) 0 bs) _
        (read_item-Returns p o (o.max_depth + 2) 0 bs (omega arith) (omega arith))
        λ item. guard-Returns (empty item.1) trailing_data _ (λ e. cc) (λ e. cc))
