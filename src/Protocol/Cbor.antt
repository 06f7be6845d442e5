-- ===== src/Protocol/Cbor.antt =====
-- packages/protocol/src/cbor/options.ts, and the values that the codec reads and writes.
pub mod Writer
pub mod Encoder
pub mod Decoder
mod Arguments
pub mod Clean
mod Leaves
mod Containers
pub mod RoundTrip
pub mod Fuel
mod Tests
use livi_agent.Prelude.{
  ℕ, ◌^◌, ◌-◌, ◌*◌, Bool, true, false, Option, none, some, List, if◌then◌else◌, ltb, String,
}
use livi_agent.Protocol.Framing.{Bytes, max_uint32}

abbrev pub uint32_base : ℕ
uint32_base = 0x100000000

abbrev pub max_configured_depth : ℕ
max_configured_depth = 512

abbrev default_max_cbor_byte_length : ℕ
default_max_cbor_byte_length = 16 * 1024 * 1024

abbrev default_max_cbor_container_length : ℕ
default_max_cbor_container_length = 1_000_000

abbrev default_max_cbor_depth : ℕ
default_max_cbor_depth = 64

-- The errors that the codec throws; `out_of_fuel` is none of the code's.
pub data CborError : Type 0 where
  bad_option : CborError
  too_many_bytes : CborError
  too_deep : CborError
  container_too_long : CborError
  text_not_unicode : CborError
  not_finite_number : CborError
  unsafe_integer : CborError
  hole_or_undefined : CborError
  unsupported_value : CborError
  truncated : CborError
  trailing_data : CborError
  bad_argument : CborError
  key_not_text : CborError
  duplicate_key : CborError
  tag_not_supported : CborError
  bad_simple : CborError
  out_of_fuel : CborError

pub data Result {ℓ} (A : Type ℓ) : Type ℓ where
  ok : A → Result A
  err : CborError → Result A

-- A throw ends the rest of a function.
abbrev pub ◌>>=◌ {ℓ κ} : {V : Type ℓ} {W : Type κ} → Result V → (V → Result W) → Result W
err thrown >>= rest = err thrown
ok value >>= rest = rest value

infixl 5 ◌>>=◌
-- `if (!passes) throw error`.
abbrev pub guard : Bool → CborError → Result (Unit {0})
guard passes error = if passes then ok tt else err error

abbrev pub ◌>>◌ {ℓ} : {W : Type ℓ} → Result (Unit {0}) → Result W → Result W
checked >> rest = checked >>= λ _. rest

infixl 5 ◌>>◌
-- `ResolvedCborOptions`.
pub record Options : Type 0 where
  pub max_byte_length : ℕ
  pub max_container_length : ℕ
  pub max_depth : ℕ

pub resolve_limit : ℕ → ℕ → Result ℕ
resolve_limit value maximum = if ltb maximum value then err bad_option else ok value

pub or_default : Option ℕ → ℕ → ℕ
or_default none d = d
or_default (some n) d = n

pub resolve_options : Option ℕ → Option ℕ → Option ℕ → Result Options
unfolding resolve_limit or_default
resolve_options bytes container depth = do
  b ← resolve_limit (or_default bytes default_max_cbor_byte_length) max_uint32
  c ← resolve_limit (or_default container default_max_cbor_container_length) max_uint32
  d ← resolve_limit (or_default depth default_max_cbor_depth) max_configured_depth
  ok (record { max_byte_length = b; max_container_length = c; max_depth = d })

-- `negsuc n` is -1 - n.
pub data ℤ : Type 0 where
  pos : ℕ → ℤ
  negsuc : ℕ → ℤ

-- The code units of a string.
abbrev pub Text : Type 0
Text = List ℕ

-- A JavaScript value. A number is an integer other than -0, infinite or not a number, or any other,
-- which is its eight bytes. `other` is a value of a type that the codec does not know. Values are
-- finite trees, so the encoder's test for cycles never fires.
mutual
  pub data Value : Type 0 where
    null : Value
    undefined : Value
    bool : Bool → Value
    integer : ℤ → Value
    float : Bytes → Value
    not_finite : Value
    text : Text → Value
    bytes : Bytes → Value
    array : Items → Value
    map : Fields → Value
    other : Value

  pub data Items : Type 0 where
    nil : Items
    cons : Value → Items → Items

  pub data Fields : Type 0 where
    end : Fields
    field : Text → Value → Fields → Fields

-- What `DataView.getFloat64` reads.
pub data Float64 : Type 0 where
  integral : ℤ → Float64
  fraction : Float64
  infinite : Float64

-- The platform: `TextEncoder`, the fatal `TextDecoder` and the reading of eight bytes as a double.
-- `fraction` says that the bytes are a finite number that is no integer, or -0.
pub record Platform : Type 0 where
  pub encode_text : Text → Bytes
  pub decode_text : Bytes → Option Text
  pub read_float64 : Bytes → Float64

-- `Number.isSafeInteger`.
unfoldable pub is_safe : ℤ → Bool
is_safe (pos n) = ltb n (2 ^ 53)
is_safe (negsuc n) = ltb n (2 ^ 53 - 1)
