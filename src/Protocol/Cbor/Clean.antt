-- ===== src/Protocol/Cbor/Clean.antt =====
-- The values and the limits for which encoding by packages/protocol/src/cbor can be undone.
use livi_agent.Prelude.{
  ℕ, ◌≤◌, ◌≡◌, false, Option, List, [], ◌∷◌, if◌then◌else◌, length, arith, contains, list_eq,
  nat_eq,
}
use livi_agent.Protocol.Framing.{max_uint32}
use livi_agent.Protocol.Cbor.{
  ok, resolve_options, resolve_limit, max_configured_depth, Options, Platform, Text, Value, Items,
  Fields, float, array, map, nil, cons, end, field, fraction,
}
use livi_agent.Protocol.Cbor.Encoder.{is_undefined}

-- The value that the encoder writes: without the entries of a map that are `undefined`.
unfoldable mutual
  pub strip : Value → Value
  strip (array xs) = array (strip_items xs)
  strip (map fs) = map (strip_fields fs)
  strip v = v

  pub strip_items : Items → Items
  strip_items nil = nil
  strip_items (cons v xs) = cons (strip v) (strip_items xs)

  pub strip_fields : Fields → Fields
  strip_fields end = end
  strip_fields (field k v fs) =
      let kept = field k (strip v) (strip_fields fs) in
      let rest = strip_fields fs in if is_undefined v then rest else kept

module _ (p : Platform) where
  -- A float is eight bytes of a number that is no integer, and the keys of a map are distinct.
  unfoldable mutual
    pub IsClean : Value → Type 0
    IsClean (float number) = (length number ≡ 8) × (p.read_float64 number ≡ fraction)
    IsClean (array xs) = IsCleanItems xs
    IsClean (map fs) = IsCleanFields [] fs
    IsClean v = Unit {0}

    pub IsCleanItems : Items → Type 0
    IsCleanItems nil = Unit {0}
    IsCleanItems (cons v xs) = IsClean v × IsCleanItems xs

    pub IsCleanFields : List Text → Fields → Type 0
    IsCleanFields keys end = Unit {0}
    IsCleanFields keys (field k v fs) =
        if is_undefined v
        then IsCleanFields keys fs
        else (contains k keys ≡ false) × IsClean v × IsCleanFields (k ∷ keys) fs

-- The limits that `resolveOptions` lets through.
pub record IsResolved (o : Options) : Type 0 where
  pub bytes_limit : o.max_byte_length ≤ max_uint32
  pub container_limit : o.max_container_length ≤ max_uint32

-- The limits that `resolveOptions` returns fit 32 bits, and no depth is over the configured maximum.
pub resolve_options-IsResolved :
    (b c d : Option ℕ) (o : Options)
    → resolve_options b c d ≡ ok o
    → IsResolved o × (o.max_depth ≤ max_configured_depth)
unfolding resolve_options resolve_limit
resolve_options-IsResolved b c d o e =
    (record { bytes_limit = ground arith; container_limit = ground arith }, ground arith)
