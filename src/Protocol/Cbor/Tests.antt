-- ===== src/Protocol/Cbor/Tests.antt =====
-- Runs of the codec of packages/protocol/src/cbor on small data, on a platform whose strings are
-- ASCII and whose doubles are no integers.
use livi_agent.Prelude.{◌≡◌, ◌≢◌, refl, some, [], ◌∷◌, arith}
use livi_agent.Protocol.Cbor.Fuel.{decode_cbor_returns}
use livi_agent.Protocol.Framing.{Bytes}
use livi_agent.Protocol.Cbor.{
  err, out_of_fuel, is_safe, Platform, Options, Value, integer, array, map, nil, cons, end, field,
  pos, negsuc, undefined, null, fraction, ok,
}
use livi_agent.Protocol.Cbor.Clean.{strip, IsClean}
use livi_agent.Protocol.Cbor.Writer.{
  Writer, new_writer, write_byte, write_uint16, ensure_capacity, store, grow, new_writer-IsWriter,
  write_bytes, write_bytes-fits, Appends, finish,
}
use livi_agent.Protocol.Cbor.Encoder.{
  encode_cbor, encode_value, encode_body, write_argument, count_items, count_entries, encode_text,
  same_text, is_undefined,
}
use livi_agent.Protocol.Cbor.Decoder.{decode_cbor}
use livi_agent.Protocol.Cbor.RoundTrip.{decode-encode}

abbrev ascii : Platform
ascii = record { encode_text = λ s. s; decode_text = λ bs. some bs; read_float64 = λ bs. fraction }

abbrev limits : Options
limits = record { max_byte_length = 100; max_container_length = 10; max_depth = 4 }

abbrev sample : Value
sample = map (
    field (97 ∷ []) (array (cons (integer (pos 300)) (cons null nil)))
      (field (98 ∷ []) undefined (field (99 ∷ []) (integer (negsuc 4)) end)))

abbrev sample_bytes : Bytes
sample_bytes = 0xa2 ∷ 0x61 ∷ 97 ∷ 0x82 ∷ 0x19 ∷ 1 ∷ 44 ∷ 0xf6 ∷ 0x61 ∷ 99 ∷ 0x24 ∷ []

decode-encode_example : decode_cbor ascii limits sample_bytes ≡ ok (strip sample)
unfolding encode_cbor encode_value encode_body new_writer write_argument write_byte write_bytes
    write_uint16 count_items count_entries is_undefined encode_text finish IsClean same_text
    ensure_capacity store grow is_safe
decode-encode_example =
    decode-encode ascii limits sample sample_bytes
      (record { bytes_limit = omega arith; container_limit = omega arith })
      (refl, (tt, (tt, tt)), (refl, tt, tt)) refl

write_bytes-fits_example :
    (w' : Writer) × (write_bytes (7 ∷ 8 ∷ []) (new_writer 3) ≡ ok w')
    × Appends (new_writer 3) w' (7 ∷ 8 ∷ [])
unfolding new_writer
write_bytes-fits_example =
    write_bytes-fits (7 ∷ 8 ∷ []) (new_writer 3) (new_writer-IsWriter 3) (omega arith)

abbrev default_limits : Options
default_limits = record {
  max_byte_length = 16777216;
  max_container_length = 1_000_000;
  max_depth = 64;
}

decode_cbor_returns_example : decode_cbor ascii limits sample_bytes ≢ err out_of_fuel
decode_cbor_returns_example = decode_cbor_returns ascii limits sample_bytes
