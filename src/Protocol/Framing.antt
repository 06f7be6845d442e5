-- ===== src/Protocol/Framing.antt =====
-- packages/protocol/src/framing.ts: frames with a 32-bit length before the payload.
-- A `Uint8Array` is a list of numbers; a byte that the code stores is taken modulo 256.
pub mod Stream
mod Blocks
mod Rounds
pub mod Refinement
pub mod RoundTrip
pub mod Complete
mod Tests
use livi_agent.Prelude.{
  ℕ, zero, suc, ◌+◌, ◌-◌, ◌*◌, ◌/◌, ◌%◌, ◌^◌, min, Bool, true, false, not, ◌&&◌, ◌||◌, Option, none,
  some, List, [], ◌∷◌, ◌++◌, ltb, leb, ◌==◌, nat_eq, if◌then◌else◌, length, take, drop,
}

abbrev pub Bytes : Type 0
Bytes = List ℕ

abbrev pub frame_header_length : ℕ
frame_header_length = 4

abbrev pub max_uint32 : ℕ
max_uint32 = 0xffffffff

abbrev pub payload_block_size : ℕ
payload_block_size = 64 * 1024

abbrev pub default_max_frame_length : ℕ
default_max_frame_length = 16 * 1024 * 1024

-- `resolveMaxFrameLength`: the value, or `none` for the `RangeError`.
pub resolve_max_frame_length : Option ℕ → Option ℕ
resolve_max_frame_length none = some default_max_frame_length
resolve_max_frame_length (some value) = if ltb max_uint32 value then none else some value

-- The four header bytes of a length, each stored modulo 256.
pub header_bytes : ℕ → Bytes
header_bytes n = (n / 2 ^ 24 % 256) ∷ (n / 2 ^ 16 % 256) ∷ (n / 2 ^ 8 % 256) ∷ (n % 256) ∷ []

-- `none` is the `RangeError`.
unfoldable pub encode_frame : Bytes → Option Bytes
unfolding header_bytes
encode_frame payload =
    if ltb max_uint32 (length payload)
    then none
    else some (header_bytes (length payload) ++ payload)

-- The number that the header's bytes stand for.
pub frame_length : Bytes → ℕ
frame_length (a ∷ b ∷ c ∷ d ∷ _) = a * 0x1000000 + b * 0x10000 + c * 0x100 + d
frame_length _ = 0

-- An allocated block: its size and the bytes written from its start on.
pub record Block : Type 0 where
  pub size : ℕ
  pub bytes : Bytes

abbrev pub zeros : ℕ → Bytes
zeros zero = []
zeros (suc n) = 0 ∷ zeros n

-- The whole array: what was not written is zero.
pub block_array : Block → Bytes
block_array b = b.bytes ++ zeros (b.size - length b.bytes)

-- `payloadBlocks` is `full` and the current block behind it.
pub record Payload : Type 0 where
  pub full : List Block
  pub current : Option Block
  pub payload_length : ℕ

abbrev pub no_payload : Payload
no_payload = record { full = []; current = none; payload_length = 0 }

pub data DecoderState : Type 0 where
  open_ ended failed : DecoderState

-- `header` holds the `headerLength` bytes of the header that have come.
pub record Decoder : Type 0 where
  pub max_frame_length : ℕ
  pub header : Bytes
  pub expected : Option ℕ
  pub payload : Payload
  pub state : DecoderState

pub new_decoder : ℕ → Decoder
new_decoder max = record {
  max_frame_length = max;
  header = [];
  expected = none;
  payload = no_payload;
  state = open_;
}

-- The block to write to: the current one, or a new one once that is full.
pub writable : ℕ → Payload → Payload × Block
writable n p = elim p.current [
  | none ↦
      let b : Block = record { size = min payload_block_size (n - p.payload_length); bytes = [] } in
      (p, b)
  | some c ↦
      if length c.bytes == c.size
      then (
        record p { full = p.full ++ c ∷ [] },
        record { size = min payload_block_size (n - p.payload_length); bytes = [] },
      )
      else (p, c)
]

-- One round of the inner loop: the bytes that fit into the block are written.
pub write : ℕ → Payload → Bytes → Payload × Bytes
unfolding writable
write n p chunk =
    let (q, b) = writable n p in
    let k = min (b.size - length b.bytes) (length chunk) in
    (
      record q {
        current = some (record b { bytes = b.bytes ++ take k chunk });
        payload_length = q.payload_length + k;
      },
      drop k chunk,
    )

abbrev pub empty : Bytes → Bool
empty [] = true
empty (_ ∷ _) = false

-- The inner loop; `none` when the fuel ran out.
pub fill : ℕ → ℕ → Payload → Bytes → Option (Payload × Bytes)
fill fuel n p [] = some (p, [])
fill zero n p (b ∷ chunk) = if ltb p.payload_length n then none else some (p, b ∷ chunk)
fill (suc fuel) n p (b ∷ chunk) =
    let more = fill fuel n (write n p (b ∷ chunk)).0 (write n p (b ∷ chunk)).1 in
    if ltb p.payload_length n then more else some (p, b ∷ chunk)

pub arrays : List Block → Bytes
unfolding block_array
arrays [] = []
arrays (b ∷ bs) = block_array b ++ arrays bs

-- The frame: the one block, or the blocks copied behind one another.
pub finished : Payload → Bytes
unfolding arrays block_array
finished p = elim p.current [ none ↦ arrays p.full | some c ↦ arrays (p.full ++ c ∷ []) ]

-- `fail`.
pub failed_decoder : Decoder → Decoder
failed_decoder d = record d { state = failed; header = []; expected = none; payload = no_payload }

-- How a round of the outer loop ends.
pub data Round : Type 0 where
  next : Decoder → List Bytes → Bytes → Round
  fails : Decoder → Round
  stuck : Round

-- The part of a round that writes the payload.
pub payload_round : Decoder → ℕ → List Bytes → Bytes → Round
unfolding finished
payload_round d n frames chunk = elim (fill (length chunk) n d.payload chunk) [
  | none ↦ stuck
  | some (p, rest) ↦
      if p.payload_length == n
      then next (record d { expected = none; payload = no_payload }) (frames ++ finished p ∷ [])
          rest
      else next (record d { payload = p }) frames rest
]

-- After the header is complete.
pub length_round : Decoder → Bytes → List Bytes → Bytes → Round
unfolding frame_length
length_round d header frames rest =
    let n = frame_length header in
    if ltb d.max_frame_length n
    then fails (failed_decoder d)
    else if n == 0
    then next (record d { header = [] }) (frames ++ [] ∷ []) rest
    else payload_round (record d { header = []; expected = some n; payload = no_payload }) n frames
        rest

pub round : Decoder → List Bytes → Bytes → Round
round d frames chunk = elim d.expected [
  | some n ↦ payload_round d n frames chunk
  | none ↦
      let k = min (frame_header_length - length d.header) (length chunk) in
      let header = d.header ++ take k chunk in
      if ltb (length header) frame_header_length
      then next (record d { header = header }) frames (drop k chunk)
      else length_round d header frames (drop k chunk)
]

pub data Pushed : Type 0 where
  frames : List Bytes → Pushed
  frame_error : Pushed
  out_of_fuel : Pushed

pub push_loop : ℕ → Decoder → List Bytes → Bytes → Decoder × Pushed
push_loop fuel d out [] = (d, frames out)
push_loop zero d out (b ∷ chunk) = (d, out_of_fuel)
push_loop (suc fuel) d out (b ∷ chunk) = elim (round d out (b ∷ chunk)) [
  | next d' out' rest ↦ push_loop fuel d' out' rest
  | fails d' ↦ (d', frame_error)
  | stuck ↦ (d, out_of_fuel)
]

-- Each round takes a byte at least, so the chunk's length is enough fuel.
unfoldable pub push : Decoder → Bytes → Decoder × Pushed
push d chunk = elim d.state [
  | open_ ↦ push_loop (length chunk) d [] chunk
  | ended ↦ (d, frame_error)
  | failed ↦ (d, frame_error)
]

-- `true` where `end` returns, `false` where it throws.
pub end : Decoder → Decoder × Bool
unfolding failed_decoder
end d = elim d.state [
  | open_ ↦ elim d.expected [
    | some n ↦ (failed_decoder d, false)
    | none ↦
        if empty d.header then (record d { state = ended }, true) else (failed_decoder d, false)
  ]
  | ended ↦ (d, false)
  | failed ↦ (d, false)
]
