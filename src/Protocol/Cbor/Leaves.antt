-- ===== src/Protocol/Cbor/Leaves.antt =====
-- The values without parts in packages/protocol/src/cbor: their bytes and the reading of these.
use Prim.Native.Nat.{bit_and}
use livi_agent.Prelude.{
  ℕ, zero, suc, ◌+◌, ◌/◌, ◌^◌, ◌≤◌, ◌≡◌, refl, ap, Bool, true, false, Option, none, some, [], ◌∷◌,
  ◌++◌, leb, if◌then◌else◌, length, arith, list_eq, nat_eq, append_assoc,
}
use livi_agent.Protocol.Framing.{Bytes}
use livi_agent.Protocol.Cbor.{
  CborError, ok, Options, Platform, Text, Value, null, bool, integer, float, text, bytes, pos,
  negsuc, ℤ, is_safe, fraction, too_many_bytes, text_not_unicode,
}
use livi_agent.Protocol.Cbor.Writer.{
  Writer, IsWriter, Appends, Appends-trans, write-Appends, write_bytes, write_byte, write_float64,
  >>=-eq-ok, guard-eq-ok,
}
use livi_agent.Protocol.Cbor.Arguments.{Head, write_argument-Head, read_bytes-append}
use livi_agent.Protocol.Cbor.Encoder.{write_argument, encode_text, encode_body, same_text}
use livi_agent.Protocol.Cbor.Decoder.{
  read_byte, read_length, read_simple, read_major, read_item, ItemReader, float_value,
}
use livi_agent.Protocol.Cbor.Clean.{IsResolved}

same_text-eq : (s : Text) (m : Option Text) → same_text s m ≡ true → m ≡ some s
unfolding same_text
same_text-eq s none h = cc
same_text-eq s (some t) h = ap some ((list_eq.beq_iff t s).0 h)

pub read_length-Head :
    (m n limit : ℕ) (w w' : Writer) (over : CborError) (rest : Bytes) (h : Head m n w w')
    → n ≤ limit
    → read_length h.info limit over (h.more ++ rest) ≡ ok (n, rest)
unfolding read_length
read_length-Head m n limit w w' over rest h le =
    let fits : leb n limit ≡ true = ground arith in
    let indefinite : nat_eq.beq h.info 31 ≡ false = ground (arith, h.definite) in
    rw indefinite (rw (h.reads rest) (rw fits))

module _ (p : Platform) (o : Options) where
  -- The bytes are read as the value, whatever follows them.
  abbrev pub Reads : Value → ℕ → Bytes → Type 0
  Reads v depth bs =
      (fuel : ℕ) (rest : Bytes)
      → o.max_depth + 2 ≤ fuel + depth
      → read_item p o fuel depth (bs ++ rest) ≡ ok (v, rest)

  abbrev pub item : ℕ → ℕ → ItemReader
  item fuel depth rest = read_item p o fuel depth rest

  by_head :
      (v : Value) (depth initial : ℕ) (more : Bytes)
      → depth ≤ o.max_depth
      → ((fuel : ℕ) (rest : Bytes)
          → o.max_depth + 1 ≤ fuel + depth
          → read_major p o
              (item fuel (depth + 1))
              (initial / 2 ^ 5)
              (bit_and initial 0x1f)
              (more ++ rest)
            ≡ ok (v, rest))
      → Reads v depth (initial ∷ more)
  unfolding read_item read_byte
  by_head v depth initial more le reads zero rest enough = absurd (omega arith)
  by_head v depth initial more le reads (suc fuel) rest enough =
      let fits : leb depth o.max_depth ≡ true = ground arith in
      rw fits (reads fuel rest (omega arith))

  Reads-simple :
      (v : Value) (depth initial info : ℕ)
      → depth ≤ o.max_depth
      → initial / 2 ^ 5 ≡ 7
      → bit_and initial 0x1f ≡ info
      → ((rest : Bytes) → read_simple p o info rest ≡ ok (v, rest))
      → Reads v depth (initial ∷ [])
  unfolding read_major
  Reads-simple v depth initial info le is_major is_info reads =
      by_head v depth initial [] le (λ fuel rest _. rw (is_major, is_info) (reads rest))

  -- What was written is one item that reads as the value.
  abbrev pub Written : Value → ℕ → Writer → Writer → Type 0
  Written v depth w w' = (bs : Bytes) × Appends w w' bs × Reads v depth bs

  pub Head-Written :
      (v : Value) (depth m n : ℕ) (w w1 w' : Writer) (content : Bytes) (h : Head m n w w1)
      → depth ≤ o.max_depth
      → Appends w1 w' content
      → ((fuel : ℕ) (rest : Bytes)
          → o.max_depth + 1 ≤ fuel + depth
          → read_major p o (item fuel (depth + 1)) m h.info (h.more ++ (content ++ rest))
            ≡ ok (v, rest))
      → Written v depth w w'
  Head-Written v depth m n w w1 w' content h le a reads = (
    h.initial ∷ (h.more ++ content),
    Appends-trans (h.initial ∷ h.more) content h.wrote a,
    by_head v depth h.initial (h.more ++ content) le λ fuel rest enough.
        rw (h.is_major, h.is_info, append_assoc h.more content rest) (reads fuel rest enough),
  )

  pub null-Written :
      (depth : ℕ) (w w' : Writer)
      → depth ≤ o.max_depth
      → IsWriter w
      → write_byte 0xf6 w ≡ ok w'
      → Written null depth w w'
  unfolding write_byte read_simple
  null-Written depth w w' le v e = (
    0xf6 ∷ [],
    write-Appends _ w w' v e,
    Reads-simple null depth 0xf6 22 le refl refl (λ rest. refl),
  )

  pub bool-Written :
      (b : Bool) (depth : ℕ) (w w' : Writer)
      → depth ≤ o.max_depth
      → IsWriter w
      → write_byte (if b then 0xf5 else 0xf4) w ≡ ok w'
      → Written (bool b) depth w w'
  unfolding write_byte read_simple
  bool-Written true depth w w' le v e = (
    0xf5 ∷ [],
    write-Appends _ w w' v e,
    Reads-simple (bool true) depth 0xf5 21 le refl refl (λ rest. refl),
  )
  bool-Written false depth w w' le v e = (
    0xf4 ∷ [],
    write-Appends _ w w' v e,
    Reads-simple (bool false) depth 0xf4 20 le refl refl (λ rest. refl),
  )

  pub float-Written :
      (number : Bytes) (depth : ℕ) (w w' : Writer)
      → depth ≤ o.max_depth
      → IsWriter w
      → length number ≡ 8
      → p.read_float64 number ≡ fraction
      → write_float64 number w ≡ ok w'
      → Written (float number) depth w w'
  unfolding write_float64 read_major read_simple float_value
  float-Written number depth w w' le v eight is e = (
    0xfb ∷ number,
    write-Appends _ w w' v e,
    by_head (float number) depth 0xfb number le
        λ fuel rest _. rw (read_bytes-append number rest 8 eight) (rw is),
  )

  pub integer-Written :
      (z : ℤ) (depth : ℕ) (w w' : Writer)
      → depth ≤ o.max_depth
      → IsWriter w
      → encode_body p o (integer z) depth w ≡ ok w'
      → Written (integer z) depth w w'
  unfolding encode_body read_major is_safe
  integer-Written (pos n) depth w w' le v e =
      let (safe, f) = guard-eq-ok (is_safe (pos n)) _ (write_argument 0 n w) e in
      let h = write_argument-Head 0 n w w' (omega arith) (ground arith) v f in
      (
        h.initial ∷ h.more,
        h.wrote,
        by_head (integer (pos n)) depth h.initial h.more le
            λ fuel rest _. rw (h.is_major, h.is_info) (rw (h.reads rest)),
      )
  integer-Written (negsuc n) depth w w' le v e =
      let (safe, f) = guard-eq-ok (is_safe (negsuc n)) _ (write_argument 1 n w) e in
      let h = write_argument-Head 1 n w w' (omega arith) (ground arith) v f in
      (
        h.initial ∷ h.more,
        h.wrote,
        by_head (integer (negsuc n)) depth h.initial h.more le
            λ fuel rest _. rw (h.is_major, h.is_info) (rw (h.reads rest) (rw safe)),
      )

  pub bytes-Written :
      (bs : Bytes) (depth : ℕ) (w w' : Writer)
      → IsResolved o
      → depth ≤ o.max_depth
      → IsWriter w
      → encode_body p o (bytes bs) depth w ≡ ok w'
      → Written (bytes bs) depth w w'
  unfolding encode_body read_major
  bytes-Written bs depth w w' limits le v e =
      let (fits, f) = guard-eq-ok (leb (length bs) o.max_byte_length) too_many_bytes _ e in
      let (w1, g, h) = >>=-eq-ok (write_argument 2 (length bs) w) (write_bytes bs) f in
      let small : length bs ≤ o.max_byte_length = ground arith in
      let hd =
        write_argument-Head 2 (length bs) w w1 (omega arith) (omega (arith, limits.bytes_limit)) v
          g in
      Head-Written (bytes bs) depth 2 (length bs) w w1 w' bs hd le
        (write-Appends bs w1 w' hd.wrote.valid h)
        λ fuel rest _.
          rw
            (read_length-Head 2 (length bs) o.max_byte_length w w1 too_many_bytes (bs ++ rest) hd
              small)
            (rw (read_bytes-append bs rest (length bs) refl))

  pub text-Written :
      (s : Text) (depth : ℕ) (w w' : Writer)
      → IsResolved o
      → depth ≤ o.max_depth
      → IsWriter w
      → encode_text p o s w ≡ ok w'
      → Written (text s) depth w w'
  unfolding encode_text read_major
  text-Written s depth w w' limits le v e =
      let content = p.encode_text s in
      let (fits, e1) = guard-eq-ok (leb (length content) o.max_byte_length) too_many_bytes _ e in
      let (same, e2) = guard-eq-ok (same_text s (p.decode_text content)) text_not_unicode _ e1 in
      let (w1, g, h) = >>=-eq-ok (write_argument 3 (length content) w) (write_bytes content) e2 in
      let small : length content ≤ o.max_byte_length = ground arith in
      let hd =
        write_argument-Head 3 (length content) w w1 (omega arith)
          (omega (arith, limits.bytes_limit)) v g in
      Head-Written (text s) depth 3 (length content) w w1 w' content hd le
        (write-Appends content w1 w' hd.wrote.valid h)
        λ fuel rest _.
          rw
            (read_length-Head 3 (length content) o.max_byte_length w w1 too_many_bytes
              (content ++ rest) hd small)
            (rw (read_bytes-append content rest (length content) refl)
              (rw (same_text-eq s (p.decode_text content) same)))
