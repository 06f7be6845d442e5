-- ===== src/Protocol/Cbor/Arguments.antt =====
-- `writeArgument` against `readArgument` of packages/protocol/src/cbor.
use Prim.Native.Nat.{bit_and, bit_or}
use livi_agent.Prelude.{
  ℕ, zero, suc, ◌+◌, ◌-◌, ◌*◌, ◌/◌, ◌%◌, ◌^◌, ◌≤◌, ◌<◌, ◌≡◌, refl, sym, ap, ◌∙◌, Bool, true, false,
  ◌&&◌, [], ◌∷◌, ◌++◌, ltb, leb, length, take, drop, length-append, append_assoc, arith, ◌==◌,
  nat_eq,
}
use native.Mathlib.Decide.{dec_lt}
use livi_agent.Protocol.Framing.{Bytes, max_uint32}
use livi_agent.Protocol.Cbor.{Result, ok, uint32_base, ◌>>=◌}
use livi_agent.Protocol.Cbor.Writer.{
  Writer, IsWriter, Appends, Appends-trans, write-Appends, write_byte, write_uint16, write_uint32,
  write_uint64, shift_right, >>=-eq-ok,
}
use livi_agent.Protocol.Cbor.Encoder.{write_argument}
use livi_agent.Protocol.Cbor.Decoder.{read_argument, read_bytes, read_byte, read_uint32, four_bytes}

-- The test holds of the numbers under the bound: a table check.
table : (ℕ → Bool) → ℕ → Bool
table test zero = true
table test (suc bound) = table test bound && test bound

table-at : (test : ℕ → Bool) (bound i : ℕ) → i < bound → table test bound ≡ true → test i ≡ true
unfolding table
table-at test zero i less holds = absurd (omega arith)
table-at test (suc bound) i less holds = ground (arith, table-at test bound i)

or_table : table (λ m. table (λ x. bit_or (m * 32) x == m * 32 + x) 32) 8 ≡ true
unfolding table
or_table = refl

-- The major type and the information do not overlap.
bit_or-prefix : (m x : ℕ) → m < 8 → x < 32 → bit_or (m * 32) x ≡ m * 32 + x
bit_or-prefix m x hm hx = (nat_eq.beq_iff _ _).0 (
    table-at (λ y. bit_or (m * 32) y == m * 32 + y) 32 x hx
      (table-at (λ k. table (λ y. bit_or (k * 32) y == k * 32 + y) 32) 8 m hm or_table))

and_table : table (λ b. bit_and b 0x1f == b % 32) 256 ≡ true
unfolding table
and_table = refl

pub bit_and-information : (b : ℕ) → b < 256 → bit_and b 0x1f ≡ b % 32
bit_and-information b h =
    (nat_eq.beq_iff _ _).0 (table-at (λ y. bit_and y 0x1f == y % 32) 256 b h and_table)

-- The head of an item that was written: its first byte, and the bytes of its argument.
pub record Head (m n : ℕ) (w w' : Writer) : Type 0 where
  pub initial : ℕ
  pub more : Bytes
  pub info : ℕ
  pub wrote : Appends w w' (initial ∷ more)
  pub is_major : initial / 2 ^ 5 ≡ m
  pub is_info : bit_and initial 0x1f ≡ info
  pub definite : info < 31
  pub reads : (rest : Bytes) → read_argument info (more ++ rest) ≡ ok (n, rest)

module _ (m info : ℕ) (hm : m < 8) (hi : info < 31) where
  abbrev first_byte : ℕ
  first_byte = bit_or (m * 2 ^ 5) info % 256

  first_byte_lem : first_byte ≡ m * 32 + info
  first_byte_lem = omega (arith, bit_or-prefix m info hm (omega arith))

  head :
      (n : ℕ) (w w' : Writer) (more : Bytes)
      → Appends w w' (first_byte ∷ more)
      → ((rest : Bytes) → read_argument info (more ++ rest) ≡ ok (n, rest))
      → Head m n w w'
  head n w w' more a r = record {
    initial = first_byte;
    more = more;
    info = info;
    wrote = a;
    is_major = omega (arith, first_byte_lem);
    is_info = bit_and-information first_byte (omega arith) ∙ omega (arith, first_byte_lem);
    definite = hi;
    reads = r;
  }

  -- The first byte, and then the argument's.
  Head-then :
      (n : ℕ) (w w' : Writer) (more : Bytes) (f : Writer → Result Writer)
      → IsWriter w
      → (write_byte (bit_or (m * 2 ^ 5) info) w >>= f) ≡ ok w'
      → ((w1 : Writer) → IsWriter w1 → f w1 ≡ ok w' → Appends w1 w' more)
      → ((rest : Bytes) → read_argument info (more ++ rest) ≡ ok (n, rest))
      → Head m n w w'
  unfolding write_byte
  Head-then n w w' more f v e then_more r =
      let (w1, g, h) = >>=-eq-ok (write_byte (bit_or (m * 2 ^ 5) info) w) f e in
      let a : Appends w w1 (first_byte ∷ []) = write-Appends (first_byte ∷ []) w w1 v g in
      head n w w' more (Appends-trans (first_byte ∷ []) more a (then_more w1 a.valid h)) r

pub read_bytes-append :
    (bs rest : Bytes) (n : ℕ) → length bs ≡ n → read_bytes n (bs ++ rest) ≡ ok (bs, rest)
unfolding read_bytes
read_bytes-append bs rest n e =
    rw (enough bs rest n e, take-append bs rest n e, drop-append bs rest n e)
  where
    enough : (xs ys : Bytes) (k : ℕ) → length xs ≡ k → ltb (length (xs ++ ys)) k ≡ false
    enough xs ys k q = ground (arith, length-append xs ys)

    take-append : (xs ys : Bytes) (k : ℕ) → length xs ≡ k → take k (xs ++ ys) ≡ xs
    take-append [] ys zero q = refl
    take-append [] ys (suc k) q = absurd (omega arith)
    take-append (x ∷ xs) ys zero q = absurd (omega arith)
    take-append (x ∷ xs) ys (suc k) q = ap (λ l. x ∷ l) (take-append xs ys k (omega arith))

    drop-append : (xs ys : Bytes) (k : ℕ) → length xs ≡ k → drop k (xs ++ ys) ≡ ys
    drop-append [] ys zero q = refl
    drop-append [] ys (suc k) q = absurd (omega arith)
    drop-append (x ∷ xs) ys zero q = absurd (omega arith)
    drop-append (x ∷ xs) ys (suc k) q = drop-append xs ys k (omega arith)

abbrev bytes16 : ℕ → Bytes
bytes16 n = (shift_right n 8 % 256) ∷ (n % 256) ∷ []

abbrev bytes32 : ℕ → Bytes
bytes32 n =
    (shift_right n 24 % 256) ∷ (shift_right n 16 % 256) ∷ (shift_right n 8 % 256) ∷ (n % 256) ∷ []

reads_direct : (n : ℕ) (rest : Bytes) → n < 24 → read_argument n rest ≡ ok (n, rest)
unfolding read_argument
reads_direct n rest h = ground arith

reads8 : (n : ℕ) (rest : Bytes) → n ≤ 0xff → read_argument 24 (n % 256 ∷ rest) ≡ ok (n, rest)
unfolding read_argument read_byte
reads8 n rest h = let same : n % 256 ≡ n = omega arith in ap (λ k. ok (k, rest)) same

reads16 : (n : ℕ) (rest : Bytes) → n ≤ 0xffff → read_argument 25 (bytes16 n ++ rest) ≡ ok (n, rest)
unfolding read_argument
reads16 n rest h =
    let same : shift_right n 8 % 256 * 0x100 + n % 256 ≡ n = omega arith in
    rw (read_bytes-append (bytes16 n) rest 2 refl) (ap (λ k. ok (k, rest)) same)

reads32 : (n : ℕ) (rest : Bytes) → n < 2 ^ 32 → read_uint32 (bytes32 n ++ rest) ≡ ok (n, rest)
unfolding read_uint32
reads32 n rest h =
    let same : four_bytes (bytes32 n) ≡ n = omega arith in
    rw (read_bytes-append (bytes32 n) rest 4 refl) (ap (λ k. ok (k, rest)) same)

reads26 : (n : ℕ) (rest : Bytes) → n < 2 ^ 32 → read_argument 26 (bytes32 n ++ rest) ≡ ok (n, rest)
unfolding read_argument
reads26 n rest h = reads32 n rest h

reads64 :
    (n : ℕ) (rest : Bytes)
    → n < 2 ^ 53
    → read_argument 27
        ((bytes32 (n / uint32_base) ++ bytes32 (n - n / uint32_base * uint32_base)) ++ rest)
      ≡ ok (n, rest)
unfolding read_argument
reads64 n rest h =
    rw
      (
        append_assoc (bytes32 (n / uint32_base)) (bytes32 (n - n / uint32_base * uint32_base)) rest,
        reads32 (n / uint32_base) (bytes32 (n - n / uint32_base * uint32_base) ++ rest)
            (omega arith),
        reads32 (n - n / uint32_base * uint32_base) rest (omega arith),
      )
      (let fits : leb (n / uint32_base) 0x1fffff ≡ true = ground arith in
        let same : n / uint32_base * uint32_base + (n - n / uint32_base * uint32_base) ≡ n =
          omega arith in
        rw fits (ap (λ k. ok (k, rest)) same))

module _ (m n : ℕ) (w : Writer) where
  write_direct : n < 24 → write_argument m n w ≡ write_byte (bit_or (m * 2 ^ 5) n) w
  unfolding write_argument
  write_direct h = ground arith

  write8 :
      23 < n
      → n ≤ 0xff
      → write_argument m n w ≡ (write_byte (bit_or (m * 2 ^ 5) 24) w >>= write_byte n)
  unfolding write_argument
  write8 g h = ground arith

  write16 :
      0xff < n
      → n ≤ 0xffff
      → write_argument m n w ≡ (write_byte (bit_or (m * 2 ^ 5) 25) w >>= write_uint16 n)
  unfolding write_argument
  write16 g h = ground arith

  write32 :
      0xffff < n
      → n ≤ max_uint32
      → write_argument m n w ≡ (write_byte (bit_or (m * 2 ^ 5) 26) w >>= write_uint32 n)
  unfolding write_argument
  write32 g h = ground arith

  write64 :
      max_uint32 < n
      → write_argument m n w ≡ (write_byte (bit_or (m * 2 ^ 5) 27) w >>= write_uint64 n)
  unfolding write_argument
  write64 g = ground arith

write_uint64-Appends :
    (n : ℕ) (w w' : Writer)
    → IsWriter w
    → write_uint64 n w ≡ ok w'
    → Appends w w' (bytes32 (n / uint32_base) ++ bytes32 (n - n / uint32_base * uint32_base))
unfolding write_uint64 write_uint32
write_uint64-Appends n w w' v e =
    let (w1, f, g) =
      >>=-eq-ok (write_uint32 (n / uint32_base) w)
        (write_uint32 (n - n / uint32_base * uint32_base)) e in
    let a = write-Appends (bytes32 (n / uint32_base)) w w1 v f in
    Appends-trans (bytes32 (n / uint32_base)) (bytes32 (n - n / uint32_base * uint32_base)) a
      (write-Appends (bytes32 (n - n / uint32_base * uint32_base)) w1 w' a.valid g)

-- Whatever the size of the argument, its head is read back.
pub write_argument-Head :
    (m n : ℕ) (w w' : Writer)
    → m < 8
    → n < 2 ^ 53
    → IsWriter w
    → write_argument m n w ≡ ok w'
    → Head m n w w'
unfolding write_byte write_uint16 write_uint32
write_argument-Head m n w w' hm hn v e = elim (dec_lt n 24) [
  | yes small ↦
      head m n hm (omega arith) n w w' []
        (write-Appends _ w w' v (sym (write_direct m n w small) ∙ e))
        (λ rest. reads_direct n rest small)
  | no a ↦ elim (dec_lt 0xff n) [
    | no b ↦
        Head-then m 24 hm (omega arith) n w w' (n % 256 ∷ []) (write_byte n) v
          (sym (write8 m n w (omega arith) (omega arith)) ∙ e)
          (λ w1 v1 f. write-Appends _ w1 w' v1 f) (λ rest. reads8 n rest (omega arith))
    | yes b ↦ elim (dec_lt 0xffff n) [
      | no c ↦
          Head-then m 25 hm (omega arith) n w w' (bytes16 n) (write_uint16 n) v
            (sym (write16 m n w b (omega arith)) ∙ e) (λ w1 v1 f. write-Appends _ w1 w' v1 f)
            (λ rest. reads16 n rest (omega arith))
      | yes c ↦ elim (dec_lt max_uint32 n) [
        | no d ↦
            Head-then m 26 hm (omega arith) n w w' (bytes32 n) (write_uint32 n) v
              (sym (write32 m n w c (omega arith)) ∙ e) (λ w1 v1 f. write-Appends _ w1 w' v1 f)
              (λ rest. reads26 n rest (omega arith))
        | yes d ↦
            Head-then m 27 hm (omega arith) n w w' _ (write_uint64 n) v (sym (write64 m n w d) ∙ e)
              (λ w1 v1 f. write_uint64-Appends n w1 w' v1 f) (λ rest. reads64 n rest hn)
      ]
    ]
  ]
]
