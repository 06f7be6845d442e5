-- ===== src/Protocol/Cbor/Writer.antt =====
-- The class `CborWriter` of packages/protocol/src/cbor/encoder.ts: a buffer that grows.
use livi_agent.Prelude.{
  ℕ, zero, suc, ◌+◌, ◌-◌, ◌*◌, ◌/◌, ◌%◌, ◌^◌, ◌≤◌, ◌<◌, min, max, ◌≡◌, refl, sym, subst, ap, ◌∙◌,
  Bool, true, false, Option, none, some, [], ◌∷◌, ◌++◌, ltb, leb, if◌then◌else◌, length, take,
  arith, Bool-cases, inl, inr, append_assoc, length-append,
}
use livi_agent.Protocol.Framing.{Bytes}
use livi_agent.Protocol.Cbor.{
  CborError, guard, ◌>>◌, Result, ok, err, too_many_bytes, out_of_fuel, uint32_base, ◌>>=◌,
}

-- `written` is what the first `offset` places of the buffer hold; `capacity` is its length.
pub record Writer : Type 0 where
  pub max_byte_length : ℕ
  pub written : Bytes
  pub offset : ℕ
  pub capacity : ℕ

unfoldable pub new_writer : ℕ → Writer
new_writer limit = record {
  max_byte_length = limit;
  written = [];
  offset = 0;
  capacity = min 256 limit;
}

-- The loop that doubles the capacity.
unfoldable pub grow : ℕ → ℕ → ℕ → ℕ → Option ℕ
grow zero limit required capacity = if ltb capacity required then none else some capacity
grow (suc fuel) limit required capacity =
    let again = grow fuel limit required (min limit (max required (capacity * 2))) in
    if ltb capacity required then again else some capacity

-- One round is enough.
abbrev growth_fuel : ℕ
growth_fuel = 1

unfoldable pub ensure_capacity : ℕ → Writer → Result Writer
ensure_capacity additional w =
    let required = w.offset + additional in
    if ltb w.max_byte_length required
    then err too_many_bytes
    else if leb required w.capacity
    then ok w
    else elim (grow growth_fuel w.max_byte_length required (max 1 w.capacity)) [
      | none ↦ err out_of_fuel
      | some c ↦ ok (record w { capacity = c })
    ]

-- A typed array drops what is stored behind its end.
unfoldable pub store : Bytes → Writer → Writer
store bs w = record w {
  written = w.written ++ take (w.capacity - w.offset) bs;
  offset = w.offset + length bs;
}

unfoldable pub write_bytes : Bytes → Writer → Result Writer
unfolding store ensure_capacity grow
write_bytes bs w = do w' ← ensure_capacity (length bs) w; ok (store bs w')

unfoldable pub write_byte : ℕ → Writer → Result Writer
write_byte value = write_bytes (value % 256 ∷ [])

-- `value >>> k`.
abbrev pub shift_right : ℕ → ℕ → ℕ
shift_right value k = value % 2 ^ 32 / 2 ^ k

unfoldable pub write_uint16 : ℕ → Writer → Result Writer
write_uint16 value = write_bytes (shift_right value 8 % 256 ∷ value % 256 ∷ [])

unfoldable pub write_uint32 : ℕ → Writer → Result Writer
write_uint32 value = write_bytes (
    shift_right value 24 % 256
    ∷ shift_right value 16 % 256
    ∷ shift_right value 8 % 256
    ∷ value % 256
    ∷ [])

unfoldable pub write_uint64 : ℕ → Writer → Result Writer
write_uint64 value w =
    let high = value / uint32_base in
    do w' ← write_uint32 high w; write_uint32 (value - high * uint32_base) w'

-- The eight bytes of the number are those that `DataView.setFloat64` stores.
unfoldable pub write_float64 : Bytes → Writer → Result Writer
write_float64 number = write_bytes (0xfb ∷ number)

unfoldable pub finish : Writer → Bytes
finish w = take w.offset w.written

-- The bytes before `offset` are in the buffer, and the buffer is within the limit.
pub record IsWriter (w : Writer) : Type 0 where
  pub stored : length w.written ≡ w.offset
  pub room : w.offset ≤ w.capacity
  pub within : w.capacity ≤ w.max_byte_length

pub new_writer-IsWriter : (limit : ℕ) → IsWriter (new_writer limit)
unfolding new_writer
new_writer-IsWriter limit = record { stored = refl; room = omega arith; within = omega arith }

-- The growing loop ends after a round at most, with room for what is required.
grow_lem :
    (limit required capacity : ℕ)
    → required ≤ limit
    → capacity ≤ limit
    → (c : ℕ) × (grow growth_fuel limit required capacity ≡ some c) × (required ≤ c) × (c ≤ limit)
unfolding grow
grow_lem limit required capacity fits le = elim (Bool-cases (ltb capacity required)) [
  | inl less ↦ (min limit (max required (capacity * 2)), ground arith, omega arith, omega arith)
  | inr enough ↦ (capacity, ground arith, ground arith, le)
]

pub take_all : (bs : Bytes) (n : ℕ) → length bs ≤ n → take n bs ≡ bs
take_all [] zero h = refl
take_all [] (suc n) h = refl
take_all (b ∷ bs) zero h = absurd (omega arith)
take_all (b ∷ bs) (suc n) h = ap (λ l. b ∷ l) (take_all bs n (omega arith))

-- What a successful write did.
pub record Appends (w w' : Writer) (bs : Bytes) : Type 0 where
  pub appended : w'.written ≡ w.written ++ bs
  pub same_limit : w'.max_byte_length ≡ w.max_byte_length
  pub valid : IsWriter w'

store-Appends :
    (bs : Bytes) (w : Writer) (c : ℕ)
    → IsWriter w
    → w.offset + length bs ≤ c
    → c ≤ w.max_byte_length
    → Appends w (store bs (record w { capacity = c })) bs
unfolding store
store-Appends bs w c v fits le =
    let all : take (c - w.offset) bs ≡ bs = take_all bs (c - w.offset) (omega arith) in
    record {
      appended = ap (λ l. w.written ++ l) all;
      same_limit = refl;
      valid = record {
        stored = rw all (omega (arith, length-append w.written bs, v.stored));
        room = omega arith;
        within = le;
      };
    }

-- A write succeeds exactly as long as the limit on the bytes is kept; then nothing written before
-- is lost and every new byte is stored.
pub write_bytes_lem :
    (bs : Bytes) (w : Writer)
    → IsWriter w
    → (w.offset + length bs ≤ w.max_byte_length
        → (w' : Writer) × (write_bytes bs w ≡ ok w') × Appends w w' bs)
      × (w.max_byte_length < w.offset + length bs → write_bytes bs w ≡ err too_many_bytes)
unfolding write_bytes ensure_capacity
write_bytes_lem bs w v = (fits, λ over. ground arith)
  where
    fits :
        w.offset + length bs ≤ w.max_byte_length
        → (w' : Writer) × (write_bytes bs w ≡ ok w') × Appends w w' bs
    fits le = elim (Bool-cases (leb (w.offset + length bs) w.capacity)) [
      | inl enough ↦
          (store bs w, ground arith, store-Appends bs w w.capacity v (ground arith) v.within)
      | inr short ↦
          let (c, e, room, within) =
            grow_lem w.max_byte_length (w.offset + length bs) (max 1 w.capacity) le
              (ground arith) in
          (store bs (record w { capacity = c }), ground arith, store-Appends bs w c v room within)
    ]

pub ok-injective {ℓ} : {A : Type ℓ} {a b : A} → ok a ≡ ok b → a ≡ b
ok-injective e = cc

pub write-Appends :
    (bs : Bytes) (w w' : Writer) → IsWriter w → write_bytes bs w ≡ ok w' → Appends w w' bs
write-Appends bs w w' v e = elim (Bool-cases (ltb w.max_byte_length (w.offset + length bs))) [
  | inl over ↦ absurd (
      let no : err too_many_bytes ≡ ok w' = sym ((write_bytes_lem bs w v).1 (ground arith)) ∙ e in
      cc)
  | inr fits ↦
      let (w1, f, done) = (write_bytes_lem bs w v).0 (ground arith) in
      subst (λ x. Appends w x bs) (ok-injective (sym f ∙ e)) done
]

pub Appends-trans :
    {w w1 w2 : Writer} (bs cs : Bytes)
    → Appends w w1 bs
    → Appends w1 w2 cs
    → Appends w w2 (bs ++ cs)
Appends-trans {w} bs cs a b = record {
  appended = b.appended ∙ ap (λ l. l ++ cs) a.appended ∙ append_assoc w.written bs cs;
  same_limit = b.same_limit ∙ a.same_limit;
  valid = b.valid;
}

-- Inversion of a successful chain.
pub >>=-eq-ok {ℓ κ} :
    {V : Type ℓ} {W : Type κ} {w : W} (first : Result V) (rest : V → Result W)
    → (first >>= rest) ≡ ok w
    → (v : V) × (first ≡ ok v) × (rest v ≡ ok w)
>>=-eq-ok (err thrown) rest e = cc
>>=-eq-ok (ok value) rest e = (value, refl, e)

pub guard-eq-ok {ℓ} :
    {W : Type ℓ} {w : W} (passes : Bool) (error : CborError) (rest : Result W)
    → (guard passes error >> rest) ≡ ok w
    → (passes ≡ true) × (rest ≡ ok w)
guard-eq-ok false error rest h = cc
guard-eq-ok true error rest h = (refl, h)

-- A write within the limit succeeds, keeps every byte written before, stores every new byte behind
-- them and leaves the writer well-formed, however often the buffer has to grow.
pub write_bytes-fits :
    (bs : Bytes) (w : Writer)
    → IsWriter w
    → w.offset + length bs ≤ w.max_byte_length
    → (w' : Writer) × (write_bytes bs w ≡ ok w') × Appends w w' bs
write_bytes-fits bs w v le = (write_bytes_lem bs w v).0 le
