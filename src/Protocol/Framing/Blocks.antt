-- ===== src/Protocol/Framing/Blocks.antt =====
-- The payload blocks of framing.ts and the bytes that they hold.
use livi_agent.Prelude.{
  ℕ, zero, suc, ◌+◌, ◌-◌, ◌≤◌, ◌<◌, min, ◌≡◌, refl, sym, ap, ◌∙◌, false, none, some, ◌⊎◌, inl, inr,
  List, [], ◌∷◌, ◌++◌, All, arith, ltb, ◌==◌, nat_eq, length, take, append_assoc, append-nil,
  length-append, length-take, length-drop, take-append-drop, Bool-cases, Option-cases,
}
use livi_agent.Protocol.Framing.{
  Bytes, Block, Payload, block_array, arrays, writable, write, fill, finished,
}

-- The bytes written to the blocks.
abbrev pub contents : List Block → Bytes
contents [] = []
contents (b ∷ bs) = b.bytes ++ contents bs

abbrev pub written : Payload → Bytes
written p = elim p.current [ none ↦ contents p.full | some c ↦ contents p.full ++ c.bytes ]

abbrev pub IsFull : Block → Type 0
IsFull b = length b.bytes ≡ b.size

-- A block that has bytes to come, no more of them than the payload has.
abbrev Fits : ℕ → ℕ → Block → Type 0
Fits n came c = (length c.bytes ≤ c.size) × (came + (c.size - length c.bytes) ≤ n)

abbrev CurrentFits : ℕ → Payload → Type 0
CurrentFits n p = elim p.current [ none ↦ Unit {0} | some c ↦ Fits n p.payload_length c ]

pub record IsPayload (n : ℕ) (p : Payload) : Type 0 where
  pub full : All IsFull p.full
  pub counted : p.payload_length ≡ length (written p)
  pub within : p.payload_length ≤ n
  pub current : CurrentFits n p

contents-append : (bs : List Block) (c : Block) → contents (bs ++ c ∷ []) ≡ contents bs ++ c.bytes
contents-append [] c = append-nil c.bytes
contents-append (b ∷ bs) c = rw (contents-append bs c, append_assoc)

All-append : (bs : List Block) (c : Block) → All IsFull bs → IsFull c → All IsFull (bs ++ c ∷ [])
All-append [] c h f = (f, tt)
All-append (b ∷ bs) c h f = (h.0, All-append bs c h.1 f)

-- A full block's array is what was written to it.
block_array-full : (b : Block) → IsFull b → block_array b ≡ b.bytes
unfolding block_array
block_array-full b f =
    let none_left : b.size - length b.bytes ≡ 0 = omega arith in rw none_left (append-nil b.bytes)

arrays-contents : (bs : List Block) → All IsFull bs → arrays bs ≡ contents bs
unfolding arrays
arrays-contents [] h = refl
arrays-contents (b ∷ bs) h = rw (block_array-full b h.0, arrays-contents bs h.1)

record IsWritable (n : ℕ) (p q : Payload) (b : Block) : Type 0 where
  full : All IsFull q.full
  same : contents q.full ++ b.bytes ≡ written p
  count : q.payload_length ≡ p.payload_length
  room : length b.bytes < b.size
  fits : p.payload_length + (b.size - length b.bytes) ≤ n

writable-IsWritable :
    (n : ℕ) (p : Payload)
    → IsPayload n p
    → p.payload_length < n
    → IsWritable n p (writable n p).0 (writable n p).1
unfolding writable
writable-IsWritable n p h lt = elim (Option-cases p.current) [
  | inl e ↦
      rw (e, writable)
        (record {
          full = h.full;
          same = append-nil (contents p.full);
          count = refl;
          room = omega arith;
          fits = omega arith;
        })
  | inr (c, e) ↦
      let fits : Fits n p.payload_length c = rw e at h.current in
      elim (Bool-cases (length c.bytes == c.size)) [
        | inl f ↦
            rw (e, writable)
              (rw f (record {
                full = All-append p.full c h.full (ground arith);
                same = append-nil (contents (p.full ++ c ∷ [])) ∙ contents-append p.full c;
                count = refl;
                room = omega arith;
                fits = omega arith;
              }))
        | inr f ↦
            rw (e, writable)
              (rw f (record {
                full = h.full;
                same = refl;
                count = refl;
                room = ground arith;
                fits = fits.1;
              }))
      ]
]

-- What a round of the inner loop did: it wrote `taken`, and `rest` is left.
record Wrote (n : ℕ) (p q : Payload) (chunk taken rest : Bytes) : Type 0 where
  split : chunk ≡ taken ++ rest
  same : written q ≡ written p ++ taken
  ok : IsPayload n q

-- `k` bytes behind those of the block.
abbrev extend : Payload → Block → ℕ → Bytes → Payload
extend q b k chunk = record q {
  current = some (record b { bytes = b.bytes ++ take k chunk });
  payload_length = q.payload_length + k;
}

extend-IsPayload :
    (n k : ℕ) (p q : Payload) (b : Block) (chunk : Bytes)
    → IsWritable n p q b
    → p.payload_length ≡ length (written p)
    → k ≤ b.size - length b.bytes
    → k ≤ length chunk
    → (written (extend q b k chunk) ≡ written p ++ take k chunk) × IsPayload n (extend q b k chunk)
extend-IsPayload n k p q b chunk w counted fits some_left =
    let same : contents q.full ++ (b.bytes ++ take k chunk) ≡ written p ++ take k chunk =
      sym (append_assoc (contents q.full) b.bytes (take k chunk))
      ∙ ap (λ l. l ++ take k chunk) w.same in
    let taken : length (take k chunk) ≡ k = omega (arith, length-take k chunk) in
    (
      same,
      record {
        full = w.full;
        counted =
            omega (arith, ap length same, length-append (written p) (take k chunk), taken, w.count);
        within = omega (arith, w.count, w.fits, w.room);
        current = (
          omega (arith, length-append b.bytes (take k chunk), taken, w.room),
          omega (arith, length-append b.bytes (take k chunk), taken, w.room, w.fits, w.count),
        );
      },
    )

write-Wrote :
    (n : ℕ) (p : Payload) (chunk : Bytes)
    → IsPayload n p
    → p.payload_length < n
    → 0 < length chunk
    → (taken : Bytes) × Wrote n p (write n p chunk).0 chunk taken (write n p chunk).1
      × (length (write n p chunk).1 < length chunk)
unfolding write
write-Wrote n p chunk h lt more =
    let w = writable-IsWritable n p h lt in
    let b : Block = (writable n p).1 in
    let k : ℕ = min (b.size - length b.bytes) (length chunk) in
    let done =
      extend-IsPayload n k p (writable n p).0 b chunk w h.counted (omega arith) (omega arith) in
    (
      take k chunk,
      record { split = sym (take-append-drop k chunk); same = done.0; ok = done.1 },
      omega (arith, length-drop k chunk, w.room),
    )

not_lt : (a b : ℕ) → ltb a b ≡ false → b ≤ a
not_lt a b h = ground arith

-- The inner loop takes what comes until the payload is complete, and never runs out of fuel.
pub fill_lem :
    (fuel n : ℕ) (p : Payload) (chunk : Bytes)
    → length chunk ≤ fuel
    → IsPayload n p
    → (q : Payload) × (taken rest : Bytes) × (fill fuel n p chunk ≡ some (q, rest))
      × (chunk ≡ taken ++ rest)
      × (written q ≡ written p ++ taken)
      × IsPayload n q
      × ((rest ≡ []) ⊎ (q.payload_length ≡ n))
unfolding fill
fill_lem fuel n p [] le h = (p, [], [], refl, refl, sym (append-nil (written p)), h, inl refl)
fill_lem zero n p (b ∷ chunk) le h = absurd (omega arith)
fill_lem (suc fuel) n p (b ∷ chunk) le h = elim (Bool-cases (ltb p.payload_length n)) [
  | inl lt ↦
      let (taken, w, shorter) = write-Wrote n p (b ∷ chunk) h (ground arith) (omega arith) in
      let (q, taken', rest, e, split, same, ok, ends) =
        fill_lem fuel n (write n p (b ∷ chunk)).0 (write n p (b ∷ chunk)).1 (omega arith) w.ok in
      (
        q,
        taken ++ taken',
        rest,
        rw lt e,
        w.split ∙ ap (λ l. taken ++ l) split ∙ sym (append_assoc taken taken' rest),
        same ∙ ap (λ l. l ++ taken') w.same ∙ append_assoc (written p) taken taken',
        ok,
        ends,
      )
  | inr ge ↦ (
    p,
    [],
    b ∷ chunk,
    rw ge,
    refl,
    sym (append-nil (written p)),
    h,
    inr (omega (arith, not_lt p.payload_length n ge, h.within)),
  )
]

-- A complete payload's frame is what was written.
pub finished-written :
    (n : ℕ) (p : Payload) → IsPayload n p → p.payload_length ≡ n → finished p ≡ written p
unfolding finished
finished-written n p h e = elim (Option-cases p.current) [
  | inl f ↦ rw (f, finished) (arrays-contents p.full h.full)
  | inr (c, f) ↦
      let fits : Fits n p.payload_length c = rw f at h.current in
      rw (f, finished)
        (arrays-contents (p.full ++ c ∷ []) (All-append p.full c h.full (omega arith))
          ∙ contents-append p.full c)
]
