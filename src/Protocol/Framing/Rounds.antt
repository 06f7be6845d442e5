-- ===== src/Protocol/Framing/Rounds.antt =====
-- The rounds of `FrameDecoder.push` of framing.ts against the byte-by-byte reading of the stream.
use livi_agent.Prelude.{
  ℕ, ◌+◌, ◌-◌, ◌≤◌, ◌<◌, min, ◌≡◌, ◌≢◌, refl, sym, subst, ap, ◌∙◌, false, none, some, inl, inr,
  List, [], ◌∷◌, ◌++◌, arith, ltb, ◌==◌, nat_eq, length, take, drop, append_assoc, append-nil,
  length-append, length-take, length-drop, take-append-drop, Bool-cases, Option-cases,
}
use native.Mathlib.Decide.{dec_lt}
use livi_agent.Protocol.Framing.{
  Bytes, Payload, Decoder, open_, frame_length, frame_header_length, no_payload, failed_decoder,
  Round, next, fails, payload_round, length_round, round, fill, finished,
}
use livi_agent.Protocol.Framing.Blocks.{written, IsPayload, fill_lem, finished-written}
use livi_agent.Protocol.Framing.Stream.{
  Partial, in_header, in_payload, header_done, header_long, header_empty, header_started, feeds,
  feeds-append, feeds_header, feeds-header_done, feeds_payload, feeds_payload_done,
}

-- The part of a frame that the decoder holds.
abbrev pub view : Decoder → Partial
view d = elim d.expected [ none ↦ in_header d.header | some n ↦ in_payload n (written d.payload) ]

abbrev pub IsReading : Decoder → Type 0
IsReading d = elim d.expected [
  | none ↦ length d.header < frame_header_length
  | some n ↦ (d.header ≡ []) × IsPayload n d.payload × (d.payload.payload_length < n)
]

-- An open decoder between two calls.
pub record IsOpen (d : Decoder) : Type 0 where
  pub is_open : d.state ≡ open_
  pub reading : IsReading d

-- What a round of the outer loop may do to the decoder, its frames and the chunk.
pub data Does (d : Decoder) (out : List Bytes) (chunk : Bytes) (r : Round) : Type 0 where
  goes_on :
      (d' : Decoder) (more : List Bytes) (taken rest : Bytes)
      → r ≡ next d' (out ++ more) rest
      → chunk ≡ taken ++ rest
      → length rest < length chunk
      → feeds d.max_frame_length (view d) taken ≡ some (view d', more)
      → d'.max_frame_length ≡ d.max_frame_length
      → IsOpen d'
      → Does d out chunk r
  gives_up :
      r ≡ fails (failed_decoder d)
      → feeds d.max_frame_length (view d) chunk ≡ none
      → Does d out chunk r

feeds_complete :
    (max n : ℕ) (r xs : Bytes)
    → 0 < length xs
    → length r + length xs ≡ n
    → feeds max (in_payload n r) xs ≡ some (in_header [], (r ++ xs) ∷ [])
feeds_complete max n r [] h e = absurd (omega arith)
feeds_complete max n r (x ∷ xs) h e = feeds_payload_done max n r x xs e

not_equal : (a b : ℕ) → (a == b) ≡ false → a ≢ b
not_equal a b h = ground arith

module _ (d : Decoder) (n : ℕ) (out : List Bytes) (chunk : Bytes) (o : d.state ≡ open_)
    (e : d.expected ≡ some n) (hd : d.header ≡ []) (h : IsPayload n d.payload)
    (lt : d.payload.payload_length < n) (p : Payload) (taken rest : Bytes)
    (split : chunk ≡ taken ++ rest) (same : written p ≡ written d.payload ++ taken)
    (ok : IsPayload n p) where
  counts : p.payload_length ≡ d.payload.payload_length + length taken
  counts =
      omega (arith, ap length same, length-append (written d.payload) taken, ok.counted, h.counted)

  frame_done :
      (r : Round)
      → p.payload_length ≡ n
      → r ≡ next (record d { expected = none; payload = no_payload }) (out ++ finished p ∷ []) rest
      → Does d out chunk r
  frame_done r q f =
      goes_on (record d { expected = none; payload = no_payload }) (finished p ∷ []) taken rest f
        split (omega (arith, ap length split, length-append taken rest, counts))
        (rw (finished-written n p ok q, same, e)
          (rw hd (
            feeds_complete d.max_frame_length n (written d.payload) taken (omega (arith, counts))
              (omega (arith, counts, h.counted)))))
        refl (record { is_open = o; reading = rw hd (omega arith) })

  frame_partial :
      (r : Round)
      → p.payload_length < n
      → rest ≡ []
      → 0 < length chunk
      → r ≡ next (record d { payload = p }) out rest
      → Does d out chunk r
  frame_partial r q nil more f =
      goes_on (record d { payload = p }) [] taken rest
        (f ∙ ap (λ l. next (record d { payload = p }) l rest) (sym (append-nil out))) split
        (omega (arith, ap length nil))
        (rw (e, same)
          (feeds_payload d.max_frame_length n (written d.payload) taken
            (omega (arith, counts, h.counted))))
        refl (record { is_open = o; reading = rw e (hd, ok, q) })

payload_round-Does :
    (d : Decoder) (n : ℕ) (out : List Bytes) (chunk : Bytes)
    → d.state ≡ open_
    → d.expected ≡ some n
    → d.header ≡ []
    → IsPayload n d.payload
    → d.payload.payload_length < n
    → 0 < length chunk
    → Does d out chunk (payload_round d n out chunk)
unfolding payload_round
payload_round-Does d n out chunk o e hd h lt more =
    let enough : length chunk ≤ length chunk = omega arith in
    let (p, taken, rest, f, split, same, ok, ends) =
      fill_lem (length chunk) n d.payload chunk enough h in
    elim (Bool-cases (p.payload_length == n)) [
      | inl q ↦
          frame_done d n out chunk o e hd h lt p taken rest split same ok _ (ground arith)
            (rw (f, payload_round) (rw q))
      | inr q ↦ elim ends [
        | inl nil ↦
            frame_partial d n out chunk o e hd h lt p taken rest split same ok _
              (omega (arith, not_equal p.payload_length n q, ok.within)) nil more
              (rw (f, payload_round) (rw q))
        | inr full ↦ absurd (not_equal p.payload_length n q full)
      ]
    ]

-- A round that first completed the header, and then did the rest.
Does-then :
    (d d' : Decoder) (out : List Bytes) (chunk taken rest : Bytes) (r : Round)
    → chunk ≡ taken ++ rest
    → feeds d.max_frame_length (view d) taken ≡ some (view d', [])
    → d'.max_frame_length ≡ d.max_frame_length
    → failed_decoder d' ≡ failed_decoder d
    → Does d' out rest r
    → Does d out chunk r
Does-then d d' out chunk taken rest r split fed same fail (goes_on d'' more tk rs e s l f m w) =
    goes_on d'' more (taken ++ tk) rs e
      (split ∙ ap (λ l. taken ++ l) s ∙ sym (append_assoc taken tk rs))
      (omega (arith, ap length split, length-append taken rest))
      (feeds-append d.max_frame_length (view d) taken tk ∙ (rw fed (rw (← same) (rw f)))) (m ∙ same)
      w
Does-then d d' out chunk taken rest r split fed same fail (gives_up e f) =
    gives_up (e ∙ ap fails fail) (
      ap (λ l. feeds d.max_frame_length (view d) l) split
      ∙ feeds-append d.max_frame_length (view d) taken rest
      ∙ (rw fed (rw (← same) (rw f))))

feeds_header_complete :
    (max : ℕ) (h xs : Bytes)
    → 0 < length xs
    → length h + length xs ≡ frame_header_length
    → feeds max (in_header h) xs ≡ header_done max (h ++ xs)
feeds_header_complete max h [] p e = absurd (omega arith)
feeds_header_complete max h (x ∷ xs) p e = feeds-header_done max h x xs e

abbrev started : Decoder → ℕ → Decoder
started d n = record d { header = []; expected = some n; payload = no_payload }

no_payload-IsPayload : (n : ℕ) → IsPayload n no_payload
no_payload-IsPayload n = record { full = tt; counted = refl; within = omega arith; current = tt }

-- The payload part of the round that completed the header; nothing may be left for it.
started-Does :
    (d : Decoder) (n : ℕ) (out : List Bytes) (chunk taken rest : Bytes)
    → d.state ≡ open_
    → 0 < n
    → chunk ≡ taken ++ rest
    → 0 < length taken
    → feeds d.max_frame_length (view d) taken ≡ some (in_payload n [], [])
    → Does d out chunk (payload_round (started d n) n out rest)
unfolding payload_round failed_decoder fill
started-Does d n out chunk taken [] o pos split more fed =
    goes_on (started d n) [] taken [] (ground (arith, append-nil out)) split
      (omega (arith, ap length split, length-append taken [])) fed refl
      (record { is_open = o; reading = (refl, no_payload-IsPayload n, pos) })
started-Does d n out chunk taken (x ∷ rest) o pos split more fed =
    Does-then d (started d n) out chunk taken (x ∷ rest) _ split fed refl refl (
      payload_round-Does (started d n) n out (x ∷ rest) o refl refl (no_payload-IsPayload n) pos
        (omega arith))

length_round-Does :
    (d : Decoder) (out : List Bytes) (chunk taken rest : Bytes)
    → d.state ≡ open_
    → d.expected ≡ none
    → chunk ≡ taken ++ rest
    → 0 < length taken
    → length d.header + length taken ≡ frame_header_length
    → Does d out chunk (length_round d (d.header ++ taken) out rest)
unfolding length_round
length_round-Does d out chunk taken rest o e split some_taken total =
    let n : ℕ = frame_length (d.header ++ taken) in
    let fed : feeds d.max_frame_length (view d) taken
        ≡ header_done d.max_frame_length (d.header ++ taken) =
      rw e (feeds_header_complete d.max_frame_length d.header taken some_taken total) in
    elim (Bool-cases (ltb d.max_frame_length n)) [
      | inl long ↦ gives_up (rw (long, length_round)) (
          ap (feeds d.max_frame_length (view d)) split
          ∙ feeds-append d.max_frame_length (view d) taken rest
          ∙ (rw fed (rw (header_long d.max_frame_length (d.header ++ taken) long))))
      | inr fits ↦ elim (Bool-cases (n == 0)) [
        | inl zero_length ↦
            goes_on (record d { header = [] }) ([] ∷ []) taken rest
              (rw (fits, length_round) (rw zero_length)) split
              (omega (arith, ap length split, length-append taken rest))
              (fed ∙ header_empty d.max_frame_length (d.header ++ taken) fits zero_length ∙ (rw e))
              refl (record { is_open = o; reading = rw e (omega arith) })
        | inr positive ↦
            rw (fits, length_round)
              (rw positive (
                started-Does d n out chunk taken rest o (omega (arith, not_equal n 0 positive))
                  split some_taken
                  (fed ∙ header_started d.max_frame_length (d.header ++ taken) fits positive)))
      ]
    ]

round-payload :
    (d : Decoder) (n : ℕ) (out : List Bytes) (chunk : Bytes)
    → d.expected ≡ some n
    → round d out chunk ≡ payload_round d n out chunk
unfolding round
round-payload d n out chunk e = ground arith

-- What a round takes for the header.
abbrev header_part : Decoder → Bytes → ℕ
header_part d chunk = min (frame_header_length - length d.header) (length chunk)

round-partial :
    (d : Decoder) (out : List Bytes) (chunk : Bytes)
    → d.expected ≡ none
    → length (d.header ++ take (header_part d chunk) chunk) < frame_header_length
    → round d out chunk
      ≡ next
          (record d { header = d.header ++ take (header_part d chunk) chunk })
          out
          (drop (header_part d chunk) chunk)
unfolding round
round-partial d out chunk e lt = ground arith

round_complete :
    (d : Decoder) (out : List Bytes) (chunk : Bytes)
    → d.expected ≡ none
    → frame_header_length ≤ length (d.header ++ take (header_part d chunk) chunk)
    → round d out chunk
      ≡ length_round d
          (d.header ++ take (header_part d chunk) chunk)
          out
          (drop (header_part d chunk) chunk)
unfolding round
round_complete d out chunk e le = ground arith

round_header-Does :
    (d : Decoder) (out : List Bytes) (chunk : Bytes)
    → d.state ≡ open_
    → d.expected ≡ none
    → length d.header < frame_header_length
    → 0 < length chunk
    → Does d out chunk (round d out chunk)
round_header-Does d out chunk o e short more =
    let k : ℕ = header_part d chunk in
    let taken : length (take k chunk) ≡ k = omega (arith, length-take k chunk) in
    let split : chunk ≡ take k chunk ++ drop k chunk = sym (take-append-drop k chunk) in
    let total = length-append d.header (take k chunk) in
    elim (dec_lt (length (d.header ++ take k chunk)) frame_header_length) [
      | yes lt ↦
          goes_on (record d { header = d.header ++ take k chunk }) [] (take k chunk) (drop k chunk)
            (round-partial d out chunk e lt
              ∙ ap (λ l. next (record d { header = d.header ++ take k chunk }) l (drop k chunk))
                  (sym (append-nil out)))
            split (omega (arith, length-drop k chunk))
            (rw e (feeds_header d.max_frame_length d.header (take k chunk) (omega (arith, total))))
            refl (record { is_open = o; reading = rw e lt })
      | no ge ↦ subst (Does d out chunk) (sym (round_complete d out chunk e (omega arith))) (
          length_round-Does d out chunk (take k chunk) (drop k chunk) o e split
            (omega (arith, taken)) (omega (arith, taken, total)))
    ]

pub round-Does :
    (d : Decoder) (out : List Bytes) (chunk : Bytes)
    → IsOpen d
    → 0 < length chunk
    → Does d out chunk (round d out chunk)
round-Does d out chunk w more = elim (Option-cases d.expected) [
  | inr (n, e) ↦
      let reading : (d.header ≡ []) × IsPayload n d.payload × (d.payload.payload_length < n) =
        rw e at w.reading in
      subst (Does d out chunk) (sym (round-payload d n out chunk e))
        (payload_round-Does d n out chunk w.is_open e reading.0 reading.1 reading.2 more)
  | inl e ↦ round_header-Does d out chunk w.is_open e (rw e at w.reading) more
]
