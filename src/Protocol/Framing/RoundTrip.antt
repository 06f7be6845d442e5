-- ===== src/Protocol/Framing/RoundTrip.antt =====
-- `FrameDecoder` after `encodeFrame` of framing.ts.
use livi_agent.Prelude.{
  ℕ, suc, ◌≤◌, ◌<◌, ◌≡◌, refl, sym, subst, ap, ◌∙◌, true, Option, none, some, inl, inr, List, [],
  ◌∷◌, ◌++◌, All, arith, length, Option-cases,
}
use livi_agent.Protocol.Framing.{
  Bytes, Decoder, max_uint32, header_bytes, frame_length, encode_frame, new_decoder, Pushed, frames,
  frame_error, out_of_fuel, push, end,
}
use livi_agent.Protocol.Framing.Stream.{
  Partial, in_header, in_payload, header_done, header_empty, header_started, feeds, feeds-nil,
  feeds-append, feeds-header_done, feeds_payload_done, after,
}
use livi_agent.Protocol.Framing.Rounds.{view, IsOpen}
use livi_agent.Protocol.Framing.Refinement.{Ends, reads, refuses, push-Ends, end_complete}

-- The frames of the payloads behind one another.
unfoldable pub encode_all : List Bytes → Option Bytes
encode_all [] = some []
encode_all (p ∷ ps) = elim (encode_frame p) [
  | none ↦ none
  | some f ↦ elim (encode_all ps) [ none ↦ none | some fs ↦ some (f ++ fs) ]
]

unfoldable pub after_push : List Bytes → Decoder × Pushed → Decoder × Pushed
after_push out (d, frames fs) = (d, frames (out ++ fs))
after_push out (d, frame_error) = (d, frame_error)
after_push out (d, out_of_fuel) = (d, out_of_fuel)

-- The calls of `push` for the chunks of a stream, up to the first that throws.
unfoldable pub pushes : Decoder → List Bytes → Decoder × Pushed
unfolding after_push
pushes d [] = (d, frames [])
pushes d (c ∷ cs) = elim (push d c).1 [
  | frames out ↦ after_push out (pushes (push d c).0 cs)
  | frame_error ↦ ((push d c).0, frame_error)
  | out_of_fuel ↦ ((push d c).0, out_of_fuel)
]

abbrev pub concat : List Bytes → Bytes
concat [] = []
concat (c ∷ cs) = c ++ concat cs

frame_length-header_bytes : (n : ℕ) → n ≤ max_uint32 → frame_length (header_bytes n) ≡ n
unfolding frame_length header_bytes
frame_length-header_bytes n h = omega arith

pub IsOpen-new : (max : ℕ) → IsOpen (new_decoder max)
unfolding new_decoder
IsOpen-new max = record { is_open = refl; reading = omega arith }

header_done-header_bytes :
    (max n : ℕ)
    → 0 < n
    → n ≤ max
    → n ≤ max_uint32
    → header_done max (header_bytes n) ≡ some (in_payload n [], [])
header_done-header_bytes max n pos le fits =
    let is_n : frame_length (header_bytes n) ≡ n = frame_length-header_bytes n fits in
    header_started max (header_bytes n) (rw is_n (ground arith)) (rw is_n (ground arith))
    ∙ ap (λ k. some (in_payload k [], [])) is_n

feeds-header_bytes :
    (max n : ℕ) → feeds max (in_header []) (header_bytes n) ≡ header_done max (header_bytes n)
unfolding header_bytes
feeds-header_bytes max n = feeds-header_done max [] _ _ (omega arith)

-- The reading of one frame.
feeds_frame :
    (max : ℕ) (p : Bytes)
    → length p ≤ max
    → length p ≤ max_uint32
    → feeds max (in_header []) (header_bytes (length p) ++ p) ≡ some (in_header [], p ∷ [])
feeds_frame max [] le fits =
    feeds-append max (in_header []) (header_bytes 0) []
    ∙ (rw (feeds-header_bytes max 0) (
        rw
          (header_empty max (header_bytes 0) (rw (frame_length-header_bytes 0 fits) (ground arith))
            (rw (frame_length-header_bytes 0 fits)))
          (rw feeds-nil)))
feeds_frame max (x ∷ xs) le fits =
    feeds-append max (in_header []) (header_bytes (suc (length xs))) (x ∷ xs)
    ∙ (rw (feeds-header_bytes max (suc (length xs))) (
        rw (header_done-header_bytes max (suc (length xs)) (omega arith) le fits)
          (rw (feeds_payload_done max (suc (length xs)) [] x xs (omega arith)))))

encode_frame-some :
    (p f : Bytes)
    → encode_frame p ≡ some f
    → (length p ≤ max_uint32) × (f ≡ header_bytes (length p) ++ p)
unfolding encode_frame
encode_frame-some p f e = (ground arith, ground arith)

encode_all-cons :
    (p : Bytes) (ps : List Bytes) (stream : Bytes)
    → encode_all (p ∷ ps) ≡ some stream
    → (f fs : Bytes) × (encode_frame p ≡ some f) × (encode_all ps ≡ some fs) × (stream ≡ f ++ fs)
unfolding encode_all
encode_all-cons p ps stream e = elim (Option-cases (encode_frame p)) [
  | inl n ↦ absurd (ground arith)
  | inr (f, g) ↦ elim (Option-cases (encode_all ps)) [
    | inl n ↦ absurd (ground arith)
    | inr (fs, h) ↦ (f, fs, g, h, ground arith)
  ]
]

-- The reading of a stream of frames.
feeds-encode_all :
    (max : ℕ) (ps : List Bytes) (stream : Bytes)
    → All (λ p. length p ≤ max) ps
    → encode_all ps ≡ some stream
    → feeds max (in_header []) stream ≡ some (in_header [], ps)
unfolding encode_all
feeds-encode_all max [] stream fits e =
    let nil : ◌≡◌ {A = Bytes} [] stream = ground arith in
    subst (λ s. feeds max (in_header []) s ≡ some (in_header [], [])) nil
      (feeds-nil max (in_header []))
feeds-encode_all max (p ∷ ps) stream fits e =
    let (f, fs, g, h, split) = encode_all-cons p ps stream e in
    let (small, is) = encode_frame-some p f g in
    rw (split, is)
      (feeds-append max (in_header []) (header_bytes (length p) ++ p) fs
        ∙ (rw (feeds_frame max p fits.0 small) (rw (feeds-encode_all max ps fs fits.1 h))))

after-some :
    (more : List Bytes) (m : Option (Partial × List Bytes)) (v : Partial) (out : List Bytes)
    → after more m ≡ some (v, out)
    → (rest : List Bytes) × (m ≡ some (v, rest)) × (out ≡ more ++ rest)
after-some more none v out e = absurd (cc)
after-some more (some (w, rest)) v out e = (rest, ground arith, ground arith)

pub pushes-cons :
    (d d' : Decoder) (c : Bytes) (cs : List Bytes) (out : List Bytes)
    → push d c ≡ (d', frames out)
    → pushes d (c ∷ cs) ≡ after_push out (pushes d' cs)
unfolding pushes
pushes-cons d d' c cs out e = rw (e, pushes) (rw e)

-- What a decoder has read of the chunks of a stream whose reading succeeds.
pushes-feeds :
    (d : Decoder) (cs : List Bytes) (v : Partial) (out : List Bytes)
    → IsOpen d
    → feeds d.max_frame_length (view d) (concat cs) ≡ some (v, out)
    → (d' : Decoder) × (pushes d cs ≡ (d', frames out)) × (view d' ≡ v) × IsOpen d'
unfolding pushes after_push
pushes-feeds d [] v out w e =
    let same = sym (feeds-nil d.max_frame_length (view d)) ∙ e in (d, ground arith, ground arith, w)
pushes-feeds d (c ∷ cs) v out w e =
    by_push (push-Ends d c w) (λ d' v' out'. pushes-feeds d' cs v' out')
  where
    by_push :
        Ends d [] c (push d c)
        → ((d' : Decoder) (v' : Partial) (out' : List Bytes)
            → IsOpen d'
            → feeds d'.max_frame_length (view d') (concat cs) ≡ some (v', out')
            → (d'' : Decoder) × (pushes d' cs ≡ (d'', frames out')) × (view d'' ≡ v') × IsOpen d'')
        → (d'' : Decoder) × (pushes d (c ∷ cs) ≡ (d'', frames out)) × (view d'' ≡ v) × IsOpen d''
    by_push (reads d' more p fed same ok) loop =
        let split = sym (feeds-append d.max_frame_length (view d) c (concat cs)) ∙ e in
        let (rest, f, g) =
          after-some more (feeds d.max_frame_length (view d') (concat cs)) v out
            (rw fed at split) in
        let (d'', q, at_end, is_open) = loop d' v rest ok (rw same f) in
        (
          d'',
          pushes-cons d d' c cs more p ∙ ap (after_push more) q ∙ ap (λ l. (d'', frames l)) (sym g),
          at_end,
          is_open,
        )
    by_push (refuses p q n) loop =
        let split = sym (feeds-append d.max_frame_length (view d) c (concat cs)) ∙ e in
        absurd (let no : none ≡ some (v, out) = rw n at split in cc)

-- Frames survive transport. Encode payloads of at most the decoder's limit, cut the stream into
-- chunks in any way, and push those to a new decoder: it returns the payloads, in order, and
-- `end` succeeds.
pub pushes-encode_all :
    (max : ℕ) (ps : List Bytes) (stream : Bytes) (cs : List Bytes)
    → All (λ p. length p ≤ max) ps
    → encode_all ps ≡ some stream
    → concat cs ≡ stream
    → ((pushes (new_decoder max) cs).1 ≡ frames ps)
      × ((end (pushes (new_decoder max) cs).0).1 ≡ true)
unfolding new_decoder
pushes-encode_all max ps stream cs fits e cut =
    let (d, p, at_end, ok) =
      pushes-feeds (new_decoder max) cs (in_header []) ps (IsOpen-new max)
        (rw cut (feeds-encode_all max ps stream fits e)) in
    (rw p, rw p ((end_complete d ok).1 at_end))
