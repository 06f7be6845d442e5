-- ===== src/Protocol/Framing/Complete.antt =====
-- Whole streams through `FrameDecoder` of framing.ts: the calls of `push` and the `end` behind them,
-- against the byte-by-byte reading.
use livi_agent.Prelude.{
  Option, arith, ◌≡◌, ◌↔◌, refl, sym, ap, ◌∙◌, true, none, some, List, [], ◌∷◌, ◌++◌,
}
use livi_agent.Protocol.Framing.{
  Bytes, Decoder, Pushed, frames, frame_error, out_of_fuel, push, end,
}
use livi_agent.Protocol.Framing.Stream.{Partial, in_header, feeds, feeds-nil, feeds-append}
use livi_agent.Protocol.Framing.Rounds.{view, IsOpen}
use livi_agent.Protocol.Framing.Refinement.{Ends, reads, refuses, push-Ends, end_complete}
use livi_agent.Protocol.Framing.RoundTrip.{pushes, after_push, pushes-cons, concat}

-- The pushes of a decoder read the stream as the reading does, or throw where it fails.
data Reads (d : Decoder) (cs : List Bytes) : Type 0 where
  whole :
      (d' : Decoder) (out : List Bytes)
      → pushes d cs ≡ (d', frames out)
      → feeds d.max_frame_length (view d) (concat cs) ≡ some (view d', out)
      → IsOpen d'
      → Reads d cs
  stopped :
      (pushes d cs).1 ≡ frame_error
      → feeds d.max_frame_length (view d) (concat cs) ≡ none
      → Reads d cs

after_push-error :
    (more : List Bytes) (r : Decoder × Pushed)
    → r.1 ≡ frame_error
    → (after_push more r).1 ≡ frame_error
unfolding after_push
after_push-error more (d, frames fs) is = absurd cc
after_push-error more (d, frame_error) is = refl
after_push-error more (d, out_of_fuel) is = absurd cc

pushes-Reads : (d : Decoder) (cs : List Bytes) → IsOpen d → Reads d cs
unfolding pushes
pushes-Reads d [] w = whole d [] refl (feeds-nil d.max_frame_length (view d)) w
pushes-Reads d (c ∷ cs) w = by_push (push-Ends d c w) (λ d'. pushes-Reads d' cs)
  where
    by_push : Ends d [] c (push d c) → ((d' : Decoder) → IsOpen d' → Reads d' cs) → Reads d (c ∷ cs)
    by_push (refuses p q n) loop =
        stopped (ground (arith, p))
          (feeds-append d.max_frame_length (view d) c (concat cs) ∙ (rw n refl))
    by_push (reads d' more p fed same ok) loop = then d' more p fed same (loop d' ok)
      where
        then :
            (d' : Decoder) (more : List Bytes)
            → push d c ≡ (d', frames more)
            → feeds d.max_frame_length (view d) c ≡ some (view d', more)
            → d'.max_frame_length ≡ d.max_frame_length
            → Reads d' cs
            → Reads d (c ∷ cs)
        then d' more p fed same (whole d'' out q f w') =
            whole d'' (more ++ out) (pushes-cons d d' c cs more p ∙ ap (after_push more) q)
              (feeds-append d.max_frame_length (view d) c (concat cs)
                ∙ (rw fed (rw (← same) (rw f refl))))
              w'
        then d' more p fed same (stopped q n) =
            stopped
              (ap (λ (r : Decoder × Pushed). r.1) (pushes-cons d d' c cs more p)
                ∙ after_push-error more (pushes d' cs) q)
              (feeds-append d.max_frame_length (view d) c (concat cs)
                ∙ (rw fed (rw (← same) (rw n refl))))

some-view :
    (v w : Partial) (out fs : List Bytes)
    → Path (Option (Partial × List Bytes)) (some (v, out)) (some (w, fs))
    → (v ≡ w) × (out ≡ fs)
some-view v w out fs is = (
  ap (λ (o : Option (Partial × List Bytes)). elim o [ none ↦ v | some x ↦ x.0 ]) is,
  ap (λ (o : Option (Partial × List Bytes)). elim o [ none ↦ out | some x ↦ x.1 ]) is,
)

frames-same : (out fs : List Bytes) → frames out ≡ frames fs → out ≡ fs
frames-same out fs is =
    ap (λ (x : Pushed). elim x [ frames l ↦ l | frame_error ↦ out | out_of_fuel ↦ out ]) is

-- Pushing the chunks of a stream to an open decoder gives some frames, and `end` then succeeds, exactly
-- where the byte-by-byte reading of the stream, however it was cut, completes these frames and begins
-- no other.
pub pushes_complete :
    (d : Decoder) (cs : List Bytes) (fs : List Bytes)
    → IsOpen d
    → (((pushes d cs).1 ≡ frames fs) × ((end (pushes d cs).0).1 ≡ true))
      ↔ (feeds d.max_frame_length (view d) (concat cs) ≡ some (in_header [], fs))
pushes_complete d cs fs w = elim (pushes-Reads d cs w) [
  | whole d' out p f ok ↦ (
    (λ (got : ((pushes d cs).1 ≡ frames fs) × ((end (pushes d cs).0).1 ≡ true)).
        let same : out ≡ fs =
          frames-same out fs (sym (ap (λ (r : Decoder × Pushed). r.1) p) ∙ got.0) in
        let closed : view d' ≡ in_header [] =
          (end_complete d' ok).0 (sym (ap (λ (r : Decoder × Pushed). (end r.0).1) p) ∙ got.1) in
        f ∙ ap (λ v. some (v, out)) closed ∙ ap (λ l. some (in_header [], l)) same),
    (λ is.
        let (closed, same) = some-view (view d') (in_header []) out fs (sym f ∙ is) in
        (
          ap (λ (r : Decoder × Pushed). r.1) p ∙ ap frames same,
          ap (λ (r : Decoder × Pushed). (end r.0).1) p ∙ (end_complete d' ok).1 closed,
        )),
  )
  | stopped p n ↦ (
    (λ (got : ((pushes d cs).1 ≡ frames fs) × ((end (pushes d cs).0).1 ≡ true)).
        absurd (let no : frame_error ≡ frames fs = sym p ∙ got.0 in cc)),
    (λ is. absurd (let no : none ≡ some (in_header [], fs) = sym n ∙ is in cc)),
  )
]
