-- ===== src/Protocol/Framing/Refinement.antt =====
-- `FrameDecoder.push` of framing.ts against the byte-by-byte reading of the stream.
use livi_agent.Prelude.{
  ℕ, Option-cases, ◌↔◌, zero, suc, ◌≤◌, ◌≡◌, refl, sym, subst, ap, ◌∙◌, true, none, some, inl, inr,
  List, [], ◌∷◌, ◌++◌, arith, length, append_assoc, append-nil,
}
use livi_agent.Protocol.Framing.{
  Bytes, Decoder, open_, failed, failed_decoder, round, Pushed, frames, frame_error, push_loop,
  push, end,
}
use livi_agent.Protocol.Framing.Stream.{in_header, feeds, feeds-nil, feeds-append}
use livi_agent.Protocol.Framing.Rounds.{view, IsOpen, Does, goes_on, gives_up, round-Does}

-- How the calls of `push` end: with the frames of the reading, or in the failed state where the
-- reading finds a length over the limit.
pub data Ends (d : Decoder) (out : List Bytes) (chunk : Bytes) (r : Decoder × Pushed) : Type 0 where
  reads :
      (d' : Decoder) (more : List Bytes)
      → r ≡ (d', frames (out ++ more))
      → feeds d.max_frame_length (view d) chunk ≡ some (view d', more)
      → d'.max_frame_length ≡ d.max_frame_length
      → IsOpen d'
      → Ends d out chunk r
  refuses :
      r.1 ≡ frame_error
      → r.0.state ≡ failed
      → feeds d.max_frame_length (view d) chunk ≡ none
      → Ends d out chunk r

state-failed_decoder : (d : Decoder) → (failed_decoder d).state ≡ failed
unfolding failed_decoder
state-failed_decoder d = refl

-- A round, and then the rest of the loop.
Ends-then :
    (d d' : Decoder) (out more : List Bytes) (chunk taken rest : Bytes) (r : Decoder × Pushed)
    → chunk ≡ taken ++ rest
    → feeds d.max_frame_length (view d) taken ≡ some (view d', more)
    → d'.max_frame_length ≡ d.max_frame_length
    → Ends d' (out ++ more) rest r
    → Ends d out chunk r
Ends-then d d' out more chunk taken rest r split fed same (reads d'' fs e f m w) =
    reads d'' (more ++ fs) (e ∙ ap (λ l. (d'', frames l)) (append_assoc out more fs))
      (ap (feeds d.max_frame_length (view d)) split
        ∙ feeds-append d.max_frame_length (view d) taken rest
        ∙ (rw fed (rw (← same) (rw f))))
      (m ∙ same) w
Ends-then d d' out more chunk taken rest r split fed same (refuses e f n) = refuses e f (
    ap (feeds d.max_frame_length (view d)) split
    ∙ feeds-append d.max_frame_length (view d) taken rest
    ∙ (rw fed (rw (← same) (rw n))))

push_loop-Ends :
    (fuel : ℕ) (d : Decoder) (out : List Bytes) (chunk : Bytes)
    → length chunk ≤ fuel
    → IsOpen d
    → Ends d out chunk (push_loop fuel d out chunk)
unfolding push_loop
push_loop-Ends fuel d out [] le w =
    reads d [] (ap (λ l. (d, frames l)) (sym (append-nil out)))
      (feeds-nil d.max_frame_length (view d)) refl w
push_loop-Ends zero d out (b ∷ chunk) le w = absurd (omega arith)
push_loop-Ends (suc fuel) d out (b ∷ chunk) le w =
    by_round (round-Does d out (b ∷ chunk) w (omega arith)) (push_loop-Ends fuel)
  where
    by_round :
        Does d out (b ∷ chunk) (round d out (b ∷ chunk))
        → ((d' : Decoder) (out' : List Bytes) (rest : Bytes)
            → length rest ≤ fuel
            → IsOpen d'
            → Ends d' out' rest (push_loop fuel d' out' rest))
        → Ends d out (b ∷ chunk) (push_loop (suc fuel) d out (b ∷ chunk))
    by_round (goes_on d' more taken rest e split shorter fed same ok) loop =
        rw (e, push_loop)
          (Ends-then d d' out more (b ∷ chunk) taken rest _ split fed same
            (loop d' (out ++ more) rest (omega arith) ok))
    by_round (gives_up e none_left) loop =
        rw (e, push_loop) (refuses refl (state-failed_decoder d) none_left)

push-open :
    (d : Decoder) (chunk : Bytes)
    → d.state ≡ open_
    → push d chunk ≡ push_loop (length chunk) d [] chunk
unfolding push
push-open d chunk o = ground arith

-- `push` on an open decoder always ends with a result. It returns exactly the frames that the
-- byte-by-byte reading of the chunk completes, and keeps what that reading keeps, still open; or it
-- throws, and is failed from then on, exactly where the reading meets a length over the limit.
pub push-Ends : (d : Decoder) (chunk : Bytes) → IsOpen d → Ends d [] chunk (push d chunk)
push-Ends d chunk w =
    subst (Ends d [] chunk) (sym (push-open d chunk w.is_open))
      (push_loop-Ends (length chunk) d [] chunk (omega arith) w)

-- `end` on an open decoder succeeds exactly where no frame is begun.
pub end_complete : (d : Decoder) → IsOpen d → ((end d).1 ≡ true) ↔ (view d ≡ in_header [])
unfolding end
end_complete d w = elim (Option-cases d.expected) [
  | inr (n, e) ↦ ground arith
  | inl e ↦ ground arith
]
