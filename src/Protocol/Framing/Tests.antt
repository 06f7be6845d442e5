-- ===== src/Protocol/Framing/Tests.antt =====
-- Runs of the frame decoder of framing.ts on small data.
use livi_agent.Prelude.{◌≡◌, ◌↔◌, refl, true, some, List, [], ◌∷◌, arith}
use livi_agent.Protocol.Framing.{Bytes, new_decoder, end, frames, push, encode_frame, header_bytes}
use livi_agent.Protocol.Framing.Stream.{in_header, feeds}
use livi_agent.Protocol.Framing.Rounds.{view}
use livi_agent.Protocol.Framing.Refinement.{Ends, push-Ends}
use livi_agent.Protocol.Framing.Complete.{pushes_complete}
use livi_agent.Protocol.Framing.RoundTrip.{
  IsOpen-new, pushes, concat, encode_all, pushes-encode_all,
}

abbrev two_frames : Bytes
two_frames = 0 ∷ 0 ∷ 0 ∷ 2 ∷ 7 ∷ 8 ∷ 0 ∷ 0 ∷ 0 ∷ 0 ∷ []

abbrev cut_frames : List Bytes
cut_frames = (0 ∷ 0 ∷ []) ∷ (0 ∷ 2 ∷ 7 ∷ []) ∷ [] ∷ (8 ∷ 0 ∷ 0 ∷ 0 ∷ 0 ∷ []) ∷ []

push-Ends_example : Ends (new_decoder 4) [] two_frames (push (new_decoder 4) two_frames)
push-Ends_example = push-Ends (new_decoder 4) two_frames (IsOpen-new 4)

pushes_complete_example :
    (((pushes (new_decoder 4) cut_frames).1 ≡ frames ((7 ∷ 8 ∷ []) ∷ [] ∷ []))
      × ((end (pushes (new_decoder 4) cut_frames).0).1 ≡ true))
    ↔ (feeds (new_decoder 4).max_frame_length (view (new_decoder 4)) (concat cut_frames)
        ≡ some (in_header [], (7 ∷ 8 ∷ []) ∷ [] ∷ []))
pushes_complete_example =
    pushes_complete (new_decoder 4) cut_frames ((7 ∷ 8 ∷ []) ∷ [] ∷ []) (IsOpen-new 4)

pushes-encode_all_example :
    ((pushes (new_decoder 4) cut_frames).1 ≡ frames ((7 ∷ 8 ∷ []) ∷ [] ∷ []))
    × ((end (pushes (new_decoder 4) cut_frames).0).1 ≡ true)
unfolding encode_all encode_frame header_bytes
pushes-encode_all_example =
    pushes-encode_all 4 ((7 ∷ 8 ∷ []) ∷ [] ∷ []) two_frames cut_frames
      (omega arith, (omega arith, tt)) refl refl
