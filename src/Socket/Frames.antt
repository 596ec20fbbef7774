-- ===== src/Socket/Frames.antt =====
-- The loop over the frames of an outgoing message in core/src/socket/rep_socket.rs, push_socket.rs
-- and pub_socket.rs.
use rzmq.Base.{◌≡◌, refl, ap, List, [], ◌∷◌, map, is_empty, arith}
use rzmq.Message.{Msg}
use rzmq.Patterns.Framing.Delimiter.{WellFramed}
use rzmq.Patterns.Orchestrator.{mark_more}

-- The loop that sets the MORE flag on all frames but the last.
unfoldable pub mark_frames : List Msg → List Msg
mark_frames [] = []
mark_frames (frame ∷ frames) = mark_more (is_empty frames) frame ∷ mark_frames frames

pub mark_frames-WellFramed :
    (frame : Msg) (frames : List Msg) → WellFramed (mark_frames (frame ∷ frames))
unfolding mark_frames
mark_frames-WellFramed frame [] = ground arith
mark_frames-WellFramed frame (next ∷ frames) = (ground arith, mark_frames-WellFramed next frames)

pub payload-mark_frames :
    (frames : List Msg) → map (λ m. m.payload) (mark_frames frames) ≡ map (λ m. m.payload) frames
unfolding mark_frames
payload-mark_frames [] = refl
payload-mark_frames (frame ∷ frames) = ap (λ r. frame.payload ∷ r) (payload-mark_frames frames)
