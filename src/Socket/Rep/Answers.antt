-- ===== src/Socket/Rep/Answers.antt =====
-- The frames of a reply in core/src/socket/rep_socket.rs.
use rzmq.Base.{◌≡◌, refl, true, none, some, List, [], ◌∷◌, ◌++◌, map, if◌then◌else◌, arith}
use rzmq.Error.{host_unreachable, Result, err}
use rzmq.Message.{Msg, new}
use rzmq.Patterns.Framing.Delimiter.{WellFramed}
use rzmq.Patterns.LoadBalancer.{Uri, contains}
use rzmq.Patterns.Orchestrator.{reset_recv_message_buffer}
use rzmq.Socket.Frames.{mark_frames, mark_frames-WellFramed, payload-mark_frames}
use rzmq.Socket.Rep.{
  PeerInfo, ready_to_receive, received_request, RepSocket, or_empty_frame, send_frames, send_reply,
  send_from, send_multipart,
}

-- The frames of a reply to a request.
abbrev pub reply_frames : PeerInfo → List Msg → List Msg
reply_frames info payload_frames =
    mark_frames (info.routing_prefix ++ or_empty_frame payload_frames)

prefixed :
    (prefix payload : List Msg)
    → (frame : Msg) × (frames : List Msg) × (prefix ++ or_empty_frame payload ≡ frame ∷ frames)
prefixed [] [] = (new, [], refl)
prefixed [] (frame ∷ frames) = (frame, frames, refl)
prefixed (frame ∷ frames) payload = (frame, frames ++ or_empty_frame payload, refl)

reply_frames-WellFramed :
    (info : PeerInfo) (payload_frames : List Msg) → WellFramed (reply_frames info payload_frames)
reply_frames-WellFramed info payload_frames =
    let (frame, frames, e) = prefixed info.routing_prefix payload_frames in
    rw (e) (mark_frames-WellFramed frame frames)

send_frames-prefixed :
    (connection : Uri → List Msg → Result (Unit {0})) (info : PeerInfo) (payload_frames : List Msg)
    → let uri = info.target_endpoint_uri in
      let frames = reply_frames info payload_frames in
      send_frames connection uri (info.routing_prefix ++ or_empty_frame payload_frames)
      ≡ (connection uri frames, some (uri, frames))
unfolding send_frames
send_frames-prefixed connection info payload_frames =
    let (frame, frames, e) = prefixed info.routing_prefix payload_frames in rw (e) refl

-- A reply to the request that the socket holds is the request's routing prefix and the frames given,
-- an empty frame if none are: it is one whole multipart message with the contents of these frames.
-- It goes to the peer that asked, if the core still knows it, and to nobody otherwise; either way
-- the socket holds the request no longer, and has no frames of it left.
pub send_multipart_answers :
    (connection : Uri → List Msg → Result (Unit {0})) (endpoints : List Uri)
    (payload_frames : List Msg) (sock : RepSocket) (info : PeerInfo)
    → sock.state ≡ received_request info
    → let frames = reply_frames info payload_frames in
      let (answer, wire, sock') = send_multipart connection true endpoints payload_frames sock in
      WellFramed frames
      × (map (λ m. m.payload) frames
          ≡ map (λ m. m.payload) (info.routing_prefix ++ or_empty_frame payload_frames))
      × (answer ≡ (
          if contains endpoints info.target_endpoint_uri
          then connection info.target_endpoint_uri frames
          else err host_unreachable))
      × (wire ≡ (
          if contains endpoints info.target_endpoint_uri
          then some (info.target_endpoint_uri, frames)
          else none))
      × (sock'.state ≡ ready_to_receive)
      × (sock'.incoming_orchestrator.current_recv_frames_buffer ≡ [])
unfolding send_multipart send_from send_reply send_frames reset_recv_message_buffer
send_multipart_answers connection endpoints payload_frames sock info h = rw (h) (
  reply_frames-WellFramed info payload_frames,
  payload-mark_frames (info.routing_prefix ++ or_empty_frame payload_frames),
  ground (arith, send_frames-prefixed connection info payload_frames),
  ground (arith, send_frames-prefixed connection info payload_frames),
  refl,
  refl,
)
