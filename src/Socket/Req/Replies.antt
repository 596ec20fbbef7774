-- ===== src/Socket/Req/Replies.antt =====
-- Which frames core/src/socket/req_socket.rs takes as replies.
use rzmq.Base.{
  ℕ, ◌≡◌, refl, true, false, not, ◌&&◌, Option, none, some, List, [], ◌∷◌, ◌++◌, if◌then◌else◌,
  arith, inl, inr, bytes_eq_refl, nat_eq, Bool-cases,
}
use rzmq.Base.Maps.{lookup}
use rzmq.Message.{Msg, is_more, size}
use rzmq.Patterns.LoadBalancer.{Uri}
use rzmq.Patterns.Orchestrator.{Pushed, sent, queue_item, accumulate_pipe_frame}
use rzmq.Patterns.Orchestrator.Assembly.{Arrival, feed, waiting, done-accumulate, two_frames}
use rzmq.Socket.Req.{expecting_reply, ReqSocket, is_target}
use rzmq.Socket.Req.Pipes.{process_incoming_zmtp_message_for_req, from_target, handle_pipe_event}

-- A frame makes the socket queue a reply exactly if it comes from a pipe of the peer that the last
-- request went to, while its reply is expected, and is the last frame of its message. The reply is
-- the frames of that pipe that waited, and this one, without a delimiter in front.
pub handle_pipe_event_queues :
    (pushed : Pushed) (p : ℕ) (msg : Msg) (sock : ReqSocket)
    → (handle_pipe_event pushed p msg sock).0 ≡ (
        if from_target (lookup p sock.pipe_read_to_endpoint_uri) sock.state && not (is_more msg)
        then some (
            process_incoming_zmtp_message_for_req
              (waiting sock.incoming_orchestrator p ++ (msg ∷ [])))
        else none)
unfolding handle_pipe_event
handle_pipe_event_queues pushed p msg sock =
    ground (arith, done-accumulate sock.incoming_orchestrator p msg)

-- Frames that arrive one after another, with room in the queue: the replies that are queued.
pub deliver : List Arrival → ReqSocket → List (List Msg) × ReqSocket
deliver [] sock = ([], sock)
deliver ((p, frame) ∷ later) sock =
    let (queued, sock') = handle_pipe_event sent p frame sock in
    let (rest, sock'') = deliver later sock' in
    (elim queued [ none ↦ rest | some reply ↦ reply ∷ rest ], sock'')

-- The frames from the pipes of one peer.
pub of_peer : Uri → List (ℕ × Uri) → List Arrival → List Arrival
of_peer target uris [] = []
of_peer target uris ((p, frame) ∷ later) =
    let rest = of_peer target uris later in
    if from_target (lookup p uris) (expecting_reply target) then (p, frame) ∷ rest else rest

abbrev pub replies : List (ℕ × List Msg) → List (List Msg)
replies [] = []
replies ((p, frames) ∷ later) = process_incoming_zmtp_message_for_req frames ∷ replies later

abbrev reply_of : Option (List Msg) → Option (List Msg)
reply_of none = none
reply_of (some frames) = some (process_incoming_zmtp_message_for_req frames)

-- A frame from a pipe of the peer is one for the orchestrator; any other leaves the socket alone.
handle_pipe_event_target :
    (target : Uri) (p : ℕ) (msg : Msg) (sock : ReqSocket)
    → sock.state ≡ expecting_reply target
    → from_target (lookup p sock.pipe_read_to_endpoint_uri) (expecting_reply target) ≡ true
    → let (whole, o) = accumulate_pipe_frame sock.incoming_orchestrator p msg in
      handle_pipe_event sent p msg sock
      ≡ (reply_of whole, record sock { incoming_orchestrator = o })
unfolding handle_pipe_event queue_item
handle_pipe_event_target target p msg sock e h = ground arith

handle_pipe_event_other :
    (target : Uri) (p : ℕ) (msg : Msg) (sock : ReqSocket)
    → sock.state ≡ expecting_reply target
    → from_target (lookup p sock.pipe_read_to_endpoint_uri) (expecting_reply target) ≡ false
    → handle_pipe_event sent p msg sock ≡ (none, sock)
unfolding handle_pipe_event
handle_pipe_event_other target p msg sock e h = ground arith

-- While the reply of a peer is expected, and the queue has room, the socket does to the frames that
-- arrive what its orchestrator does to those of the peer's pipes: all whole messages that these make
-- are queued in order, without their delimiters, and the frames of other pipes change nothing.
pub deliver_target :
    (target : Uri) (arrivals : List Arrival) (sock : ReqSocket)
    → sock.state ≡ expecting_reply target
    → let (messages, o) =
        feed sock.incoming_orchestrator (of_peer target sock.pipe_read_to_endpoint_uri arrivals) in
      deliver arrivals sock ≡ (replies messages, record sock { incoming_orchestrator = o })
unfolding deliver of_peer feed
deliver_target target [] sock e = refl
deliver_target target ((p, frame) ∷ later) sock e =
    let (whole, o) = accumulate_pipe_frame sock.incoming_orchestrator p frame in
    elim (Bool-cases
      (from_target (lookup p sock.pipe_read_to_endpoint_uri) (expecting_reply target))) [
        | inl h ↦ ground (
          arith,
          handle_pipe_event_target target p frame sock e h,
          deliver_target target later (record sock { incoming_orchestrator = o }) e,
        )
        | inr h ↦ ground (
          arith,
          handle_pipe_event_other target p frame sock e h,
          deliver_target target later sock e,
        )
      ]

-- A reply of two frames whose first is the delimiter.
pub deliver_reply :
    (q : ℕ) (target : Uri) (delimiter last : Msg) (sock : ReqSocket)
    → sock.state ≡ expecting_reply target
    → lookup q sock.pipe_read_to_endpoint_uri ≡ some target
    → waiting sock.incoming_orchestrator q ≡ []
    → is_more delimiter ≡ true
    → size delimiter ≡ 0
    → is_more last ≡ false
    → (deliver ((q, delimiter) ∷ (q, last) ∷ []) sock).0 ≡ (last ∷ []) ∷ []
unfolding deliver is_target process_incoming_zmtp_message_for_req
deliver_reply q target delimiter last sock s m w d z l =
    let o = (accumulate_pipe_frame sock.incoming_orchestrator q delimiter).1 in
    let from : from_target (lookup q sock.pipe_read_to_endpoint_uri) (expecting_reply target)
        ≡ true =
      rw (m) (bytes_eq_refl target) in
    ground (
      arith,
      two_frames sock.incoming_orchestrator q delimiter last w d l,
      handle_pipe_event_target target q delimiter sock s from,
      handle_pipe_event_target target q last (record sock { incoming_orchestrator = o }) s from,
    )
