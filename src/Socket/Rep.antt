-- ===== src/Socket/Rep.antt =====
-- core/src/socket/rep_socket.rs: the REP socket. What the connections and the queue answer are
-- arguments, and so is what other operations make of the socket while a call waits (`meanwhile`).
pub mod Requests
pub mod Answers
pub mod Alternation
pub mod Exchange
use rzmq.Base.{
  ℕ, Bool, true, false, not, Option, none, some, List, [], ◌∷◌, ◌++◌, ◌==◌, if◌then◌else◌, is_empty,
  nat_eq,
}
use rzmq.Base.Maps.{lookup, insert, remove}
use rzmq.Error.{
  ZmqError, invalid_state, host_unreachable, internal, unsupported_option, Result, ok, err,
}
use rzmq.Message.{Msg, new, set_flags, more_flag, difference, size}
use rzmq.Patterns.LoadBalancer.{Uri, contains}
use rzmq.Patterns.Orchestrator.{
  Orchestrator, new_orchestrator, accumulate_pipe_frame, Pushed, queue_item, mark_more,
  recv_message, recv_logical_message, reset_recv_message_buffer, clear_pipe_state, close,
}
use rzmq.Socket.Frames.{mark_frames}

pub record PeerInfo : Type 0 where
  pub source_pipe_read_id : ℕ
  pub target_endpoint_uri : Uri
  pub routing_prefix : List Msg

pub data RepState : Type 0 where
  ready_to_receive : RepState
  received_request : PeerInfo → RepState

pub record RepSocket : Type 0 where
  pub incoming_orchestrator : Orchestrator
  pub state : RepState
  pub pipe_read_id_to_endpoint_uri : List (ℕ × Uri)

abbrev pub new_rep : RepSocket
new_rep = record {
  incoming_orchestrator = new_orchestrator;
  state = ready_to_receive;
  pipe_read_id_to_endpoint_uri = [];
}

-- What the queue holds: whom to answer, and the frames for the application.
abbrev pub Request : Type 0
Request = PeerInfo × List Msg

-- The loop over the frames of a request: up to the first empty one they are the routing prefix.
unfoldable pub split_from : Bool → List Msg → List Msg → List Msg → Bool × List Msg × List Msg
split_from delimiter_found routing_prefix payload_frames [] =
    (delimiter_found, routing_prefix, payload_frames)
split_from true routing_prefix payload_frames (frame ∷ frames) =
    split_from true routing_prefix (payload_frames ++ (frame ∷ [])) frames
split_from false routing_prefix payload_frames (frame ∷ frames) =
    split_from (size frame == 0) (routing_prefix ++ (frame ∷ [])) payload_frames frames

-- Without an empty frame all of them are payload.
unfoldable pub split_request : List Msg → List Msg × List Msg
split_request raw_zmtp_message =
    let (delimiter_found, routing_prefix, payload_frames) =
      split_from false [] [] raw_zmtp_message in
    if delimiter_found then (routing_prefix, payload_frames) else ([], routing_prefix)

-- A frame from a pipe, with the request that it hands to the queue, if any. `core_uris` is the map of
-- the core from pipes to endpoints.
unfoldable pub handle_pipe_event :
    List (ℕ × Uri) → Pushed → ℕ → Msg → RepSocket → Result (Unit {0}) × Option Request × RepSocket
handle_pipe_event core_uris pushed pipe_read_id msg sock =
    let (whole, o) = accumulate_pipe_frame sock.incoming_orchestrator pipe_read_id msg in
    let sock' = record sock { incoming_orchestrator = o } in
    elim whole [
      | none ↦ (ok tt, none, sock')
      | some raw_zmtp_message ↦ elim (lookup pipe_read_id core_uris) [
        | none ↦ (err internal, none, sock')
        | some uri ↦
            let (routing_prefix, payload_frames) = split_request raw_zmtp_message in
            (
              queue_item pushed,
              some (
                record {
                  source_pipe_read_id = pipe_read_id;
                  target_endpoint_uri = uri;
                  routing_prefix = routing_prefix;
                },
                payload_frames,
              ),
              sock',
            )
      ]
    ]

-- The closure that takes an item from the queue: the socket holds the request from then on.
unfoldable pub take_request : Request → RepState → List Msg × RepState
take_request (peer_info, payload_frames) state = (payload_frames, received_request peer_info)

abbrev pub holds_request : RepState → Bool
holds_request ready_to_receive = false
holds_request (received_request info) = true

unfoldable pub recv_check : Bool → RepSocket → Result (Unit {0})
recv_check running sock =
    if not running
    then err invalid_state
    else if holds_request sock.state
    then err invalid_state
    else ok tt

unfoldable pub recv :
    Bool → (RepSocket → RepSocket) → Result Request → RepSocket → Result Msg × RepSocket
recv running meanwhile popped sock = elim (recv_check running sock) [
  | err e ↦ (err e, sock)
  | ok _ ↦
      let sock' = meanwhile sock in
      let (answer, state', o) =
        recv_message take_request sock'.incoming_orchestrator sock'.state popped in
      (answer, record sock' { state = state'; incoming_orchestrator = o })
]

unfoldable pub recv_multipart :
    Bool → (RepSocket → RepSocket) → Result Request → RepSocket → Result (List Msg) × RepSocket
recv_multipart running meanwhile popped sock = elim (recv_check running sock) [
  | err e ↦ (err e, sock)
  | ok _ ↦
      let sock' = meanwhile sock in
      let (answer, state', o) =
        recv_logical_message take_request sock'.incoming_orchestrator sock'.state popped in
      (answer, record sock' { state = state'; incoming_orchestrator = o })
]

-- A reply without frames is one empty frame.
abbrev pub or_empty_frame : List Msg → List Msg
or_empty_frame [] = new ∷ []
or_empty_frame (frame ∷ frames) = frame ∷ frames

-- What is handed to a connection: for whom, and which frames.
abbrev pub Wire : Type 0
Wire = Option (Uri × List Msg)

module _ (connection : Uri → List Msg → Result (Unit {0})) where
  -- The reply behind its routing prefix.
  unfoldable pub send_frames : Uri → List Msg → Result (Unit {0}) × Wire
  send_frames uri [] = (ok tt, none)
  send_frames uri (frame ∷ frames) =
      let zmtp_wire_frames = mark_frames (frame ∷ frames) in
      (connection uri zmtp_wire_frames, some (uri, zmtp_wire_frames))

  unfoldable pub send_reply : List Uri → List Msg → PeerInfo → Result (Unit {0}) × Wire
  send_reply endpoints user_payload_frames info =
      if contains endpoints info.target_endpoint_uri
      then send_frames info.target_endpoint_uri (info.routing_prefix ++ user_payload_frames)
      else (err host_unreachable, none)

  unfoldable pub send_from :
      List Uri → List Msg → RepState → RepSocket → Result (Unit {0}) × Wire × RepSocket
  send_from endpoints payload_frames ready_to_receive sock = (err invalid_state, none, sock)
  send_from endpoints payload_frames (received_request info) sock =
      let (answer, wire) = send_reply endpoints (or_empty_frame payload_frames) info in
      (answer, wire, record sock { state = ready_to_receive })

  unfoldable pub send_multipart :
      Bool → List Uri → List Msg → RepSocket → Result (Unit {0}) × Wire × RepSocket
  send_multipart running endpoints payload_frames sock =
      if not running
      then (err invalid_state, none, sock)
      else send_from endpoints payload_frames sock.state (record sock {
        incoming_orchestrator = reset_recv_message_buffer sock.incoming_orchestrator;
      })

  unfoldable pub send : Bool → List Uri → Msg → RepSocket → Result (Unit {0}) × Wire × RepSocket
  send running endpoints msg sock =
      if not running
      then (err invalid_state, none, sock)
      else send_multipart running endpoints (set_flags msg (difference msg.flags more_flag) ∷ [])
          (record sock {
            incoming_orchestrator = reset_recv_message_buffer sock.incoming_orchestrator;
          })

pub set_pattern_option : ℕ → List ℕ → Result (Unit {0})
set_pattern_option option value = err (unsupported_option option)

pub get_pattern_option : ℕ → Result (List ℕ)
get_pattern_option option = err (unsupported_option option)

-- `process_command` on Stop.
pub stop : RepSocket → RepSocket
stop sock = record sock { incoming_orchestrator = close sock.incoming_orchestrator }

unfoldable pub pipe_attached : Option Uri → ℕ → RepSocket → RepSocket
pipe_attached none pipe_read_id sock = sock
pipe_attached (some endpoint_uri) pipe_read_id sock = record sock {
  pipe_read_id_to_endpoint_uri = insert pipe_read_id endpoint_uri sock.pipe_read_id_to_endpoint_uri;
}

-- A request of the pipe that goes cannot be answered any more.
unfoldable pub state_without : ℕ → RepState → RepState
state_without pipe_read_id ready_to_receive = ready_to_receive
state_without pipe_read_id (received_request info) =
    if info.source_pipe_read_id == pipe_read_id then ready_to_receive else received_request info

unfoldable pub pipe_detached : ℕ → RepSocket → RepSocket
pipe_detached pipe_read_id sock = record sock {
  pipe_read_id_to_endpoint_uri = remove pipe_read_id sock.pipe_read_id_to_endpoint_uri;
  state = state_without pipe_read_id sock.state;
  incoming_orchestrator = clear_pipe_state sock.incoming_orchestrator pipe_read_id;
}
