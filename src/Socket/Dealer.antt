-- ===== src/Socket/Dealer.antt =====
-- core/src/socket/dealer_socket.rs: the DEALER socket. Notifications only wake those that wait, so
-- that they appear as the waits that end.
pub mod Send
pub mod Processor
pub mod Parts
pub mod Delivery
pub mod Requeue
use rzmq.Base.{
  ℕ, Bool, true, false, not, Option, none, some, List, [], ◌∷◌, ◌++◌, leb, ◌==◌, if◌then◌else◌,
  length, nat_eq,
}
use rzmq.Base.Maps.{lookup, insert, remove}
use rzmq.Error.{invalid_state, resource_limit_reached, timeout, unsupported_option, Result, ok, err}
use rzmq.Message.{Msg, new, set_flags, more_flag, size, is_more}
use rzmq.Patterns.LoadBalancer.{Uri, LoadBalancer, add_connection, remove_connection}
use rzmq.Patterns.Framing.{
  FramingLatch, new_latch, dealer_auto_encode, dealer_auto_decode, encode, is_manual, set_manual,
}
use rzmq.Patterns.Coordinator.{WritePipeCoordinator, add_pipe, remove_pipe}
use rzmq.Patterns.Orchestrator.{
  Orchestrator, new_orchestrator, accumulate_pipe_frame, Pushed, queue_item, recv_message,
  recv_logical_message, clear_pipe_state, close,
}
use rzmq.Socket.Core.{CoreState, uri_of}
use rzmq.Socket.Frames.{mark_frames}
use rzmq.Socket.Pull.{q_item_frames}
use rzmq.Socket.Router.{strip_delimiter, bool_bytes}
use rzmq.Socket.Options.{option_id, opt_auto_delimiter}
use rzmq.Socket.Options.Parse.{parse_bool_option}

abbrev pub max_dealer_send_buffer_parts : ℕ
max_dealer_send_buffer_parts = 10240

pub data DealerSendTransaction : Type 0 where
  idle : DealerSendTransaction
  buffering : List Msg → DealerSendTransaction

-- The front of a `VecDeque` is the head of the list.
pub record DealerSocket : Type 0 where
  pub load_balancer : LoadBalancer
  pub incoming_orchestrator : Orchestrator
  pub pipe_read_to_endpoint_uri : List (ℕ × Uri)
  pub pending_outgoing_queue : List (List Msg)
  pub current_send_transaction : DealerSendTransaction
  pub pipe_send_coordinator : WritePipeCoordinator
  pub framing : FramingLatch

abbrev pub new_dealer : DealerSocket
new_dealer = record {
  load_balancer = [];
  incoming_orchestrator = new_orchestrator;
  pipe_read_to_endpoint_uri = [];
  pending_outgoing_queue = [];
  current_send_transaction = idle;
  pipe_send_coordinator = [];
  framing = new_latch dealer_auto_encode dealer_auto_decode;
}

-- Without its delimiter, and without the identity before one.
unfoldable pub strip_identity : List Msg → List Msg
unfolding strip_delimiter
strip_identity [] = []
strip_identity (frame ∷ frames) = if not (size frame == 0) then strip_delimiter frames else frames

unfoldable pub process_incoming_zmtp_message_for_dealer : DealerSocket → List Msg → List Msg
unfolding strip_identity
process_incoming_zmtp_message_for_dealer sock [] = []
process_incoming_zmtp_message_for_dealer sock (frame ∷ frames) =
    if is_manual sock.framing then frame ∷ frames else strip_identity (frame ∷ frames)

-- In automatic framing an empty message is a delimiter and an empty frame.
unfoldable pub prepare_auto : FramingLatch → List Msg → List Msg
prepare_auto framing [] = set_flags new more_flag ∷ new ∷ []
prepare_auto framing (frame ∷ frames) = mark_frames (encode framing (frame ∷ frames))

unfoldable pub prepare_full_multipart_send_sequence : DealerSocket → List Msg → List Msg
unfolding prepare_auto
prepare_full_multipart_send_sequence sock frames =
    if is_manual sock.framing then mark_frames frames else prepare_auto sock.framing frames

-- A part of a message: the parts that are to be sent, or the answer if none are.
pub data Collected : Type 0 where
  whole : List Msg → Collected
  answered : Result (Unit {0}) → Collected

abbrev pub transact : DealerSendTransaction → DealerSocket → DealerSocket
transact t sock = record sock { current_send_transaction = t }

unfoldable pub buffer_part : Msg → DealerSendTransaction → DealerSocket → Collected × DealerSocket
buffer_part msg idle sock = (answered (ok tt), transact (buffering (msg ∷ [])) sock)
buffer_part msg (buffering parts) sock =
    if leb max_dealer_send_buffer_parts (length parts)
    then (answered (err resource_limit_reached), transact idle sock)
    else (answered (ok tt), transact (buffering (parts ++ (msg ∷ []))) sock)

unfoldable pub last_part : Msg → DealerSendTransaction → List Msg
last_part msg idle = msg ∷ []
last_part msg (buffering parts) = parts ++ (msg ∷ [])

-- `send` up to the sending of a message that is whole.
unfoldable pub collect_part : Msg → DealerSocket → Collected × DealerSocket
unfolding buffer_part last_part
collect_part msg sock =
    if is_more msg
    then buffer_part msg sock.current_send_transaction sock
    else (whole (last_part msg sock.current_send_transaction), transact idle sock)

unfoldable pub recv : Bool → Result (List Msg) → DealerSocket → Result Msg × DealerSocket
recv running popped sock =
    if not running
    then (err invalid_state, sock)
    else (let (answer, _, o) = recv_message q_item_frames sock.incoming_orchestrator tt popped in
        (answer, record sock { incoming_orchestrator = o }))

unfoldable pub recv_multipart :
    Bool → Result (List Msg) → DealerSocket → Result (List Msg) × DealerSocket
recv_multipart running popped sock =
    if not running
    then (err invalid_state, sock)
    else (let (answer, _, o) =
          recv_logical_message q_item_frames sock.incoming_orchestrator tt popped in
        (answer, record sock { incoming_orchestrator = o }))

unfoldable pub set_pattern_option : ℕ → List ℕ → DealerSocket → Result (Unit {0}) × DealerSocket
set_pattern_option option value sock =
    if option == option_id opt_auto_delimiter
    then elim (parse_bool_option value) [
      | ok true ↦ (ok tt, sock)
      | ok false ↦ (ok tt, record sock { framing = (set_manual sock.framing).0 })
      | err e ↦ (err e, sock)
    ]
    else (err (unsupported_option option), sock)

unfoldable pub get_pattern_option : ℕ → DealerSocket → Result (List ℕ)
get_pattern_option option sock =
    if option == option_id opt_auto_delimiter
    then ok (bool_bytes (not (is_manual sock.framing)))
    else err (unsupported_option option)

-- A frame from a pipe, with the payload that it hands to the queue, if any.
unfoldable pub handle_pipe_event :
    Pushed → ℕ → Msg → DealerSocket → Result (Unit {0}) × Option (List Msg) × DealerSocket
handle_pipe_event pushed pipe_read_id msg sock =
    let (done, o) = accumulate_pipe_frame sock.incoming_orchestrator pipe_read_id msg in
    let sock' = record sock { incoming_orchestrator = o } in
    elim done [
      | none ↦ (ok tt, none, sock')
      | some frames ↦
          (queue_item pushed, some (process_incoming_zmtp_message_for_dealer sock' frames), sock')
    ]

-- `process_command` on Stop, which also stops the task that sends from the queue.
unfoldable pub stop : DealerSocket → DealerSocket
stop sock = record sock { incoming_orchestrator = close sock.incoming_orchestrator }

unfoldable pub pipe_attached : CoreState → ℕ → DealerSocket → DealerSocket
pipe_attached core pipe_read_id sock = elim (uri_of core pipe_read_id) [
  | none ↦ sock
  | some endpoint_uri ↦ record sock {
    pipe_read_to_endpoint_uri = insert pipe_read_id endpoint_uri sock.pipe_read_to_endpoint_uri;
    load_balancer = add_connection sock.load_balancer endpoint_uri;
    pipe_send_coordinator = add_pipe sock.pipe_send_coordinator pipe_read_id;
  }
]

abbrev pub drop_peer : Uri → DealerSocket → DealerSocket
drop_peer uri sock = record sock { load_balancer = remove_connection sock.load_balancer uri }

abbrev pub drop_pipe : ℕ → DealerSocket → DealerSocket
drop_pipe pipe_read_id sock = record sock {
  pipe_send_coordinator = (remove_pipe sock.pipe_send_coordinator pipe_read_id).1;
}

unfoldable pub detach_uri : Option Uri → DealerSocket → DealerSocket
detach_uri none sock = sock
detach_uri (some endpoint_uri) sock = drop_peer endpoint_uri sock

unfoldable pub pipe_detached : ℕ → DealerSocket → DealerSocket
unfolding detach_uri
pipe_detached pipe_read_id sock =
    let sock' = drop_pipe pipe_read_id (
      detach_uri (lookup pipe_read_id sock.pipe_read_to_endpoint_uri) (record sock {
        pipe_read_to_endpoint_uri = remove pipe_read_id sock.pipe_read_to_endpoint_uri;
      })) in
    record sock' {
      incoming_orchestrator = clear_pipe_state sock'.incoming_orchestrator pipe_read_id;
    }
