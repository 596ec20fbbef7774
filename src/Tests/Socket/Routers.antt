-- ===== src/Tests/Socket/Routers.antt =====
-- ROUTER and DEALER sockets of core/src/socket.
use rzmq.Base.{
  ◌≡◌, refl, Bool, true, false, none, some, List, [], ◌∷◌, nat_eq, bytes_key, bytes_eq, arith,
}
use rzmq.Base.Maps.{lookup}
use rzmq.Error.{Result, ok}
use rzmq.Message.{Msg, from_bytes, new, set_flags, more_flag}
use rzmq.Patterns.LoadBalancer.{Uri, has_connections}
use rzmq.Patterns.Framing.{is_manual, encode, dealer_auto_encode}
use rzmq.Patterns.Framing.Delimiter.{WellFramed}
use rzmq.Patterns.Coordinator.{Acquired, permit, elapsed}
use rzmq.Patterns.Orchestrator.{sent}
use rzmq.Patterns.Orchestrator.Assembly.{Arrival, of_pipe, frames_of}
use rzmq.Patterns.Router.{
  Blob, PeerInfo, RouterSendStrategy, req_peer, dealer_peer, get_peer_info_for_identity,
}
use rzmq.Socket.Core.{CoreState, EndpointInfo, endpoint, connected_pipe, peer_type}
use rzmq.Socket.Frames.{mark_frames}
use rzmq.Socket.Req.Pipes.{process_incoming_zmtp_message_for_req}
use rzmq.Socket.Router.{
  RouterSocket, new_router, pipe_detached, clear_last, transform_qitem_to_app_frames,
}
use rzmq.Socket.Router.Send as RouterSend
use rzmq.Socket.Router.Invariant.{Consistent, Gone}
use rzmq.Socket.Router.Calls.{
  RouterCalls, end, next, attached, identified, frame_in, send_frame, detached, call_all,
  calls-Consistent,
}
use rzmq.Socket.Router.Fragments.{tagged, send_frames, identity_on_wire}
use rzmq.Socket.Router.Arrivals.{deliver}
use rzmq.Socket.Router.Exchange.{dealt, labelled, dealer_to_router, router_to_dealer}
use rzmq.Socket.Dealer.{
  DealerSocket, new_dealer, process_incoming_zmtp_message_for_dealer,
  prepare_full_multipart_send_sequence, prepare_auto,
}
use rzmq.Socket.Dealer.Send as DealerSend
use rzmq.Socket.Dealer.Send.{Round, Sending}
use rzmq.Socket.Dealer.Processor.{process_queue}
use rzmq.Socket.Dealer.Parts.{send_parts, send_parts-send_multipart}
use rzmq.Socket.Dealer.Delivery.{Delivered, send_logical_message-Delivered}
use rzmq.Socket.Dealer.Requeue.{Conserves, process_queue-Conserves, closing_doubles, overtaking}
use Prim.Native.String.{String}

abbrev a : Uri
a = 1 ∷ []

abbrev hello : Msg
hello = from_bytes (7 ∷ [])

abbrev world : Msg
world = from_bytes (8 ∷ [])

abbrev id : Blob
id = 65 ∷ []

abbrev id_frame : Msg
id_frame = set_flags (from_bytes id) more_flag

abbrev part : Msg
part = set_flags hello more_flag

abbrev info : String → EndpointInfo
info type = record { pipe_ids = some 1; peer_socket_type = some type }

abbrev core_with : String → Bool → CoreState
core_with type running = record {
  running = running;
  endpoints = (a, info type) ∷ [];
  pipe_read_id_to_endpoint_uri = (1, a) ∷ [];
}

abbrev peer : RouterSendStrategy → PeerInfo
peer strategy = record { uri = a; strategy = strategy }

abbrev router : RouterSendStrategy → RouterSocket
router strategy = record new_router {
  router_map_for_send = record {
    identity_to_peer_info = (id, peer strategy) ∷ [];
    read_pipe_to_identity = (1, id) ∷ [];
  };
  pipe_to_identity_shared_map = (1, id) ∷ [];
  pipe_send_coordinator = (1, false) ∷ [];
}

abbrev takes_frame : Uri → Msg → Result (Unit {0})
takes_frame uri m = ok tt

abbrev takes : Uri → List Msg → Result (Unit {0})
takes uri frames = ok tt

-- The pipe goes while a send waits for its permit, and comes again.
abbrev calls : RouterCalls
calls = next (attached (core_with "DEALER" true) 1 none) (
    next (identified (core_with "DEALER" true) 1 (some id)) (
      next (frame_in (core_with "DEALER" true) sent 1 hello) (
        next
          (send_frame takes_frame (core_with "DEALER" true) none permit
            (next (detached (core_with "DEALER" true) 1) end) id_frame)
          (next (attached (core_with "DEALER" true) 1 none) end))))

calls-Consistent_example :
    let sock = call_all calls new_router in
    Consistent sock × Gone 1 (pipe_detached (core_with "DEALER" true) 1 sock)
calls-Consistent_example = calls-Consistent calls (core_with "DEALER" true) 1

id_known :
    (strategy : RouterSendStrategy)
    → get_peer_info_for_identity (router strategy).router_map_for_send id ≡ some (peer strategy)
unfolding get_peer_info_for_identity lookup bytes_eq
id_known strategy = refl

endpoint_known : (type : String) → endpoint (core_with type true) a ≡ some (info type)
unfolding lookup bytes_eq
endpoint_known type = refl

pipe_known : (type : String) → connected_pipe (core_with type true) a ≡ some 1
unfolding lookup bytes_eq
pipe_known type = refl

pipe_open :
    (strategy : RouterSendStrategy) → lookup 1 (router strategy).pipe_send_coordinator ≡ some false
unfolding lookup
pipe_open strategy = refl

identity_known :
    (strategy : RouterSendStrategy)
    → lookup 1 (router strategy).pipe_to_identity_shared_map ≡ some id
unfolding lookup
identity_known strategy = refl

is_dealer : peer_type (core_with "DEALER" true) 1 ≡ some "DEALER"
unfolding lookup bytes_eq
is_dealer = refl

identity_on_wire_example :
    let payload = part ∷ world ∷ [] in
    let framed = set_flags new more_flag ∷ payload in
    (send_frames takes_frame (core_with "REQ" true) none (id_frame ∷ payload) (router req_peer)
      ≡ (tagged a (id_frame ∷ framed), RouterSend.target none (router req_peer)))
    × ((RouterSend.send_multipart takes
          (core_with "REQ" true)
          none
          permit
          (λ s. s)
          (id_frame ∷ payload)
          (router req_peer)).1
        ≡ some (a, clear_last framed))
    × (process_incoming_zmtp_message_for_req (id_frame ∷ framed) ≡ id_frame ∷ framed)
    × (process_incoming_zmtp_message_for_req (clear_last framed) ≡ clear_last payload)
unfolding is_manual
identity_on_wire_example =
    identity_on_wire takes_frame (λ uri m. refl) (core_with "REQ" true) refl none a (info "REQ")
      (endpoint_known "REQ") 1 refl (router req_peer) (pipe_open req_peer) refl takes id_frame
      (peer req_peer) (part ∷ []) world refl refl refl (id_known req_peer) refl refl (refl, tt) refl

abbrev dealer : DealerSocket
dealer = record new_dealer { load_balancer = a ∷ []; pipe_send_coordinator = (1, false) ∷ [] }

abbrev messages : List (Msg × List Msg)
messages = (hello, world ∷ []) ∷ (world, []) ∷ []

abbrev delimiter : Msg
delimiter = set_flags new more_flag

-- Frames of another pipe come between.
abbrev arrivals : List Arrival
arrivals =
    (1, delimiter)
    ∷ (2, delimiter)
    ∷ (1, part)
    ∷ (1, world)
    ∷ (2, hello)
    ∷ (1, delimiter)
    ∷ (1, world)
    ∷ []

dealt_frames : of_pipe 1 arrivals ≡ frames_of (dealt dealer messages)
unfolding prepare_full_multipart_send_sequence prepare_auto is_manual mark_frames encode
    dealer_auto_encode
dealt_frames = refl

dealer_to_router_example :
    (of_pipe 1 (deliver (core_with "DEALER" true) arrivals (router dealer_peer))
      ≡ labelled id messages)
    × ((frame : Msg) (frames : List Msg)
        → transform_qitem_to_app_frames (id, mark_frames (frame ∷ frames))
          ≡ set_flags (from_bytes id) more_flag ∷ mark_frames (frame ∷ frames))
unfolding lookup
dealer_to_router_example =
    dealer_to_router (core_with "DEALER" true) arrivals 1 id dealer (router dealer_peer) messages
      refl refl (identity_known dealer_peer) is_dealer refl dealt_frames

router_to_dealer_example :
    (wire : List Msg) × ((RouterSend.send_multipart takes
        (core_with "DEALER" true)
        none
        permit
        (λ s. s)
        (id_frame ∷ part ∷ world ∷ [])
        (router dealer_peer)).1
      ≡ some (a, wire))
    × WellFramed wire
    × (process_incoming_zmtp_message_for_dealer dealer wire ≡ part ∷ world ∷ [])
router_to_dealer_example =
    router_to_dealer takes (core_with "DEALER" true) none 1 (router dealer_peer) dealer id_frame
      (peer dealer_peer) (part ∷ world ∷ []) refl refl (id_known dealer_peer) (pipe_known "DEALER")
      (pipe_open dealer_peer) refl refl refl (refl, refl)

abbrev round : Bool → Acquired → Round
round running acquired = record {
  core = core_with "ROUTER" running;
  acquired = acquired;
  meanwhile = λ s. s;
  connection = takes;
}

abbrev sending : Acquired → Sending
sending acquired = record {
  running = true;
  sndtimeo = some 5;
  sndhwm = 10;
  rounds = λ n. round true acquired;
  still_running = true;
  between = λ s. s;
  woken = [];
}

send_parts-send_multipart_example :
    send_parts (sending permit) (part ∷ part ∷ []) world dealer
    ≡ DealerSend.send_multipart (sending permit) [] (part ∷ part ∷ world ∷ []) dealer
send_parts-send_multipart_example =
    send_parts-send_multipart (sending permit) [] (part ∷ part ∷ []) world dealer refl refl
      (refl, (refl, tt)) refl (omega arith)

abbrev waiting_dealer : DealerSocket
waiting_dealer = record dealer { pending_outgoing_queue = (hello ∷ []) ∷ (world ∷ []) ∷ [] }

-- No permit comes in time, so that the message is queued.
send_logical_message-Delivered_example :
    Delivered
      (sending elapsed)
      (world ∷ [])
      ((hello ∷ []) ∷ (world ∷ []) ∷ [])
      (DealerSend.send_logical_message (sending elapsed) (world ∷ []) waiting_dealer)
send_logical_message-Delivered_example =
    send_logical_message-Delivered (sending elapsed) (world ∷ []) waiting_dealer
      (λ n s. refl, λ s. refl, tt)

process_queue-Conserves_example :
    Conserves
      (λ n. round true permit)
      (hello ∷ [])
      ((world ∷ []) ∷ [])
      (process_queue none (λ n. round true permit) waiting_dealer)
unfolding has_connections
process_queue-Conserves_example =
    process_queue-Conserves none (λ n. round true permit) (hello ∷ []) ((world ∷ []) ∷ [])
      waiting_dealer refl refl (λ n s. refl) (λ n. refl)

closing_doubles_example :
    (process_queue none (λ n. round false permit) waiting_dealer).2.pending_outgoing_queue
    ≡ (hello ∷ []) ∷ (hello ∷ []) ∷ (world ∷ []) ∷ []
unfolding has_connections
closing_doubles_example =
    closing_doubles none (λ n. round false permit) (hello ∷ []) ((world ∷ []) ∷ []) waiting_dealer
      refl refl (λ n. refl)

dealer_pipe_open : lookup 1 waiting_dealer.pipe_send_coordinator ≡ some false
unfolding lookup
dealer_pipe_open = refl

overtaking_example :
    let (answer, handed, sock') =
      DealerSend.send_logical_message (sending permit) (world ∷ []) waiting_dealer in
    (answer ≡ some (ok tt))
    × (handed ≡ (a, world ∷ []) ∷ [])
    × (sock'.pending_outgoing_queue ≡ (hello ∷ []) ∷ (world ∷ []) ∷ [])
overtaking_example =
    overtaking (sending permit) (world ∷ []) a [] 1 waiting_dealer refl refl refl
      (pipe_known "ROUTER") dealer_pipe_open refl refl (λ s. refl)
