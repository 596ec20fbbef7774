-- ===== src/Socket/Router/Exchange.antt =====
-- Messages between core/src/socket/dealer_socket.rs and core/src/socket/router_socket.rs.
use rzmq.Base.{
  ℕ, ◌≡◌, refl, ap, ◌∙◌, true, false, Bool, Option, some, List, [], ◌∷◌, All, map, is_empty, nat_eq,
  arith,
}
use rzmq.Base.Maps.{lookup}
use rzmq.Error.{Result}
use rzmq.Message.{Msg, new, set_flags, more_flag, data_or_empty, from_bytes}
use rzmq.Patterns.LoadBalancer.{Uri}
use rzmq.Patterns.Framing.{
  FramingLatch, new_latch, encode, is_manual, router_auto_encode, dealer_auto_encode,
  dealer_auto_decode,
}
use rzmq.Patterns.Framing.Delimiter.{WellFramed}
use rzmq.Patterns.Router.{
  Blob, PeerInfo, RouterSendStrategy, req_peer, dealer_peer, router_peer, default_router,
  get_peer_info_for_identity, prepare_wire_frames,
}
use rzmq.Patterns.Router.Wire.{router_latch, prepare_wire_frames-WellFramed}
use rzmq.Patterns.Coordinator.{permit}
use rzmq.Patterns.Orchestrator.{mark_more}
use rzmq.Patterns.Orchestrator.Assembly.{Arrival, of_pipe, frames_of, waiting}
use rzmq.Socket.Core.{CoreState, connected_pipe, peer_type}
use rzmq.Socket.Frames.{mark_frames, mark_frames-WellFramed}
use rzmq.Socket.Dealer.{
  DealerSocket, prepare_full_multipart_send_sequence, prepare_auto,
  process_incoming_zmtp_message_for_dealer, strip_identity,
}
use rzmq.Socket.Router.{
  RouterSocket, Item, strip_delimiter, strip_for, process_incoming_zmtp_message, clear_last,
  transform_qitem_to_app_frames,
}
use rzmq.Socket.Router.Send.{send_multipart}
use rzmq.Socket.Router.Fragments.{at_once, length_of_named}
use rzmq.Socket.Router.Arrivals.{deliver, deliver-frames_of}

abbrev pub dealer_latch : FramingLatch
dealer_latch = new_latch dealer_auto_encode dealer_auto_decode

-- What a DEALER makes of messages of one or more frames, each written as its first frame and the
-- others, and what a ROUTER's queue has of them.
abbrev pub dealt : DealerSocket → List (Msg × List Msg) → List (List Msg)
dealt dealer messages =
    map (λ (m : Msg × List Msg). prepare_full_multipart_send_sequence dealer (m.0 ∷ m.1)) messages

abbrev pub labelled : Blob → List (Msg × List Msg) → List Item
labelled i messages = map (λ (m : Msg × List Msg). (i, mark_frames (m.0 ∷ m.1))) messages

prepared :
    (dealer : DealerSocket) (frame : Msg) (frames : List Msg)
    → dealer.framing ≡ dealer_latch
    → prepare_full_multipart_send_sequence dealer (frame ∷ frames)
      ≡ set_flags new more_flag ∷ mark_frames (frame ∷ frames)
unfolding prepare_full_multipart_send_sequence prepare_auto is_manual encode dealer_auto_encode
    mark_frames
prepared dealer frame frames auto = ground arith

clear_last-mark_frames :
    (frame : Msg) (frames : List Msg)
    → clear_last (mark_frames (frame ∷ frames)) ≡ mark_frames (frame ∷ frames)
unfolding clear_last mark_frames
clear_last-mark_frames frame [] = ground arith
clear_last-mark_frames frame (next ∷ frames) =
    ap (λ (r : List Msg). mark_more false frame ∷ r) (clear_last-mark_frames next frames)

dealt-WellFramed :
    (dealer : DealerSocket) (messages : List (Msg × List Msg))
    → dealer.framing ≡ dealer_latch
    → All WellFramed (dealt dealer messages)
unfolding mark_frames
dealt-WellFramed dealer [] auto = tt
dealt-WellFramed dealer ((frame, frames) ∷ messages) auto = (
  rw (prepared dealer frame frames auto)
      (mark_frames-WellFramed (set_flags new more_flag) (frame ∷ frames)),
  dealt-WellFramed dealer messages auto,
)

stripped :
    (core : CoreState) (p : ℕ) (i : Blob) (router : RouterSocket) (payload : List Msg)
    → router.framing ≡ router_latch
    → lookup p router.pipe_to_identity_shared_map ≡ some i
    → peer_type core p ≡ some "DEALER"
    → process_incoming_zmtp_message core p (set_flags new more_flag ∷ payload) router ≡ (i, payload)
unfolding process_incoming_zmtp_message strip_for strip_delimiter is_manual
stripped core p i router payload auto known dealer = rw (auto, known, dealer) refl

arrived :
    (core : CoreState) (p : ℕ) (i : Blob) (dealer : DealerSocket) (router : RouterSocket)
    (messages : List (Msg × List Msg))
    → dealer.framing ≡ dealer_latch
    → router.framing ≡ router_latch
    → lookup p router.pipe_to_identity_shared_map ≡ some i
    → peer_type core p ≡ some "DEALER"
    → map (λ (m : List Msg). process_incoming_zmtp_message core p m router) (dealt dealer messages)
      ≡ labelled i messages
arrived core p i dealer router [] sends auto known type = refl
arrived core p i dealer router ((frame, frames) ∷ messages) sends auto known type =
    rw
      (
        prepared dealer frame frames sends,
        stripped core p i router (mark_frames (frame ∷ frames)) auto known type,
        arrived core p i dealer router messages sends auto known type,
      )
      refl

app_frames :
    (i : Blob) (frame : Msg) (frames : List Msg)
    → transform_qitem_to_app_frames (i, mark_frames (frame ∷ frames))
      ≡ set_flags (from_bytes i) more_flag ∷ mark_frames (frame ∷ frames)
unfolding transform_qitem_to_app_frames clear_last mark_frames
app_frames i frame frames =
    ap (λ (r : List Msg). set_flags (from_bytes i) more_flag ∷ r)
      (clear_last-mark_frames frame frames)

-- In automatic framing on both sides: if what arrives at a ROUTER from the pipe of a peer that it knows
-- as a DEALER, and by an identity, are the frames of messages that a DEALER sent, and nothing waits
-- on the pipe, then whatever arrives from other pipes between them, the ROUTER queues exactly these
-- messages of the pipe, under the identity and in their order. The application gets each of them
-- as the identity, with the MORE flag, and the frames that were sent, all but the last with the MORE
-- flag.
pub dealer_to_router :
    (core : CoreState) (arrivals : List Arrival) (p : ℕ) (i : Blob) (dealer : DealerSocket)
    (router : RouterSocket) (messages : List (Msg × List Msg))
    → dealer.framing ≡ dealer_latch
    → router.framing ≡ router_latch
    → lookup p router.pipe_to_identity_shared_map ≡ some i
    → peer_type core p ≡ some "DEALER"
    → waiting router.incoming_orchestrator p ≡ []
    → of_pipe p arrivals ≡ frames_of (dealt dealer messages)
    → (of_pipe p (deliver core arrivals router) ≡ labelled i messages)
      × ((frame : Msg) (frames : List Msg)
          → transform_qitem_to_app_frames (i, mark_frames (frame ∷ frames))
            ≡ set_flags (from_bytes i) more_flag ∷ mark_frames (frame ∷ frames))
dealer_to_router core arrivals p i dealer router messages sends auto known type idle arrive = (
  deliver-frames_of core arrivals p (dealt dealer messages) router idle arrive
        (dealt-WellFramed dealer messages sends)
      ∙ arrived core p i dealer router messages sends auto known type,
  λ frame frames. app_frames i frame frames,
)

clear_last-WellFramed : (frames : List Msg) → WellFramed frames → clear_last frames ≡ frames
unfolding clear_last
clear_last-WellFramed [] h = refl
clear_last-WellFramed (last ∷ []) h = ground arith
clear_last-WellFramed (m ∷ next ∷ rest) (more, h) =
    ap (λ (r : List Msg). m ∷ r) (clear_last-WellFramed (next ∷ rest) h)

-- The strategies that put a delimiter before the payload.
abbrev pub delimits : RouterSendStrategy → Bool
delimits router_peer = false
delimits _ = true

dealer_takes :
    (s : RouterSendStrategy) (identity : Msg) (payload : List Msg) (dealer : DealerSocket)
    → delimits s ≡ true
    → is_empty (data_or_empty identity) ≡ false
    → WellFramed payload
    → dealer.framing ≡ dealer_latch
    → process_incoming_zmtp_message_for_dealer dealer
        (prepare_wire_frames s identity payload router_latch)
      ≡ payload
unfolding prepare_wire_frames encode router_auto_encode is_manual
    process_incoming_zmtp_message_for_dealer strip_identity strip_delimiter
dealer_takes s identity [] dealer delimited named whole auto = elim whole [ ]
dealer_takes req_peer identity (m ∷ rest) dealer delimited named whole auto = rw auto refl
dealer_takes dealer_peer identity (m ∷ rest) dealer delimited named whole auto =
    rw (auto, length_of_named (data_or_empty identity) named) refl
dealer_takes router_peer identity (m ∷ rest) dealer delimited named whole auto = absurd cc
dealer_takes default_router identity (m ∷ rest) dealer delimited named whole auto =
    rw (auto, length_of_named (data_or_empty identity) named) refl

-- In automatic framing on both sides, and behind an open pipe: a ROUTER that is given the identity of a
-- peer that it does not know as a ROUTER, and the frames of a whole message, hands frames of one
-- whole message to the peer's connection; of these a DEALER's application gets exactly the frames
-- that the ROUTER's application gave behind the identity.
pub router_to_dealer :
    (connection : Uri → List Msg → Result (Unit {0})) (core : CoreState) (sndtimeo : Option ℕ)
    (pipe : ℕ) (router : RouterSocket) (dealer : DealerSocket) (identity : Msg) (peer : PeerInfo)
    (payload : List Msg)
    → core.running ≡ true
    → is_empty (data_or_empty identity) ≡ false
    → get_peer_info_for_identity router.router_map_for_send (data_or_empty identity) ≡ some peer
    → connected_pipe core peer.uri ≡ some pipe
    → lookup pipe router.pipe_send_coordinator ≡ some false
    → delimits peer.strategy ≡ true
    → router.framing ≡ router_latch
    → dealer.framing ≡ dealer_latch
    → WellFramed payload
    → (wire : List Msg) × ((send_multipart connection core sndtimeo permit
          (λ s. s)
          (identity ∷ payload)
          router).1
        ≡ some (peer.uri, wire))
      × WellFramed wire
      × (process_incoming_zmtp_message_for_dealer dealer wire ≡ payload)
router_to_dealer connection core sndtimeo pipe router dealer identity peer payload running named
      routed piped open_pipe delimited auto sends whole =
    let wire = prepare_wire_frames peer.strategy identity payload router_latch in
    let framed = prepare_wire_frames-WellFramed peer.strategy identity payload whole in
    (
      wire,
      at_once connection core sndtimeo pipe router identity peer payload running named routed piped
            open_pipe
          ∙ rw (auto, clear_last-WellFramed wire framed) refl,
      framed,
      dealer_takes peer.strategy identity payload dealer delimited named whole sends,
    )
