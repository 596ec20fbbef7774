-- ===== src/Socket/Router/Fragments.antt =====
-- Messages that a ROUTER socket of core/src/socket/router_socket.rs sends frame by frame.
use rzmq.Base.{
  ℕ, ◌≡◌, refl, true, false, Option, none, some, List, [], ◌∷◌, ◌++◌, All, map, is_empty, length,
  ◌==◌, nat_eq, arith,
}
use rzmq.Base.Maps.{lookup}
use rzmq.Error.{Result, ok}
use rzmq.Message.{Msg, new, set_flags, more_flag, is_more, data_or_empty}
use rzmq.Patterns.LoadBalancer.{Uri}
use rzmq.Patterns.Framing.{is_manual}
use rzmq.Patterns.Router.{PeerInfo, req_peer, get_peer_info_for_identity, prepare_wire_frames}
use rzmq.Patterns.Coordinator.{permit, acquire_send_permit, permit_result}
use rzmq.Socket.Core.{CoreState, EndpointInfo, endpoint, connected_pipe}
use rzmq.Socket.Req.Pipes.{process_incoming_zmtp_message_for_req}
use rzmq.Socket.Router.{RouterSocket, clear_last}
use rzmq.Socket.Router.Send.{
  Sent, target, send, send_fragment, send_first, send_permitted, send_identity, send_delimiter,
  send_multipart, send_to_peer, send_wire_frames,
}

abbrev pub IsPart : Msg → Type 0
IsPart m = is_more m ≡ true

abbrev pub tagged : Uri → List Msg → Sent
tagged uri frames = map (λ (m : Msg). (uri, m)) frames

-- Frames sent one after another, with no other operation between them: all that is handed over.
pub send_frames :
    (Uri → Msg → Result (Unit {0}))
    → CoreState
    → Option ℕ
    → List Msg
    → RouterSocket
    → Sent × RouterSocket
send_frames send_message core sndtimeo [] sock = ([], sock)
send_frames send_message core sndtimeo (m ∷ frames) sock =
    let (answer, handed, sock') = send send_message core sndtimeo permit (λ s. s) m sock in
    let (later, sock'') = send_frames send_message core sndtimeo frames sock' in
    (handed ++ later, sock'')

clear_last-cons :
    (frame : Msg) (parts : List Msg) (last : Msg)
    → clear_last (frame ∷ (parts ++ (last ∷ []))) ≡ frame ∷ clear_last (parts ++ (last ∷ []))
unfolding clear_last
clear_last-cons frame [] last = refl
clear_last-cons frame (part ∷ parts) last = refl

is_empty-append : (parts : List Msg) (last : Msg) → is_empty (parts ++ (last ∷ [])) ≡ false
is_empty-append [] last = refl
is_empty-append (part ∷ parts) last = refl

pub length_of_named : (bytes : List ℕ) → is_empty bytes ≡ false → (length bytes == 0) ≡ false
length_of_named [] h = absurd cc
length_of_named (b ∷ bytes) h = ground arith

pub at_once :
    (connection : Uri → List Msg → Result (Unit {0})) (core : CoreState) (sndtimeo : Option ℕ)
    (pipe : ℕ) (sock : RouterSocket) (identity : Msg) (peer : PeerInfo) (payload : List Msg)
    → core.running ≡ true
    → is_empty (data_or_empty identity) ≡ false
    → get_peer_info_for_identity sock.router_map_for_send (data_or_empty identity) ≡ some peer
    → connected_pipe core peer.uri ≡ some pipe
    → lookup pipe sock.pipe_send_coordinator ≡ some false
    → (send_multipart connection core sndtimeo permit (λ s. s) (identity ∷ payload) sock).1
      ≡ some
          (peer.uri, clear_last (prepare_wire_frames peer.strategy identity payload sock.framing))
unfolding send_multipart send_to_peer send_wire_frames acquire_send_permit permit_result
at_once connection core sndtimeo pipe sock identity peer payload running named routed piped
      open_pipe =
    ground arith

module _ (send_message : Uri → Msg → Result (Unit {0}))
    (takes : (uri : Uri) (m : Msg) → send_message uri m ≡ ok tt) (core : CoreState)
    (running : core.running ≡ true) (sndtimeo : Option ℕ) (uri : Uri) (info : EndpointInfo)
    (known : endpoint core uri ≡ some info) where
  fragments :
      (parts : List Msg) (last : Msg) (sock : RouterSocket)
      → sock.current_send_target ≡ some uri
      → All IsPart parts
      → is_more last ≡ false
      → send_frames send_message core sndtimeo (parts ++ (last ∷ [])) sock
        ≡ (tagged uri (parts ++ (last ∷ [])), target none sock)
  unfolding send_frames send send_fragment
  fragments [] last sock active more final = ground (arith, takes uri last)
  fragments (part ∷ parts) last sock active (more, later) final =
      ground (arith, takes uri part, fragments parts last sock active later final)

  module _ (pipe : ℕ) (piped : info.pipe_ids ≡ some pipe) (sock : RouterSocket)
      (open_pipe : lookup pipe sock.pipe_send_coordinator ≡ some false)
      (automatic : is_manual sock.framing ≡ false) where
    first_frame :
        (identity : Msg) (peer : PeerInfo)
        → sock.current_send_target ≡ none
        → is_more identity ≡ true
        → is_empty (data_or_empty identity) ≡ false
        → get_peer_info_for_identity sock.router_map_for_send (data_or_empty identity) ≡ some peer
        → peer.uri ≡ uri
        → send send_message core sndtimeo permit (λ s. s) identity sock ≡ (
          some (ok tt),
          (uri, identity) ∷ (uri, set_flags new more_flag) ∷ [],
          target (some uri) sock,
        )
    unfolding send send_first send_permitted send_identity send_delimiter acquire_send_permit
        permit_result
    first_frame identity peer fresh more named routed there =
        ground (arith, takes uri identity, takes uri (set_flags new more_flag))

    -- Behind an open pipe, with connections that take every frame, in automatic framing: the frames of
    -- a message for a REQ peer that are sent one after another, the identity first, all go to the
    -- peer behind the identity and a delimiter, and then the socket is ready for the next message.
    -- Sent at once, the same message goes to the peer without the identity. A REQ socket takes the
    -- delimiter off the latter; of the former it takes nothing off.
    pub identity_on_wire :
        (connection : Uri → List Msg → Result (Unit {0})) (identity : Msg) (peer : PeerInfo)
        (parts : List Msg) (last : Msg)
        → sock.current_send_target ≡ none
        → is_more identity ≡ true
        → is_empty (data_or_empty identity) ≡ false
        → get_peer_info_for_identity sock.router_map_for_send (data_or_empty identity) ≡ some peer
        → peer.uri ≡ uri
        → peer.strategy ≡ req_peer
        → All IsPart parts
        → is_more last ≡ false
        → let payload = parts ++ (last ∷ []) in
          let framed = set_flags new more_flag ∷ payload in
          let sent_at_once =
            (send_multipart connection core sndtimeo permit (λ s. s) (identity ∷ payload) sock).1 in
          (send_frames send_message core sndtimeo (identity ∷ payload) sock
            ≡ (tagged uri (identity ∷ framed), target none sock))
          × (sent_at_once ≡ some (uri, clear_last framed))
          × (process_incoming_zmtp_message_for_req (identity ∷ framed) ≡ identity ∷ framed)
          × (process_incoming_zmtp_message_for_req (clear_last framed) ≡ clear_last payload)
    unfolding send_frames process_incoming_zmtp_message_for_req prepare_wire_frames
    identity_on_wire connection identity peer parts last fresh more named routed there strategy
          later final =
        (
          ground (
            arith,
            first_frame identity peer fresh more named routed there,
            fragments parts last (target (some uri) sock) refl later final,
          ),
          ground (
            arith,
            at_once connection core sndtimeo pipe sock identity peer (parts ++ (last ∷ [])) running
                named routed (ground arith) open_pipe,
            is_empty-append parts last,
          ),
          ground (arith, length_of_named (data_or_empty identity) named),
          rw (clear_last-cons (set_flags new more_flag) parts last) refl,
        )
