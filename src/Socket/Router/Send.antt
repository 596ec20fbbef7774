-- ===== src/Socket/Router/Send.antt =====
-- core/src/socket/router_socket.rs: the sends of a ROUTER socket. What connections and the semaphore
-- of a pipe answer is given, and what other operations make of the socket while a call waits for
-- the permit of a pipe (`meanwhile`).
use rzmq.Base.{
  ℕ, Bool, true, false, not, ◌||◌, Option, none, some, List, [], ◌∷◌, if◌then◌else◌, is_empty,
}
use rzmq.Error.{
  ZmqError, invalid_state, invalid_message, host_unreachable, connection_closed, internal, Result,
  ok, err,
}
use rzmq.Message.{Msg, new, set_flags, more_flag, is_more, data_or_empty}
use rzmq.Patterns.LoadBalancer.{Uri}
use rzmq.Patterns.Framing.{is_manual}
use rzmq.Patterns.Router as RouterMap
use rzmq.Patterns.Router.{PeerInfo, Blob}
use rzmq.Patterns.Coordinator.{Acquired, acquire_send_permit}
use rzmq.Socket.Core.{CoreState, endpoint, connected_pipe}
use rzmq.Socket.Router.{RouterSocket, clear_last}

-- Without ROUTER_MANDATORY a message that cannot be delivered is dropped.
abbrev pub undelivered : Bool → ZmqError → Result (Unit {0})
undelivered true e = err e
undelivered false e = ok tt

-- A closed connection is reported as an unreachable host.
unfoldable pub send_error : ZmqError → ZmqError
send_error connection_closed = host_unreachable
send_error e = e

unfoldable pub reported : Bool → Result (Unit {0}) → Result (Unit {0})
unfolding send_error
reported mandatory (ok _) = ok tt
reported mandatory (err e) = undelivered mandatory (send_error e)

abbrev pub is_err : Result (Unit {0}) → Bool
is_err (ok _) = false
is_err (err e) = true

-- Frames handed to connections, one call for each.
abbrev pub Sent : Type 0
Sent = List (Uri × Msg)

abbrev pub target : Option Uri → RouterSocket → RouterSocket
target uri sock = record sock { current_send_target = uri }

-- The answer, what was handed over, and the socket; without an answer the call waits on.
abbrev pub SendResult : Type 0
SendResult = Option (Result (Unit {0})) × Sent × RouterSocket

-- The peer's entry was stale.
abbrev pub forget : Blob → RouterSocket → RouterSocket
forget identity sock = record sock {
  router_map_for_send = RouterMap.remove_peer_by_identity sock.router_map_for_send identity;
}

module _ (send_message : Uri → Msg → Result (Unit {0})) where
  -- A further frame of a fragmented send: the last one and a failure end it.
  unfoldable pub send_fragment : CoreState → Uri → Msg → RouterSocket → SendResult
  unfolding reported
  send_fragment core uri msg sock = elim (endpoint core uri) [
    | none ↦ (some (undelivered sock.router_mandatory host_unreachable), [], target none sock)
    | some info ↦
        let send_result = send_message uri msg in
        (
          some (reported sock.router_mandatory send_result),
          (uri, msg) ∷ [],
          if not (is_more msg) || is_err send_result then target none sock else sock,
        )
  ]

  -- The delimiter behind the identity, in automatic framing.
  unfoldable pub send_delimiter : Uri → RouterSocket → Result (Unit {0}) × Sent
  send_delimiter uri sock =
      if is_manual sock.framing
      then (ok tt, [])
      else (send_message uri (set_flags new more_flag), (uri, set_flags new more_flag) ∷ [])

  -- The identity frame, with the permit of the pipe.
  unfoldable pub send_identity : Bool → Uri → Msg → RouterSocket → SendResult
  unfolding send_delimiter reported
  send_identity mandatory uri msg sock = elim (send_message uri msg) [
    | err e ↦ (some (reported mandatory (err e)), (uri, msg) ∷ [], sock)
    | ok _ ↦ elim ((send_delimiter uri sock).0) [
      | err e ↦ (some (reported mandatory (err e)), (uri, msg) ∷ (send_delimiter uri sock).1, sock)
      | ok _ ↦ (some (ok tt), (uri, msg) ∷ (send_delimiter uri sock).1, target (some uri) sock)
    ]
  ]

  -- What follows the wait for the permit.
  unfoldable pub send_permitted :
      Option (Result (Unit {0})) → Bool → Uri → Msg → RouterSocket → SendResult
  unfolding send_identity
  send_permitted none mandatory uri msg sock = (none, [], sock)
  send_permitted (some (err e)) mandatory uri msg sock = (some (err e), [], sock)
  send_permitted (some (ok _)) mandatory uri msg sock = send_identity mandatory uri msg sock

  -- The search for the peer of an identity.
  unfoldable pub send_first :
      CoreState
      → Option ℕ
      → Acquired
      → (RouterSocket → RouterSocket)
      → Blob
      → Msg
      → RouterSocket
      → SendResult
  unfolding send_permitted
  send_first core sndtimeo acquired meanwhile destination_id msg sock =
      elim (RouterMap.get_peer_info_for_identity sock.router_map_for_send destination_id) [
        | none ↦ (some (undelivered sock.router_mandatory host_unreachable), [], sock)
        | some info ↦ elim (connected_pipe core info.uri) [
          | none ↦ (
            some (undelivered sock.router_mandatory host_unreachable),
            [],
            forget destination_id sock,
          )
          | some pipe_read_id ↦
              send_permitted
                (acquire_send_permit sock.pipe_send_coordinator pipe_read_id sndtimeo acquired)
                sock.router_mandatory info.uri msg (meanwhile sock)
        ]
      ]

  unfoldable pub send :
      CoreState
      → Option ℕ
      → Acquired
      → (RouterSocket → RouterSocket)
      → Msg
      → RouterSocket
      → SendResult
  unfolding send_fragment send_first
  send core sndtimeo acquired meanwhile msg sock =
      if not core.running
      then (some (err invalid_state), [], sock)
      else elim sock.current_send_target [
        | some uri ↦ send_fragment core uri msg sock
        | none ↦
            if not (is_more msg)
            then (some (err invalid_message), [], sock)
            else if is_empty (data_or_empty msg)
            then (some (err invalid_message), [], sock)
            else send_first core sndtimeo acquired meanwhile (data_or_empty msg) msg sock
      ]

-- A whole message handed to a connection.
abbrev pub Wire : Type 0
Wire = Option (Uri × List Msg)

-- `map_err` on a permit that is not given: another error, and no drop, without ROUTER_MANDATORY.
unfoldable pub permit_error : Bool → ZmqError → ZmqError
permit_error mandatory e = if mandatory then e else internal

module _ (connection : Uri → List Msg → Result (Unit {0})) where
  unfoldable pub send_wire_frames :
      Option (Result (Unit {0}))
      → Bool
      → PeerInfo
      → Msg
      → List Msg
      → RouterSocket
      → Option (Result (Unit {0})) × Wire × RouterSocket
  unfolding reported permit_error
  send_wire_frames none mandatory info identity frames sock = (none, none, sock)
  send_wire_frames (some (err e)) mandatory info identity frames sock =
      (some (err (permit_error mandatory e)), none, sock)
  send_wire_frames (some (ok _)) mandatory info identity frames sock =
      let zmtp_wire_frames =
        clear_last (RouterMap.prepare_wire_frames info.strategy identity frames sock.framing) in
      (
        some (reported mandatory (connection info.uri zmtp_wire_frames)),
        some (info.uri, zmtp_wire_frames),
        sock,
      )

  unfoldable pub send_to_peer :
      CoreState
      → Option ℕ
      → Acquired
      → (RouterSocket → RouterSocket)
      → Msg
      → List Msg
      → RouterSocket
      → Option (Result (Unit {0})) × Wire × RouterSocket
  unfolding send_wire_frames
  send_to_peer core sndtimeo acquired meanwhile identity frames sock =
      let destination_id = data_or_empty identity in
      elim (RouterMap.get_peer_info_for_identity sock.router_map_for_send destination_id) [
        | none ↦ (some (undelivered sock.router_mandatory host_unreachable), none, sock)
        | some info ↦ elim (connected_pipe core info.uri) [
          | none ↦ (
            some (undelivered sock.router_mandatory host_unreachable),
            none,
            forget destination_id sock,
          )
          | some pipe_read_id ↦
              send_wire_frames
                (acquire_send_permit sock.pipe_send_coordinator pipe_read_id sndtimeo acquired)
                sock.router_mandatory info identity frames (meanwhile sock)
        ]
      ]

  unfoldable pub send_multipart :
      CoreState
      → Option ℕ
      → Acquired
      → (RouterSocket → RouterSocket)
      → List Msg
      → RouterSocket
      → Option (Result (Unit {0})) × Wire × RouterSocket
  unfolding send_to_peer
  send_multipart core sndtimeo acquired meanwhile [] sock =
      (some (err (if not core.running then invalid_state else invalid_message)), none, sock)
  send_multipart core sndtimeo acquired meanwhile (identity ∷ frames) sock =
      if not core.running
      then (some (err invalid_state), none, sock)
      else if is_empty (data_or_empty identity)
      then (some (err invalid_message), none, sock)
      else send_to_peer core sndtimeo acquired meanwhile identity frames sock
