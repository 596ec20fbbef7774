-- ===== src/Socket/Router/Calls.antt =====
-- Series of calls to a ROUTER socket of core/src/socket/router_socket.rs, also while a send waits.
use rzmq.Base.{
  ℕ, not, ◌≡◌, refl, inl, inr, Bool, Option, none, some, List, [], ◌∷◌, Option-cases, if_either,
  is_empty, arith,
}
use rzmq.Error.{Result, ok, err}
use rzmq.Message.{Msg, data_or_empty}
use rzmq.Patterns.LoadBalancer.{Uri}
use rzmq.Patterns.Router as RouterMap
use rzmq.Patterns.Router.{Blob, PeerInfo}
use rzmq.Patterns.Coordinator.{Acquired}
use rzmq.Patterns.Orchestrator.{Pushed, accumulate_pipe_frame}
use rzmq.Socket.Core.{CoreState, connected_pipe}
use rzmq.Socket.Router.{
  RouterSocket, new_router, Item, recv, recv_multipart, handle_pipe_event, set_pattern_option, stop,
  pipe_attached, update_peer_identity, pipe_detached,
}
use rzmq.Socket.Router.Send.{send, send_multipart, send_to_peer, send_wire_frames, Wire}
use rzmq.Socket.Router.Invariant.{
  Consistent, Gone, pipe_detached-Gone, new_router-Consistent, attached-Consistent,
  update-Consistent, detached-Consistent, forget-Consistent, send-Consistent,
}

-- A call, with all that it depends on; what happens while a send waits are calls again.
mutual
  pub data RouterCall : Type 0 where
    attached : CoreState → ℕ → Option Blob → RouterCall
    identified : CoreState → ℕ → Option Blob → RouterCall
    detached : CoreState → ℕ → RouterCall
    frame_in : CoreState → Pushed → ℕ → Msg → RouterCall
    receive : Bool → Result Item → RouterCall
    receive_multipart : Bool → Result Item → RouterCall
    set_option : ℕ → List ℕ → RouterCall
    stopped : RouterCall
    send_frame :
        (Uri → Msg → Result (Unit {0}))
        → CoreState
        → Option ℕ
        → Acquired
        → RouterCalls
        → Msg
        → RouterCall
    send_message :
        (Uri → List Msg → Result (Unit {0}))
        → CoreState
        → Option ℕ
        → Acquired
        → RouterCalls
        → List Msg
        → RouterCall

  pub data RouterCalls : Type 0 where
    end : RouterCalls
    next : RouterCall → RouterCalls → RouterCalls

mutual
  pub call : RouterCall → RouterSocket → RouterSocket
  call (attached core p i) sock = pipe_attached core p i sock
  call (identified core p i) sock = update_peer_identity core p i sock
  call (detached core p) sock = pipe_detached core p sock
  call (frame_in core pushed p msg) sock = (handle_pipe_event core pushed p msg sock).2
  call (receive running popped) sock = (recv running popped sock).1
  call (receive_multipart running popped) sock = (recv_multipart running popped sock).1
  call (set_option option value) sock = (set_pattern_option option value sock).1
  call stopped sock = stop sock
  call (send_frame connection core sndtimeo acquired meanwhile msg) sock =
      (send connection core sndtimeo acquired (call_all meanwhile) msg sock).2
  call (send_message connection core sndtimeo acquired meanwhile frames) sock =
      (send_multipart connection core sndtimeo acquired (call_all meanwhile) frames sock).2

  pub call_all : RouterCalls → RouterSocket → RouterSocket
  call_all end sock = sock
  call_all (next c calls) sock = call_all calls (call c sock)

-- Calls that touch only the orchestrator, the options and the framing.
same_maps :
    (sock sock' : RouterSocket)
    → sock'.router_map_for_send ≡ sock.router_map_for_send
    → sock'.pipe_to_identity_shared_map ≡ sock.pipe_to_identity_shared_map
    → sock'.pipe_send_coordinator ≡ sock.pipe_send_coordinator
    → Consistent sock
    → Consistent sock'
same_maps sock sock' m n o c = record {
  routed = rw m c.routed;
  named = λ p i h. rw n (c.named p i (rw (← m) h));
  open_pipes = λ p closing h. rw n (c.open_pipes p closing (rw (← o) h));
}

recv-Consistent :
    (running : Bool) (popped : Result Item) (sock : RouterSocket)
    → Consistent sock
    → Consistent (recv running popped sock).1 × Consistent (recv_multipart running popped sock).1
unfolding recv recv_multipart
recv-Consistent running popped sock c = (
  if_either (λ (r : Result Msg × RouterSocket). Consistent r.1) (not running) _ _ c
      (same_maps sock _ refl refl refl c),
  if_either (λ (r : Result (List Msg) × RouterSocket). Consistent r.1) (not running) _ _ c
      (same_maps sock _ refl refl refl c),
)

frame_in-Consistent :
    (core : CoreState) (pushed : Pushed) (p : ℕ) (msg : Msg) (sock : RouterSocket)
    → Consistent sock
    → Consistent (handle_pipe_event core pushed p msg sock).2
unfolding handle_pipe_event
frame_in-Consistent core pushed p msg sock c =
    elim (Option-cases (accumulate_pipe_frame sock.incoming_orchestrator p msg).0) [
      | inl part ↦ rw (part, handle_pipe_event) (same_maps sock _ refl refl refl c)
      | inr (frames, whole) ↦ rw (whole, handle_pipe_event) (same_maps sock _ refl refl refl c)
    ]

set_option-Consistent :
    (option : ℕ) (value : List ℕ) (sock : RouterSocket)
    → Consistent sock
    → Consistent (set_pattern_option option value sock).1
unfolding set_pattern_option
set_option-Consistent option value sock c =
    same_maps sock _ (ground arith) (ground arith) (ground arith) c

module _ (connection : Uri → List Msg → Result (Unit {0})) (meanwhile : RouterSocket → RouterSocket)
    (keeps : (s : RouterSocket) → Consistent s → Consistent (meanwhile s)) where
  abbrev KeepsWire : Option (Result (Unit {0})) × Wire × RouterSocket → Type 0
  KeepsWire (answer, wire, sock) = Consistent sock

  send_wire_frames-Consistent :
      (permitted : Option (Result (Unit {0}))) (mandatory : Bool) (info : PeerInfo) (identity : Msg)
      (frames : List Msg) (sock : RouterSocket)
      → Consistent sock
      → KeepsWire (send_wire_frames connection permitted mandatory info identity frames sock)
  unfolding send_wire_frames
  send_wire_frames-Consistent none mandatory info identity frames sock c = c
  send_wire_frames-Consistent (some (err e)) mandatory info identity frames sock c = c
  send_wire_frames-Consistent (some (ok _)) mandatory info identity frames sock c = c

  send_to_peer-Consistent :
      (core : CoreState) (sndtimeo : Option ℕ) (acquired : Acquired) (identity : Msg)
      (frames : List Msg) (sock : RouterSocket)
      → Consistent sock
      → KeepsWire (send_to_peer connection core sndtimeo acquired meanwhile identity frames sock)
  unfolding send_to_peer
  send_to_peer-Consistent core sndtimeo acquired identity frames sock c =
      let i = data_or_empty identity in
      elim (Option-cases (RouterMap.get_peer_info_for_identity sock.router_map_for_send i)) [
        | inl unknown ↦ rw (unknown, send_to_peer) c
        | inr (info, known) ↦
            rw (known, send_to_peer)
              (elim (Option-cases (connected_pipe core info.uri)) [
                | inl stale ↦ rw stale (forget-Consistent i sock c)
                | inr (p, found) ↦ rw found (
                    send_wire_frames-Consistent _ _ info identity frames (meanwhile sock)
                      (keeps sock c))
              ])
      ]

  send_multipart-Consistent :
      (core : CoreState) (sndtimeo : Option ℕ) (acquired : Acquired) (frames : List Msg)
      (sock : RouterSocket)
      → Consistent sock
      → KeepsWire (send_multipart connection core sndtimeo acquired meanwhile frames sock)
  unfolding send_multipart
  send_multipart-Consistent core sndtimeo acquired [] sock c = c
  send_multipart-Consistent core sndtimeo acquired (identity ∷ frames) sock c =
      if_either KeepsWire (not core.running) _ _ c (
        if_either KeepsWire (is_empty (data_or_empty identity)) _ _ c
          (send_to_peer-Consistent core sndtimeo acquired identity frames sock c))

mutual
  unfolding call call_all stop

  call-Consistent :
      (c : RouterCall) (sock : RouterSocket) → Consistent sock → Consistent (call c sock)
  call-Consistent (attached core p i) sock h = attached-Consistent core p i sock h
  call-Consistent (identified core p i) sock h = update-Consistent core p i sock h
  call-Consistent (detached core p) sock h = detached-Consistent core p sock h
  call-Consistent (frame_in core pushed p msg) sock h = frame_in-Consistent core pushed p msg sock h
  call-Consistent (receive running popped) sock h = (recv-Consistent running popped sock h).0
  call-Consistent (receive_multipart running popped) sock h =
      (recv-Consistent running popped sock h).1
  call-Consistent (set_option option value) sock h = set_option-Consistent option value sock h
  call-Consistent stopped sock h = same_maps sock _ refl refl refl h
  call-Consistent (send_frame connection core sndtimeo acquired meanwhile msg) sock h =
      send-Consistent connection (call_all meanwhile) (call_all-Consistent meanwhile) core sndtimeo
        acquired msg sock h
  call-Consistent (send_message connection core sndtimeo acquired meanwhile frames) sock h =
      send_multipart-Consistent connection (call_all meanwhile) (call_all-Consistent meanwhile) core
        sndtimeo acquired frames sock h

  call_all-Consistent :
      (calls : RouterCalls) (sock : RouterSocket)
      → Consistent sock
      → Consistent (call_all calls sock)
  call_all-Consistent end sock h = h
  call_all-Consistent (next c calls) sock h =
      call_all-Consistent calls (call c sock) (call-Consistent c sock h)

-- Whatever calls a new ROUTER socket has served, and whatever calls came while its sends waited:
-- every identity that messages can be sent to is that of a pipe in the map for sending, in which no
-- pipe is listed twice; the messages of every pipe in that map are received under the identity it
-- has there; and every pipe with a semaphore is not closing and has an identity. When a pipe is
-- detached then, known or not, nothing of it is left: it is in neither map of identities, no
-- frames of it wait for the rest of their message, and it has no semaphore.
pub calls-Consistent :
    (calls : RouterCalls) (core : CoreState) (p : ℕ)
    → let sock = call_all calls new_router in Consistent sock × Gone p (pipe_detached core p sock)
calls-Consistent calls core p = (
  call_all-Consistent calls new_router new_router-Consistent,
  pipe_detached-Gone core p (call_all calls new_router),
)
