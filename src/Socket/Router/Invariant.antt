-- ===== src/Socket/Router/Invariant.antt =====
-- The maps of core/src/socket/router_socket.rs belong together, whatever calls a ROUTER socket serves.
use rzmq.Base.{
  ℕ, ◌≡◌, ◌≢◌, ◌⊎◌, inl, inr, Bool, false, Option, none, some, List, ==_iff, Option-cases, arith,
  nat_eq, bytes_key, if_either, not, ◌||◌, is_empty,
}
use rzmq.Base.Maps.{lookup, lookup-insert, lookup-remove}
use rzmq.Error.{Result, ok, err, Result-cases}
use rzmq.Message.{Msg, is_more, data_or_empty}
use rzmq.Patterns.LoadBalancer.{Uri}
use rzmq.Patterns.Router as RouterMap
use rzmq.Patterns.Router.{Blob}
use rzmq.Patterns.Router.Links.{remove_peer_by_identity_names}
use rzmq.Patterns.Router.Routed.{
  Routed, new_map-Routed, add_peer-Routed, update_peer_identity-Routed,
  remove_peer_by_read_pipe-Routed, remove_peer_by_identity-Routed,
}
use rzmq.Patterns.Coordinator.{Acquired, add_pipe, remove_pipe}
use rzmq.Patterns.Orchestrator.{clear_pipe_state}
use rzmq.Socket.Core.{CoreState, peer_type, uri_of, endpoint_of, endpoint, connected_pipe}
use rzmq.Socket.Router.{
  RouterSocket, new_router, attach, pipe_attached, update_peer_identity, pipe_detached,
  identity_or_placeholder,
}
use rzmq.Socket.Router.Send.{
  send, send_fragment, send_first, send_permitted, send_identity, forget, target, SendResult,
  is_err, send_delimiter,
}

-- Any identity that messages can be sent to is that of a pipe, and no pipe is in the map for sending
-- twice; whatever pipe that map knows by an identity, the messages of that pipe are received under
-- it; and a pipe with a semaphore is not closing and has an identity.
pub record Consistent (sock : RouterSocket) : Type 0 where
  pub routed : Routed sock.router_map_for_send
  pub named :
      (p : ℕ) (i : Blob)
      → lookup p sock.router_map_for_send.read_pipe_to_identity ≡ some i
      → lookup p sock.pipe_to_identity_shared_map ≡ some i
  pub open_pipes :
      (p : ℕ) (closing : Bool)
      → lookup p sock.pipe_send_coordinator ≡ some closing
      → (closing ≡ false) × (lookup p sock.pipe_to_identity_shared_map ≢ none)

pub new_router-Consistent : Consistent new_router
unfolding lookup
new_router-Consistent = record {
  routed = new_map-Routed;
  named = λ p i h. absurd cc;
  open_pipes = λ p closing h. absurd cc;
}

lookup-add_pipe :
    (pipes : List (ℕ × Bool)) (p q : ℕ) (closing : Bool)
    → lookup q (add_pipe pipes p) ≡ some closing
    → ((q ≡ p) × (closing ≡ false)) ⊎ (lookup q pipes ≡ some closing)
unfolding add_pipe
lookup-add_pipe pipes p q closing h = ground (arith, lookup-insert p q false pipes, ==_iff p q)

attach-Consistent :
    (p : ℕ) (i : Blob) (uri : Uri) (sock : RouterSocket)
    → Consistent sock
    → Consistent (attach p i uri sock)
unfolding RouterMap.add_peer
attach-Consistent p i uri sock c = record {
  routed = add_peer-Routed sock.router_map_for_send i p uri c.routed;
  named = λ q j h. ground (
    arith,
    lookup-insert p q i sock.router_map_for_send.read_pipe_to_identity,
    lookup-insert p q i sock.pipe_to_identity_shared_map,
    c.named q j,
  );
  open_pipes = λ q closing h. ground (
    arith,
    lookup-add_pipe sock.pipe_send_coordinator p q closing h,
    lookup-insert p q i sock.pipe_to_identity_shared_map,
    ==_iff p q,
    c.open_pipes q closing,
  );
}

pub update-Consistent :
    (core : CoreState) (p : ℕ) (i : Option Blob) (sock : RouterSocket)
    → Consistent sock
    → Consistent (update_peer_identity core p i sock)
unfolding update_peer_identity RouterMap.update_peer_identity
update-Consistent core p i sock c = elim (Option-cases (uri_of core p)) [
  | inl unknown ↦ rw (unknown, update_peer_identity) c
  | inr (uri, found) ↦
      rw (found, update_peer_identity)
        (record {
          routed =
              update_peer_identity-Routed sock.router_map_for_send p (identity_or_placeholder p i)
                uri (peer_type core p) c.routed;
          named = λ q j h. ground (
            arith,
            lookup-insert p q (identity_or_placeholder p i)
                sock.router_map_for_send.read_pipe_to_identity,
            lookup-insert p q (identity_or_placeholder p i) sock.pipe_to_identity_shared_map,
            c.named q j,
          );
          open_pipes = λ q closing h. ground (
            arith,
            lookup-insert p q (identity_or_placeholder p i) sock.pipe_to_identity_shared_map,
            c.open_pipes q closing,
          );
        })
]

pub attached-Consistent :
    (core : CoreState) (p : ℕ) (i : Option Blob) (sock : RouterSocket)
    → Consistent sock
    → Consistent (pipe_attached core p i sock)
unfolding pipe_attached
attached-Consistent core p i sock c = elim (Option-cases (uri_of core p)) [
  | inl unknown ↦ rw (unknown, pipe_attached) c
  | inr (uri, found) ↦
      rw (found, pipe_attached)
        (elim (Option-cases (endpoint_of core p)) [
          | inl missing ↦ rw missing c
          | inr (info, known) ↦
              rw known (attach-Consistent p (identity_or_placeholder p i) uri sock c)
        ])
]

pub detached-Consistent :
    (core : CoreState) (p : ℕ) (sock : RouterSocket)
    → Consistent sock
    → Consistent (pipe_detached core p sock)
unfolding pipe_detached RouterMap.remove_peer_by_read_pipe remove_pipe
detached-Consistent core p sock c = record {
  routed = remove_peer_by_read_pipe-Routed sock.router_map_for_send p c.routed;
  named = λ q j h. ground (
    arith,
    lookup-remove p q sock.router_map_for_send.read_pipe_to_identity,
    lookup-remove p q sock.pipe_to_identity_shared_map,
    ==_iff p q,
    c.named q j,
  );
  open_pipes = λ q closing h. ground (
    arith,
    lookup-remove p q sock.pipe_send_coordinator,
    lookup-remove p q sock.pipe_to_identity_shared_map,
    ==_iff p q,
    c.open_pipes q closing,
  );
}

-- Nothing is left of a pipe: no identity in either direction, no frames of a message that is not
-- whole, and no semaphore.
abbrev pub Gone : ℕ → RouterSocket → Type 0
Gone p sock =
    (lookup p sock.router_map_for_send.read_pipe_to_identity ≡ none)
    × (lookup p sock.pipe_to_identity_shared_map ≡ none)
    × (lookup p sock.incoming_orchestrator.partial_pipe_messages ≡ none)
    × (lookup p sock.pipe_send_coordinator ≡ none)

pub pipe_detached-Gone :
    (core : CoreState) (p : ℕ) (sock : RouterSocket) → Gone p (pipe_detached core p sock)
unfolding pipe_detached RouterMap.remove_peer_by_read_pipe remove_pipe clear_pipe_state
pipe_detached-Gone core p sock = (
  ground (arith, lookup-remove p p sock.router_map_for_send.read_pipe_to_identity, ==_iff p p),
  ground (arith, lookup-remove p p sock.pipe_to_identity_shared_map, ==_iff p p),
  ground (arith, lookup-remove p p sock.incoming_orchestrator.partial_pipe_messages, ==_iff p p),
  ground (arith, lookup-remove p p sock.pipe_send_coordinator, ==_iff p p),
)

pub forget-Consistent :
    (i : Blob) (sock : RouterSocket) → Consistent sock → Consistent (forget i sock)
unfolding RouterMap.get_identity_by_read_pipe
forget-Consistent i sock c = record {
  routed = remove_peer_by_identity-Routed sock.router_map_for_send i c.routed;
  named = λ q j h. c.named q j (remove_peer_by_identity_names sock.router_map_for_send i j q h);
  open_pipes = λ q closing h. c.open_pipes q closing h;
}

abbrev pub Keeps : SendResult → Type 0
Keeps (answer, handed, sock) = Consistent sock

target-Consistent :
    (uri : Option Uri) (sock : RouterSocket) → Consistent sock → Consistent (target uri sock)
target-Consistent uri sock c = record {
  routed = c.routed;
  named = c.named;
  open_pipes = c.open_pipes;
}

module _ (send_message : Uri → Msg → Result (Unit {0})) where
  send_fragment-Consistent :
      (core : CoreState) (uri : Uri) (msg : Msg) (sock : RouterSocket)
      → Consistent sock
      → Keeps (send_fragment send_message core uri msg sock)
  unfolding send_fragment
  send_fragment-Consistent core uri msg sock c = elim (Option-cases (endpoint core uri)) [
    | inl gone ↦ rw (gone, send_fragment) (target-Consistent none sock c)
    | inr (info, there) ↦
        rw (there, send_fragment)
          (if_either Consistent (not (is_more msg) || is_err (send_message uri msg)) _ _
            (target-Consistent none sock c) c)
  ]

  send_identity-Consistent :
      (mandatory : Bool) (uri : Uri) (msg : Msg) (sock : RouterSocket)
      → Consistent sock
      → Keeps (send_identity send_message mandatory uri msg sock)
  unfolding send_identity
  send_identity-Consistent mandatory uri msg sock c = elim (Result-cases (send_message uri msg)) [
    | inr (e, failed) ↦ rw (failed, send_identity) c
    | inl first ↦
        rw (first, send_identity)
          (elim (Result-cases (send_delimiter send_message uri sock).0) [
            | inr (e, failed) ↦ rw failed c
            | inl second ↦ rw second (target-Consistent (some uri) sock c)
          ])
  ]

  module _ (meanwhile : RouterSocket → RouterSocket)
      (keeps : (s : RouterSocket) → Consistent s → Consistent (meanwhile s)) where
    send_permitted-Consistent :
        (permitted : Option (Result (Unit {0}))) (mandatory : Bool) (uri : Uri) (msg : Msg)
        (sock : RouterSocket)
        → Consistent sock
        → Keeps (send_permitted send_message permitted mandatory uri msg sock)
    unfolding send_permitted
    send_permitted-Consistent none mandatory uri msg sock c = c
    send_permitted-Consistent (some (err e)) mandatory uri msg sock c = c
    send_permitted-Consistent (some (ok _)) mandatory uri msg sock c =
        send_identity-Consistent mandatory uri msg sock c

    send_first-Consistent :
        (core : CoreState) (sndtimeo : Option ℕ) (acquired : Acquired) (i : Blob) (msg : Msg)
        (sock : RouterSocket)
        → Consistent sock
        → Keeps (send_first send_message core sndtimeo acquired meanwhile i msg sock)
    unfolding send_first
    send_first-Consistent core sndtimeo acquired i msg sock c =
        elim (Option-cases (RouterMap.get_peer_info_for_identity sock.router_map_for_send i)) [
          | inl unknown ↦ rw (unknown, send_first) c
          | inr (info, known) ↦
              rw (known, send_first)
                (elim (Option-cases (connected_pipe core info.uri)) [
                  | inl stale ↦ rw stale (forget-Consistent i sock c)
                  | inr (p, found) ↦
                      rw found
                        (send_permitted-Consistent _ _ info.uri msg (meanwhile sock) (keeps sock c))
                ])
        ]

    pub send-Consistent :
        (core : CoreState) (sndtimeo : Option ℕ) (acquired : Acquired) (msg : Msg)
        (sock : RouterSocket)
        → Consistent sock
        → Keeps (send send_message core sndtimeo acquired meanwhile msg sock)
    unfolding send
    send-Consistent core sndtimeo acquired msg sock c =
        if_either Keeps (not core.running) _ _ c (elim (Option-cases sock.current_send_target) [
          | inr (uri, active) ↦ rw active (send_fragment-Consistent core uri msg sock c)
          | inl none_active ↦ rw none_active (
              if_either Keeps (not (is_more msg)) _ _ c (
                if_either Keeps (is_empty (data_or_empty msg)) _ _ c
                  (send_first-Consistent core sndtimeo acquired (data_or_empty msg) msg sock c)))
        ])
