-- ===== src/Socket/Publish.antt =====
-- core/src/socket/patterns/distributor.rs and pub_socket.rs: the PUB socket, which sends to all peers.
-- The set of peers is a list in the order in which it happens to be iterated.
pub mod Peers
use rzmq.Base.{
  ℕ, Bool, true, false, not, ◌||◌, Option, none, some, List, [], ◌∷◌, if◌then◌else◌, bytes_eq,
  nat_eq,
}
use rzmq.Base.Maps.{lookup, insert, remove}
use rzmq.Error.{
  ZmqError, internal, invalid_state, timeout, resource_limit_reached, unsupported_feature,
  unsupported_option, Result, ok, err,
}
use rzmq.Message.{Msg}
use rzmq.Patterns.LoadBalancer.{Uri, contains}
use rzmq.Socket.Frames.{mark_frames}

-- `peer_uris`
abbrev pub Distributor : Type 0
Distributor = List Uri

unfoldable pub add_peer_uri : Uri → Distributor → Distributor
add_peer_uri uri uris = if contains uris uri then uris else uri ∷ uris

unfoldable pub remove_peer_uri : Uri → Distributor → Distributor
remove_peer_uri uri [] = []
remove_peer_uri uri (u ∷ uris) =
    let rest = remove_peer_uri uri uris in if bytes_eq u uri then rest else u ∷ rest

-- A peer that is too slow, or has no room, only misses the message.
unfoldable pub failure : Result (Unit {0}) → Option ZmqError
failure (ok _) = none
failure (err resource_limit_reached) = none
failure (err timeout) = none
failure (err e) = some e

module _ (connection : Uri → List Msg → Result (Unit {0})) where
  -- The failure of one peer; one that the core does not know has failed, too.
  unfoldable pub send_to_one : List Uri → List Msg → Uri → Option ZmqError
  send_to_one endpoints frames uri =
      if contains endpoints uri then failure (connection uri frames) else some internal

  -- The loop over the peers, with the failures that it collects.
  unfoldable pub send_each : List Uri → List Msg → List Uri → List (Uri × ZmqError)
  send_each endpoints frames [] = []
  send_each endpoints frames (uri ∷ uris) =
      let rest = send_each endpoints frames uris in
      elim (send_to_one endpoints frames uri) [ none ↦ rest | some e ↦ (uri, e) ∷ rest ]

  unfoldable pub send_to_all_multipart : List Uri → List Msg → Distributor → List (Uri × ZmqError)
  send_to_all_multipart endpoints [] uris = []
  send_to_all_multipart endpoints (frame ∷ frames) uris = send_each endpoints (frame ∷ frames) uris

  unfoldable pub send_to_all : List Uri → Msg → Distributor → List (Uri × ZmqError)
  send_to_all endpoints msg uris = send_each endpoints (msg ∷ []) uris

pub record PubSocket : Type 0 where
  pub distributor : Distributor
  pub pipe_read_to_endpoint_uri : List (ℕ × Uri)

unfoldable pub drop_failed : List (Uri × ZmqError) → Distributor → Distributor
drop_failed [] uris = uris
drop_failed ((uri, e) ∷ failed) uris = drop_failed failed (remove_peer_uri uri uris)

module _ (connection : Uri → List Msg → Result (Unit {0})) where
  unfoldable pub send : Bool → List Uri → Msg → PubSocket → Result (Unit {0}) × PubSocket
  send running endpoints msg sock = if not running then (err invalid_state, sock) else (
    ok tt,
    record sock {
      distributor =
          drop_failed (send_to_all connection endpoints msg sock.distributor) sock.distributor;
    },
  )

  unfoldable pub send_multipart :
      Bool → List Uri → List Msg → PubSocket → Result (Unit {0}) × PubSocket
  send_multipart running endpoints frames sock =
      if not running then (err invalid_state, sock) else (
        ok tt,
        record sock {
          distributor =
              drop_failed
                (send_to_all_multipart connection endpoints (mark_frames frames) sock.distributor)
                sock.distributor;
        },
      )

pub recv : Result Msg
recv = err invalid_state

pub recv_multipart : Result (List Msg)
recv_multipart = err unsupported_feature

unfoldable pub pipe_attached : Option Uri → ℕ → PubSocket → PubSocket
pipe_attached none pipe_read_id sock = sock
pipe_attached (some endpoint_uri) pipe_read_id sock = record {
  pipe_read_to_endpoint_uri = insert pipe_read_id endpoint_uri sock.pipe_read_to_endpoint_uri;
  distributor = add_peer_uri endpoint_uri sock.distributor;
}

abbrev pub detach_uri : Option Uri → PubSocket → PubSocket
detach_uri none sock = sock
detach_uri (some endpoint_uri) sock = record sock {
  distributor = remove_peer_uri endpoint_uri sock.distributor;
}

unfoldable pub pipe_detached : ℕ → PubSocket → PubSocket
pipe_detached pipe_read_id sock =
    detach_uri (lookup pipe_read_id sock.pipe_read_to_endpoint_uri) (record sock {
      pipe_read_to_endpoint_uri = remove pipe_read_id sock.pipe_read_to_endpoint_uri;
    })
