-- ===== src/Socket/Push.antt =====
-- core/src/socket/push_socket.rs: the PUSH socket, which sends to one peer after another. What the
-- connections answer is an argument, and so are the core's endpoints when the peer is looked up.
pub mod RoundRobin
use rzmq.Base.{ℕ, Bool, true, false, not, Option, none, some, List, [], ◌∷◌, if◌then◌else◌, nat_eq}
use rzmq.Base.Maps.{lookup, insert, remove}
use rzmq.Error.{
  ZmqError, host_unreachable, connection_closed, timeout, resource_limit_reached,
  unsupported_feature, unsupported_option, Result, ok, err,
}
use rzmq.Message.{Msg}
use rzmq.Patterns.LoadBalancer.{Uri, LoadBalancer, contains, add_connection, remove_connection}
use rzmq.Socket.Frames.{mark_frames}
use rzmq.Socket.Peers.{Core, select_peer}

pub record PushSocket : Type 0 where
  pub load_balancer : LoadBalancer
  pub pipe_read_to_endpoint_uri : List (ℕ × Uri)

abbrev pub new_push : PushSocket
new_push = record { load_balancer = []; pipe_read_to_endpoint_uri = [] }

abbrev pub drop_peer : Uri → PushSocket → PushSocket
drop_peer uri sock = record sock { load_balancer = remove_connection sock.load_balancer uri }

-- `send` behind the connection's answer: a full or slow peer stays, any other failure drops it.
unfoldable pub send_finish : Uri → Result (Unit {0}) → PushSocket → Result (Unit {0}) × PushSocket
send_finish uri (ok _) sock = (ok tt, sock)
send_finish uri (err connection_closed) sock = (err host_unreachable, drop_peer uri sock)
send_finish uri (err resource_limit_reached) sock = (err resource_limit_reached, sock)
send_finish uri (err timeout) sock = (err timeout, sock)
send_finish uri (err e) sock = (err e, drop_peer uri sock)

-- `send_multipart` drops a peer only if its connection is closed.
unfoldable pub send_multipart_finish :
    Uri → Result (Unit {0}) → PushSocket → Result (Unit {0}) × PushSocket
send_multipart_finish uri (ok _) sock = (ok tt, sock)
send_multipart_finish uri (err connection_closed) sock = (err host_unreachable, drop_peer uri sock)
send_multipart_finish uri (err e) sock = (err e, sock)

-- What is handed to a connection: for whom, and which frames.
abbrev pub Wire : Type 0
Wire = Option (Uri × List Msg)

module _ (connection : Uri → List Msg → Result (Unit {0}))
    (finish : Uri → Result (Unit {0}) → PushSocket → Result (Unit {0}) × PushSocket) where
  -- The steps that `send` and `send_multipart` share, from the peer selected on.
  unfoldable pub send_selected :
      List Uri
      → List Msg
      → Option (Result Uri)
      → PushSocket
      → Option (Result (Unit {0})) × Wire × PushSocket
  send_selected endpoints frames none sock = (none, none, sock)
  send_selected endpoints frames (some (err e)) sock = (some (err e), none, sock)
  send_selected endpoints frames (some (ok uri)) sock =
      if contains endpoints uri
      then (let (answer, sock') = finish uri (connection uri frames) sock in
          (some answer, some (uri, frames), sock'))
      else (some (err host_unreachable), none, drop_peer uri sock)

  unfoldable pub send_frames :
      Option ℕ
      → Core
      → List (Core × LoadBalancer)
      → List Uri
      → PushSocket
      → List Msg
      → Option (Result (Unit {0})) × Wire × PushSocket
  send_frames sndtimeo core waits endpoints sock frames =
      let (selected, uris) = select_peer sndtimeo core sock.load_balancer waits in
      send_selected endpoints frames selected (record sock { load_balancer = uris })

module _ (connection : Uri → List Msg → Result (Unit {0})) where
  -- A message of one frame, with the flags that it has. At the start `send` asks whether the core
  -- runs. In its loop it asks instead whether the core's command channel, of the crate fibre, is
  -- open: here that is the field `running` of the cores that the loop looks at.
  unfoldable pub send :
      Bool
      → Option ℕ
      → Core
      → List (Core × LoadBalancer)
      → List Uri
      → PushSocket
      → Msg
      → Option (Result (Unit {0})) × Wire × PushSocket
  send running sndtimeo core waits endpoints sock msg =
      if not running
      then (some (err resource_limit_reached), none, sock)
      else send_frames connection send_finish sndtimeo core waits endpoints sock (msg ∷ [])

  unfoldable pub send_multipart :
      Option ℕ
      → Core
      → List (Core × LoadBalancer)
      → List Uri
      → PushSocket
      → List Msg
      → Option (Result (Unit {0})) × Wire × PushSocket
  send_multipart sndtimeo core waits endpoints sock [] =
      (some (if not core.running then err resource_limit_reached else ok tt), none, sock)
  send_multipart sndtimeo core waits endpoints sock (frame ∷ frames) =
      if not core.running
      then (some (err resource_limit_reached), none, sock)
      else send_frames connection send_multipart_finish sndtimeo core waits endpoints sock
          (mark_frames (frame ∷ frames))

pub recv : Result Msg
recv = err unsupported_feature

pub recv_multipart : Result (List Msg)
recv_multipart = err unsupported_feature

pub set_pattern_option : ℕ → List ℕ → Result (Unit {0})
set_pattern_option option value = err (unsupported_option option)

pub get_pattern_option : ℕ → Result (List ℕ)
get_pattern_option option = err (unsupported_option option)

-- `core_uri` is the pipe's endpoint in the core's map.
unfoldable pub pipe_attached : Option Uri → ℕ → PushSocket → PushSocket
pipe_attached none pipe_read_id sock = sock
pipe_attached (some endpoint_uri) pipe_read_id sock = record {
  pipe_read_to_endpoint_uri = insert pipe_read_id endpoint_uri sock.pipe_read_to_endpoint_uri;
  load_balancer = add_connection sock.load_balancer endpoint_uri;
}

abbrev pub detach_uri : Option Uri → PushSocket → PushSocket
detach_uri none sock = sock
detach_uri (some endpoint_uri) sock = drop_peer endpoint_uri sock

unfoldable pub pipe_detached : ℕ → PushSocket → PushSocket
pipe_detached pipe_read_id sock =
    detach_uri (lookup pipe_read_id sock.pipe_read_to_endpoint_uri) (record sock {
      pipe_read_to_endpoint_uri = remove pipe_read_id sock.pipe_read_to_endpoint_uri;
    })
