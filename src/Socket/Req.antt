-- ===== src/Socket/Req.antt =====
-- core/src/socket/req_socket.rs: the REQ socket. An operation is cut where it waits, since other
-- operations may run there: `meanwhile` is what they make of the socket. Left out are the parts that
-- only pass a call on to the core. What the connections and the queue answer are arguments.
pub mod Receive
pub mod Pipes
pub mod Alternation
pub mod Replies
pub mod Sending
use rzmq.Base.{
  ℕ, zero, suc, Bool, true, false, not, Option, none, some, List, [], ◌∷◌, ◌==◌, if◌then◌else◌,
  bytes_eq, nat_eq,
}
use rzmq.Base.Maps.{lookup, insert, remove}
use rzmq.Error.{
  ZmqError, invalid_state, host_unreachable, connection_closed, internal, timeout,
  resource_limit_reached, unsupported_feature, unsupported_option, Result, ok, err,
}
use rzmq.Message.{Msg, new, set_flags, more_flag, difference, is_more, size}
use rzmq.Patterns.LoadBalancer.{Uri, LoadBalancer, contains, add_connection, remove_connection}
use rzmq.Patterns.Orchestrator.{
  Orchestrator, new_orchestrator, accumulate_pipe_frame, Pushed, queue_item, Popped, at_once,
  recv_message, recv_logical_message, reset_recv_message_buffer, clear_pipe_state,
}
use rzmq.Socket.Peers.{Core, select_peer}

pub data ReqState : Type 0 where
  ready_to_send : ReqState
  expecting_reply : Uri → ReqState

pub record ReqSocket : Type 0 where
  pub load_balancer : LoadBalancer
  pub incoming_orchestrator : Orchestrator
  pub state : ReqState
  pub pipe_read_to_endpoint_uri : List (ℕ × Uri)

abbrev pub new_req : ReqSocket
new_req = record {
  load_balancer = [];
  incoming_orchestrator = new_orchestrator;
  state = ready_to_send;
  pipe_read_to_endpoint_uri = [];
}

abbrev pub expects_reply : ReqState → Bool
expects_reply ready_to_send = false
expects_reply (expecting_reply uri) = true

-- Whether the state is `ExpectingReply` with this target.
unfoldable pub is_target : Uri → ReqState → Bool
is_target uri ready_to_send = false
is_target uri (expecting_reply target_endpoint_uri) = bytes_eq target_endpoint_uri uri

-- `send` up to the search for a peer.
unfoldable pub send_check : Bool → ReqSocket → Result (Unit {0})
send_check running sock =
    if not running
    then err invalid_state
    else if expects_reply sock.state
    then err invalid_state
    else ok tt

-- The delimiter and the message, on which `send` clears the MORE flag.
abbrev pub request_frames : Msg → List Msg
request_frames msg = set_flags new more_flag ∷ set_flags msg (difference msg.flags more_flag) ∷ []

-- `send` behind the connection's answer.
unfoldable pub send_finish : Uri → Result (Unit {0}) → ReqSocket → Result (Unit {0}) × ReqSocket
send_finish target (ok _) sock = (
  ok tt,
  record sock {
    state = expecting_reply target;
    incoming_orchestrator = reset_recv_message_buffer sock.incoming_orchestrator;
  },
)
send_finish target (err connection_closed) sock = (
  err host_unreachable,
  record sock { load_balancer = remove_connection sock.load_balancer target },
)
send_finish target (err e) sock = (err e, sock)

-- What `send` hands to a connection: for whom, and which frames.
abbrev pub Wire : Type 0
Wire = Option (Uri × List Msg)

module _ (connection : Uri → List Msg → Result (Unit {0})) (meanwhile : ReqSocket → ReqSocket) where
  -- `send` from the lookup of the peer's connection, among the core's endpoints at that moment.
  unfoldable pub send_to : List Uri → Msg → Uri → ReqSocket → Result (Unit {0}) × Wire × ReqSocket
  send_to endpoints msg target sock =
      if contains endpoints target
      then (let (answer, sock') =
            send_finish target (connection target (request_frames msg)) (meanwhile sock) in
          (answer, some (target, request_frames msg), sock'))
      else (
        err host_unreachable,
        none,
        record sock { load_balancer = remove_connection sock.load_balancer target },
      )

  unfoldable pub send_selected :
      List Uri
      → Msg
      → Option (Result Uri)
      → ReqSocket
      → Option (Result (Unit {0})) × Wire × ReqSocket
  send_selected endpoints msg none sock = (none, none, sock)
  send_selected endpoints msg (some (err e)) sock = (some (err e), none, sock)
  send_selected endpoints msg (some (ok target)) sock =
      let (answer, wire, sock') = send_to endpoints msg target sock in (some answer, wire, sock')

  -- The answer `none`: the call waits for a peer without end.
  unfoldable pub send :
      Option ℕ
      → Core
      → List (Core × LoadBalancer)
      → List Uri
      → ReqSocket
      → Msg
      → Option (Result (Unit {0})) × Wire × ReqSocket
  send sndtimeo core waits endpoints sock msg = elim (send_check core.running sock) [
    | err e ↦ (some (err e), none, sock)
    | ok _ ↦
        let (selected, uris) = select_peer sndtimeo core sock.load_balancer waits in
        send_selected endpoints msg selected (record sock { load_balancer = uris })
  ]

pub send_multipart : List Msg → Result (Unit {0})
send_multipart frames = err unsupported_feature

pub set_pattern_option : ℕ → List ℕ → Result (Unit {0})
set_pattern_option option value = err (unsupported_option option)

pub get_pattern_option : ℕ → Result (List ℕ)
get_pattern_option option = err (unsupported_option option)
