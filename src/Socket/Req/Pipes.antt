-- ===== src/Socket/Req/Pipes.antt =====
-- Pipe events of core/src/socket/req_socket.rs: frames that arrive, and pipes that come and go.
use rzmq.Base.{ℕ, Bool, false, Option, none, some, List, [], ◌∷◌, ◌==◌, if◌then◌else◌, nat_eq}
use rzmq.Base.Maps.{lookup, insert, remove}
use rzmq.Error.{ok, err}
use rzmq.Message.{Msg, size}
use rzmq.Patterns.LoadBalancer.{Uri, add_connection, remove_connection}
use rzmq.Patterns.Orchestrator.{accumulate_pipe_frame, Pushed, queue_item, clear_pipe_state}
use rzmq.Socket.Req.{ReqState, ready_to_send, ReqSocket, is_target}

-- An empty first frame is the delimiter.
unfoldable pub process_incoming_zmtp_message_for_req : List Msg → List Msg
process_incoming_zmtp_message_for_req [] = []
process_incoming_zmtp_message_for_req (frame ∷ frames) =
    if size frame == 0 then frames else frame ∷ frames

abbrev pub from_target : Option Uri → ReqState → Bool
from_target none state = false
from_target (some source_uri) state = is_target source_uri state

-- A frame from a pipe, with what it hands to the main queue, if anything.
unfoldable pub handle_pipe_event : Pushed → ℕ → Msg → ReqSocket → Option (List Msg) × ReqSocket
unfolding is_target
handle_pipe_event pushed pipe_read_id msg sock =
    if from_target (lookup pipe_read_id sock.pipe_read_to_endpoint_uri) sock.state
    then (let (whole, o) = accumulate_pipe_frame sock.incoming_orchestrator pipe_read_id msg in
        elim whole [
          | none ↦ (none, record sock { incoming_orchestrator = o })
          | some raw_zmtp_reply_vec ↦ (
            some (process_incoming_zmtp_message_for_req raw_zmtp_reply_vec),
            record sock {
              incoming_orchestrator = o;
              state = elim (queue_item pushed) [ ok _ ↦ sock.state | err e ↦ ready_to_send ];
            },
          )
        ])
    else (none, sock)

-- `core_uri` is the pipe's endpoint in the core's map.
unfoldable pub pipe_attached : Option Uri → ℕ → ReqSocket → ReqSocket
pipe_attached none pipe_read_id sock = sock
pipe_attached (some endpoint_uri) pipe_read_id sock = record sock {
  pipe_read_to_endpoint_uri = insert pipe_read_id endpoint_uri sock.pipe_read_to_endpoint_uri;
  load_balancer = add_connection sock.load_balancer endpoint_uri;
}

unfoldable pub detach_uri : Option Uri → ReqSocket → ReqSocket
detach_uri none sock = sock
detach_uri (some detached_uri) sock = record sock {
  load_balancer = remove_connection sock.load_balancer detached_uri;
  state = if is_target detached_uri sock.state then ready_to_send else sock.state;
}

unfoldable pub pipe_detached : ℕ → ReqSocket → ReqSocket
pipe_detached pipe_read_id sock =
    let sock' = detach_uri (lookup pipe_read_id sock.pipe_read_to_endpoint_uri) (record sock {
      pipe_read_to_endpoint_uri = remove pipe_read_id sock.pipe_read_to_endpoint_uri;
    }) in
    record sock' {
      incoming_orchestrator = clear_pipe_state sock'.incoming_orchestrator pipe_read_id;
    }
