-- ===== src/Socket/Req/Receive.antt =====
-- Receiving in core/src/socket/req_socket.rs. A `recv` waits for a notification or for a reply; what
-- other operations make of the socket meanwhile is an argument.
use rzmq.Base.{Bool, true, not, List, if◌then◌else◌, nat_eq}
use rzmq.Error.{
  invalid_state, connection_closed, internal, timeout, resource_limit_reached, Result, ok, err,
}
use rzmq.Message.{Msg, is_more}
use rzmq.Patterns.Orchestrator.{Popped, at_once, recv_message, recv_logical_message}
use rzmq.Socket.Req.{ReqState, ready_to_send, ReqSocket, expects_reply}

unfoldable pub recv_check : Bool → ReqSocket → Result (Unit {0})
recv_check running sock =
    if not running
    then err invalid_state
    else if expects_reply sock.state
    then ok tt
    else err invalid_state

-- The closure of `recv` leaves an item and the socket as they are.
abbrev pub q_item_frames : List Msg → Unit {0} → List Msg × Unit {0}
q_item_frames q_item s = (q_item, s)

-- `recv_message` of the socket's orchestrator.
unfoldable pub recv_from_orchestrator : ReqSocket → Result (List Msg) → Result Msg × ReqSocket
recv_from_orchestrator sock popped =
    let (answer, _, o) = recv_message q_item_frames sock.incoming_orchestrator tt popped in
    (answer, record sock { incoming_orchestrator = o })

-- How the `select!` of `recv` ends: the notifier is first, with whether the core runs then and what
-- the queue gives at once, or the orchestrator's own receive is done.
pub data Wake : Type 0 where
  notified : Bool → Popped (List Msg) → Wake
  completed : Result (List Msg) → Wake

-- What a notified `recv` makes of an answer that says that nothing is there.
unfoldable pub interrupted : ReqState → Result Msg → Result Msg
interrupted state (err resource_limit_reached) =
    err (if expects_reply state then internal else connection_closed)
interrupted state (err timeout) = err (if expects_reply state then internal else connection_closed)
interrupted state answer = answer

unfoldable pub recv_woken : Wake → ReqSocket → Result Msg × ReqSocket
recv_woken (completed popped) sock = recv_from_orchestrator sock popped
recv_woken (notified running popped) sock =
    let (answer, sock') = recv_from_orchestrator sock (at_once popped) in
    if running then (interrupted sock'.state answer, sock') else (err connection_closed, sock)

-- An error, or the last frame of a reply, ends the exchange.
unfoldable pub ends_exchange : Result Msg → Bool
ends_exchange (ok msg) = not (is_more msg)
ends_exchange (err e) = true

unfoldable pub recv_finish : Result Msg × ReqSocket → Result Msg × ReqSocket
recv_finish (answer, sock) =
    (answer, if ends_exchange answer then record sock { state = ready_to_send } else sock)

unfoldable pub recv : Bool → (ReqSocket → ReqSocket) → Wake → ReqSocket → Result Msg × ReqSocket
recv running meanwhile wake sock = elim (recv_check running sock) [
  | err e ↦ (err e, sock)
  | ok _ ↦ recv_finish (recv_woken wake (meanwhile sock))
]

-- The closure of `recv_multipart` resets the state; so does an error.
unfoldable pub recv_multipart :
    Bool → (ReqSocket → ReqSocket) → Result (List Msg) → ReqSocket → Result (List Msg) × ReqSocket
recv_multipart running meanwhile popped sock = elim (recv_check running sock) [
  | err e ↦ (err e, sock)
  | ok _ ↦
      let sock' = meanwhile sock in
      let (answer, state', o) =
        recv_logical_message (λ q_item state. (q_item, ready_to_send)) sock'.incoming_orchestrator
          sock'.state popped in
      (
        answer,
        record sock' {
          incoming_orchestrator = o;
          state = elim answer [ ok frames ↦ state' | err e ↦ ready_to_send ];
        },
      )
]
