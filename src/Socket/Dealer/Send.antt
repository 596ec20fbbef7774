-- ===== src/Socket/Dealer/Send.antt =====
-- core/src/socket/dealer_socket.rs: the sends of a DEALER socket, to a peer directly or else to the
-- queue of messages that wait for one.
use rzmq.Base.{
  ℕ, zero, suc, Bool, true, false, not, Option, none, some, List, [], ◌∷◌, ◌++◌, ltb, if◌then◌else◌,
  length,
}
use rzmq.Error.{
  ZmqError, invalid_state, resource_limit_reached, timeout, host_unreachable, connection_closed,
  Result, ok, err,
}
use rzmq.Message.{Msg}
use rzmq.Patterns.LoadBalancer.{Uri, get_next_connection_uri, connection_count}
use rzmq.Patterns.Coordinator.{Acquired, acquire_send_permit}
use rzmq.Socket.Core.{CoreState, connected_pipe}
use rzmq.Socket.Dealer.{
  DealerSocket, idle, buffering, DealerSendTransaction, Collected, whole, answered, collect_part,
  prepare_full_multipart_send_sequence, drop_peer, drop_pipe,
}

-- What a round of the loop over peers finds: the core, what the semaphore of the peer's pipe
-- answers and what other operations make of the socket meanwhile, and what the connections
-- answer.
pub record Round : Type 0 where
  pub core : CoreState
  pub acquired : Acquired
  pub meanwhile : DealerSocket → DealerSocket
  pub connection : Uri → List Msg → Result (Unit {0})

-- How the rounds end: a peer took the message, or they failed, or it is for the queue, or the last
-- one waits for a permit without a limit.
pub data Attempted : Type 0 where
  sent_to : Uri → Attempted
  failed : ZmqError → Attempted
  to_queue : Attempted
  waits : Attempted

-- What connections have taken, in order: each with the frames that it answered `ok` to.
abbrev pub Handed : Type 0
Handed = List (Uri × List Msg)

-- How the rounds end, what connections took in them, and the socket.
abbrev pub Tried : Type 0
Tried = Attempted × Handed × DealerSocket

-- Behind the answer of a connection, given what the further rounds come to from a socket.
unfoldable pub after_send :
    Uri → ℕ → Result (Unit {0}) → (DealerSocket → Tried) → DealerSocket → Tried
after_send uri pipe (ok _) next sock = (sent_to uri, [], sock)
after_send uri pipe (err resource_limit_reached) next sock = next sock
after_send uri pipe (err timeout) next sock = next sock
after_send uri pipe (err connection_closed) next sock = next (drop_pipe pipe (drop_peer uri sock))
after_send uri pipe (err host_unreachable) next sock = next (drop_pipe pipe (drop_peer uri sock))
after_send uri pipe (err e) next sock = (failed e, [], sock)

-- The call of a connection: with `ok` it has taken the frames, whatever comes of the answer.
unfoldable pub recorded : Uri → List Msg → Result (Unit {0}) → Tried → Tried
recorded uri frames (ok _) (attempted, handed, sock) = (attempted, (uri, frames) ∷ handed, sock)
recorded uri frames (err e) tried = tried

unfoldable pub after_permit :
    Round
    → List Msg
    → Uri
    → ℕ
    → Option (Result (Unit {0}))
    → (DealerSocket → Tried)
    → DealerSocket
    → Tried
unfolding after_send recorded
after_permit round frames uri pipe none next sock = (waits, [], sock)
after_permit round frames uri pipe (some (ok _)) next sock =
    let answer = round.connection uri frames in
    recorded uri frames answer (after_send uri pipe answer next sock)
after_permit round frames uri pipe (some (err resource_limit_reached)) next sock =
    (to_queue, [], sock)
after_permit round frames uri pipe (some (err timeout)) next sock = (to_queue, [], sock)
after_permit round frames uri pipe (some (err host_unreachable)) next sock =
    next (drop_peer uri sock)
after_permit round frames uri pipe (some (err e)) next sock = (failed e, [], sock)

-- One round. An entry of the balancer without a connection and a pipe is stale.
unfoldable pub attempt : Option ℕ → Round → List Msg → (DealerSocket → Tried) → DealerSocket → Tried
unfolding after_permit
attempt sndtimeo round frames next sock =
    let (chosen, turned) = get_next_connection_uri sock.load_balancer in
    let sock' = record sock { load_balancer = turned } in
    if not round.core.running then (failed invalid_state, [], sock) else elim chosen [
      | none ↦ (to_queue, [], sock')
      | some uri ↦ elim (connected_pipe round.core uri) [
        | none ↦ next (drop_peer uri sock')
        | some pipe ↦
            after_permit round frames uri pipe
              (acquire_send_permit sock.pipe_send_coordinator pipe sndtimeo round.acquired) next
              (round.meanwhile sock')
      ]
    ]

-- The rounds that are left, each with what it finds.
unfoldable pub attempts : ℕ → Option ℕ → (ℕ → Round) → List Msg → DealerSocket → Tried
attempts zero sndtimeo rounds frames sock = (to_queue, [], sock)
attempts (suc left) sndtimeo rounds frames sock =
    attempt sndtimeo (rounds left) frames (attempts left sndtimeo rounds frames) sock

-- `max(1)`
abbrev pub at_least_one : ℕ → ℕ
at_least_one zero = 1
at_least_one (suc n) = suc n

-- A wait for room that ends: whether the core still runs, and what became of the socket.
abbrev pub Woken : Type 0
Woken = Bool × (DealerSocket → DealerSocket)

abbrev pub push_back : List Msg → DealerSocket → DealerSocket
push_back frames sock = record sock {
  pending_outgoing_queue = sock.pending_outgoing_queue ++ (frames ∷ []);
}

-- No room in the queue, and no wait that ends.
unfoldable pub no_room : Option ℕ → Option (Result (Unit {0}))
no_room none = none
no_room (some zero) = some (err resource_limit_reached)
no_room (some (suc duration)) = some (err timeout)

abbrev pub is_zero_timeout : Option ℕ → Bool
is_zero_timeout (some zero) = true
is_zero_timeout other = false

-- `between` is what others do between the test and the push, which lock the queue each for itself.
unfoldable pub queue_message_or_error :
    (DealerSocket → DealerSocket)
    → ℕ
    → Option ℕ
    → Bool
    → List Woken
    → List Msg
    → DealerSocket
    → Option (Result (Unit {0})) × DealerSocket
unfolding no_room
queue_message_or_error between sndhwm sndtimeo running [] frames sock =
    if not running
    then (some (err invalid_state), sock)
    else if ltb (length sock.pending_outgoing_queue) sndhwm
    then (some (ok tt), push_back frames (between sock))
    else (no_room sndtimeo, sock)
queue_message_or_error between sndhwm sndtimeo running ((running', meanwhile) ∷ woken) frames sock =
    let next =
      queue_message_or_error between sndhwm sndtimeo running' woken frames (meanwhile sock) in
    if not running
    then (some (err invalid_state), sock)
    else if ltb (length sock.pending_outgoing_queue) sndhwm
    then (some (ok tt), push_back frames (between sock))
    else if is_zero_timeout sndtimeo
    then (no_room sndtimeo, sock)
    else next

-- What a send finds: the options and the core at first, the rounds, and the waits for room.
pub record Sending : Type 0 where
  pub running : Bool
  pub sndtimeo : Option ℕ
  pub sndhwm : ℕ
  pub rounds : ℕ → Round
  pub still_running : Bool
  pub between : DealerSocket → DealerSocket
  pub woken : List Woken

-- The answer, what connections took, and the socket.
abbrev pub Sent : Type 0
Sent = Option (Result (Unit {0})) × Handed × DealerSocket

unfoldable pub after_attempts : Sending → List Msg → Tried → Sent
unfolding queue_message_or_error
after_attempts s frames (sent_to uri, handed, sock) = (some (ok tt), handed, sock)
after_attempts s frames (failed e, handed, sock) = (some (err e), handed, sock)
after_attempts s frames (waits, handed, sock) = (none, handed, sock)
after_attempts s frames (to_queue, handed, sock) =
    let (answer, sock') =
      queue_message_or_error s.between (at_least_one s.sndhwm) s.sndtimeo s.still_running s.woken
        frames sock in
    (answer, handed, sock')

unfoldable pub send_logical_message : Sending → List Msg → DealerSocket → Sent
unfolding after_attempts
send_logical_message s zmtp_wire_frames sock =
    if not s.running
    then (some (err invalid_state), [], sock)
    else after_attempts s zmtp_wire_frames (
        attempts (at_least_one (connection_count sock.load_balancer)) s.sndtimeo s.rounds
          zmtp_wire_frames sock)

unfoldable pub send_collected : Sending → Collected → DealerSocket → Sent
send_collected s (answered answer) sock = (some answer, [], sock)
send_collected s (whole parts) sock =
    send_logical_message s (prepare_full_multipart_send_sequence sock parts) sock

unfoldable pub send : Sending → Msg → DealerSocket → Sent
unfolding send_collected collect_part
send s msg sock =
    if not s.running
    then (some (err invalid_state), [], sock)
    else (let (collected, sock') = collect_part msg sock in send_collected s collected sock')

-- A wait for another task's message to be complete.
unfoldable pub send_multipart_from :
    Sending → List Woken → List Msg → DealerSendTransaction → DealerSocket → Sent
send_multipart_from s ends user_frames idle sock =
    send_logical_message s (prepare_full_multipart_send_sequence sock user_frames) sock
send_multipart_from s [] user_frames (buffering parts) sock = (no_room s.sndtimeo, [], sock)
send_multipart_from s ((running, meanwhile) ∷ ends) user_frames (buffering parts) sock =
    let sock' = meanwhile sock in
    let next = send_multipart_from s ends user_frames sock'.current_send_transaction sock' in
    if is_zero_timeout s.sndtimeo
    then (some (err resource_limit_reached), [], sock)
    else if not running
    then (some (err invalid_state), [], sock')
    else next

-- `ends` are the waits for the end of a message that is sent part by part.
unfoldable pub send_multipart : Sending → List Woken → List Msg → DealerSocket → Sent
unfolding send_multipart_from
send_multipart s ends user_frames sock =
    if not s.running
    then (some (err invalid_state), [], sock)
    else send_multipart_from s ends user_frames sock.current_send_transaction sock
