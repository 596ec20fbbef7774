-- ===== src/Socket/Dealer/Processor.antt =====
-- core/src/socket/dealer_socket.rs: the task that sends the messages of a DEALER's queue. One round
-- of its loop takes a message when it is woken and peers are there.
use rzmq.Base.{
  ℕ, zero, suc, Bool, true, false, not, ◌&&◌, Option, none, some, List, [], ◌∷◌, if◌then◌else◌,
  is_empty,
}
use rzmq.Error.{
  resource_limit_reached, timeout, host_unreachable, connection_closed, Result, ok, err,
}
use rzmq.Message.{Msg}
use rzmq.Patterns.LoadBalancer.{Uri, get_next_connection_uri, has_connections, connection_count}
use rzmq.Patterns.Coordinator.{acquire_send_permit}
use rzmq.Socket.Core.{connected_pipe}
use rzmq.Socket.Dealer.{DealerSocket, drop_peer, drop_pipe}
use rzmq.Socket.Dealer.Send.{Handed, Round, at_least_one}

abbrev pub push_front : List Msg → DealerSocket → DealerSocket
push_front frames sock = record sock {
  pending_outgoing_queue = frames ∷ sock.pending_outgoing_queue;
}

-- The peer that the task says to have the message, if any; what connections took; the socket; and
-- whether the last round waits for a permit without a limit.
abbrev pub Processed : Type 0
Processed = Option Uri × Handed × DealerSocket × Bool

unfoldable pub after_send :
    Uri → ℕ → Result (Unit {0}) → (DealerSocket → Processed) → DealerSocket → Processed
after_send uri pipe (ok _) next sock = (some uri, [], sock, false)
after_send uri pipe (err resource_limit_reached) next sock = next sock
after_send uri pipe (err timeout) next sock = next sock
after_send uri pipe (err connection_closed) next sock = next (drop_pipe pipe (drop_peer uri sock))
after_send uri pipe (err host_unreachable) next sock = next (drop_pipe pipe (drop_peer uri sock))
after_send uri pipe (err e) next sock = (none, [], sock, false)

-- The call of a connection: with `ok` it has taken the frames, whatever comes of the answer.
unfoldable pub recorded : Uri → List Msg → Result (Unit {0}) → Processed → Processed
recorded uri frames (ok _) (taken, handed, sock, waiting) =
    (taken, (uri, frames) ∷ handed, sock, waiting)
recorded uri frames (err e) processed = processed

-- Without a permit the next peer is tried.
unfoldable pub after_permit :
    Round
    → List Msg
    → Uri
    → ℕ
    → Option (Result (Unit {0}))
    → (DealerSocket → Processed)
    → DealerSocket
    → Processed
unfolding after_send recorded
after_permit round frames uri pipe none next sock = (none, [], sock, true)
after_permit round frames uri pipe (some (ok _)) next sock =
    let answer = round.connection uri frames in
    recorded uri frames answer (after_send uri pipe answer next sock)
after_permit round frames uri pipe (some (err host_unreachable)) next sock =
    next (drop_peer uri sock)
after_permit round frames uri pipe (some (err e)) next sock = next sock

-- A socket that closes puts the message back at the front.
unfoldable pub attempt :
    Option ℕ → Round → List Msg → (DealerSocket → Processed) → DealerSocket → Processed
unfolding after_permit
attempt sndtimeo round frames next sock =
    let (chosen, turned) = get_next_connection_uri sock.load_balancer in
    let sock' = record sock { load_balancer = turned } in
    if not round.core.running then (none, [], push_front frames sock, false) else elim chosen [
      | none ↦ (none, [], sock', false)
      | some uri ↦ elim (connected_pipe round.core uri) [
        | none ↦ next (drop_peer uri sock')
        | some pipe ↦
            after_permit round frames uri pipe
              (acquire_send_permit sock.pipe_send_coordinator pipe sndtimeo round.acquired) next
              (round.meanwhile sock')
      ]
    ]

unfoldable pub attempts : ℕ → Option ℕ → (ℕ → Round) → List Msg → DealerSocket → Processed
attempts zero sndtimeo rounds frames sock = (none, [], sock, false)
attempts (suc left) sndtimeo rounds frames sock =
    attempt sndtimeo (rounds left) frames (attempts left sndtimeo rounds frames) sock

-- A message that no peer took goes back to the front of the queue.
unfoldable pub requeue : List Msg → Processed → Processed
requeue frames (none, handed, sock, false) = (none, handed, push_front frames sock, false)
requeue frames (taken, handed, sock, waiting) = (taken, handed, sock, waiting)

unfoldable pub send_front : Option ℕ → (ℕ → Round) → List (List Msg) → DealerSocket → Processed
unfolding requeue
send_front sndtimeo rounds [] sock = (none, [], sock, false)
send_front sndtimeo rounds (frames ∷ queue) sock = requeue frames (
    attempts (at_least_one (connection_count sock.load_balancer)) sndtimeo rounds frames
      (record sock { pending_outgoing_queue = queue }))

-- One round of `run` that a notification wakes.
unfoldable pub process_queue : Option ℕ → (ℕ → Round) → DealerSocket → Processed
unfolding send_front
process_queue sndtimeo rounds sock =
    if not (is_empty sock.pending_outgoing_queue) && has_connections sock.load_balancer
    then send_front sndtimeo rounds sock.pending_outgoing_queue sock
    else (none, [], sock, false)
