-- ===== src/Socket/Dealer/Requeue.antt =====
-- What the task of core/src/socket/dealer_socket.rs makes of the queue, and what passes it by.
use rzmq.Base.{
  ℕ, zero, suc, ◌≡◌, refl, ◌∙◌, inl, inr, true, false, Option, none, some, List, [], ◌∷◌, ◌++◌,
  Option-cases, length, arith, nat_eq,
}
use rzmq.Base.Maps.{lookup}
use rzmq.Error.{
  resource_limit_reached, timeout, host_unreachable, connection_closed, Result, ok, err,
}
use rzmq.Message.{Msg}
use rzmq.Patterns.LoadBalancer.{Uri, get_next_connection_uri, connection_count, has_connections}
use rzmq.Patterns.Coordinator.{permit, acquire_send_permit, permit_result}
use rzmq.Socket.Core.{connected_pipe}
use rzmq.Socket.Dealer.{DealerSocket, drop_peer, drop_pipe}
use rzmq.Socket.Dealer.Send as Send
use rzmq.Socket.Dealer.Send.{Round, Sending, send_logical_message, after_attempts, at_least_one}
use rzmq.Socket.Dealer.Delivery.{KeepsQueue, Accepts}
use rzmq.Socket.Dealer.Processor.{
  Processed, push_front, recorded, after_send, after_permit, attempt, attempts, requeue,
  process_queue,
}

-- One peer's connection took the message from the queue, once, or none did.
abbrev Ended : (ℕ → Round) → List Msg → List (List Msg) → Processed → Type 0
Ended rounds frames queue (some uri, handed, sock, waiting) =
    (waiting ≡ false)
    × (handed ≡ (uri, frames) ∷ [])
    × Accepts rounds frames uri
    × (sock.pending_outgoing_queue ≡ queue)
Ended rounds frames queue (none, handed, sock, waiting) =
    (handed ≡ []) × (sock.pending_outgoing_queue ≡ queue)

module _ (rounds : ℕ → Round) (frames : List Msg) (queue : List (List Msg)) where
  abbrev Goes : (DealerSocket → Processed) → Type 0
  Goes next =
      (s : DealerSocket) → s.pending_outgoing_queue ≡ queue → Ended rounds frames queue (next s)

  after_send-Ended :
      (n : ℕ) (uri : Uri) (pipe : ℕ) (answer : Result (Unit {0})) (next : DealerSocket → Processed)
      (s : DealerSocket)
      → (rounds n).connection uri frames ≡ answer
      → Goes next
      → s.pending_outgoing_queue ≡ queue
      → Ended rounds frames queue (recorded uri frames answer (after_send uri pipe answer next s))
  unfolding after_send recorded
  after_send-Ended n uri pipe (ok _) next s answered goes h = (refl, refl, (n, answered), h)
  after_send-Ended n uri pipe (err resource_limit_reached) next s answered goes h = goes s h
  after_send-Ended n uri pipe (err timeout) next s answered goes h = goes s h
  after_send-Ended n uri pipe (err connection_closed) next s answered goes h =
      goes (drop_pipe pipe (drop_peer uri s)) h
  after_send-Ended n uri pipe (err host_unreachable) next s answered goes h =
      goes (drop_pipe pipe (drop_peer uri s)) h
  after_send-Ended n uri pipe (err e) next s answered goes h = (refl, h)

  after_permit-Ended :
      (n : ℕ) (uri : Uri) (pipe : ℕ) (permitted : Option (Result (Unit {0})))
      (next : DealerSocket → Processed) (s : DealerSocket)
      → Goes next
      → s.pending_outgoing_queue ≡ queue
      → Ended rounds frames queue (after_permit (rounds n) frames uri pipe permitted next s)
  unfolding after_permit
  after_permit-Ended n uri pipe none next s goes h = (refl, h)
  after_permit-Ended n uri pipe (some (ok _)) next s goes h =
      after_send-Ended n uri pipe _ next s refl goes h
  after_permit-Ended n uri pipe (some (err host_unreachable)) next s goes h =
      goes (drop_peer uri s) h
  after_permit-Ended n uri pipe (some (err e)) next s goes h = goes s h

  module _ (sndtimeo : Option ℕ) (keeps : (n : ℕ) → KeepsQueue (rounds n).meanwhile)
      (runs : (n : ℕ) → (rounds n).core.running ≡ true) where
    attempt-Ended :
        (n : ℕ) (next : DealerSocket → Processed) (s : DealerSocket)
        → Goes next
        → s.pending_outgoing_queue ≡ queue
        → Ended rounds frames queue (attempt sndtimeo (rounds n) frames next s)
    unfolding attempt
    attempt-Ended n next s goes h =
        rw (runs n) (elim (Option-cases (get_next_connection_uri s.load_balancer).0) [
          | inl nobody ↦ rw nobody (refl, h)
          | inr (uri, chosen) ↦
              rw chosen (elim (Option-cases (connected_pipe (rounds n).core uri)) [
                | inl stale ↦ rw stale (goes _ h)
                | inr (pipe, found) ↦
                    rw found (after_permit-Ended n uri pipe _ next _ goes (keeps n _ ∙ h))
              ])
        ])

    attempts-Ended :
        (left : ℕ) (s : DealerSocket)
        → s.pending_outgoing_queue ≡ queue
        → Ended rounds frames queue (attempts left sndtimeo rounds frames s)
    unfolding attempts
    attempts-Ended zero s h = (refl, h)
    attempts-Ended (suc left) s h =
        attempt-Ended left (attempts left sndtimeo rounds frames) s (attempts-Ended left) h

-- Behind a round of the task: one connection took the message at the front, once, and the others are
-- left; or none took anything, and the message is still in hand, while the round waits for a
-- permit, or it is back at the front.
abbrev pub Conserves : (ℕ → Round) → List Msg → List (List Msg) → Processed → Type 0
Conserves rounds frames queue (some uri, handed, sock, waiting) =
    (handed ≡ (uri, frames) ∷ [])
    × Accepts rounds frames uri
    × (sock.pending_outgoing_queue ≡ queue)
Conserves rounds frames queue (none, handed, sock, true) =
    (handed ≡ []) × (sock.pending_outgoing_queue ≡ queue)
Conserves rounds frames queue (none, handed, sock, false) =
    (handed ≡ []) × (sock.pending_outgoing_queue ≡ frames ∷ queue)

requeue-Conserves :
    (rounds : ℕ → Round) (frames : List Msg) (queue : List (List Msg)) (p : Processed)
    → Ended rounds frames queue p
    → Conserves rounds frames queue (requeue frames p)
unfolding requeue
requeue-Conserves rounds frames queue (some uri, handed, sock, true) (w, once, taken, h) = absurd cc
requeue-Conserves rounds frames queue (some uri, handed, sock, false) (w, once, taken, h) =
    (once, taken, h)
requeue-Conserves rounds frames queue (none, handed, sock, true) h = h
requeue-Conserves rounds frames queue (none, handed, sock, false) (no_one, h) =
    (no_one, ground arith)

-- While the core runs and other operations leave the queue as it is, a round of the task with peers
-- and a message at the front of the queue neither loses nor doubles the message: either one
-- peer's connection took it, once, no other connection took anything, and the queue is the rest;
-- or no connection took anything and, unless the round waits for a permit with the message in
-- hand, the message is back at the front.
pub process_queue-Conserves :
    (sndtimeo : Option ℕ) (rounds : ℕ → Round) (frames : List Msg) (queue : List (List Msg))
    (sock : DealerSocket)
    → sock.pending_outgoing_queue ≡ frames ∷ queue
    → has_connections sock.load_balancer ≡ true
    → ((n : ℕ) → KeepsQueue (rounds n).meanwhile)
    → ((n : ℕ) → (rounds n).core.running ≡ true)
    → Conserves rounds frames queue (process_queue sndtimeo rounds sock)
unfolding process_queue
process_queue-Conserves sndtimeo rounds frames queue sock front peers keeps runs =
    rw (front, peers)
      (requeue-Conserves rounds frames queue _
        (attempts-Ended rounds frames queue sndtimeo keeps runs _ _ refl))

attempts_closing :
    (peers : ℕ) (sndtimeo : Option ℕ) (rounds : ℕ → Round) (frames : List Msg) (sock : DealerSocket)
    → ((n : ℕ) → (rounds n).core.running ≡ false)
    → attempts (at_least_one peers) sndtimeo rounds frames sock
      ≡ (none, [], push_front frames sock, false)
unfolding attempts attempt
attempts_closing zero sndtimeo rounds frames sock closing = rw (closing 0) refl
attempts_closing (suc n) sndtimeo rounds frames sock closing = rw (closing n) refl

-- When the core does not run in any round of the task, which has peers, the message at the front of
-- the queue is put back twice: it then stands there two times.
pub closing_doubles :
    (sndtimeo : Option ℕ) (rounds : ℕ → Round) (frames : List Msg) (queue : List (List Msg))
    (sock : DealerSocket)
    → sock.pending_outgoing_queue ≡ frames ∷ queue
    → has_connections sock.load_balancer ≡ true
    → ((n : ℕ) → (rounds n).core.running ≡ false)
    → (process_queue sndtimeo rounds sock).2.pending_outgoing_queue ≡ frames ∷ frames ∷ queue
unfolding process_queue
closing_doubles sndtimeo rounds frames queue sock front peers closing =
    rw
      (
        front,
        peers,
        attempts_closing (connection_count sock.load_balancer) sndtimeo rounds frames
            (record sock { pending_outgoing_queue = queue }) closing,
      )
      refl

-- A message overtakes those that wait in the queue: if the core runs, the peer whose turn it is has
-- a connection and a pipe with a free permit, and the connection takes the message, then this
-- connection alone takes it, once and at once, the send answers `ok`, and the queue is left as it
-- is, whatever it holds.
pub overtaking :
    (s : Sending) (frames : List Msg) (uri : Uri) (uris : List Uri) (pipe : ℕ) (sock : DealerSocket)
    → let first = s.rounds (length uris) in
      s.running ≡ true
      → sock.load_balancer ≡ uri ∷ uris
      → first.core.running ≡ true
      → connected_pipe first.core uri ≡ some pipe
      → lookup pipe sock.pipe_send_coordinator ≡ some false
      → first.acquired ≡ permit
      → first.connection uri frames ≡ ok tt
      → KeepsQueue first.meanwhile
      → let (answer, handed, sock') = send_logical_message s frames sock in
        (answer ≡ some (ok tt))
        × (handed ≡ (uri, frames) ∷ [])
        × (sock'.pending_outgoing_queue ≡ sock.pending_outgoing_queue)
unfolding send_logical_message Send.attempts Send.attempt Send.after_permit Send.after_send
    Send.recorded acquire_send_permit permit_result connection_count get_next_connection_uri
overtaking s frames uri uris pipe sock runs turn running connected known free taken keeps =
    ground (arith, keeps (record sock { load_balancer = uris ++ (uri ∷ []) }))
