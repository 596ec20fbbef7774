-- ===== src/Socket/Dealer/Delivery.antt =====
-- Where a message goes that core/src/socket/dealer_socket.rs sends.
use rzmq.Base.{
  ℕ, zero, suc, ◌<◌, ◌≡◌, refl, ◌∙◌, inl, inr, Bool, true, false, if◌then◌else◌, Option, none, some,
  List, [], ◌∷◌, ◌++◌, All, Bool-cases, Option-cases, length, ltb, ltb→lt, arith,
}
use rzmq.Error.{
  resource_limit_reached, timeout, host_unreachable, connection_closed, Result, ok, err,
}
use rzmq.Message.{Msg}
use rzmq.Patterns.LoadBalancer.{Uri, get_next_connection_uri}
use rzmq.Socket.Core.{connected_pipe}
use rzmq.Socket.Dealer.{DealerSocket, drop_peer, drop_pipe}
use rzmq.Socket.Dealer.Send.{
  Round, Tried, recorded, sent_to, failed, to_queue, waits, after_send, after_permit, attempt,
  attempts, Woken, push_back, no_room, at_least_one, queue_message_or_error, Sending, Sent,
  after_attempts, send_logical_message,
}

-- Other operations that leave the queue as it is.
abbrev pub KeepsQueue : (DealerSocket → DealerSocket) → Type 0
KeepsQueue f = (s : DealerSocket) → (f s).pending_outgoing_queue ≡ s.pending_outgoing_queue

-- A connection took the message in some round.
abbrev pub Accepts : (ℕ → Round) → List Msg → Uri → Type 0
Accepts rounds frames uri = (n : ℕ) × ((rounds n).connection uri frames ≡ ok tt)

-- The queue is still `queue`. The connection of a peer that is said to have the message took it, once
-- and as the only one; else none took it.
abbrev Ended : (ℕ → Round) → List Msg → List (List Msg) → Tried → Type 0
Ended rounds frames queue (sent_to uri, handed, sock) =
    (handed ≡ (uri, frames) ∷ [])
    × Accepts rounds frames uri
    × (sock.pending_outgoing_queue ≡ queue)
Ended rounds frames queue (attempted, handed, sock) =
    (handed ≡ []) × (sock.pending_outgoing_queue ≡ queue)

module _ (rounds : ℕ → Round) (frames : List Msg) (queue : List (List Msg)) where
  abbrev Goes : (DealerSocket → Tried) → Type 0
  Goes next =
      (s : DealerSocket) → s.pending_outgoing_queue ≡ queue → Ended rounds frames queue (next s)

  after_send-Ended :
      (n : ℕ) (uri : Uri) (pipe : ℕ) (answer : Result (Unit {0})) (next : DealerSocket → Tried)
      (s : DealerSocket)
      → (rounds n).connection uri frames ≡ answer
      → Goes next
      → s.pending_outgoing_queue ≡ queue
      → Ended rounds frames queue (recorded uri frames answer (after_send uri pipe answer next s))
  unfolding after_send recorded
  after_send-Ended n uri pipe (ok _) next s answered goes h = (refl, (n, answered), h)
  after_send-Ended n uri pipe (err resource_limit_reached) next s answered goes h = goes s h
  after_send-Ended n uri pipe (err timeout) next s answered goes h = goes s h
  after_send-Ended n uri pipe (err connection_closed) next s answered goes h =
      goes (drop_pipe pipe (drop_peer uri s)) h
  after_send-Ended n uri pipe (err host_unreachable) next s answered goes h =
      goes (drop_pipe pipe (drop_peer uri s)) h
  after_send-Ended n uri pipe (err e) next s answered goes h = (refl, h)

  after_permit-Ended :
      (n : ℕ) (uri : Uri) (pipe : ℕ) (permitted : Option (Result (Unit {0})))
      (next : DealerSocket → Tried) (s : DealerSocket)
      → Goes next
      → s.pending_outgoing_queue ≡ queue
      → Ended rounds frames queue (after_permit (rounds n) frames uri pipe permitted next s)
  unfolding after_permit
  after_permit-Ended n uri pipe none next s goes h = (refl, h)
  after_permit-Ended n uri pipe (some (ok _)) next s goes h =
      after_send-Ended n uri pipe _ next s refl goes h
  after_permit-Ended n uri pipe (some (err resource_limit_reached)) next s goes h = (refl, h)
  after_permit-Ended n uri pipe (some (err timeout)) next s goes h = (refl, h)
  after_permit-Ended n uri pipe (some (err host_unreachable)) next s goes h =
      goes (drop_peer uri s) h
  after_permit-Ended n uri pipe (some (err e)) next s goes h = (refl, h)

  module _ (sndtimeo : Option ℕ) (keeps : (n : ℕ) → KeepsQueue (rounds n).meanwhile) where
    attempt-Ended :
        (n : ℕ) (next : DealerSocket → Tried) (s : DealerSocket)
        → Goes next
        → s.pending_outgoing_queue ≡ queue
        → Ended rounds frames queue (attempt sndtimeo (rounds n) frames next s)
    unfolding attempt
    attempt-Ended n next s goes h = elim (Bool-cases (rounds n).core.running) [
      | inr closing ↦ rw closing (refl, h)
      | inl runs ↦ rw runs (elim (Option-cases (get_next_connection_uri s.load_balancer).0) [
        | inl nobody ↦ rw nobody (refl, h)
        | inr (uri, chosen) ↦ rw chosen (elim (Option-cases (connected_pipe (rounds n).core uri)) [
          | inl stale ↦ rw stale (goes _ h)
          | inr (pipe, found) ↦
              rw found (after_permit-Ended n uri pipe _ next _ goes (keeps n _ ∙ h))
        ])
      ])
    ]

    pub attempts-Ended :
        (left : ℕ) (s : DealerSocket)
        → s.pending_outgoing_queue ≡ queue
        → Ended rounds frames queue (attempts left sndtimeo rounds frames s)
    unfolding attempts
    attempts-Ended zero s h = (refl, h)
    attempts-Ended (suc left) s h =
        attempt-Ended left (attempts left sndtimeo rounds frames) s (attempts-Ended left) h

-- With the message at the end of the queue, where there was room, or with the queue as it was.
abbrev Queued : ℕ → List (List Msg) → List Msg → Option (Result (Unit {0})) × DealerSocket → Type 0
Queued sndhwm queue frames (some (ok _), sock) =
    (length queue < sndhwm) × (sock.pending_outgoing_queue ≡ queue ++ (frames ∷ []))
Queued sndhwm queue frames (some (err e), sock) = sock.pending_outgoing_queue ≡ queue
Queued sndhwm queue frames (none, sock) = sock.pending_outgoing_queue ≡ queue

no_room-Queued :
    (sndhwm : ℕ) (sndtimeo : Option ℕ) (frames : List Msg) (queue : List (List Msg))
    (s : DealerSocket)
    → s.pending_outgoing_queue ≡ queue
    → Queued sndhwm queue frames (no_room sndtimeo, s)
unfolding no_room
no_room-Queued sndhwm none frames queue s h = h
no_room-Queued sndhwm (some zero) frames queue s h = h
no_room-Queued sndhwm (some (suc duration)) frames queue s h = h

either-Queued :
    (sndhwm : ℕ) (queue : List (List Msg)) (frames : List Msg) (b : Bool)
    (x y : Option (Result (Unit {0})) × DealerSocket)
    → Queued sndhwm queue frames x
    → Queued sndhwm queue frames y
    → Queued sndhwm queue frames (if b then x else y)
either-Queued sndhwm queue frames true x y h k = h
either-Queued sndhwm queue frames false x y h k = k

module _ (between : DealerSocket → DealerSocket) (sndhwm : ℕ) (sndtimeo : Option ℕ)
    (frames : List Msg) (queue : List (List Msg)) (keeps : KeepsQueue between) where
  pushed-Queued :
      (s : DealerSocket)
      → s.pending_outgoing_queue ≡ queue
      → ltb (length s.pending_outgoing_queue) sndhwm ≡ true
      → Queued sndhwm queue frames (some (ok tt), push_back frames (between s))
  pushed-Queued s h room = (
    ground (arith, ltb→lt (length s.pending_outgoing_queue) sndhwm room),
    ground (arith, keeps s),
  )

  queue-Queued :
      (running : Bool) (woken : List Woken) (s : DealerSocket)
      → All (λ (w : Woken). KeepsQueue w.1) woken
      → s.pending_outgoing_queue ≡ queue
      → Queued sndhwm queue frames
          (queue_message_or_error between sndhwm sndtimeo running woken frames s)
  unfolding queue_message_or_error
  queue-Queued false [] s all h = h
  queue-Queued false (w ∷ woken) s all h = h
  queue-Queued true [] s all h = elim (Bool-cases (ltb (length s.pending_outgoing_queue) sndhwm)) [
    | inl room ↦ rw room (pushed-Queued s h room)
    | inr full ↦ rw full (no_room-Queued sndhwm sndtimeo frames queue s h)
  ]
  queue-Queued true ((running, meanwhile) ∷ woken) s (kept, all) h =
      let next = queue-Queued running woken (meanwhile s) all (kept s ∙ h) in
      elim (Bool-cases (ltb (length s.pending_outgoing_queue) sndhwm)) [
        | inl room ↦ rw room (pushed-Queued s h room)
        | inr full ↦ rw full (
            either-Queued sndhwm queue frames _ _ _
              (no_room-Queued sndhwm sndtimeo frames queue s h) next)
      ]

-- An accepted message was taken once, by one connection, and the queue is as it was; or no connection
-- took it, and it is at the end of a queue that had room. Any other was taken by none and is not
-- queued.
abbrev pub Delivered : Sending → List Msg → List (List Msg) → Sent → Type 0
Delivered s frames queue (some (ok _), [], sock) =
    (length queue < at_least_one s.sndhwm) × (sock.pending_outgoing_queue ≡ queue ++ (frames ∷ []))
Delivered s frames queue (some (ok _), (uri, taken) ∷ [], sock) =
    (taken ≡ frames) × Accepts s.rounds frames uri × (sock.pending_outgoing_queue ≡ queue)
Delivered s frames queue (some (ok _), first ∷ second ∷ others, sock) = ⊥
Delivered s frames queue (some (err e), handed, sock) =
    (handed ≡ []) × (sock.pending_outgoing_queue ≡ queue)
Delivered s frames queue (none, handed, sock) =
    (handed ≡ []) × (sock.pending_outgoing_queue ≡ queue)

-- The operations that go on while the send waits leave the queue as it is.
abbrev pub Undisturbed : Sending → Type 0
Undisturbed s =
    ((n : ℕ) → KeepsQueue (s.rounds n).meanwhile)
    × KeepsQueue s.between
    × All (λ (w : Woken). KeepsQueue w.1) s.woken

Queued-Delivered :
    (s : Sending) (frames : List Msg) (queue : List (List Msg))
    (q : Option (Result (Unit {0})) × DealerSocket)
    → Queued (at_least_one s.sndhwm) queue frames q
    → Delivered s frames queue (q.0, [], q.1)
Queued-Delivered s frames queue (some (ok _), sock) h = h
Queued-Delivered s frames queue (some (err e), sock) h = (refl, h)
Queued-Delivered s frames queue (none, sock) h = (refl, h)

after_attempts-Delivered :
    (s : Sending) (frames : List Msg) (queue : List (List Msg)) (tried : Tried)
    → Undisturbed s
    → Ended s.rounds frames queue tried
    → Delivered s frames queue (after_attempts s frames tried)
unfolding after_attempts
after_attempts-Delivered s frames queue (sent_to uri, handed, sock) u (once, taken, h) =
    rw once (refl, taken, h)
after_attempts-Delivered s frames queue (failed e, handed, sock) u h = h
after_attempts-Delivered s frames queue (waits, handed, sock) u h = h
after_attempts-Delivered s frames queue (to_queue, handed, sock) (_, between, woken) (no_one, h) =
    rw no_one (
      Queued-Delivered s frames queue _ (
        queue-Queued s.between (at_least_one s.sndhwm) s.sndtimeo frames queue between
          s.still_running s.woken sock woken h))

-- A DEALER socket neither loses nor doubles a message that it accepts. If the operations that go on
-- while a send waits leave the queue as it is, then behind an accepted message either one
-- connection took it, once, no other connection took anything, and the queue is unchanged; or no
-- connection took anything and the message stands at the end of the queue, which had fewer
-- messages than the high water mark (or than one). Behind a message that is not accepted, or
-- while the call waits, no connection took anything and the queue is unchanged.
pub send_logical_message-Delivered :
    (s : Sending) (frames : List Msg) (sock : DealerSocket)
    → Undisturbed s
    → Delivered s frames sock.pending_outgoing_queue (send_logical_message s frames sock)
unfolding send_logical_message
send_logical_message-Delivered s frames sock u = elim (Bool-cases s.running) [
  | inr closing ↦ rw closing (refl, refl)
  | inl runs ↦ rw runs (
      after_attempts-Delivered s frames sock.pending_outgoing_queue _ u
        (attempts-Ended s.rounds frames sock.pending_outgoing_queue s.sndtimeo u.0 _ sock refl))
]
