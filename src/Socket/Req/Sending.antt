-- ===== src/Socket/Req/Sending.antt =====
-- Whole calls of `send` in core/src/socket/req_socket.rs.
use rzmq.Base.{
  ℕ, ◌≡◌, refl, ap, ◌∙◌, sym, true, false, Option, none, some, List, [], ◌∷◌, ◌++◌, arith, bytes_eq,
  nat_eq,
}
use rzmq.Base.Maps.{lookup}
use rzmq.Error.{Result, ok, err}
use rzmq.Message.{Msg}
use rzmq.Patterns.LoadBalancer.{Uri, LoadBalancer, contains, get_next_connection_uri}
use rzmq.Patterns.Orchestrator.{Orchestrator, Pushed}
use rzmq.Socket.Peers.{Core, select_peer, find_live}
use rzmq.Socket.Req.{
  ready_to_send, expecting_reply, ReqSocket, is_target, send_check, send_finish, send_to,
  send_selected, send, Wire, request_frames,
}
use rzmq.Socket.Req.Pipes.{handle_pipe_event}

-- What holds if `send` answers that the request was sent to the target.
abbrev pub SentTo :
    (Uri → List Msg → Result (Unit {0})) → List Uri → Msg → Wire → ReqSocket → Uri → Type 0
SentTo connection endpoints msg wire sock' target =
    (wire ≡ some (target, request_frames msg))
    × (sock'.state ≡ expecting_reply target)
    × (contains endpoints target ≡ true)
    × (connection target (request_frames msg) ≡ ok tt)

send_finish_ok :
    (target : Uri) (answer : Result (Unit {0})) (sock : ReqSocket)
    → (send_finish target answer sock).0 ≡ ok tt
    → ((send_finish target answer sock).1.state ≡ expecting_reply target) × (answer ≡ ok tt)
unfolding send_finish
send_finish_ok target answer sock h = ground arith

select_peer_next :
    (sndtimeo : Option ℕ) (core : Core) (u : Uri) (uris : LoadBalancer)
    → contains core.endpoints u ≡ true
    → select_peer sndtimeo core (u ∷ uris) [] ≡ (some (ok u), uris ++ (u ∷ []))
unfolding select_peer find_live get_next_connection_uri
select_peer_next sndtimeo core u uris k = ground arith

abbrev pub live : List Uri → Core
live endpoints = record { endpoints = endpoints; running = true }

-- A socket that is ready to send.
abbrev pub ready : LoadBalancer → Orchestrator → List (ℕ × Uri) → ReqSocket
ready uris o pipes = record {
  load_balancer = uris;
  incoming_orchestrator = o;
  state = ready_to_send;
  pipe_read_to_endpoint_uri = pipes;
}

module _ (connection : Uri → List Msg → Result (Unit {0})) (meanwhile : ReqSocket → ReqSocket) where
  send_to_ok :
      (endpoints : List Uri) (msg : Msg) (target : Uri) (sock : ReqSocket)
      → (send_to connection meanwhile endpoints msg target sock).0 ≡ ok tt
      → let (_, wire, sock') = send_to connection meanwhile endpoints msg target sock in
        SentTo connection endpoints msg wire sock' target
  unfolding send_to
  send_to_ok endpoints msg target sock h =
      ground
        (arith, send_finish_ok target (connection target (request_frames msg)) (meanwhile sock))

  send_selected_ok :
      (endpoints : List Uri) (msg : Msg) (selected : Option (Result Uri)) (sock : ReqSocket)
      → (send_selected connection meanwhile endpoints msg selected sock).0 ≡ some (ok tt)
      → let (_, wire, sock') = send_selected connection meanwhile endpoints msg selected sock in
        (target : Uri) × (selected ≡ some (ok target))
        × SentTo connection endpoints msg wire sock' target
  unfolding send_selected
  send_selected_ok endpoints msg none sock h = ground arith
  send_selected_ok endpoints msg (some (err e)) sock h = ground arith
  send_selected_ok endpoints msg (some (ok target)) sock h =
      (target, refl, send_to_ok endpoints msg target sock (ground arith))

  send_passed :
      (sndtimeo : Option ℕ) (core : Core) (waits : List (Core × LoadBalancer))
      (endpoints : List Uri) (sock : ReqSocket) (msg : Msg)
      → (send connection meanwhile sndtimeo core waits endpoints sock msg).0 ≡ some (ok tt)
      → let (selected, uris) = select_peer sndtimeo core sock.load_balancer waits in
        (sock.state ≡ ready_to_send)
        × (core.running ≡ true)
        × (send connection meanwhile sndtimeo core waits endpoints sock msg
            ≡ send_selected connection meanwhile endpoints msg selected
                (record sock { load_balancer = uris }))
  unfolding send send_check
  send_passed sndtimeo core waits endpoints sock msg h = ground arith

  -- If `send` answers that the request was sent: the socket was ready to send and its core ran; one
  -- peer was selected, is still known, and its connection accepted the delimiter and the message;
  -- and the socket expects the reply from this peer.
  pub send_accepted :
      (sndtimeo : Option ℕ) (core : Core) (waits : List (Core × LoadBalancer))
      (endpoints : List Uri) (sock : ReqSocket) (msg : Msg)
      → (send connection meanwhile sndtimeo core waits endpoints sock msg).0 ≡ some (ok tt)
      → let (_, wire, sock') = send connection meanwhile sndtimeo core waits endpoints sock msg in
        (sock.state ≡ ready_to_send)
        × (core.running ≡ true)
        × (target : Uri) × ((select_peer sndtimeo core sock.load_balancer waits).0
            ≡ some (ok target))
        × SentTo connection endpoints msg wire sock' target
  send_accepted sndtimeo core waits endpoints sock msg h =
      let (selected, uris) = select_peer sndtimeo core sock.load_balancer waits in
      let (is_ready, running, same) = send_passed sndtimeo core waits endpoints sock msg h in
      let (target, chosen, sent_to) =
        send_selected_ok endpoints msg selected (record sock { load_balancer = uris })
          (sym (ap (λ r. r.0) same) ∙ h) in
      (is_ready, running, target, chosen, rw (same) sent_to)

  -- A ready socket whose next peer is known, and whose connection accepts the request.
  send_next :
      (sndtimeo : Option ℕ) (endpoints : List Uri) (o : Orchestrator) (pipes : List (ℕ × Uri))
      (msg : Msg) (u : Uri) (uris : LoadBalancer)
      → contains endpoints u ≡ true
      → connection u (request_frames msg) ≡ ok tt
      → send connection meanwhile sndtimeo
          (live endpoints)
          []
          endpoints
          (ready (u ∷ uris) o pipes)
          msg
        ≡ (
          some (ok tt),
          some (u, request_frames msg),
          (send_finish u (ok tt) (meanwhile (ready (uris ++ (u ∷ [])) o pipes))).1,
        )
  unfolding send send_check send_selected send_to send_finish
  send_next sndtimeo endpoints o pipes msg u uris k c =
      rw (select_peer_next sndtimeo (live endpoints) u uris k, k, c)

-- The check of the state and its change are not one step. Of two overlapping calls of `send`, the
-- second started while the first waits for its connection, both send their request, to different
-- peers, and both answer so; but then the reply of the second one's peer is dropped.
pub overlapping_sends :
    (connection : Uri → List Msg → Result (Unit {0})) (endpoints : List Uri) (o : Orchestrator)
    (pipes : List (ℕ × Uri)) (msg1 msg2 : Msg) (a b : Uri) (pushed : Pushed) (p : ℕ) (frame : Msg)
    → contains endpoints a ≡ true
    → contains endpoints b ≡ true
    → connection a (request_frames msg1) ≡ ok tt
    → connection b (request_frames msg2) ≡ ok tt
    → bytes_eq a b ≡ false
    → lookup p pipes ≡ some b
    → let core = live endpoints in
      let second = λ (s : ReqSocket). send connection (λ s'. s') none core [] endpoints s msg2 in
      let (answer1, wire1, sock1) =
        send connection
          (λ s. (second s).2)
          none
          core
          []
          endpoints
          (ready (a ∷ b ∷ []) o pipes)
          msg1 in
      let (answer2, wire2, sock2) = second (ready (b ∷ a ∷ []) o pipes) in
      (answer1 ≡ some (ok tt))
      × (wire1 ≡ some (a, request_frames msg1))
      × (answer2 ≡ some (ok tt))
      × (wire2 ≡ some (b, request_frames msg2))
      × (handle_pipe_event pushed p frame sock1 ≡ (none, sock1))
unfolding handle_pipe_event send_finish is_target
overlapping_sends connection endpoints o pipes msg1 msg2 a b pushed p frame ka kb ca cb d m =
    let inner = send_next connection (λ s'. s') none endpoints o pipes msg2 b (a ∷ []) kb cb in
    let outer =
      send_next connection
        (λ s. (send connection (λ s'. s') none (live endpoints) [] endpoints s msg2).2) none
        endpoints o pipes msg1 a (b ∷ []) ka ca in
    rw (outer, inner, m, d) (refl, refl, refl, refl, refl)
