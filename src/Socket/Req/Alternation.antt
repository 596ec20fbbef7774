-- ===== src/Socket/Req/Alternation.antt =====
-- Requests and replies in turn: the states that core/src/socket/req_socket.rs goes through.
use rzmq.Base.{
  ℕ, ◌+◌, ◌≡◌, refl, Bool, true, false, not, ◌&&◌, Option, none, some, List, [], ◌∷◌, arith, inl,
  ◌⊎◌,
}
use rzmq.Error.{Result, ok, err}
use rzmq.Message.{Msg}
use rzmq.Patterns.LoadBalancer.{Uri, LoadBalancer}
use rzmq.Patterns.Orchestrator.{Pushed, recv_logical_message}
use rzmq.Socket.Peers.{Core, select_peer}
use rzmq.Socket.Req.{
  ReqState, ready_to_send, ReqSocket, expects_reply, send_check, send_finish, send_to,
  send_selected, send, request_frames,
}
use rzmq.Socket.Req.Receive.{
  Wake, recv_check, recv_woken, recv_finish, recv, recv_multipart, recv_from_orchestrator,
}
use rzmq.Socket.Req.Pipes.{handle_pipe_event, pipe_attached, pipe_detached, detach_uri}

-- What can happen while an operation waits, and besides operations.
pub data PipeEvent : Type 0 where
  arrives : Pushed → ℕ → Msg → PipeEvent
  attaches : Option Uri → ℕ → PipeEvent
  detaches : ℕ → PipeEvent

pub pipe_step : PipeEvent → ReqSocket → ReqSocket
pipe_step (arrives pushed pipe_read_id msg) sock =
    (handle_pipe_event pushed pipe_read_id msg sock).1
pipe_step (attaches core_uri pipe_read_id) sock = pipe_attached core_uri pipe_read_id sock
pipe_step (detaches pipe_read_id) sock = pipe_detached pipe_read_id sock

pub pipe_run : List PipeEvent → ReqSocket → ReqSocket
pipe_run [] sock = sock
pipe_run (e ∷ events) sock = pipe_run events (pipe_step e sock)

-- The state that is kept, or the one to send in.
abbrev pub Kept : ReqState → ReqState → Type 0
Kept before after = (after ≡ before) ⊎ (after ≡ ready_to_send)

Kept-trans : (a b c : ReqState) → Kept a b → Kept b c → Kept a c
Kept-trans a b c h k = ground arith

pipe_step-Kept : (e : PipeEvent) (sock : ReqSocket) → Kept sock.state (pipe_step e sock).state
unfolding pipe_step handle_pipe_event pipe_attached pipe_detached detach_uri
pipe_step-Kept (arrives pushed pipe_read_id msg) sock = ground arith
pipe_step-Kept (attaches none pipe_read_id) sock = inl refl
pipe_step-Kept (attaches (some uri) pipe_read_id) sock = inl refl
pipe_step-Kept (detaches pipe_read_id) sock = ground arith

pub pipe_run-Kept :
    (events : List PipeEvent) (sock : ReqSocket) → Kept sock.state (pipe_run events sock).state
unfolding pipe_run
pipe_run-Kept [] sock = inl refl
pipe_run-Kept (e ∷ events) sock =
    Kept-trans sock.state (pipe_step e sock).state (pipe_run events (pipe_step e sock)).state
      (pipe_step-Kept e sock) (pipe_run-Kept events (pipe_step e sock))

pub data Call : Type 0 where
  sends : Option ℕ → Core → List (Core × LoadBalancer) → List Uri → List PipeEvent → Msg → Call
  receives : Bool → List PipeEvent → Wake → Call
  receives_multipart : Bool → List PipeEvent → Result (List Msg) → Call
  pipe_event : PipeEvent → Call

abbrev pub is_sent : Option (Result (Unit {0})) → Bool
is_sent (some (ok _)) = true
is_sent _ = false

abbrev pub count : Bool → ℕ
count true = 1
count false = 0

abbrev Balanced : Bool → ReqState → ReqState → Type 0
Balanced sent before after =
    (count sent + count (expects_reply before))
    ≡ (count (expects_reply before && not (expects_reply after)) + count (expects_reply after))

-- A sent request leaves the socket in wait for its reply; a call that sends none keeps the state, or
-- ends the wait.
abbrev Turned : Bool → ReqState → ReqState → Type 0
Turned true before after = expects_reply after ≡ true
Turned false before after = Kept before after

send_finish-Turned :
    (target : Uri) (answer : Result (Unit {0})) (sock : ReqSocket)
    → let (answer', sock') = send_finish target answer sock in
      Turned (is_sent (some answer')) sock.state sock'.state
unfolding send_finish
send_finish-Turned target answer sock = ground arith

recv_woken-state : (wake : Wake) (sock : ReqSocket) → (recv_woken wake sock).1.state ≡ sock.state
unfolding recv_woken recv_from_orchestrator
recv_woken-state wake sock = ground arith

recv_finish-Kept :
    (answer : Result Msg) (sock : ReqSocket) → Kept sock.state (recv_finish (answer, sock)).1.state
unfolding recv_finish
recv_finish-Kept answer sock = ground arith

module _ (connection : Uri → List Msg → Result (Unit {0})) where
  -- Whether a request was sent, and the socket after the call.
  pub call : Call → ReqSocket → Bool × ReqSocket
  call (sends sndtimeo core waits endpoints events msg) sock =
      let (answer, wire, sock') =
        send connection (pipe_run events) sndtimeo core waits endpoints sock msg in
      (is_sent answer, sock')
  call (receives running events wake) sock = (false, (recv running (pipe_run events) wake sock).1)
  call (receives_multipart running events popped) sock =
      (false, (recv_multipart running (pipe_run events) popped sock).1)
  call (pipe_event e) sock = (false, pipe_step e sock)

  -- The requests that a series of calls sends, how often it ends the wait for a reply, and the socket
  -- after it.
  pub calls : List Call → ReqSocket → ℕ × ℕ × ReqSocket
  calls [] sock = (0, 0, sock)
  calls (c ∷ later) sock =
      let (sent, sock') = call c sock in
      let (requests, ends, sock'') = calls later sock' in
      (
        count sent + requests,
        count (expects_reply sock.state && not (expects_reply sock'.state)) + ends,
        sock'',
      )

  Kept-Balanced : (before after : ReqState) → Kept before after → Balanced false before after
  Kept-Balanced before after h = ground arith

  send_to-Turned :
      (endpoints : List Uri) (events : List PipeEvent) (msg : Msg) (target : Uri) (sock : ReqSocket)
      → let (answer, wire, sock') =
          send_to connection (pipe_run events) endpoints msg target sock in
        Turned (is_sent (some answer)) sock.state sock'.state
  unfolding send_to
  send_to-Turned endpoints events msg target sock = ground (
    arith,
    pipe_run-Kept events sock,
    send_finish-Turned target (connection target (request_frames msg)) (pipe_run events sock),
  )

  send_selected-Turned :
      (endpoints : List Uri) (events : List PipeEvent) (msg : Msg) (selected : Option (Result Uri))
      (sock : ReqSocket)
      → let (answer, wire, sock') =
          send_selected connection (pipe_run events) endpoints msg selected sock in
        Turned (is_sent answer) sock.state sock'.state
  unfolding send_selected
  send_selected-Turned endpoints events msg none sock = inl refl
  send_selected-Turned endpoints events msg (some (err e)) sock = inl refl
  send_selected-Turned endpoints events msg (some (ok target)) sock =
      send_to-Turned endpoints events msg target sock

  Turned-Balanced :
      (sent : Bool) (before after : ReqState)
      → Turned sent before after
      → expects_reply before ≡ false
      → Balanced sent before after
  Turned-Balanced sent before after t h = ground arith

  send-Balanced :
      (sndtimeo : Option ℕ) (core : Core) (waits : List (Core × LoadBalancer))
      (endpoints : List Uri) (events : List PipeEvent) (msg : Msg) (sock : ReqSocket)
      → let (answer, wire, sock') =
          send connection (pipe_run events) sndtimeo core waits endpoints sock msg in
        Balanced (is_sent answer) sock.state sock'.state
  unfolding send send_check
  send-Balanced sndtimeo core waits endpoints events msg sock =
      let (selected, uris) = select_peer sndtimeo core sock.load_balancer waits in
      let sock' = record sock { load_balancer = uris } in
      let (answer, wire, sock'') =
        send_selected connection (pipe_run events) endpoints msg selected sock' in
      ground (
        arith,
        Turned-Balanced (is_sent answer) sock.state sock''.state
            (send_selected-Turned endpoints events msg selected sock'),
      )

  recv-Kept :
      (running : Bool) (events : List PipeEvent) (wake : Wake) (sock : ReqSocket)
      → Kept sock.state (recv running (pipe_run events) wake sock).1.state
  unfolding recv recv_check recv_finish
  recv-Kept running events wake sock = ground (
    arith,
    pipe_run-Kept events sock,
    recv_woken-state wake (pipe_run events sock),
    recv_finish-Kept (recv_woken wake (pipe_run events sock)).0
        (recv_woken wake (pipe_run events sock)).1,
  )

  recv_multipart-Kept :
      (running : Bool) (events : List PipeEvent) (popped : Result (List Msg)) (sock : ReqSocket)
      → Kept sock.state (recv_multipart running (pipe_run events) popped sock).1.state
  unfolding recv_multipart recv_check recv_logical_message
  recv_multipart-Kept running events popped sock = ground (arith, pipe_run-Kept events sock)

  call-Balanced :
      (c : Call) (sock : ReqSocket) → Balanced (call c sock).0 sock.state (call c sock).1.state
  unfolding call
  call-Balanced (sends sndtimeo core waits endpoints events msg) sock =
      send-Balanced sndtimeo core waits endpoints events msg sock
  call-Balanced (receives running events wake) sock =
      Kept-Balanced sock.state (recv running (pipe_run events) wake sock).1.state
        (recv-Kept running events wake sock)
  call-Balanced (receives_multipart running events popped) sock =
      Kept-Balanced sock.state (recv_multipart running (pipe_run events) popped sock).1.state
        (recv_multipart-Kept running events popped sock)
  call-Balanced (pipe_event e) sock =
      Kept-Balanced sock.state (pipe_step e sock).state (pipe_step-Kept e sock)

  -- Requests and the ends of the wait for a reply alternate. Over any series of calls, with any pipe
  -- events while a call waits: the requests sent, with one that a reply is awaited for at the start,
  -- are as many as the waits that ended, with one that goes on.
  pub calls_alternate :
      (series : List Call) (sock : ReqSocket)
      → let (requests, ends, sock') = calls series sock in
        (requests + count (expects_reply sock.state)) ≡ (ends + count (expects_reply sock'.state))
  unfolding calls
  calls_alternate [] sock = refl
  calls_alternate (c ∷ series) sock =
      let balanced = call-Balanced c sock in
      let later = calls_alternate series (call c sock).1 in omega (arith, balanced, later)
