-- ===== src/Socket/Rep/Alternation.antt =====
-- Requests and answers in turn: the states that core/src/socket/rep_socket.rs goes through.
use rzmq.Base.{
  ℕ, ◌+◌, ◌≡◌, refl, ◌⊎◌, inl, Bool, true, false, not, ◌&&◌, ◌||◌, Option, none, some, List, [],
  ◌∷◌, is_empty, arith, nat_eq,
}
use rzmq.Error.{Result, ok, err}
use rzmq.Message.{Msg}
use rzmq.Patterns.LoadBalancer.{Uri}
use rzmq.Patterns.Orchestrator.{
  Orchestrator, Pushed, accumulate_pipe_frame, recv_message, recv_from, fetch, buffer_frames,
  recv_logical_message, reset_recv_message_buffer, clear_pipe_state,
}
use rzmq.Socket.Rep.{
  RepState, ready_to_receive, RepSocket, Request, take_request, holds_request, state_without,
  recv_check, recv, recv_multipart, send_from, send_multipart, send, handle_pipe_event,
  pipe_attached, pipe_detached,
}

pub data PipeEvent : Type 0 where
  arrives : List (ℕ × Uri) → Pushed → ℕ → Msg → PipeEvent
  attaches : Option Uri → ℕ → PipeEvent
  detaches : ℕ → PipeEvent

pub pipe_step : PipeEvent → RepSocket → RepSocket
pipe_step (arrives core_uris pushed pipe_read_id msg) sock =
    (handle_pipe_event core_uris pushed pipe_read_id msg sock).2
pipe_step (attaches core_uri pipe_read_id) sock = pipe_attached core_uri pipe_read_id sock
pipe_step (detaches pipe_read_id) sock = pipe_detached pipe_read_id sock

pub pipe_run : List PipeEvent → RepSocket → RepSocket
pipe_run [] sock = sock
pipe_run (e ∷ events) sock = pipe_run events (pipe_step e sock)

-- Frames of a request are left to be read only while the socket holds the request.
abbrev pub Clear : RepSocket → Type 0
Clear sock =
    (holds_request sock.state || is_empty sock.incoming_orchestrator.current_recv_frames_buffer)
    ≡ true

buffer-accumulate :
    (o : Orchestrator) (p : ℕ) (msg : Msg)
    → (accumulate_pipe_frame o p msg).1.current_recv_frames_buffer ≡ o.current_recv_frames_buffer
unfolding accumulate_pipe_frame
buffer-accumulate o p msg = ground arith

-- What an event of a pipe does to the state: nothing, or the request that is held is dropped.
abbrev pub Kept : RepSocket → RepSocket → Type 0
Kept before after = Clear after × ((after.state ≡ before.state) ⊎ (after.state ≡ ready_to_receive))

pipe_step-Kept : (e : PipeEvent) (sock : RepSocket) → Clear sock → Kept sock (pipe_step e sock)
unfolding pipe_step handle_pipe_event pipe_attached pipe_detached clear_pipe_state state_without
    reset_recv_message_buffer
pipe_step-Kept (arrives core_uris pushed pipe_read_id msg) sock h =
    ground (arith, buffer-accumulate sock.incoming_orchestrator pipe_read_id msg)
pipe_step-Kept (attaches none pipe_read_id) sock h = (h, inl refl)
pipe_step-Kept (attaches (some uri) pipe_read_id) sock h = (h, inl refl)
pipe_step-Kept (detaches pipe_read_id) sock h = ground arith

pub pipe_run-Kept :
    (events : List PipeEvent) (sock : RepSocket) → Clear sock → Kept sock (pipe_run events sock)
unfolding pipe_run
pipe_run-Kept [] sock h = (h, inl refl)
pipe_run-Kept (e ∷ events) sock h =
    let (clear, kept) = pipe_step-Kept e sock h in
    ground (arith, pipe_run-Kept events (pipe_step e sock) clear)

pub data Call : Type 0 where
  receives : Bool → List PipeEvent → Result Request → Call
  receives_multipart : Bool → List PipeEvent → Result Request → Call
  sends : Bool → List Uri → Msg → Call
  sends_multipart : Bool → List Uri → List Msg → Call
  pipe_event : PipeEvent → Call

abbrev is_ok : {A : Type 0} → Result A → Bool
is_ok (ok a) = true
is_ok (err e) = false

abbrev pub count : Bool → ℕ
count true = 1
count false = 0

-- The requests received, with one that is held before, are the holds that end, with one that goes on.
abbrev Balanced : Bool → RepState → RepState → Type 0
Balanced received before after =
    count received + count (holds_request before)
    ≡ count (holds_request before && not (holds_request after)) + count (holds_request after)

abbrev Turned : Bool → RepSocket → RepSocket → Type 0
Turned received before after = Clear after × Balanced received before.state after.state

Kept-Turned : (before after : RepSocket) → Kept before after → Turned false before after
Kept-Turned before after h = ground arith

recv-Turned :
    (running : Bool) (events : List PipeEvent) (popped : Result Request) (sock : RepSocket)
    → Clear sock
    → let (answer, sock') = recv running (pipe_run events) popped sock in
      Turned (is_ok answer) sock sock'
unfolding recv recv_check recv_message recv_from fetch buffer_frames take_request
recv-Turned running events popped sock h = ground (arith, pipe_run-Kept events sock h)

recv_multipart-Turned :
    (running : Bool) (events : List PipeEvent) (popped : Result Request) (sock : RepSocket)
    → Clear sock
    → let (answer, sock') = recv_multipart running (pipe_run events) popped sock in
      Turned (is_ok answer) sock sock'
unfolding recv_multipart recv_check recv_logical_message take_request
recv_multipart-Turned running events popped sock h = ground (arith, pipe_run-Kept events sock h)

module _ (connection : Uri → List Msg → Result (Unit {0})) where
  send_multipart-Turned :
      (running : Bool) (endpoints : List Uri) (payload_frames : List Msg) (sock : RepSocket)
      → Clear sock
      → Turned false sock (send_multipart connection running endpoints payload_frames sock).2
  unfolding send_multipart send_from reset_recv_message_buffer
  send_multipart-Turned running endpoints payload_frames sock h = ground arith

  send-Turned :
      (running : Bool) (endpoints : List Uri) (msg : Msg) (sock : RepSocket)
      → Clear sock
      → Turned false sock (send connection running endpoints msg sock).2
  unfolding send send_multipart send_from reset_recv_message_buffer
  send-Turned running endpoints msg sock h = ground arith

  -- Whether a request was received, and the socket after the call.
  pub call : Call → RepSocket → Bool × RepSocket
  call (receives running events popped) sock =
      let (answer, sock') = recv running (pipe_run events) popped sock in (is_ok answer, sock')
  call (receives_multipart running events popped) sock =
      let (answer, sock') = recv_multipart running (pipe_run events) popped sock in
      (is_ok answer, sock')
  call (sends running endpoints msg) sock = (false, (send connection running endpoints msg sock).2)
  call (sends_multipart running endpoints frames) sock =
      (false, (send_multipart connection running endpoints frames sock).2)
  call (pipe_event e) sock = (false, pipe_step e sock)

  -- The requests that a series of calls receives, how many holds of a request end, and the socket.
  pub calls : List Call → RepSocket → ℕ × ℕ × RepSocket
  calls [] sock = (0, 0, sock)
  calls (c ∷ later) sock =
      let (received, sock') = call c sock in
      let (requests, ends, sock'') = calls later sock' in
      (
        count received + requests,
        count (holds_request sock.state && not (holds_request sock'.state)) + ends,
        sock'',
      )

  call-Turned :
      (c : Call) (sock : RepSocket) → Clear sock → Turned (call c sock).0 sock (call c sock).1
  unfolding call
  call-Turned (receives running events popped) sock h = recv-Turned running events popped sock h
  call-Turned (receives_multipart running events popped) sock h =
      recv_multipart-Turned running events popped sock h
  call-Turned (sends running endpoints msg) sock h = send-Turned running endpoints msg sock h
  call-Turned (sends_multipart running endpoints frames) sock h =
      send_multipart-Turned running endpoints frames sock h
  call-Turned (pipe_event e) sock h = Kept-Turned sock (pipe_step e sock) (pipe_step-Kept e sock h)

  -- Over any series of calls, with any pipe events while a call waits, in a socket that keeps frames
  -- for the application only while it holds a request: it stays so, and the requests received, with
  -- one that is held at the start, are as many as the holds that ended by an answer or a
  -- disconnection, with one that goes on.
  pub rep_calls_alternate :
      (series : List Call) (sock : RepSocket)
      → Clear sock
      → let (requests, ends, sock') = calls series sock in
        Clear sock'
        × (requests + count (holds_request sock.state) ≡ ends + count (holds_request sock'.state))
  unfolding calls
  rep_calls_alternate [] sock h = (h, refl)
  rep_calls_alternate (c ∷ series) sock h =
      let (clear, balanced) = call-Turned c sock h in
      let (clear', later) = rep_calls_alternate series (call c sock).1 clear in
      (clear', omega (arith, balanced, later))
