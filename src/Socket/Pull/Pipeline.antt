-- ===== src/Socket/Pull/Pipeline.antt =====
-- Messages that core/src/socket/push_socket.rs sends and that arrive in
-- core/src/socket/pull_socket.rs.
use rzmq.Base.{
  ℕ, ◌≡◌, refl, sym, ap, ◌∙◌, inl, inr, not, Option, none, some, List, [], ◌∷◌, ◌++◌, All,
  Bool-cases, map, if_either, if◌then◌else◌, bytes_eq, arith,
}
use rzmq.Error.{connection_closed, Result, ok, err}
use rzmq.Message.{Msg}
use rzmq.Patterns.LoadBalancer.{Uri, LoadBalancer, contains}
use rzmq.Patterns.Framing.Delimiter.{WellFramed}
use rzmq.Patterns.Orchestrator.{Orchestrator, new_orchestrator, sent, accumulate_pipe_frame}
use rzmq.Patterns.Orchestrator.Assembly.{
  Arrival, tagged, feed, of_pipe, frames_of, interleaved_messages,
}
use rzmq.Socket.Frames.{mark_frames, mark_frames-WellFramed, payload-mark_frames}
use rzmq.Socket.Peers.{Core, select_peer}
use rzmq.Socket.Push.{
  PushSocket, Wire, send_multipart, send_frames, send_selected, send_multipart_finish,
}
use rzmq.Socket.Pull.{handle_pipe_event}

-- Frames that arrive one after another: what is handed to the queue, each with its pipe.
pub deliver : List Arrival → Orchestrator → List (ℕ × List Msg) × Orchestrator
deliver [] o = ([], o)
deliver ((p, frame) ∷ later) o =
    let (answer, queued, o') = handle_pipe_event sent p frame o in
    let (rest, o'') = deliver later o' in (tagged p queued rest, o'')

deliver-feed : (arrivals : List Arrival) (o : Orchestrator) → deliver arrivals o ≡ feed o arrivals
unfolding deliver feed handle_pipe_event
deliver-feed [] o = refl
deliver-feed ((p, frame) ∷ later) o =
    ground (arith, deliver-feed later (accumulate_pipe_frame o p frame).1)

-- A call of `send_multipart` with one or more frames: what other operations make of the socket before
-- it, and all that it depends on.
pub record PushCall : Type 0 where
  pub before : PushSocket → PushSocket
  pub connection : Uri → List Msg → Result (Unit {0})
  pub sndtimeo : Option ℕ
  pub core : Core
  pub waits : List (Core × LoadBalancer)
  pub endpoints : List Uri
  pub frame : Msg
  pub frames : List Msg

abbrev push : PushCall → PushSocket → Option (Result (Unit {0})) × Wire × PushSocket
push c sock =
    send_multipart c.connection c.sndtimeo c.core c.waits c.endpoints (c.before sock)
      (c.frame ∷ c.frames)

-- The peer that the loop of `send_multipart` selects.
abbrev selected : PushCall → PushSocket → Option (Result Uri)
selected c sock = (select_peer c.sndtimeo c.core (c.before sock).load_balancer c.waits).0

abbrev if_ok : {A : Type 0} → Result (Unit {0}) → List A → List A
if_ok (ok _) sent_on = sent_on
if_ok (err e) sent_on = []

abbrev if_for : {A : Type 0} → Uri → A → Option (Result Uri) → List A
if_for uri message (some (ok to)) = if bytes_eq to uri then message ∷ [] else []
if_for uri message to = []

-- The frames that the connection of `uri` was given and took.
abbrev taken : Uri → (Uri → List Msg → Result (Unit {0})) → Wire → List (List Msg)
taken uri connection none = []
taken uri connection (some (to, frames)) =
    if_ok (connection to frames) (if_for uri frames (some (ok to)))

-- The message, if `uri` was selected for it and the application was told that all went well.
abbrev accepted :
    Uri → Msg × List Msg → Option (Result (Unit {0})) → Option (Result Uri) → List (Msg × List Msg)
accepted uri message none to = []
accepted uri message (some answer) to = if_ok answer (if_for uri message to)

-- What the connections of `uri` took, over a series of calls.
abbrev pub all_taken : Uri → List PushCall → PushSocket → List (List Msg)
all_taken uri [] sock = []
all_taken uri (c ∷ calls) sock =
    let (answer, wire, sock') = push c sock in
    taken uri c.connection wire ++ all_taken uri calls sock'

-- The messages, as the application gave them, that were accepted for `uri`: each as its first frame
-- and the others.
abbrev pub all_accepted : Uri → List PushCall → PushSocket → List (Msg × List Msg)
all_accepted uri [] sock = []
all_accepted uri (c ∷ calls) sock =
    let (answer, wire, sock') = push c sock in
    accepted uri (c.frame, c.frames) answer (selected c sock) ++ all_accepted uri calls sock'

abbrev pub marked : Msg × List Msg → List Msg
marked (frame, frames) = mark_frames (frame ∷ frames)

abbrev pub payloads : List Msg → List (Option (List ℕ))
payloads frames = map (λ m. m.payload) frames

finish-taken :
    (uri to : Uri) (answer : Result (Unit {0})) (message : Msg × List Msg) (sock : PushSocket)
    → if_ok answer (if_for uri (marked message) (some (ok to)))
      ≡ map marked
          (accepted uri message (some (send_multipart_finish to answer sock).0) (some (ok to)))
unfolding send_multipart_finish
finish-taken uri to (ok _) message sock = ground arith
finish-taken uri to (err connection_closed) message sock = refl
finish-taken uri to (err e) message sock = refl

selected-taken :
    (uri : Uri) (connection : Uri → List Msg → Result (Unit {0})) (endpoints : List Uri)
    (message : Msg × List Msg) (to : Option (Result Uri)) (sock : PushSocket)
    → let (answer, wire, sock') =
        send_selected connection send_multipart_finish endpoints (marked message) to sock in
      taken uri connection wire ≡ map marked (accepted uri message answer to)
unfolding send_selected
selected-taken uri connection endpoints message none sock = refl
selected-taken uri connection endpoints message (some (err e)) sock = refl
selected-taken uri connection endpoints message (some (ok to)) sock =
    elim (Bool-cases (contains endpoints to)) [
      | inr gone ↦ rw gone refl
      | inl there ↦ rw there (finish-taken uri to _ message sock)
    ]

push-taken :
    (uri : Uri) (c : PushCall) (sock : PushSocket)
    → taken uri c.connection (push c sock).1
      ≡ map marked (accepted uri (c.frame, c.frames) (push c sock).0 (selected c sock))
unfolding send_multipart send_frames
push-taken uri c sock =
    if_either
      (λ (r : Option (Result (Unit {0})) × Wire × PushSocket).
        taken uri c.connection r.1
        ≡ map marked (accepted uri (c.frame, c.frames) r.0 (selected c sock)))
      (not c.core.running) _ _ refl
      (selected-taken uri c.connection c.endpoints (c.frame, c.frames) (selected c sock) _)

map-append : (x y : List (Msg × List Msg)) → map marked (x ++ y) ≡ map marked x ++ map marked y
map-append [] y = refl
map-append (m ∷ x) y = ap (λ r. marked m ∷ r) (map-append x y)

all_taken-accepted :
    (uri : Uri) (calls : List PushCall) (sock : PushSocket)
    → all_taken uri calls sock ≡ map marked (all_accepted uri calls sock)
all_taken-accepted uri [] sock = refl
all_taken-accepted uri (c ∷ calls) sock =
    let (answer, wire, sock') = push c sock in
    rw (push-taken uri c sock, all_taken-accepted uri calls sock')
      (sym (map-append (accepted uri (c.frame, c.frames) answer (selected c sock)) _))

marked-WellFramed : (messages : List (Msg × List Msg)) → All WellFramed (map marked messages)
marked-WellFramed [] = tt
marked-WellFramed ((frame, frames) ∷ later) =
    (mark_frames-WellFramed frame frames, marked-WellFramed later)

payloads-marked :
    (messages : List (Msg × List Msg))
    → map payloads (map marked messages)
      ≡ map (λ (m : Msg × List Msg). payloads (m.0 ∷ m.1)) messages
payloads-marked [] = refl
payloads-marked ((frame, frames) ∷ later) =
    rw (payload-mark_frames (frame ∷ frames), payloads-marked later) refl

-- Whatever calls of `send_multipart` a PUSH socket serves, each with one or more frames, and
-- whatever else happens between them: if what arrives from a pipe at a new PULL socket is what the
-- connections of one peer took from these calls, frame by frame, then whatever arrives from other
-- pipes between them, the PULL socket queues from that pipe exactly the messages that the PUSH
-- socket selected this peer for and answered with `ok`: in their order, each whole, with its
-- payloads, and with the MORE flag on all frames but the last.
pub push_pull :
    (uri : Uri) (calls : List PushCall) (sock : PushSocket) (arrivals : List Arrival) (p : ℕ)
    → of_pipe p arrivals ≡ frames_of (all_taken uri calls sock)
    → let messages = all_accepted uri calls sock in
      let queued = of_pipe p (deliver arrivals new_orchestrator).0 in
      (queued ≡ map marked messages)
      × (map payloads queued ≡ map (λ (m : Msg × List Msg). payloads (m.0 ∷ m.1)) messages)
push_pull uri calls sock arrivals p h =
    let messages = all_accepted uri calls sock in
    let whole =
      ap (λ r. of_pipe p r.0) (deliver-feed arrivals new_orchestrator)
      ∙ (interleaved_messages arrivals p (map marked messages)
          (h ∙ ap frames_of (all_taken-accepted uri calls sock)) (marked-WellFramed messages)).0 in
    (whole, ap (map payloads) whole ∙ payloads-marked messages)
