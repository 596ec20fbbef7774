-- ===== src/Socket/Push/RoundRobin.antt =====
-- Whom core/src/socket/push_socket.rs sends a message to.
use rzmq.Base.{ℕ, ◌≡◌, refl, true, Option, some, List, [], ◌∷◌}
use rzmq.Error.{Result}
use rzmq.Message.{Msg}
use rzmq.Patterns.Framing.Delimiter.{WellFramed}
use rzmq.Patterns.LoadBalancer.{Uri}
use rzmq.Patterns.LoadBalancer.Turns.{Single}
use rzmq.Socket.Frames.{mark_frames, mark_frames-WellFramed}
use rzmq.Socket.Peers.{Core}
use rzmq.Socket.Peers.Selection.{first_live, select_peer_first}
use rzmq.Socket.Push.{PushSocket, send_multipart_finish, send_selected, send_frames, send_multipart}

-- A PUSH socket that runs and has a known peer in a queue without repetitions hands a message of one
-- or more frames to the first known peer of the queue, as one whole multipart message. The unknown
-- peers before it are dropped, and this one goes to the queue's end, but for what its connection's
-- answer does.
pub send_multipart_turn :
    (connection : Uri → List Msg → Result (Unit {0})) (sndtimeo : Option ℕ) (core : Core)
    (sock : PushSocket) (frame : Msg) (frames : List Msg) (uri : Uri)
    → Single sock.load_balancer
    → core.running ≡ true
    → (first_live core.endpoints sock.load_balancer).0 ≡ some uri
    → let message = mark_frames (frame ∷ frames) in
      let (answer, sock') =
        send_multipart_finish uri
          (connection uri message)
          (record sock { load_balancer = (first_live core.endpoints sock.load_balancer).1 }) in
      WellFramed message
      × (send_multipart connection sndtimeo core [] core.endpoints sock (frame ∷ frames)
          ≡ (some answer, some (uri, message), sock'))
unfolding send_multipart send_frames send_selected
send_multipart_turn connection sndtimeo core sock frame frames uri s r f =
    let (selected, known) = select_peer_first sndtimeo core sock.load_balancer uri s f in
    (mark_frames-WellFramed frame frames, rw (selected, known, r) refl)
