-- ===== src/Tests/Socket/Requests.antt =====
-- A REQ and a REP socket of core/src/socket/req_socket.rs and rep_socket.rs.
use rzmq.Base.{ℕ, ◌+◌, ◌≡◌, refl, true, false, none, some, List, [], ◌∷◌, bytes_eq, nat_eq}
use rzmq.Base.Maps.{lookup}
use rzmq.Error.{Result, ok, err, invalid_state}
use rzmq.Message.{Msg, from_bytes, set_flags, more_flag, new}
use rzmq.Patterns.LoadBalancer.{Uri, contains}
use rzmq.Patterns.Orchestrator.{new_orchestrator, sent}
use rzmq.Patterns.Orchestrator.Assembly.{Arrival, feed, waiting}
use rzmq.Socket.Req.{ReqSocket, expecting_reply, expects_reply, request_frames, send}
use rzmq.Socket.Req.Pipes.{handle_pipe_event}
use rzmq.Socket.Req.Sending.{live, ready, overlapping_sends}
use rzmq.Socket.Req.Alternation.{Call, sends, pipe_event, detaches, count, calls, calls_alternate}
use rzmq.Socket.Req.Replies.{deliver, of_peer, replies, deliver_target}
use rzmq.Socket.Rep as Rep
use rzmq.Socket.Rep.{
  PeerInfo, RepSocket, new_rep, received_request, ready_to_receive, split_request, Request,
  or_empty_frame,
}
use rzmq.Socket.Rep.Requests.{recv_other_frames}
use rzmq.Socket.Rep.Alternation as Rounds
use rzmq.Socket.Rep.Alternation.{rep_calls_alternate}
use rzmq.Socket.Rep.Exchange as Exchange
use rzmq.Socket.Rep.Exchange.{clear_more, asked_by, from_pipe, exchange}

abbrev a : Uri
a = 1 ∷ []

abbrev b : Uri
b = 2 ∷ []

abbrev uris : List Uri
uris = a ∷ b ∷ []

abbrev accepting : Uri → List Msg → Result (Unit {0})
accepting uri frames = ok tt

abbrev hello : Msg
hello = from_bytes (7 ∷ [])

abbrev delimiter : Msg
delimiter = set_flags new more_flag

abbrev two_peers : ReqSocket
two_peers = ready uris new_orchestrator ((4, a) ∷ (5, b) ∷ [])

a_known : contains uris a ≡ true
unfolding contains bytes_eq
a_known = refl

b_known : contains uris b ≡ true
unfolding contains bytes_eq
b_known = refl

b_piped : lookup 5 two_peers.pipe_read_to_endpoint_uri ≡ some b
unfolding lookup
b_piped = refl

a_b : bytes_eq a b ≡ false
unfolding bytes_eq
a_b = refl

overlapping_sends_example :
    let core = live uris in
    let second = λ (s : ReqSocket). send accepting (λ s'. s') none core [] uris s hello in
    let (answer1, wire1, sock1) =
      send accepting (λ s. (second s).2) none core [] uris two_peers hello in
    let (answer2, wire2, sock2) =
      second (ready (b ∷ a ∷ []) new_orchestrator ((4, a) ∷ (5, b) ∷ [])) in
    (answer1 ≡ some (ok tt))
    × (wire1 ≡ some (a, request_frames hello))
    × (answer2 ≡ some (ok tt))
    × (wire2 ≡ some (b, request_frames hello))
    × (handle_pipe_event sent 5 hello sock1 ≡ (none, sock1))
overlapping_sends_example =
    overlapping_sends accepting uris new_orchestrator ((4, a) ∷ (5, b) ∷ []) hello hello a b sent 5
      hello a_known b_known refl refl a_b b_piped

abbrev series : List Call
series = sends none (live uris) [] uris [] hello ∷ pipe_event (detaches 4) ∷ []

calls_alternate_example :
    let (requests, ends, sock') = calls accepting series two_peers in
    (requests + count (expects_reply two_peers.state)) ≡ (ends + count (expects_reply sock'.state))
calls_alternate_example = calls_alternate accepting series two_peers

abbrev expecting : ReqSocket
expecting = record two_peers { state = expecting_reply b }

abbrev reply_arrivals : List Arrival
reply_arrivals = (5, delimiter) ∷ (4, hello) ∷ (5, hello) ∷ []

deliver_target_example :
    let (messages, o) =
      feed new_orchestrator (of_peer b two_peers.pipe_read_to_endpoint_uri reply_arrivals) in
    deliver reply_arrivals expecting
    ≡ (replies messages, record expecting { incoming_orchestrator = o })
deliver_target_example = deliver_target b reply_arrivals expecting refl

abbrev asker : PeerInfo
asker = asked_by 3 a

recv_other_frames_example :
    let (answer, sock') = Rep.recv true (λ s. s) (ok (asker, delimiter ∷ hello ∷ [])) new_rep in
    (answer ≡ ok delimiter)
    × (sock'.state ≡ received_request asker)
    × (sock'.incoming_orchestrator.current_recv_frames_buffer ≡ hello ∷ [])
    × (Rep.recv true (λ s. s) (err invalid_state) sock' ≡ (err invalid_state, sock'))
recv_other_frames_example =
    recv_other_frames new_rep asker delimiter hello [] (err invalid_state) refl refl

abbrev asked : RepSocket
asked = record new_rep { state = received_request asker }

abbrev rounds : List Rounds.Call
rounds = Rounds.receives true [] (ok (asker, hello ∷ [])) ∷ Rounds.sends true uris hello ∷ []

rep_calls_alternate_example :
    let (requests, ends, sock') = Rounds.calls accepting rounds new_rep in
    Rounds.Clear sock'
    × (requests + Rounds.count (Rep.holds_request new_rep.state)
        ≡ ends + Rounds.count (Rep.holds_request sock'.state))
rep_calls_alternate_example = rep_calls_alternate accepting rounds new_rep refl

nothing_waits : waiting new_orchestrator 3 ≡ []
unfolding lookup
nothing_waits = refl

nothing_waits_back : waiting new_orchestrator 5 ≡ []
unfolding lookup
nothing_waits_back = refl

a_in_core : lookup {K = ℕ} 3 ((3, a) ∷ []) ≡ some a
unfolding lookup
a_in_core = refl

exchange_example :
    (Exchange.deliver ((3, a) ∷ []) 3 (request_frames hello) new_rep
      ≡ (asked_by 3 a, clear_more hello ∷ []) ∷ [])
    × ((frames : List Msg) × ((Rep.send accepting true uris hello asked).1 ≡ some (a, frames))
        × ((deliver (from_pipe 5 frames) expecting).0 ≡ (clear_more hello ∷ []) ∷ []))
exchange_example =
    exchange accepting ((3, a) ∷ []) uris 3 5 a b hello hello new_rep asked expecting nothing_waits
      a_in_core refl a_known refl b_piped nothing_waits_back
