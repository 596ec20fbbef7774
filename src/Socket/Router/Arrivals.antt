-- ===== src/Socket/Router/Arrivals.antt =====
-- Messages that reach a ROUTER socket of core/src/socket/router_socket.rs from many pipes.
use rzmq.Base.{
  ℕ, ◌≡◌, refl, ap, ◌∙◌, inl, inr, Bool-cases, Option-cases, ==_iff, Option, none, some, List, [],
  ◌∷◌, All, map, ◌==◌, nat_eq,
}
use rzmq.Message.{Msg}
use rzmq.Patterns.Framing.Delimiter.{WellFramed}
use rzmq.Patterns.Orchestrator.{Orchestrator, sent, accumulate_pipe_frame}
use rzmq.Patterns.Orchestrator.Assembly.{
  Arrival, feed, feed_by_pipe, of_pipe, frames_of, assemble, assemble-frames_of, waiting,
}
use rzmq.Socket.Core.{CoreState}
use rzmq.Socket.Router.{RouterSocket, Item, handle_pipe_event, process_incoming_zmtp_message}

abbrev pub queued : ℕ → Option Item → List (ℕ × Item) → List (ℕ × Item)
queued p none later = later
queued p (some item) later = (p, item) ∷ later

-- Frames that arrive one after another, with room in the queue: the items, each with its pipe.
pub deliver : CoreState → List Arrival → RouterSocket → List (ℕ × Item)
deliver core [] sock = []
deliver core ((p, frame) ∷ later) sock =
    let (answer, item, sock') = handle_pipe_event core sent p frame sock in
    queued p item (deliver core later sock')

abbrev with_orchestrator : Orchestrator → RouterSocket → RouterSocket
with_orchestrator o sock = record sock { incoming_orchestrator = o }

deliver-feed :
    (core : CoreState) (arrivals : List Arrival) (p : ℕ) (sock : RouterSocket)
    → of_pipe p (deliver core arrivals sock)
      ≡ map
          (λ (message : List Msg). process_incoming_zmtp_message core p message sock)
          (of_pipe p (feed sock.incoming_orchestrator arrivals).0)
unfolding deliver feed handle_pipe_event process_incoming_zmtp_message
deliver-feed core [] p sock = refl
deliver-feed core ((q, frame) ∷ arrivals) p sock =
    let o = (accumulate_pipe_frame sock.incoming_orchestrator q frame).1 in
    let ih = deliver-feed core arrivals p (with_orchestrator o sock) in
    elim (Option-cases (accumulate_pipe_frame sock.incoming_orchestrator q frame).0) [
      | inl part ↦ rw (part, deliver, handle_pipe_event) ih
      | inr (message, whole) ↦
          rw (whole, deliver, handle_pipe_event)
            (elim (Bool-cases (q == p)) [
              | inr other ↦ rw other ih
              | inl same ↦
                  rw (same, ih)
                    (ap
                      (λ (r : ℕ).
                        process_incoming_zmtp_message core r message sock
                        ∷ map (λ (m : List Msg). process_incoming_zmtp_message core p m sock)
                            (of_pipe p (feed o arrivals).0))
                      ((==_iff q p).0 same))
            ])
    ]

-- If what arrives from a pipe on which nothing waits are the frames of whole messages, then whatever
-- arrives from other pipes between them, the items of the pipe are these messages in their order,
-- each under the pipe's identity and without the delimiter.
pub deliver-frames_of :
    (core : CoreState) (arrivals : List Arrival) (p : ℕ) (messages : List (List Msg))
    (sock : RouterSocket)
    → waiting sock.incoming_orchestrator p ≡ []
    → of_pipe p arrivals ≡ frames_of messages
    → All WellFramed messages
    → of_pipe p (deliver core arrivals sock)
      ≡ map (λ (m : List Msg). process_incoming_zmtp_message core p m sock) messages
deliver-frames_of core arrivals p messages sock idle arrive whole =
    let alone = ap (assemble []) arrive ∙ assemble-frames_of messages whole in
    let both = (feed_by_pipe sock.incoming_orchestrator arrivals p).0 in
    let at_start : (assemble (waiting sock.incoming_orchestrator p) (of_pipe p arrivals)).0
        ≡ messages =
      rw idle (ap (λ r. r.0) alone) in
    deliver-feed core arrivals p sock
    ∙ ap (map (λ (m : List Msg). process_incoming_zmtp_message core p m sock)) (both ∙ at_start)
