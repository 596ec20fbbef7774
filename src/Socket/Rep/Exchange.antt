-- ===== src/Socket/Rep/Exchange.antt =====
-- A request and its reply between core/src/socket/req_socket.rs and rep_socket.rs.
use rzmq.Base.{ℕ, ◌≡◌, refl, true, none, some, List, [], ◌∷◌, arith, nat_eq}
use rzmq.Base.Maps.{lookup}
use rzmq.Error.{Result}
use rzmq.Message.{Msg, new, set_flags, more_flag, difference}
use rzmq.Patterns.LoadBalancer.{Uri, contains}
use rzmq.Patterns.Orchestrator.{sent}
use rzmq.Patterns.Orchestrator.Assembly.{waiting, two_frames}
use rzmq.Socket.Req.{ReqSocket, expecting_reply, request_frames}
use rzmq.Socket.Req.Replies as Replies
use rzmq.Socket.Frames.{mark_frames}
use rzmq.Socket.Rep.{
  PeerInfo, received_request, RepSocket, Request, split_request, split_from, handle_pipe_event,
  send, send_multipart, send_from, send_reply, send_frames,
}

abbrev pub clear_more : Msg → Msg
clear_more msg = set_flags msg (difference msg.flags more_flag)

-- Two frames from a pipe, with room in the queue: the requests that they are.
pub deliver : List (ℕ × Uri) → ℕ → List Msg → RepSocket → List Request
deliver core_uris p [] sock = []
deliver core_uris p (frame ∷ frames) sock =
    let (answer, queued, sock') = handle_pipe_event core_uris sent p frame sock in
    let rest = deliver core_uris p frames sock' in
    elim queued [ none ↦ rest | some request ↦ request ∷ rest ]

-- Whom a request of a REQ socket is from, and the delimiter that goes back to it.
abbrev pub asked_by : ℕ → Uri → PeerInfo
asked_by p uri = record {
  source_pipe_read_id = p;
  target_endpoint_uri = uri;
  routing_prefix = set_flags new more_flag ∷ [];
}

pub request_arrives :
    (core_uris : List (ℕ × Uri)) (p : ℕ) (uri : Uri) (msg : Msg) (rep : RepSocket)
    → waiting rep.incoming_orchestrator p ≡ []
    → lookup p core_uris ≡ some uri
    → deliver core_uris p (request_frames msg) rep ≡ (asked_by p uri, clear_more msg ∷ []) ∷ []
unfolding deliver handle_pipe_event split_request split_from
request_arrives core_uris p uri msg rep w m =
    ground
      (arith, two_frames rep.incoming_orchestrator p (set_flags new more_flag) (clear_more msg) w)

reply_leaves :
    (connection : Uri → List Msg → Result (Unit {0})) (endpoints : List Uri) (p : ℕ) (uri : Uri)
    (reply : Msg) (rep : RepSocket)
    → rep.state ≡ received_request (asked_by p uri)
    → contains endpoints uri ≡ true
    → (send connection true endpoints reply rep).1 ≡ some (uri, request_frames reply)
unfolding send send_multipart send_from send_reply send_frames mark_frames
reply_leaves connection endpoints p uri reply rep s k = ground arith

-- The frames of a message, each from the same pipe.
abbrev pub from_pipe : ℕ → List Msg → List (ℕ × Msg)
from_pipe q [] = []
from_pipe q (frame ∷ frames) = (q, frame) ∷ from_pipe q frames

reply_arrives :
    (q : ℕ) (target : Uri) (reply : Msg) (req : ReqSocket)
    → req.state ≡ expecting_reply target
    → lookup q req.pipe_read_to_endpoint_uri ≡ some target
    → waiting req.incoming_orchestrator q ≡ []
    → (Replies.deliver (from_pipe q (request_frames reply)) req).0 ≡ (clear_more reply ∷ []) ∷ []
reply_arrives q target reply req s m w =
    Replies.deliver_reply q target (set_flags new more_flag) (clear_more reply) req s m w refl refl
      (ground arith)

-- A request that a REQ socket sends, once its frames have come to a REP socket through a pipe on which
-- nothing waits, is received there as the message alone. The reply to it, once its frames have come
-- back to the REQ socket, which expects it and has nothing waiting on its pipe, is queued there as
-- the reply alone; both are without the MORE flag.
pub exchange :
    (connection : Uri → List Msg → Result (Unit {0})) (core_uris : List (ℕ × Uri))
    (endpoints : List Uri) (p q : ℕ) (uri target : Uri) (msg reply : Msg) (rep rep' : RepSocket)
    (req : ReqSocket)
    → waiting rep.incoming_orchestrator p ≡ []
    → lookup p core_uris ≡ some uri
    → rep'.state ≡ received_request (asked_by p uri)
    → contains endpoints uri ≡ true
    → req.state ≡ expecting_reply target
    → lookup q req.pipe_read_to_endpoint_uri ≡ some target
    → waiting req.incoming_orchestrator q ≡ []
    → (deliver core_uris p (request_frames msg) rep ≡ (asked_by p uri, clear_more msg ∷ []) ∷ [])
      × ((frames : List Msg) × ((send connection true endpoints reply rep').1 ≡ some (uri, frames))
          × ((Replies.deliver (from_pipe q frames) req).0 ≡ (clear_more reply ∷ []) ∷ []))
exchange connection core_uris endpoints p q uri target msg reply rep rep' req w m s k e l v = (
  request_arrives core_uris p uri msg rep w m,
  (
    request_frames reply,
    reply_leaves connection endpoints p uri reply rep' s k,
    reply_arrives q target reply req e l v,
  ),
)
