-- ===== src/Socket/Rep/Requests.antt =====
-- The frames of a request in core/src/socket/rep_socket.rs, and how they are handed out.
use rzmq.Base.{
  ◌≡◌, refl, ap, ◌∙◌, sym, Bool, true, false, ◌⊎◌, inl, inr, List, [], ◌∷◌, ◌++◌, append_assoc,
  append-nil, ◌==◌, ==_iff, Bool-cases, if◌then◌else◌, arith,
}
use rzmq.Error.{invalid_state, Result, ok, err}
use rzmq.Message.{Msg, size}
use rzmq.Patterns.Orchestrator.{recv_message, recv_from, fetch, buffer_frames}
use rzmq.Socket.Rep.{
  PeerInfo, ready_to_receive, received_request, RepSocket, Request, split_from, split_request,
  take_request, recv_check, recv,
}

abbrev pub has_empty : List Msg → Bool
has_empty [] = false
has_empty (frame ∷ frames) = if size frame == 0 then true else has_empty frames

split_from_found :
    (prefix payload frames : List Msg)
    → split_from true prefix payload frames ≡ (true, prefix, payload ++ frames)
unfolding split_from
split_from_found prefix payload [] = ap (λ r. (true, prefix, r)) (sym (append-nil payload))
split_from_found prefix payload (frame ∷ frames) = rw (
  split_from_found prefix (payload ++ (frame ∷ [])) frames,
  append_assoc payload (frame ∷ []) frames,
)

split_from_none :
    (acc frames : List Msg)
    → has_empty frames ≡ false
    → split_from false acc [] frames ≡ (false, acc ++ frames, [])
unfolding split_from
split_from_none acc [] h = ap (λ r. (false, r, [])) (sym (append-nil acc))
split_from_none acc (frame ∷ frames) h =
    ground
      (arith, split_from_none (acc ++ (frame ∷ [])) frames, append_assoc acc (frame ∷ []) frames)

split_from_first :
    (acc before : List Msg) (delimiter : Msg) (after : List Msg)
    → has_empty before ≡ false
    → size delimiter ≡ 0
    → split_from false acc [] (before ++ (delimiter ∷ after))
      ≡ (true, acc ++ (before ++ (delimiter ∷ [])), after)
unfolding split_from
split_from_first acc [] delimiter after h d =
    ground (arith, split_from_found (acc ++ (delimiter ∷ [])) [] after)
split_from_first acc (frame ∷ before) delimiter after h d = ground (
  arith,
  split_from_first (acc ++ (frame ∷ [])) before delimiter after,
  append_assoc acc (frame ∷ []) (before ++ (delimiter ∷ [])),
)

-- How a list of frames stands to its first empty frame.
abbrev pub Delimited : List Msg → Type 0
Delimited raw =
    (before : List Msg) × (delimiter : Msg) × (after : List Msg) × (raw
      ≡ before ++ (delimiter ∷ after))
    × (has_empty before ≡ false)
    × (size delimiter ≡ 0)

Delimited-cases : (raw : List Msg) → (has_empty raw ≡ false) ⊎ Delimited raw
Delimited-cases [] = inl refl
Delimited-cases (frame ∷ frames) = elim (Bool-cases (size frame == 0)) [
  | inl e ↦ inr ([], frame, frames, refl, refl, (==_iff (size frame) 0).0 e)
  | inr e ↦ elim (Delimited-cases frames) [
    | inl h ↦ inl (rw e h)
    | inr (before, delimiter, after, h, n, d) ↦
        inr (frame ∷ before, delimiter, after, ap (λ r. frame ∷ r) h, rw e n, d)
  ]
]

pub split_request_first :
    (before : List Msg) (delimiter : Msg) (after : List Msg)
    → has_empty before ≡ false
    → size delimiter ≡ 0
    → split_request (before ++ (delimiter ∷ after)) ≡ (before ++ (delimiter ∷ []), after)
unfolding split_request
split_request_first before delimiter after h d = rw (split_from_first [] before delimiter after h d)

split_request_none :
    (frames : List Msg) → has_empty frames ≡ false → split_request frames ≡ ([], frames)
unfolding split_request
split_request_none frames h = rw (split_from_none [] frames h)

-- The routing prefix and the payload of a request are all its frames in their order. The prefix ends
-- with the first empty frame; without an empty frame it is empty, and all frames are payload.
pub split_request_parts :
    (raw : List Msg)
    → let (routing_prefix, payload_frames) = split_request raw in
      (routing_prefix ++ payload_frames ≡ raw)
      × (((routing_prefix ≡ []) × (has_empty raw ≡ false))
          ⊎ ((before : List Msg) × (delimiter : Msg) × (routing_prefix ≡ before ++ (delimiter ∷ []))
              × (has_empty before ≡ false)
              × (size delimiter ≡ 0)))
split_request_parts raw = elim (Delimited-cases raw) [
  | inl h ↦ rw (split_request_none raw h) (refl, inl (refl, h))
  | inr (before, delimiter, after, e, n, d) ↦
      let split = ap split_request e ∙ split_request_first before delimiter after n d in
      rw (split)
        (append_assoc before (delimiter ∷ []) after ∙ sym e, inr (before, delimiter, refl, n, d))
]

recv_first :
    (sock : RepSocket) (info : PeerInfo) (first : Msg) (frames : List Msg)
    → sock.state ≡ ready_to_receive
    → sock.incoming_orchestrator.current_recv_frames_buffer ≡ []
    → recv true (λ s. s) (ok (info, first ∷ frames)) sock ≡ (
      ok first,
      record sock {
        state = received_request info;
        incoming_orchestrator = record sock.incoming_orchestrator {
          current_recv_frames_buffer = frames;
        };
      },
    )
unfolding recv recv_check recv_message recv_from fetch buffer_frames take_request
recv_first sock info first frames s b = ground arith

-- A `recv` that hands out the first of several payload frames of a request leaves the others out of
-- reach: until the request is answered, each further `recv` is refused, whatever the queue has.
pub recv_other_frames :
    (sock : RepSocket) (info : PeerInfo) (first next : Msg) (rest : List Msg)
    (popped : Result Request)
    → sock.state ≡ ready_to_receive
    → sock.incoming_orchestrator.current_recv_frames_buffer ≡ []
    → let (answer, sock') = recv true (λ s. s) (ok (info, first ∷ next ∷ rest)) sock in
      (answer ≡ ok first)
      × (sock'.state ≡ received_request info)
      × (sock'.incoming_orchestrator.current_recv_frames_buffer ≡ next ∷ rest)
      × (recv true (λ s. s) popped sock' ≡ (err invalid_state, sock'))
unfolding recv recv_check recv_message recv_from fetch buffer_frames take_request
recv_other_frames sock info first next rest popped s b =
    rw (recv_first sock info first (next ∷ rest) s b) (refl, refl, refl, refl)
