-- ===== src/Patterns/Orchestrator/Assembly.antt =====
-- Messages that core/src/socket/patterns/incoming_orchestrator.rs puts together from frames.
use rzmq.Base.{
  ℕ, ◌≡◌, refl, ap, ◌∙◌, true, false, Option, none, some, List, [], ◌∷◌, ◌++◌, append_assoc, ◌==◌,
  ==_iff, if◌then◌else◌, All, nat_eq, arith,
}
use rzmq.Base.Maps.{lookup, lookup-insert, lookup-remove}
use rzmq.Message.{Msg, is_more}
use rzmq.Patterns.Framing.Delimiter.{WellFramed}
use rzmq.Patterns.Orchestrator.{Orchestrator, new_orchestrator, or_nothing, accumulate_pipe_frame}

abbrev pub Arrival : Type 0
Arrival = ℕ × Msg

abbrev pub tagged : ℕ → Option (List Msg) → List (ℕ × List Msg) → List (ℕ × List Msg)
tagged p none later = later
tagged p (some frames) later = (p, frames) ∷ later

-- The messages that come out, each with its pipe, and the state after all frames.
unfoldable pub feed : Orchestrator → List Arrival → List (ℕ × List Msg) × Orchestrator
feed o [] = ([], o)
feed o ((p, frame) ∷ later) =
    let (done, o') = accumulate_pipe_frame o p frame in
    let (rest, o'') = feed o' later in (tagged p done rest, o'')

-- What belongs to one pipe.
abbrev pub of_pipe : {A : Type 0} → ℕ → List (ℕ × A) → List A
of_pipe p [] = []
of_pipe p ((q, a) ∷ rest) = if q == p then a ∷ of_pipe p rest else of_pipe p rest

-- One pipe alone: the messages, and the frames of one that is not whole yet.
abbrev pub assemble : List Msg → List Msg → List (List Msg) × List Msg
assemble acc [] = ([], acc)
assemble acc (frame ∷ frames) =
    let go_on = assemble (acc ++ (frame ∷ [])) frames in
    let fresh = assemble [] frames in
    if is_more frame then go_on else ((acc ++ (frame ∷ [])) ∷ fresh.0, fresh.1)

-- The frames that wait for the rest of their message.
abbrev pub waiting : Orchestrator → ℕ → List Msg
waiting o p = or_nothing (lookup p o.partial_pipe_messages)

pub waiting-accumulate :
    (o : Orchestrator) (q p : ℕ) (frame : Msg)
    → waiting (accumulate_pipe_frame o q frame).1 p ≡ (
        if q == p then (if is_more frame then waiting o q ++ (frame ∷ []) else []) else waiting o p)
unfolding accumulate_pipe_frame
waiting-accumulate o q p frame = ground (
  arith,
  lookup-insert q p (waiting o q ++ (frame ∷ [])) o.partial_pipe_messages,
  lookup-remove q p o.partial_pipe_messages,
)

pub done-accumulate :
    (o : Orchestrator) (q : ℕ) (frame : Msg)
    → (accumulate_pipe_frame o q frame).0
      ≡ (if is_more frame then none else some (waiting o q ++ (frame ∷ [])))
unfolding accumulate_pipe_frame
done-accumulate o q frame = ground arith

pub two_frames :
    (o : Orchestrator) (p : ℕ) (first last : Msg)
    → waiting o p ≡ []
    → is_more first ≡ true
    → is_more last ≡ false
    → let (whole, o') = accumulate_pipe_frame o p first in
      (whole ≡ none) × ((accumulate_pipe_frame o' p last).0 ≡ some (first ∷ last ∷ []))
two_frames o p first last w f l = ground (
  arith,
  done-accumulate o p first,
  waiting-accumulate o p p first,
  done-accumulate (accumulate_pipe_frame o p first).1 p last,
  ==_iff p p,
)

-- However the frames of the pipes are interleaved, the messages of a pipe are those that its own
-- frames make, in their order, and what waits is what they leave over.
pub feed_by_pipe :
    (o : Orchestrator) (arrivals : List Arrival) (p : ℕ)
    → (of_pipe p (feed o arrivals).0 ≡ (assemble (waiting o p) (of_pipe p arrivals)).0)
      × (waiting (feed o arrivals).1 p ≡ (assemble (waiting o p) (of_pipe p arrivals)).1)
unfolding feed
feed_by_pipe o [] p = (refl, refl)
feed_by_pipe o ((q, frame) ∷ arrivals) p = ground (
  arith,
  waiting-accumulate o q p frame,
  done-accumulate o q frame,
  feed_by_pipe (accumulate_pipe_frame o q frame).1 arrivals p,
  ==_iff q p,
)

-- The frames of the messages, one message behind the other.
abbrev pub frames_of : List (List Msg) → List Msg
frames_of [] = []
frames_of (message ∷ messages) = message ++ frames_of messages

assemble_one :
    (acc frames later : List Msg)
    → WellFramed frames
    → assemble acc (frames ++ later)
      ≡ ((acc ++ frames) ∷ (assemble [] later).0, (assemble [] later).1)
assemble_one acc [] later h = elim h [ ]
assemble_one acc (last ∷ []) later h = ground arith
assemble_one acc (m ∷ next ∷ rest) later h = ground (
  arith,
  assemble_one (acc ++ (m ∷ [])) (next ∷ rest) later,
  append_assoc acc (m ∷ []) (next ∷ rest),
)

pub assemble-frames_of :
    (messages : List (List Msg))
    → All WellFramed messages
    → assemble [] (frames_of messages) ≡ (messages, [])
assemble-frames_of [] h = refl
assemble-frames_of (message ∷ messages) h =
    rw (assemble_one [] message (frames_of messages) h.0, assemble-frames_of messages h.1)

-- If the frames that arrive from a pipe are those of whole messages, then whatever arrives between
-- them from other pipes, an orchestrator that starts empty puts exactly these messages together from
-- that pipe, in their order, and keeps nothing of it.
pub interleaved_messages :
    (arrivals : List Arrival) (p : ℕ) (messages : List (List Msg))
    → of_pipe p arrivals ≡ frames_of messages
    → All WellFramed messages
    → (of_pipe p (feed new_orchestrator arrivals).0 ≡ messages)
      × (waiting (feed new_orchestrator arrivals).1 p ≡ [])
unfolding lookup
interleaved_messages arrivals p messages e h =
    let alone = ap (assemble []) e ∙ assemble-frames_of messages h in
    let both = feed_by_pipe new_orchestrator arrivals p in
    (both.0 ∙ ap (λ r. r.0) alone, both.1 ∙ ap (λ r. r.1) alone)
