-- ===== src/Patterns/Orchestrator/Delivery.antt =====
-- Messages of core/src/socket/patterns/incoming_orchestrator.rs handed out frame by frame.
use rzmq.Base.{suc, ◌≡◌, refl, ap, ◌∙◌, sym, true, false, List, [], ◌∷◌, map, length, arith}
use rzmq.Error.{Result, ok}
use rzmq.Message.{Msg, is_more}
use rzmq.Patterns.Framing.Delimiter.{WellFramed, WellFramedPayload}
use rzmq.Patterns.Orchestrator.{
  Orchestrator, mark_more, recv_message, recv_from, fetch, buffer_frames,
}

-- The MORE flag of a frame of a whole message is already right.
mark_more_last : (frame : Msg) → is_more frame ≡ false → mark_more true frame ≡ frame
mark_more_last frame h = ground arith

mark_more_next : (frame : Msg) → is_more frame ≡ true → mark_more false frame ≡ frame
mark_more_next frame h = ground arith

behind : (frame : Msg) (frames : List Msg) → WellFramed (frame ∷ frames) → WellFramedPayload frames
behind frame [] h = tt
behind frame (next ∷ frames) h = h.1

module _ {A S : Type 0} (qitem_to_app_frames : A → S → List Msg × S) where
  -- The answers of calls of `recv_message` in a row; for each, what the queue would give.
  pub receive : List (Result A) → Orchestrator → S → List (Result Msg) × S × Orchestrator
  receive [] o s = ([], s, o)
  receive (popped ∷ later) o s =
      let (first, s', o') = recv_message qitem_to_app_frames o s popped in
      let (rest, s'', o'') = receive later o' s' in (first ∷ rest, s'', o'')

  holding : Orchestrator → List Msg → Orchestrator
  holding o frames = record o { current_recv_frames_buffer = frames }

  receive_buffered :
      (o : Orchestrator) (s : S) (frame : Msg) (frames : List Msg) (queue : List (Result A))
      → WellFramed (frame ∷ frames)
      → length queue ≡ length (frame ∷ frames)
      → receive queue (holding o (frame ∷ frames)) s ≡ (map ok (frame ∷ frames), s, holding o [])
  unfolding receive recv_message recv_from holding
  receive_buffered o s frame [] [] h l = ground arith
  receive_buffered o s frame [] (popped ∷ next ∷ queue) h l = ground arith
  receive_buffered o s frame (next ∷ frames) [] h l = ground arith
  receive_buffered o s frame [] (popped ∷ []) h l = simp (mark_more_last frame h)
  receive_buffered o s frame (next ∷ frames) (popped ∷ queue) h l =
      simp (mark_more_next frame h.0, receive_buffered o s next frames queue h.1 (ground arith))

  receive_rest :
      (o : Orchestrator) (s : S) (frames : List Msg) (queue : List (Result A))
      → WellFramedPayload frames
      → length queue ≡ length frames
      → receive queue (holding o frames) s ≡ (map ok frames, s, holding o [])
  unfolding receive
  receive_rest o s [] [] h l = refl
  receive_rest o s [] (popped ∷ queue) h l = ground arith
  receive_rest o s (frame ∷ frames) queue h l = receive_buffered o s frame frames queue h l

  recv_first :
      (o : Orchestrator) (s : S) (q_item : A) (frame : Msg) (frames : List Msg) (s' : S)
      → qitem_to_app_frames q_item s ≡ (frame ∷ frames, s')
      → o.current_recv_frames_buffer ≡ []
      → recv_message qitem_to_app_frames o s (ok q_item) ≡ (ok frame, s', holding o frames)
  unfolding recv_message recv_from fetch buffer_frames holding
  recv_first o s q_item frame frames s' e b = simp (b, e)

  holding_nothing : (o : Orchestrator) → o.current_recv_frames_buffer ≡ [] → holding o [] ≡ o
  unfolding holding
  holding_nothing o b = ap (λ frames. record o { current_recv_frames_buffer = frames }) (sym b)

  receive_later :
      (o o' : Orchestrator) (s s' : S) (popped : Result A) (queue : List (Result A))
      (first : Result Msg)
      → recv_message qitem_to_app_frames o s popped ≡ (first, s', o')
      → receive (popped ∷ queue) o s
        ≡ (first ∷ (receive queue o' s').0, (receive queue o' s').1, (receive queue o' s').2)
  unfolding receive
  receive_later o o' s s' popped queue first e =
      ap
        (λ r.
          (r.0 ∷ (receive queue r.2 r.1).0, (receive queue r.2 r.1).1, (receive queue r.2 r.1).2))
        e

  -- An item whose frames are those of a whole message: with nothing in the buffer, as many calls as it
  -- has frames return exactly these frames in their order, whatever the queue would have given to the
  -- later calls, the state is the one that the closure left, and the buffer is empty again.
  pub receive_message :
      (o : Orchestrator) (s : S) (q_item : A) (queue : List (Result A)) (frames : List Msg) (s' : S)
      → qitem_to_app_frames q_item s ≡ (frames, s')
      → WellFramed frames
      → o.current_recv_frames_buffer ≡ []
      → suc (length queue) ≡ length frames
      → receive (ok q_item ∷ queue) o s ≡ (map ok frames, s', o)
  receive_message o s q_item queue [] s' e h b l = elim h [ ]
  receive_message o s q_item queue (frame ∷ frames) s' e h b l =
      receive_later o (holding o frames) s s' (ok q_item) queue (ok frame)
        (recv_first o s q_item frame frames s' e b)
      ∙ rw (
        receive_rest o s' frames queue (behind frame frames h) (ground arith),
        holding_nothing o b,
      )
