-- ===== src/Patterns/Orchestrator.antt =====
-- core/src/socket/patterns/incoming_orchestrator.rs over fair_queue.rs: frames from many pipes become
-- messages, and messages become frames again for the application. The bounded channel of the main
-- queue comes from the crate fibre: what it answers is an argument, and so is an elapsed timeout.
pub mod Assembly
pub mod Delivery
use rzmq.Base.{
  ℕ, zero, suc, Bool, true, false, Option, none, some, List, [], ◌∷◌, ◌++◌, if◌then◌else◌, is_empty,
  nat_eq,
}
use rzmq.Base.Maps.{lookup, insert, remove}
use rzmq.Error.{ZmqError, timeout, resource_limit_reached, internal, Result, ok, err}
use rzmq.Message.{Msg, new, set_flags, more_flag, union, difference, is_more}

pub record Orchestrator : Type 0 where
  pub partial_pipe_messages : List (ℕ × List Msg)
  pub current_recv_frames_buffer : List Msg

abbrev pub new_orchestrator : Orchestrator
new_orchestrator = record { partial_pipe_messages = []; current_recv_frames_buffer = [] }

abbrev pub or_nothing : Option (List Msg) → List Msg
or_nothing none = []
or_nothing (some frames) = frames

-- A message that is whole, if the frame was its last one.
unfoldable pub accumulate_pipe_frame : Orchestrator → ℕ → Msg → Option (List Msg) × Orchestrator
accumulate_pipe_frame o pipe_read_id incoming_frame =
    let frames =
      or_nothing (lookup pipe_read_id o.partial_pipe_messages) ++ (incoming_frame ∷ []) in
    if is_more incoming_frame
    then (
      none,
      record o { partial_pipe_messages = insert pipe_read_id frames o.partial_pipe_messages },
    )
    else (
      some frames,
      record o { partial_pipe_messages = remove pipe_read_id o.partial_pipe_messages },
    )

-- How a push that waits at most `queue_push_timeout`, one second, ends.
pub data Pushed : Type 0 where
  sent closed elapsed : Pushed

-- An item for which there is no room in time is dropped.
unfoldable pub queue_item : Pushed → Result (Unit {0})
queue_item sent = ok tt
queue_item closed = err internal
queue_item elapsed = ok tt

pub data Popped (A : Type 0) : Type 0 where
  item : A → Popped A
  disconnected : Popped A
  nothing : Popped A

-- Under a timeout of zero nothing is waited for.
pub at_once : {A : Type 0} → Popped A → Result A
at_once (item a) = ok a
at_once disconnected = err internal
at_once nothing = err resource_limit_reached

-- `none`: without a limit the call waits on.
pub recv_item_from_main_queue : {A : Type 0} → Option ℕ → Popped A → Option (Result A)
unfolding at_once
recv_item_from_main_queue (some zero) popped = some (at_once popped)
recv_item_from_main_queue rcvtimeo (item a) = some (ok a)
recv_item_from_main_queue rcvtimeo disconnected = some (err internal)
recv_item_from_main_queue none nothing = none
recv_item_from_main_queue (some (suc duration)) nothing = some (err timeout)

-- `reset_recv_message_buffer`
unfoldable pub reset_recv_message_buffer : Orchestrator → Orchestrator
reset_recv_message_buffer o = record o { current_recv_frames_buffer = [] }

unfoldable pub clear_pipe_state : Orchestrator → ℕ → Orchestrator
unfolding reset_recv_message_buffer
clear_pipe_state o pipe_read_id =
    reset_recv_message_buffer
      (record o { partial_pipe_messages = remove pipe_read_id o.partial_pipe_messages })

-- The queue is closed besides.
pub close : Orchestrator → Orchestrator
close o = new_orchestrator

-- The MORE flag of a frame from the buffer says whether the buffer has another one.
abbrev pub mark_more : Bool → Msg → Msg
mark_more last frame =
    set_flags frame (if last then difference frame.flags more_flag else union frame.flags more_flag)

module _ {A S : Type 0} (qitem_to_app_frames : A → S → List Msg × S) where
  -- The closure that makes frames of an item may change the socket's state `s`.
  unfoldable pub recv_logical_message :
      Orchestrator → S → Result A → Result (List Msg) × S × Orchestrator
  recv_logical_message o s (err e) = (err e, s, record o { current_recv_frames_buffer = [] })
  recv_logical_message o s (ok q_item) =
      let (frames, s') = qitem_to_app_frames q_item s in
      (ok frames, s', record o { current_recv_frames_buffer = [] })

  unfoldable pub buffer_frames : Orchestrator → S → List Msg → Result Msg × S × Orchestrator
  buffer_frames o s [] = (ok new, s, o)
  buffer_frames o s (first_frame ∷ rest) =
      (ok first_frame, s, record o { current_recv_frames_buffer = rest })

  unfoldable pub fetch : Orchestrator → S → Result A → Result Msg × S × Orchestrator
  fetch o s (err e) = (err e, s, o)
  fetch o s (ok q_item) =
      let (frames, s') = qitem_to_app_frames q_item s in buffer_frames o s' frames

  unfoldable pub recv_from : List Msg → Orchestrator → S → Result A → Result Msg × S × Orchestrator
  recv_from [] o s popped = fetch o s popped
  recv_from (frame ∷ rest) o s popped =
      (ok (mark_more (is_empty rest) frame), s, record o { current_recv_frames_buffer = rest })

  -- `recv_message`: `popped` is what the queue gives if the buffer is empty.
  unfoldable pub recv_message : Orchestrator → S → Result A → Result Msg × S × Orchestrator
  unfolding recv_from
  recv_message o s popped = recv_from o.current_recv_frames_buffer o s popped
