-- ===== src/Socket/Pull.antt =====
-- core/src/socket/pull_socket.rs: the PULL socket, which is an orchestrator of whole messages.
pub mod Pipeline
use rzmq.Base.{ℕ, Bool, true, false, not, Option, none, some, List, [], ◌∷◌, if◌then◌else◌}
use rzmq.Error.{invalid_state, unsupported_option, Result, ok, err}
use rzmq.Message.{Msg}
use rzmq.Patterns.Orchestrator.{
  Orchestrator, accumulate_pipe_frame, Pushed, queue_item, recv_message, recv_logical_message,
  clear_pipe_state,
}

-- The closure of a receive leaves an item as it is.
abbrev pub q_item_frames : List Msg → Unit {0} → List Msg × Unit {0}
q_item_frames q_item s = (q_item, s)

unfoldable pub recv : Bool → Result (List Msg) → Orchestrator → Result Msg × Orchestrator
recv running popped o =
    if not running
    then (err invalid_state, o)
    else (let (answer, _, o') = recv_message q_item_frames o tt popped in (answer, o'))

unfoldable pub recv_multipart :
    Bool → Result (List Msg) → Orchestrator → Result (List Msg) × Orchestrator
recv_multipart running popped o =
    if not running
    then (err invalid_state, o)
    else (let (answer, _, o') = recv_logical_message q_item_frames o tt popped in (answer, o'))

-- A frame from a pipe, with the message that it hands to the queue, if any.
unfoldable pub handle_pipe_event :
    Pushed → ℕ → Msg → Orchestrator → Result (Unit {0}) × Option (List Msg) × Orchestrator
handle_pipe_event pushed pipe_id msg o =
    let (whole, o') = accumulate_pipe_frame o pipe_id msg in
    elim whole [ none ↦ (ok tt, none, o') | some frames ↦ (queue_item pushed, some frames, o') ]

pub pipe_detached : ℕ → Orchestrator → Orchestrator
pipe_detached pipe_read_id o = clear_pipe_state o pipe_read_id

pub send : Msg → Result (Unit {0})
send msg = err invalid_state

pub send_multipart : List Msg → Result (Unit {0})
send_multipart frames = err invalid_state

pub set_pattern_option : ℕ → List ℕ → Result (Unit {0})
set_pattern_option option value = err (unsupported_option option)

pub get_pattern_option : ℕ → Result (List ℕ)
get_pattern_option option = err (unsupported_option option)
