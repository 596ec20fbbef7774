-- ===== src/Patterns/Coordinator.antt =====
-- core/src/socket/patterns/pipe_coordinator.rs: one semaphore for each pipe, so that a message is sent
-- to it as a whole. The semaphore is of the crate tokio: what it answers is an argument.
use rzmq.Base.{ℕ, zero, suc, Bool, true, false, Option, none, some, List, nat_eq, if◌then◌else◌}
use rzmq.Base.Maps.{lookup, insert, remove}
use rzmq.Error.{host_unreachable, resource_limit_reached, timeout, Result, ok, err}

-- The pipes, each with its `is_closing`.
abbrev pub WritePipeCoordinator : Type 0
WritePipeCoordinator = List (ℕ × Bool)

unfoldable pub add_pipe : WritePipeCoordinator → ℕ → WritePipeCoordinator
add_pipe pipes pipe_id = elim (lookup pipe_id pipes) [
  | none ↦ insert pipe_id false pipes
  | some closing ↦ pipes
]

-- The state of the pipe that goes is marked as closing.
unfoldable pub remove_pipe : WritePipeCoordinator → ℕ → Option Bool × WritePipeCoordinator
remove_pipe pipes pipe_id = elim (lookup pipe_id pipes) [
  | none ↦ (none, pipes)
  | some closing ↦ (some true, remove pipe_id pipes)
]

-- What the semaphore answers: a permit, that it is closed, or none within the time that is given.
pub data Acquired : Type 0 where
  permit closed elapsed : Acquired

-- `none`: without a limit the call waits on.
unfoldable pub permit_result : Option ℕ → Acquired → Option (Result (Unit {0}))
permit_result sndtimeo permit = some (ok tt)
permit_result (some zero) closed = some (err resource_limit_reached)
permit_result sndtimeo closed = some (err host_unreachable)
permit_result (some zero) elapsed = some (err resource_limit_reached)
permit_result (some (suc duration)) elapsed = some (err timeout)
permit_result none elapsed = none

unfoldable pub acquire_send_permit :
    WritePipeCoordinator → ℕ → Option ℕ → Acquired → Option (Result (Unit {0}))
acquire_send_permit pipes pipe_id sndtimeo acquired = elim (lookup pipe_id pipes) [
  | none ↦ some (err host_unreachable)
  | some closing ↦ if closing then some (err host_unreachable) else permit_result sndtimeo acquired
]
