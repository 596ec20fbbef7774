-- ===== src/Sessionx/Heartbeat.antt =====
-- core/src/sessionx/protocol_handler/heartbeat.rs: PING and PONG. An `Instant` is a number of ticks
-- of the monotonic clock, a `Duration` a number of ticks, and `Instant::now()` an argument. The write
-- of a PING is a parameter, with what it returned.
pub mod Liveness
use rzmq.Base.{ℕ, ◌+◌, ◌-◌, Bool, true, false, Option, none, some, List, [], leb, if◌then◌else◌}
use rzmq.Error.{ZmqError, protocol_violation, Result, ok, err}
use rzmq.Message.{Msg}
use rzmq.Zmtp.Greeting.{NegotiatedVersion, is_v2}
use rzmq.Zmtp.Command.{
  ZmtpCommand, ping, pong, ready, error, unknown, parse, create_ping, create_pong,
}

pub record ZmtpHeartbeatState : Type 0 where
  pub last_activity_time : ℕ
  pub last_ping_sent_time : Option ℕ
  pub waiting_for_pong : Bool
  pub ivl : Option ℕ
  pub timeout : ℕ

abbrev pub new_heartbeat : Option ℕ → ℕ → ℕ → ZmtpHeartbeatState
new_heartbeat ivl timeout now = record {
  last_activity_time = now;
  last_ping_sent_time = none;
  waiting_for_pong = false;
  ivl = ivl;
  timeout = timeout;
}

pub record_activity : ZmtpHeartbeatState → ℕ → ZmtpHeartbeatState
record_activity s now = record s { last_activity_time = now }

-- The two readings of the clock are two arguments.
pub ping_sent : ZmtpHeartbeatState → ℕ → ℕ → ZmtpHeartbeatState
ping_sent s sent active = record s {
  last_ping_sent_time = some sent;
  waiting_for_pong = true;
  last_activity_time = active;
}

pub pong_received : ZmtpHeartbeatState → ZmtpHeartbeatState
pong_received s = record s { waiting_for_pong = false; last_ping_sent_time = none }

-- `now.duration_since(last) >= interval`, which counts an instant ahead of `now` as no time.
idle_for : Option ℕ → ℕ → ℕ → Bool
idle_for none last now = false
idle_for (some interval) last now = leb interval (now - last)

pub should_send_ping : ZmtpHeartbeatState → ℕ → Bool
unfolding idle_for
should_send_ping s now =
    if s.waiting_for_pong then false else idle_for s.ivl s.last_activity_time now

late : Option ℕ → ℕ → ℕ → Bool
late none timeout now = false
late (some sent) timeout now = leb timeout (now - sent)

-- `check_pong_timeout_impl` is this function.
pub has_pong_timed_out : ZmtpHeartbeatState → ℕ → Bool
unfolding late
has_pong_timed_out s now =
    if s.waiting_for_pong then late s.last_ping_sent_time s.timeout now else false

deadline : Option ℕ → ℕ → Option ℕ
deadline none timeout = none
deadline (some sent) timeout = some (sent + timeout)

pub get_pong_deadline : ZmtpHeartbeatState → Option ℕ
unfolding deadline
get_pong_deadline s = if s.waiting_for_pong then deadline s.last_ping_sent_time s.timeout else none

react : Option ZmtpCommand → ZmtpHeartbeatState → Result (Option Msg) × ZmtpHeartbeatState
react (some (ping context)) s = (ok (some (create_pong context)), s)
react (some (pong context)) s = (ok none, pong_received s)
react (some error) s = (err protocol_violation, s)
react (some (ready r)) s = (ok none, s)
react (some (unknown body)) s = (ok none, s)
react none s = (err protocol_violation, s)

-- `process_heartbeat_command_impl`
pub process_heartbeat_command :
    (List ℕ → Bool) → ZmtpHeartbeatState → Msg → Result (Option Msg) × ZmtpHeartbeatState
unfolding react
process_heartbeat_command utf8 s cmd_msg = react (parse utf8 cmd_msg) s

abbrev pub speaks_v2 : Option NegotiatedVersion → Bool
speaks_v2 none = false
speaks_v2 (some v) = is_v2 v

-- The write and what follows it.
after_write : Result Bool → ZmtpHeartbeatState → ℕ → ℕ → Result (Option Msg) × ZmtpHeartbeatState
after_write (err e) s sent active = (err e, s)
after_write (ok last_part) s sent active = (ok (some (create_ping 0 [])), ping_sent s sent active)

-- `try_send_ping_impl`: the message that was written, if any, and the state.
pub try_send_ping :
    Option NegotiatedVersion
    → ZmtpHeartbeatState
    → (Msg → Result Bool)
    → ℕ
    → ℕ
    → ℕ
    → Result (Option Msg) × ZmtpHeartbeatState
unfolding after_write
try_send_ping negotiated_version s write_data_msg now sent active =
    if speaks_v2 negotiated_version
    then (ok none, s)
    else if should_send_ping s now
    then after_write (write_data_msg (create_ping 0 [])) s sent active
    else (ok none, s)
