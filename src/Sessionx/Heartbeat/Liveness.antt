-- ===== src/Sessionx/Heartbeat/Liveness.antt =====
-- Histories of core/src/sessionx/protocol_handler/heartbeat.rs.
use rzmq.Base.{
  ℕ, ◌+◌, ◌-◌, ◌≤◌, ◌<◌, ◌≡◌, ◌≢◌, ◌↔◌, refl, inl, inr, Bool, true, false, Bool-cases, Option, none,
  some, List, [], ◌∷◌, leb, leb→le, if◌then◌else◌, All, arith,
}
use rzmq.Error.{Result, ok, err}
use rzmq.Message.{Msg}
use rzmq.Zmtp.Greeting.{NegotiatedVersion}
use rzmq.Zmtp.Command.{
  ZmtpCommand, parse, create_ping, create_pong, ping, pong, ready, error, unknown,
}
use rzmq.Zmtp.Command.Parse.{parse-create_ping}
use rzmq.Sessionx.Heartbeat.{
  ZmtpHeartbeatState, new_heartbeat, record_activity, ping_sent, pong_received, should_send_ping,
  late, has_pong_timed_out, deadline, get_pong_deadline, react, process_heartbeat_command,
  speaks_v2, after_write, try_send_ping,
}

-- What happens to the heartbeat of a session.
pub data HeartbeatEvent : Type 0 where
  activity : ℕ → HeartbeatEvent
  command : Msg → HeartbeatEvent
  tick : (Msg → Result Bool) → ℕ → ℕ → ℕ → HeartbeatEvent

-- A PING has been sent that no PONG has answered, or none is on record.
abbrev Shape : Bool → Option ℕ → Type 0
Shape true (some sent) = Unit {0}
Shape true none = ⊥
Shape false (some sent) = ⊥
Shape false none = Unit {0}

abbrev Consistent : ℕ → ZmtpHeartbeatState → Type 0
Consistent timeout s = (s.timeout ≡ timeout) × Shape s.waiting_for_pong s.last_ping_sent_time

module _ (utf8 : List ℕ → Bool) (version : Option NegotiatedVersion) where
  unfoldable pub step : ZmtpHeartbeatState → HeartbeatEvent → ZmtpHeartbeatState
  step s (activity now) = record_activity s now
  step s (command msg) = (process_heartbeat_command utf8 s msg).1
  step s (tick write now sent active) = (try_send_ping version s write now sent active).1

  -- The state after the events, of which the last comes first.
  unfoldable pub run : ZmtpHeartbeatState → List HeartbeatEvent → ZmtpHeartbeatState
  run s [] = s
  run s (e ∷ past) = step (run s past) e

  command-Consistent :
      (timeout : ℕ) (s : ZmtpHeartbeatState) (c : Option ZmtpCommand)
      → Consistent timeout s
      → Consistent timeout (react c s).1
  unfolding react pong_received
  command-Consistent timeout s (some (pong context)) (h, shape) = (h, tt)
  command-Consistent timeout s (some (ping context)) h = h
  command-Consistent timeout s (some error) h = h
  command-Consistent timeout s (some (ready r)) h = h
  command-Consistent timeout s (some (unknown body)) h = h
  command-Consistent timeout s none h = h

  write-Consistent :
      (timeout : ℕ) (s : ZmtpHeartbeatState) (r : Result Bool) (sent active : ℕ)
      → Consistent timeout s
      → Consistent timeout (after_write r s sent active).1
  unfolding after_write ping_sent
  write-Consistent timeout s (ok last_part) sent active (h, shape) = (h, tt)
  write-Consistent timeout s (err e) sent active h = h

  tick-Consistent :
      (timeout : ℕ) (s : ZmtpHeartbeatState) (write : Msg → Result Bool) (now sent active : ℕ)
      → Consistent timeout s
      → Consistent timeout (try_send_ping version s write now sent active).1
  unfolding try_send_ping
  tick-Consistent timeout s write now sent active h = elim (Bool-cases (speaks_v2 version)) [
    | inl old ↦ rw old h
    | inr current ↦ rw current (elim (Bool-cases (should_send_ping s now)) [
      | inl due ↦ rw due (write-Consistent timeout s (write (create_ping 0 [])) sent active h)
      | inr early ↦ rw early h
    ])
  ]

  run-Consistent :
      (ivl : Option ℕ) (timeout start : ℕ) (past : List HeartbeatEvent)
      → Consistent timeout (run (new_heartbeat ivl timeout start) past)
  unfolding run step record_activity process_heartbeat_command
  run-Consistent ivl timeout start [] = (refl, tt)
  run-Consistent ivl timeout start (activity now ∷ past) = run-Consistent ivl timeout start past
  run-Consistent ivl timeout start (command msg ∷ past) =
      command-Consistent timeout _ (parse utf8 msg) (run-Consistent ivl timeout start past)
  run-Consistent ivl timeout start (tick write now sent active ∷ past) =
      tick-Consistent timeout _ write now sent active (run-Consistent ivl timeout start past)

-- An event that brings no PONG.
abbrev pub NotPong : (List ℕ → Bool) → HeartbeatEvent → Type 0
NotPong utf8 (command msg) = (context : List ℕ) → parse utf8 msg ≢ some (pong context)
NotPong utf8 (activity now) = Unit {0}
NotPong utf8 (tick write now sent active) = Unit {0}

abbrev Waits : ℕ → ℕ → ZmtpHeartbeatState → Type 0
Waits sent timeout s =
    (s.waiting_for_pong ≡ true) × (s.last_ping_sent_time ≡ some sent) × (s.timeout ≡ timeout)

command-Waits :
    (sent timeout : ℕ) (s : ZmtpHeartbeatState) (c : Option ZmtpCommand)
    → ((context : List ℕ) → c ≢ some (pong context))
    → Waits sent timeout s
    → Waits sent timeout (react c s).1
unfolding react
command-Waits sent timeout s (some (pong context)) other h = absurd (other context refl)
command-Waits sent timeout s (some (ping context)) other h = h
command-Waits sent timeout s (some error) other h = h
command-Waits sent timeout s (some (ready r)) other h = h
command-Waits sent timeout s (some (unknown body)) other h = h
command-Waits sent timeout s none other h = h

-- No second PING is sent while one waits.
tick-Waits :
    (version : Option NegotiatedVersion) (s : ZmtpHeartbeatState) (write : Msg → Result Bool)
    (now sent active : ℕ)
    → s.waiting_for_pong ≡ true
    → try_send_ping version s write now sent active ≡ (ok none, s)
unfolding try_send_ping should_send_ping
tick-Waits version s write now sent active h = elim (Bool-cases (speaks_v2 version)) [
  | inl old ↦ rw old refl
  | inr current ↦ simp (current, h) refl
]

tick_keeps :
    (version : Option NegotiatedVersion) (sent timeout : ℕ) (s : ZmtpHeartbeatState)
    (write : Msg → Result Bool) (now at active : ℕ)
    → Waits sent timeout s
    → Waits sent timeout (try_send_ping version s write now at active).1
tick_keeps version sent timeout s write now at active h =
    rw (tick-Waits version s write now at active h.0) h

run-Waits :
    (utf8 : List ℕ → Bool) (version : Option NegotiatedVersion) (sent timeout : ℕ)
    (s : ZmtpHeartbeatState) (past : List HeartbeatEvent)
    → All (NotPong utf8) past
    → Waits sent timeout s
    → Waits sent timeout (run utf8 version s past)
unfolding run step record_activity process_heartbeat_command
run-Waits utf8 version sent timeout s [] quiet h = h
run-Waits utf8 version sent timeout s (activity now ∷ past) (q, quiet) h =
    run-Waits utf8 version sent timeout s past quiet h
run-Waits utf8 version sent timeout s (command msg ∷ past) (q, quiet) h =
    command-Waits sent timeout _ (parse utf8 msg) q
      (run-Waits utf8 version sent timeout s past quiet h)
run-Waits utf8 version sent timeout s (tick write now at active ∷ past) (q, quiet) h =
    tick_keeps version sent timeout _ write now at active
      (run-Waits utf8 version sent timeout s past quiet h)

-- After a PING, if no PONG comes in, then whatever else happens, other traffic of the peer included,
-- the peer is late from the timeout on.
pub silent_peer_times_out :
    (utf8 : List ℕ → Bool) (version : Option NegotiatedVersion) (s : ZmtpHeartbeatState)
    (sent active now : ℕ) (past : List HeartbeatEvent)
    → All (NotPong utf8) past
    → sent + s.timeout ≤ now
    → has_pong_timed_out (run utf8 version (ping_sent s sent active) past) now ≡ true
unfolding has_pong_timed_out late ping_sent
silent_peer_times_out utf8 version s sent active now past quiet h =
    let (w, o, t) =
      run-Waits utf8 version sent s.timeout (ping_sent s sent active) past quiet
        (refl, refl, refl) in
    ground (arith, w, o, t)

late_from_deadline :
    (timeout now : ℕ) (s : ZmtpHeartbeatState)
    → 0 < timeout
    → Consistent timeout s
    → ((has_pong_timed_out s now ≡ true) ↔ ((d : ℕ) × (get_pong_deadline s ≡ some d) × (d ≤ now)))
      × ((s.waiting_for_pong ≡ true) ↔ ((d : ℕ) × (get_pong_deadline s ≡ some d)))
unfolding has_pong_timed_out get_pong_deadline late deadline
late_from_deadline timeout now s positive (same, shape) =
    by_shape s.waiting_for_pong s.last_ping_sent_time shape
  where
    reached :
        (sent d : ℕ)
        → some (sent + s.timeout) ≡ some d
        → d ≤ now
        → leb s.timeout (now - sent) ≡ true
    reached sent d e f = let q : sent + s.timeout ≡ d = cc in ground (arith, q)

    by_shape :
        (w : Bool) (o : Option ℕ)
        → Shape w o
        → (((if w then late o s.timeout now else false) ≡ true)
            ↔ ((d : ℕ) × ((if w then deadline o s.timeout else none) ≡ some d) × (d ≤ now)))
          × ((w ≡ true) ↔ ((d : ℕ) × ((if w then deadline o s.timeout else none) ≡ some d)))
    by_shape true (some sent) h = (
      (
        (λ e. (sent + s.timeout, refl, omega (arith, same, leb→le s.timeout (now - sent) e))),
        (λ (d, e, f). reached sent d e f),
      ),
      ((λ e. (sent + s.timeout, refl)), (λ e. refl)),
    )
    by_shape true none h = elim h [ ]
    by_shape false (some sent) h = elim h [ ]
    by_shape false none h =
        (((λ e. absurd cc), (λ (d, e, f). absurd cc)), ((λ e. absurd cc), (λ (d, e). absurd cc)))

-- With a timeout that is not zero, whatever has happened: the peer is late exactly from the deadline
-- on, and there is a deadline exactly while a PONG is awaited.
pub deadline_iff :
    (utf8 : List ℕ → Bool) (version : Option NegotiatedVersion) (ivl : Option ℕ)
    (timeout start now : ℕ) (past : List HeartbeatEvent)
    → 0 < timeout
    → let s = run utf8 version (new_heartbeat ivl timeout start) past in
      ((has_pong_timed_out s now ≡ true) ↔ ((d : ℕ) × (get_pong_deadline s ≡ some d) × (d ≤ now)))
      × ((s.waiting_for_pong ≡ true) ↔ ((d : ℕ) × (get_pong_deadline s ≡ some d)))
deadline_iff utf8 version ivl timeout start now past positive =
    late_from_deadline timeout now _ positive (run-Consistent utf8 version ivl timeout start past)

-- A PING is answered with a PONG of the same context, and the PONG ends the wait for it: afterwards
-- no deadline is left.
pub ping_pong :
    (utf8 : List ℕ → Bool) (ttl : ℕ) (context : List ℕ) (here there : ZmtpHeartbeatState)
    → (process_heartbeat_command utf8 there (create_ping ttl context)
        ≡ (ok (some (create_pong context)), there))
      × (process_heartbeat_command utf8 here (create_pong context) ≡ (ok none, pong_received here))
      × (get_pong_deadline (pong_received here) ≡ none)
unfolding process_heartbeat_command react pong_received get_pong_deadline
ping_pong utf8 ttl context here there =
    let (as_ping, as_pong) = parse-create_ping utf8 ttl context in
    (rw as_ping refl, rw as_pong refl, refl)
