-- ===== src/Tests/Sessionx.antt =====
-- Heartbeats and ZMTP/2.0 peers of core/src/sessionx/protocol_handler.
use rzmq.Base.{
  bytes_eq, Option, refl, ℕ, ◌≡◌, Bool, true, false, none, some, List, [], ◌∷◌, ◌++◌, arith,
}
use rzmq.Error.{Result, ok}
use rzmq.Message.{Msg}
use rzmq.Sessionx.Heartbeat.{ZmtpHeartbeatState, new_heartbeat, ping_sent, has_pong_timed_out}
use rzmq.Sessionx.Heartbeat.Liveness.{HeartbeatEvent, activity, tick, run, silent_peer_times_out}
use rzmq.Base.Int.{pos}
use rzmq.Zmtp.Codec.{encode}
use rzmq.Zmtp.Flags.{frame_flags, msg_flags}
use rzmq.Zmtp.Greeting.{socket_type_name_from_code, socket_type_code}
use rzmq.Sessionx.V2.{validate_v2_socket_type_compat}
use rzmq.Zmtp.Greeting.{encode_v2_full, encode_v2_tail}
use rzmq.Sessionx.V2.{pairing_ok}
use rzmq.Sessionx.V2.Exchange.{
  exchange_v2_identity, in_progress, waiting_for_peer_revision, security_handshake, identity_ready,
  ZmtpHandshakeProgress,
}
use rzmq.Sessionx.Handshake.{HandshakeConfig, Handshake, Stepped, new_handshake}
use rzmq.Sessionx.Handshake.Security.{
  Looped, perform_security_handshake_step, read_handshake_command_frame, rounds, first_entry,
  negotiated, security_loop, by_status, exchange_token, commanded, act, reply, send_token, finish,
  into_framer, process_token, produce_token, try_command, command_parsed, command_round,
}
use rzmq.Sessionx.Handshake.Security.Ends.{rounds_end}
use rzmq.Sessionx.Handshake.Security.Granted.{Verified, phase_of, security_granted}
use rzmq.Security.Plain as Plain
use rzmq.Zmtp.Parser.{decode_from_buffer, decode_in, decode_header, decode_body}
use rzmq.Security.Plain.{new_plain}
use rzmq.Security.Negotiate.{
  PlainMechanismSocketOptions, engine_config, plain_mechanism, plain_name,
  negotiate_security_mechanism, negotiate_among, known_mechanisms, initialize_plain,
  mechanism_status,
}
use rzmq.Sessionx.Handshake.Greet.{prelude, send_signature, wait_for_peer_revision}
use rzmq.Sessionx.V2.Exchange.{ready_exchange}
use rzmq.Sessionx.Handshake.Bypass.{Downgraded, always, plain_bypassed}
use rzmq.Sessionx.V2.Exchange.Complete.{Completed, new_session, exchange_completes}

abbrev utf8 : List ℕ → Bool
utf8 bytes = true

abbrev started : ZmtpHeartbeatState
started = new_heartbeat (some 10) 30 0

abbrev written : Msg → Result Bool
written m = ok true

-- Traffic and a tick after the PING, of which the tick comes first in the list.
abbrev traffic : List HeartbeatEvent
traffic = tick written 25 25 25 ∷ activity 24 ∷ []

silent_peer_times_out_example :
    has_pong_timed_out (run utf8 none (ping_sent started 12 12) traffic) 42 ≡ true
silent_peer_times_out_example =
    silent_peer_times_out utf8 none started 12 12 42 traffic (tt, (tt, tt)) (omega arith)

-- The frame and the first byte of the next one, in three reads.
abbrev reads : List (ℕ × Result (List ℕ))
reads = (5, ok (2 ∷ [])) ∷ (6, ok (65 ∷ [])) ∷ (7, ok (66 ∷ 1 ∷ [])) ∷ []

-- A PUSH peer: the rest of its greeting and a part of its identity frame, in two reads.
abbrev push_reads : List (ℕ × Result (List ℕ))
push_reads = (5, ok (0x7f ∷ 1 ∷ [])) ∷ (6, ok (8 ∷ 0 ∷ 1 ∷ 65 ∷ 1 ∷ [])) ∷ []

abbrev signature : List ℕ
signature = 0xff ∷ 0 ∷ 0 ∷ 0 ∷ 0 ∷ 0 ∷ 0 ∷ 0 ∷ 0 ∷ []

exchange_completes_example :
    Completed
      (exchange_v2_identity "PULL"
        (ok tt)
        4
        (new_session signature (pos 9) started (7 ∷ []))
        push_reads)
      (65 ∷ [])
      (some "PUSH")
      (7 ∷ 0 ∷ 0 ∷ [])
      (1 ∷ [])
unfolding encode frame_flags encode_v2_full encode_v2_tail socket_type_name_from_code
    validate_v2_socket_type_compat pairing_ok
exchange_completes_example =
    exchange_completes "PULL" "PUSH" 8 (65 ∷ []) (1 ∷ []) signature (7 ∷ []) (pos 9) started 4
      push_reads refl refl (omega arith) refl (tt, (tt, tt)) refl

-- A PULL server that wants PLAIN, and a PUSH peer that speaks ZMTP/2.0 only.
abbrev plain_config : HandshakeConfig
plain_config = record {
  socket_type_name = "PULL";
  allow_zmtp2 = true;
  routing_id = none;
  engine = record {
    security_enabled = true;
    use_plain = true;
    plain_username_for_engine = some (1 ∷ []);
    plain_password_for_engine = some (2 ∷ []);
  };
}

abbrev v2_reads : List (ℕ × Result (List ℕ))
v2_reads = (4, ok signature) ∷ push_reads

plain_bypassed_example :
    let (answer, s, left) = send_signature always 3 (new_handshake true (pos 9) started) v2_reads in
    (answer ≡ some (ok in_progress))
    × (s.link.sub_phase ≡ waiting_for_peer_revision)
    × Downgraded plain_config
        (wait_for_peer_revision always 4 plain_config s left)
        5
        (65 ∷ [])
        (some "PUSH")
        (prelude ++ (7 ∷ 0 ∷ 0 ∷ []))
        (1 ∷ [])
unfolding encode frame_flags encode_v2_full encode_v2_tail socket_type_name_from_code
    socket_type_code validate_v2_socket_type_compat pairing_ok
plain_bypassed_example =
    plain_bypassed plain_config true (pos 9) started 3 4 5 7 8 "PUSH" (65 ∷ []) (1 ∷ []) v2_reads
      refl refl refl refl (omega arith) refl (tt, (tt, (tt, tt))) refl

abbrev plain_options : PlainMechanismSocketOptions
plain_options = record {
  enabled = true;
  server_role = some true;
  username = some (117 ∷ []);
  password = some (112 ∷ 119 ∷ []);
}

abbrev plain_server : HandshakeConfig
plain_server = record plain_config { engine = engine_config plain_options }

abbrev greeted : Handshake
greeted =
    let s = new_handshake true (pos 100) started in
    record s {
      link = record s.link { sub_phase = security_handshake };
      pending_peer_greeting =
          some (record { version = (3, 1); mechanism = plain_name; as_server = false });
    }

-- The command frame with HELLO, in two reads.
abbrev hello_reads : List (ℕ × Result (List ℕ))
hello_reads =
    (4, ok (4 ∷ 11 ∷ 5 ∷ 72 ∷ 69 ∷ 76 ∷ [])) ∷ (5, ok (76 ∷ 79 ∷ 1 ∷ 117 ∷ 2 ∷ 112 ∷ 119 ∷ [])) ∷ []

rounds_end_example :
    (r : Stepped) × (rounds always 3
        (record greeted { security_mechanism = plain_mechanism (new_plain true) })
        hello_reads
      ≡ some r)
rounds_end_example =
    rounds_end always 3 (record greeted { security_mechanism = plain_mechanism (new_plain true) })
      hello_reads

-- The answer and what is written: WELCOME.
abbrev outcome : Looped → Option (Option (Result ZmtpHandshakeProgress)) × List ℕ
outcome none = (none, [])
outcome (some (answer, s, left)) = (some answer, s.link.output)

server_welcomes :
    outcome (perform_security_handshake_step always 3 plain_server greeted hello_reads) ≡ (
      some (some (ok (identity_ready (117 ∷ [])))),
      4 ∷ 8 ∷ 7 ∷ 87 ∷ 69 ∷ 76 ∷ 67 ∷ 79 ∷ 77 ∷ 69 ∷ [],
    )
unfolding perform_security_handshake_step first_entry negotiated rounds security_loop by_status
    exchange_token commanded act reply send_token finish into_framer process_token produce_token
    read_handshake_command_frame try_command command_parsed command_round Plain.process_token
    Plain.produce_token Plain.produce_in Plain.server_process Plain.verify Plain.expects
    Plain.parse_hello_body Plain.parse_password Plain.into_framer Plain.framer_identity new_plain
    Plain.set_server_expected_credentials negotiate_security_mechanism negotiate_among
    known_mechanisms engine_config initialize_plain mechanism_status encode frame_flags
    decode_from_buffer decode_in decode_header decode_body msg_flags bytes_eq
server_welcomes = refl

server_goes_on :
    phase_of (perform_security_handshake_step always 3 plain_server greeted hello_reads)
    ≡ some ready_exchange
unfolding perform_security_handshake_step first_entry negotiated rounds security_loop by_status
    exchange_token commanded act reply send_token finish into_framer process_token produce_token
    read_handshake_command_frame try_command command_parsed command_round Plain.process_token
    Plain.produce_token Plain.produce_in Plain.server_process Plain.verify Plain.expects
    Plain.parse_hello_body Plain.parse_password Plain.into_framer Plain.framer_identity new_plain
    Plain.set_server_expected_credentials negotiate_security_mechanism negotiate_among
    known_mechanisms engine_config initialize_plain mechanism_status encode frame_flags
    decode_from_buffer decode_in decode_header decode_body msg_flags bytes_eq
server_goes_on = refl

security_granted_example :
    Verified plain_options
      (read_handshake_command_frame greeted.link.handler 3 hello_reads).0
      (perform_security_handshake_step always 3 plain_server greeted hello_reads)
security_granted_example =
    security_granted plain_options always 3 plain_server greeted hello_reads refl refl refl refl
      refl server_goes_on
