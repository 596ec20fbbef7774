-- ===== src/Sessionx/V2/Exchange.antt =====
-- core/src/sessionx/protocol_handler/v2_path.rs: the greeting of a ZMTP/2.0 peer and the exchange of
-- identities. The stream is there; the write of our identity frame, with its flush, has an outcome and
-- a clock reading. What a failed write put on the wire is left open.
pub mod Complete
use rzmq.Base.{ℕ, Option, none, some, List, [], ◌∷◌, ◌++◌, ltb, if◌then◌else◌, length, drop, get_or}
use rzmq.Error.{ZmqError, connection_closed, Result, ok, err}
use rzmq.Zmtp.Greeting.{v2_greeting_length, socket_type_name_from_code}
use rzmq.Sessionx.V2.{
  V2Handler, NetRead, Waited, received, receive, touch, read_v2_identity_frame,
  validate_v2_socket_type_compat,
}
use Prim.Native.String.{String}

-- A byte of the greeting, or waiting for it.
abbrev pub Greeted : Type 0
Greeted = Option (Result ℕ) × V2Handler × List NetRead

abbrev pub take_greeting : V2Handler → List NetRead → Greeted
take_greeting h reads = (
  some (ok (get_or h.network_read_buffer 11 0)),
  record h { network_read_buffer = drop v2_greeting_length h.network_read_buffer },
  reads,
)

-- One round of the loop, given what the rounds behind it come to.
abbrev pub greeting_round : V2Handler → NetRead → List NetRead → Greeted → Greeted
greeting_round h (now, ok []) reads next = (some (err connection_closed), h, reads)
greeting_round h (now, ok (b ∷ chunk)) reads next = next
greeting_round h (now, err e) reads next = (some (err e), h, reads)

unfoldable pub consume_peer_v2_greeting : V2Handler → List NetRead → Greeted
consume_peer_v2_greeting h [] =
    if ltb (length h.network_read_buffer) v2_greeting_length
    then (none, h, [])
    else take_greeting h []
consume_peer_v2_greeting h (r ∷ reads) =
    let next = consume_peer_v2_greeting (receive h r.0 (received r.1)) reads in
    if ltb (length h.network_read_buffer) v2_greeting_length
    then greeting_round h r reads next
    else take_greeting h (r ∷ reads)

-- Without the text of a protocol error.
pub data ZmtpHandshakeProgress : Type 0 where
  in_progress : ZmtpHandshakeProgress
  identity_ready : List ℕ → ZmtpHandshakeProgress
  handshake_complete protocol_error : ZmtpHandshakeProgress
  fatal_error : ZmqError → ZmtpHandshakeProgress

pub data HandshakeSubPhase : Type 0 where
  greeting_exchange waiting_for_peer_revision waiting_for_greeting : HandshakeSubPhase
  security_handshake ready_exchange client_sent_ready : HandshakeSubPhase
  server_received_ready v2_identity_exchange done : HandshakeSubPhase

-- The handler, its handshake state and what it has written.
pub record V2Session : Type 0 where
  pub handler : V2Handler
  pub peer_socket_type : Option String
  pub peer_identity_from_ready : Option (List ℕ)
  pub sub_phase : HandshakeSubPhase
  pub output : List ℕ

abbrev pub Exchanged : Type 0
Exchanged = Option (Result ZmtpHandshakeProgress) × V2Session × List NetRead

abbrev pub noted : List ℕ → Option (List ℕ) → Option (List ℕ)
noted [] before = before
noted (b ∷ identity) before = some (b ∷ identity)

abbrev pub progress : Option (List ℕ) → ZmtpHandshakeProgress
progress none = handshake_complete
progress (some identity) = identity_ready identity

-- What follows the reading of the identity.
abbrev pub after_identity : Waited → V2Session → Exchanged
after_identity (none, h, reads) s = (none, record s { handler = h }, reads)
after_identity (some (err e), h, reads) s = (some (err e), record s { handler = h }, reads)
after_identity (some (ok identity), h, reads) s = (
  some (ok (progress (noted identity s.peer_identity_from_ready))),
  record s { handler = h; peer_identity_from_ready = none; sub_phase = done },
  reads,
)

-- `send_empty_identity_frame_v2`.
abbrev pub send_empty_identity_frame : V2Session → ℕ → V2Session
send_empty_identity_frame s sent = record s {
  handler = touch s.handler sent;
  output = s.output ++ (0 ∷ 0 ∷ []);
}

abbrev pub after_send : Result (Unit {0}) → ℕ → V2Session → List NetRead → Exchanged
after_send (err e) sent s reads = (some (err e), s, reads)
after_send (ok _) sent s reads =
    let s' = send_empty_identity_frame s sent in
    after_identity (read_v2_identity_frame s'.handler sent reads) s'

abbrev pub named : Option String → V2Session → V2Session
named none s = s
named (some name) s = record s { peer_socket_type = some name }

abbrev pub after_pairing :
    Result (Unit {0}) → ℕ → Result (Unit {0}) → ℕ → V2Session → List NetRead → Exchanged
after_pairing (err e) byte written sent s reads = (some (err e), s, reads)
after_pairing (ok _) byte written sent s reads =
    after_send written sent (named (socket_type_name_from_code byte) s) reads

abbrev pub after_greeting : Greeted → String → Result (Unit {0}) → ℕ → V2Session → Exchanged
after_greeting (none, h, reads) own written sent s = (none, record s { handler = h }, reads)
after_greeting (some (err e), h, reads) own written sent s =
    (some (err e), record s { handler = h }, reads)
after_greeting (some (ok byte), h, reads) own written sent s =
    after_pairing (validate_v2_socket_type_compat own byte) byte written sent
      (record s { handler = h }) reads

unfoldable pub exchange_v2_identity :
    String → Result (Unit {0}) → ℕ → V2Session → List NetRead → Exchanged
exchange_v2_identity own written sent s reads =
    after_greeting (consume_peer_v2_greeting s.handler reads) own written sent s
