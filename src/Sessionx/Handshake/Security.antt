-- ===== src/Sessionx/Handshake/Security.antt =====
-- core/src/sessionx/protocol_handler/handshake.rs: command frames of the handshake, and the loop that
-- drives the security mechanism.
pub mod Ends
pub mod Granted
use rzmq.Base.{ℕ, zero, suc, Bool, not, Option, none, some, List, [], ◌∷◌, if◌then◌else◌}
use rzmq.Error.{connection_closed, protocol_violation, security_error, internal, Result, ok, err}
use rzmq.Message.{Msg, from_bytes, set_flags, command_flag, is_command, data_or_empty}
use rzmq.Security.Plain as Plain
use rzmq.Security.Plain.{
  MechanismStatus, ready, error, ProcessTokenAction, continue_waiting, produce_and_send,
  handshake_complete,
}
use rzmq.Security.Negotiate.{
  Mechanism, null_mechanism, plain_mechanism, mechanism_status, negotiate_security_mechanism,
}
use rzmq.Zmtp.Codec.{encode}
use rzmq.Zmtp.Parser.{Parsed, decode_from_buffer}
use rzmq.Zmtp.Greeting.{ZmtpGreeting}
use rzmq.Sessionx.V2.{V2Handler, NetRead, received, receive, touch}
use rzmq.Sessionx.V2.Exchange.{in_progress, identity_ready, ready_exchange}
use rzmq.Sessionx.Handshake.{HandshakeConfig, Handshake, Stepped, with_handler, enter, wrote}

-- A frame counts as activity before it is known to be a command.
unfoldable pub command_parsed : Parsed → V2Handler → ℕ → Option (Result Msg) × V2Handler
command_parsed (ok (some msg), p, rest) h now = (
  some (if not (is_command msg) then err protocol_violation else ok msg),
  touch (record h { network_read_buffer = rest; zmtp_manual_parser = p }) now,
)
command_parsed (ok none, p, rest) h now =
    (none, record h { network_read_buffer = rest; zmtp_manual_parser = p })
command_parsed (err e, p, rest) h now =
    (some (err e), record h { network_read_buffer = rest; zmtp_manual_parser = p })

-- The first half of a round: the parser is called on a buffer that is not empty.
unfoldable pub try_command : V2Handler → ℕ → Option (Result Msg) × V2Handler
unfolding command_parsed
try_command h now = elim h.network_read_buffer [
  | [] ↦ (none, h)
  | b ∷ buffer ↦ command_parsed (decode_from_buffer h.zmtp_manual_parser (b ∷ buffer)) h now
]

abbrev pub Commanded : Type 0
Commanded = Option (Result Msg) × V2Handler × List NetRead

-- One round, given what the rounds behind it come to.
unfoldable pub command_round :
    Option (Result Msg) × V2Handler → NetRead → List NetRead → Commanded → Commanded
command_round (some outcome, h) r reads next = (some outcome, h, r ∷ reads)
command_round (none, h) (now, ok []) reads next = (some (err connection_closed), h, reads)
command_round (none, h) (now, ok (b ∷ chunk)) reads next = next
command_round (none, h) (now, err e) reads next = (some (err e), h, reads)

unfoldable pub read_handshake_command_frame : V2Handler → ℕ → List NetRead → Commanded
unfolding try_command command_round
read_handshake_command_frame h now [] = let tried = try_command h now in (tried.0, tried.1, [])
read_handshake_command_frame h now (r ∷ reads) =
    let tried = try_command h now in
    let next = read_handshake_command_frame (receive tried.1 r.0 (received r.1)) r.0 reads in
    command_round tried r reads next

abbrev pub command_bytes : Msg → List ℕ
command_bytes msg = encode (set_flags msg command_flag) []

-- The methods of a `Box<dyn Mechanism>`.
unfoldable pub process_token : Mechanism → List ℕ → Result ProcessTokenAction × Mechanism
process_token null_mechanism token = (ok handshake_complete, null_mechanism)
process_token (plain_mechanism m) token =
    let (action, m') = Plain.process_token m token in (action, plain_mechanism m')

unfoldable pub produce_token : Mechanism → Result (Option (List ℕ)) × Mechanism
produce_token null_mechanism = (ok none, null_mechanism)
produce_token (plain_mechanism m) =
    let (token, m') = Plain.produce_token m in (token, plain_mechanism m')

-- The framer of the data phase is NULL's; what is left is the identity of the peer.
unfoldable pub into_framer : Mechanism → Result (Option (List ℕ))
into_framer null_mechanism = ok none
into_framer (plain_mechanism m) = Plain.into_framer m

abbrev pub with_mechanism : Handshake → Mechanism → Handshake
with_mechanism s m = record s { security_mechanism = m }

-- A mechanism that is complete is replaced by NULL.
unfoldable pub finish : Result (Option (List ℕ)) → Handshake → List NetRead → Stepped
finish (err e) s reads = (some (err e), with_mechanism s null_mechanism, reads)
finish (ok none) s reads =
    (some (ok in_progress), enter ready_exchange (with_mechanism s null_mechanism), reads)
finish (ok (some identity)) s reads = (
  some (ok (identity_ready identity)),
  enter ready_exchange (with_mechanism s null_mechanism),
  reads,
)

-- The outcome of the step; `none` where the fuel of the loop has run out.
abbrev pub Looped : Type 0
Looped = Option Stepped

-- A round of the loop ends the step or goes on with a state and the reads that are left.
abbrev pub Next : Type 0
Next = Handshake → List NetRead → Looped

module _ (write : List ℕ → Result (Unit {0})) (now : ℕ) where
  unfoldable pub send_token : List ℕ → Next → Next
  send_token token next s reads =
      let bytes = command_bytes (from_bytes token) in
      elim (write bytes) [
        | err e ↦ some (some (err e), s, reads)
        | ok _ ↦ next (wrote now bytes s) reads
      ]

  -- The reply that the mechanism announced.
  unfoldable pub reply : Result (Option (List ℕ)) → Next → Next
  unfolding send_token
  reply (err e) next s reads = some (some (err e), s, reads)
  reply (ok none) next s reads = some (some (err internal), s, reads)
  reply (ok (some token)) next s reads = send_token token next s reads

  unfoldable pub act : Result ProcessTokenAction → Next → Next
  unfolding reply
  act (err e) next s reads = some (some (err e), s, reads)
  act (ok continue_waiting) next s reads = next s reads
  act (ok handshake_complete) next s reads = next s reads
  act (ok produce_and_send) next s reads =
      let (produced, m) = produce_token s.security_mechanism in
      reply produced next (with_mechanism s m) reads

  -- A token of the peer.
  unfoldable pub commanded : Commanded → Next → Handshake → Looped
  unfolding act
  commanded (none, h, reads) next s = some (none, with_handler s h, reads)
  commanded (some (err e), h, reads) next s = some (some (err e), with_handler s h, reads)
  commanded (some (ok msg), h, reads) next s =
      let (action, m) = process_token s.security_mechanism (data_or_empty msg) in
      act action next (with_mechanism (with_handler s h) m) reads

  -- A token of the mechanism, or else one of the peer.
  unfoldable pub exchange_token : Result (Option (List ℕ)) → Next → Next
  unfolding commanded send_token
  exchange_token (err e) next s reads = some (some (err e), s, reads)
  exchange_token (ok (some token)) next s reads = send_token token next s reads
  exchange_token (ok none) next s reads =
      commanded (read_handshake_command_frame s.link.handler now reads) next s

  unfoldable pub by_status : MechanismStatus → Next → Next
  unfolding exchange_token finish
  by_status ready next s reads = some (finish (into_framer s.security_mechanism) s reads)
  by_status error next s reads = some (some (err security_error), s, reads)
  by_status _ next s reads =
      let (produced, m) = produce_token s.security_mechanism in
      exchange_token produced next (with_mechanism s m) reads

  unfoldable pub security_loop : ℕ → Next
  unfolding by_status
  security_loop zero s reads = none
  security_loop (suc fuel) s reads =
      by_status (mechanism_status s.security_mechanism) (security_loop fuel) s reads

  -- Three rounds are enough for either mechanism.
  unfoldable pub rounds : Next
  unfolding security_loop
  rounds s reads = security_loop 3 s reads

  unfoldable pub negotiated : Result Mechanism → Next
  unfolding rounds
  negotiated (err e) s reads = some (some (err e), s, reads)
  negotiated (ok m) s reads = rounds (with_mechanism s m) reads

  unfoldable pub first_entry : HandshakeConfig → Option ZmtpGreeting → Next
  unfolding negotiated
  first_entry config none s reads = some (some (err internal), s, reads)
  first_entry config (some greeting) s reads =
      negotiated (negotiate_security_mechanism s.is_server config.engine greeting) s reads

  -- The mechanism is negotiated as long as it is NULL.
  unfoldable pub perform_security_handshake_step : HandshakeConfig → Next
  unfolding first_entry rounds
  perform_security_handshake_step config s reads = elim s.security_mechanism [
    | null_mechanism ↦ first_entry config s.pending_peer_greeting s reads
    | plain_mechanism m ↦ rounds s reads
  ]
