-- ===== src/Sessionx/V2.antt =====
-- core/src/sessionx/protocol_handler/v2_path.rs: the guards on a ZMTP/2.0 peer, and the loop that
-- reads its identity frame. What the network delivers is a list of reads, each with the clock
-- reading behind it, which also stands for those of the parsing that follows; the deadline, a broken
-- connection and a missing stream are reads that fail.
pub mod Pairing
pub mod Identity
pub mod Peer
pub mod Exchange
use rzmq.Base.{
  ℕ, Bool, true, false, not, ◌&&◌, ◌||◌, Option, none, some, List, [], ◌∷◌, ◌++◌, ltb, ◌==◌,
  if◌then◌else◌,
}
use rzmq.Error.{connection_closed, protocol_violation, Result, ok, err}
use rzmq.Message.{Msg, data_or_empty, size, is_more, is_command}
use rzmq.Zmtp.Greeting.{
  v2_socket_type_pair, v2_socket_type_pub, v2_socket_type_sub, v2_socket_type_req,
  v2_socket_type_rep, v2_socket_type_dealer, v2_socket_type_router, v2_socket_type_pull,
  v2_socket_type_push, socket_type_name_from_code,
}
use rzmq.Zmtp.Parser.{ZmtpManualParser, Parsed, decode_from_buffer}
use rzmq.Sessionx.Heartbeat.{ZmtpHeartbeatState, record_activity}
use text.Mathlib.Text.{◌==◌ as str_eq}
use Prim.Native.String.{String}

-- The `match` on the local name and the byte of the peer.
unfoldable pub pairing_ok : String → ℕ → Bool
pairing_ok own peer =
    (str_eq own "PULL" && (peer == v2_socket_type_push))
    || (str_eq own "PUSH" && (peer == v2_socket_type_pull))
    || (str_eq own "PUB" && (peer == v2_socket_type_sub))
    || (str_eq own "SUB" && (peer == v2_socket_type_pub))
    || (str_eq own "REQ" && (peer == v2_socket_type_rep))
    || (str_eq own "REP" && (peer == v2_socket_type_req))
    || (str_eq own "REQ" && (peer == v2_socket_type_router))
    || (str_eq own "ROUTER" && (peer == v2_socket_type_req))
    || (str_eq own "REP" && (peer == v2_socket_type_dealer))
    || (str_eq own "DEALER" && (peer == v2_socket_type_rep))
    || (str_eq own "DEALER" && (peer == v2_socket_type_router))
    || (str_eq own "ROUTER" && (peer == v2_socket_type_dealer))
    || (str_eq own "DEALER" && (peer == v2_socket_type_dealer))
    || (str_eq own "ROUTER" && (peer == v2_socket_type_router))
    || (str_eq own "PAIR" && (peer == v2_socket_type_pair))

unfoldable pub pairing_of_known : Option String → Bool → Result (Unit {0})
pairing_of_known none paired = err protocol_violation
pairing_of_known (some name) paired = if not paired then err protocol_violation else ok tt

unfoldable pub validate_v2_socket_type_compat : String → ℕ → Result (Unit {0})
unfolding pairing_of_known
validate_v2_socket_type_compat own peer =
    pairing_of_known (socket_type_name_from_code peer) (pairing_ok own peer)

unfoldable pub enforce_v2_identity_constraints : Msg → Result (Unit {0})
enforce_v2_identity_constraints msg =
    if is_command msg
    then err protocol_violation
    else if is_more msg
    then err protocol_violation
    else if ltb 255 (size msg)
    then err protocol_violation
    else ok tt

-- The fields of the protocol handler that the loop reads and writes.
pub record V2Handler : Type 0 where
  pub network_read_buffer : List ℕ
  pub zmtp_manual_parser : ZmtpManualParser
  pub heartbeat_state : ZmtpHeartbeatState

abbrev pub NetRead : Type 0
NetRead = ℕ × Result (List ℕ)

-- The `?` behind the constraints, and the identity.
unfoldable pub identity_of : Result (Unit {0}) → Msg → Result (List ℕ)
identity_of (ok _) msg = ok (data_or_empty msg)
identity_of (err e) msg = err e

abbrev pub touch : V2Handler → ℕ → V2Handler
touch h now = record h { heartbeat_state = record_activity h.heartbeat_state now }

-- Only an identity that is accepted counts as activity.
unfoldable pub accept_identity :
    Result (List ℕ) → V2Handler → ℕ → Option (Result (List ℕ)) × V2Handler
accept_identity (ok identity) h now = (some (ok identity), touch h now)
accept_identity (err e) h now = (some (err e), h)

unfoldable pub identity_parsed : Parsed → V2Handler → ℕ → Option (Result (List ℕ)) × V2Handler
unfolding enforce_v2_identity_constraints identity_of accept_identity
identity_parsed (ok (some msg), p, rest) h now =
    accept_identity (identity_of (enforce_v2_identity_constraints msg) msg)
      (record h { network_read_buffer = rest; zmtp_manual_parser = p }) now
identity_parsed (ok none, p, rest) h now =
    (none, record h { network_read_buffer = rest; zmtp_manual_parser = p })
identity_parsed (err e, p, rest) h now =
    (some (err e), record h { network_read_buffer = rest; zmtp_manual_parser = p })

-- The first half of a round: the parser is called on a buffer that is not empty.
unfoldable pub try_identity : V2Handler → ℕ → Option (Result (List ℕ)) × V2Handler
unfolding identity_parsed decode_from_buffer
try_identity h now = elim h.network_read_buffer [
  | [] ↦ (none, h)
  | b ∷ buffer ↦ identity_parsed (decode_from_buffer h.zmtp_manual_parser (b ∷ buffer)) h now
]

-- `read_buf`, which puts what it reads behind what the buffer holds.
abbrev pub receive : V2Handler → ℕ → List ℕ → V2Handler
receive h now chunk = touch (record h { network_read_buffer = h.network_read_buffer ++ chunk }) now

-- The outcome, the handler and the reads that are left. Without an outcome it waits for a read.
abbrev pub Waited : Type 0
Waited = Option (Result (List ℕ)) × V2Handler × List NetRead

abbrev pub received : Result (List ℕ) → List ℕ
received (ok chunk) = chunk
received (err e) = []

-- One round, given what the rounds behind it come to.
unfoldable pub identity_round :
    Option (Result (List ℕ)) × V2Handler → NetRead → List NetRead → Waited → Waited
identity_round (some outcome, h) r reads next = (some outcome, h, r ∷ reads)
identity_round (none, h) (now, ok []) reads next = (some (err connection_closed), h, reads)
identity_round (none, h) (now, ok (b ∷ chunk)) reads next = next
identity_round (none, h) (now, err e) reads next = (some (err e), h, reads)

unfoldable pub read_v2_identity_frame : V2Handler → ℕ → List NetRead → Waited
unfolding try_identity identity_round
read_v2_identity_frame h now [] = let tried = try_identity h now in (tried.0, tried.1, [])
read_v2_identity_frame h now (r ∷ reads) =
    let tried = try_identity h now in
    let next = read_v2_identity_frame (receive tried.1 r.0 (received r.1)) r.0 reads in
    identity_round tried r reads next
