-- ===== src/Sessionx/Handshake.antt =====
-- core/src/sessionx/protocol_handler/handshake.rs: the sub-phases of the handshake with a peer, in a
-- build with the default features, where the framer of the data phase is NULL's. What the network
-- delivers is a list of reads, as in Sessionx/V2, and how a write ends is given by `write`; what a
-- failed write put on the wire is left open. A step has one reading of the clock for its writes.
pub mod Greet
pub mod Security
pub mod Bypass
use rzmq.Base.{
  ℕ, Bool, true, false, Option, none, some, List, [], ◌∷◌, ◌++◌, ltb, leb, ◌==◌, if◌then◌else◌,
  length, take,
}
use rzmq.Base.Int.{ℤ}
use rzmq.Error.{connection_closed, Result, ok, err}
use rzmq.Zmtp.Greeting.{NegotiatedVersion, ZmtpGreeting}
use rzmq.Security.Negotiate.{ZmtpEngineConfig, Mechanism, null_mechanism}
use rzmq.Sessionx.V2.{V2Handler, NetRead, received, receive, touch}
use rzmq.Sessionx.V2.Exchange.{
  V2Session, ZmtpHandshakeProgress, HandshakeSubPhase, greeting_exchange,
}
use rzmq.Sessionx.V2.Identity.{fresh_handler}
use rzmq.Sessionx.Heartbeat.{ZmtpHeartbeatState}
use Prim.Native.String.{String}

-- The fields of the engine's configuration that the handshake reads.
pub record HandshakeConfig : Type 0 where
  pub socket_type_name : String
  pub allow_zmtp2 : Bool
  pub routing_id : Option (List ℕ)
  pub engine : ZmtpEngineConfig

-- `link` holds the buffer, the parser, the heartbeat, the state of the handshake and all that is
-- written.
pub record Handshake : Type 0 where
  pub link : V2Session
  pub is_server : Bool
  pub security_mechanism : Mechanism
  pub pending_peer_greeting : Option ZmtpGreeting
  pub negotiated_version : Option NegotiatedVersion

abbrev pub new_handshake : Bool → ℤ → ZmtpHeartbeatState → Handshake
new_handshake is_server limit heartbeat = record {
  link = record {
    handler = fresh_handler [] limit heartbeat;
    peer_socket_type = none;
    peer_identity_from_ready = none;
    sub_phase = greeting_exchange;
    output = [];
  };
  is_server = is_server;
  security_mechanism = null_mechanism;
  pending_peer_greeting = none;
  negotiated_version = none;
}

-- The answer of a step, the handshake, and the reads that are left. Without an answer it waits.
abbrev pub Stepped : Type 0
Stepped = Option (Result ZmtpHandshakeProgress) × Handshake × List NetRead

abbrev pub with_handler : Handshake → V2Handler → Handshake
with_handler s h = record s { link = record s.link { handler = h } }

abbrev pub enter : HandshakeSubPhase → Handshake → Handshake
enter phase s = record s { link = record s.link { sub_phase = phase } }

-- Bytes that were written at a time.
abbrev pub wrote : ℕ → List ℕ → Handshake → Handshake
wrote now bytes s = record s {
  link = record s.link { handler = touch s.link.handler now; output = s.link.output ++ bytes };
}

-- Bytes whose write does not count as activity.
abbrev pub wrote_quietly : List ℕ → Handshake → Handshake
wrote_quietly bytes s = record s { link = record s.link { output = s.link.output ++ bytes } }

-- The handler once the buffer is as long as a step wants it.
abbrev pub Filled : Type 0
Filled = Option (Result (Unit {0})) × V2Handler × List NetRead

abbrev pub fill_round : V2Handler → NetRead → List NetRead → Filled → Filled
fill_round h (now, ok []) reads next = (some (err connection_closed), h, reads)
fill_round h (now, ok (b ∷ chunk)) reads next = next
fill_round h (now, err e) reads next = (some (err e), h, reads)

-- The loop that reads until the buffer has `len` bytes.
unfoldable pub fill : ℕ → V2Handler → List NetRead → Filled
fill len h [] =
    if ltb (length h.network_read_buffer) len then (none, h, []) else (some (ok tt), h, [])
fill len h (r ∷ reads) =
    let next = fill len (receive h r.0 (received r.1)) reads in
    if ltb (length h.network_read_buffer) len
    then fill_round h r reads next
    else (some (ok tt), h, r ∷ reads)
