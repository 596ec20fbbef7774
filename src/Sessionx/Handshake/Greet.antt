-- ===== src/Sessionx/Handshake/Greet.antt =====
-- core/src/sessionx/protocol_handler/handshake.rs: the greeting in stages, which settles the version.
use rzmq.Base.{ℕ, not, Option, none, some, List, [], ◌∷◌, ◌++◌, ltb, leb, ◌==◌, if◌then◌else◌, take}
use rzmq.Error.{protocol_violation, Result, ok, err}
use rzmq.Zmtp.Greeting.{
  ZmtpGreeting, v2, v3, v2_revision, version_major, greeting_length, encode_signature,
  encode_v3_tail_post_major, peek_revision, decode, socket_type_code,
}
use rzmq.Security.Negotiate.{ZmtpEngineConfig, null_name, plain_name}
use rzmq.Sessionx.V2.{NetRead}
use rzmq.Sessionx.V2.Exchange.{
  in_progress, waiting_for_peer_revision, waiting_for_greeting, security_handshake,
  v2_identity_exchange,
}
use rzmq.Sessionx.Handshake.{
  HandshakeConfig, Handshake, Stepped, Filled, with_handler, enter, wrote, wrote_quietly, fill,
}

abbrev pub peek_len : ℕ
peek_len = 11

-- The signature and the major version.
unfoldable pub prelude : List ℕ
prelude = encode_signature [] ++ (version_major ∷ [])

unfoldable pub own_greeting_mechanism : ZmtpEngineConfig → List ℕ
own_greeting_mechanism config = if config.use_plain then plain_name else null_name

-- The buffer is cleared before the first bytes of the peer are read.
abbrev pub clear_buffer : Handshake → Handshake
clear_buffer s = with_handler s (record s.link.handler { network_read_buffer = [] })

module _ (write : List ℕ → Result (Unit {0})) (now : ℕ) where
  unfoldable pub send_signature : Handshake → List NetRead → Stepped
  unfolding prelude
  send_signature s reads = elim (write prelude) [
    | err e ↦ (some (err e), s, reads)
    | ok _ ↦ (
      some (ok in_progress),
      enter waiting_for_peer_revision (clear_buffer (wrote now prelude s)),
      reads,
    )
  ]

  unfoldable pub write_v2_tail_and_advance : HandshakeConfig → Handshake → List NetRead → Stepped
  write_v2_tail_and_advance config s reads =
      if not config.allow_zmtp2
      then (some (err protocol_violation), s, reads)
      else elim (socket_type_code config.socket_type_name) [
        | none ↦ (some (err protocol_violation), s, reads)
        | some stype_byte ↦ elim (write (stype_byte ∷ [])) [
          | err e ↦ (some (err e), s, reads)
          | ok _ ↦ (
            some (ok in_progress),
            enter v2_identity_exchange
                (record (wrote_quietly (stype_byte ∷ []) s) { negotiated_version = some v2 }),
            reads,
          )
        ]
      ]

  unfoldable pub write_v3_tail_and_advance : HandshakeConfig → Handshake → List NetRead → Stepped
  unfolding own_greeting_mechanism
  write_v3_tail_and_advance config s reads =
      let tail = encode_v3_tail_post_major (own_greeting_mechanism config.engine) s.is_server [] in
      elim (write tail) [
        | err e ↦ (some (err e), s, reads)
        | ok _ ↦ (some (ok in_progress), enter waiting_for_greeting (wrote_quietly tail s), reads)
      ]

  -- The `match` on the peer's revision.
  unfoldable pub select_tail : HandshakeConfig → Result ℕ → Handshake → List NetRead → Stepped
  unfolding write_v2_tail_and_advance write_v3_tail_and_advance
  select_tail config (err e) s reads = (some (err e), s, reads)
  select_tail config (ok revision) s reads =
      if revision == v2_revision
      then write_v2_tail_and_advance config s reads
      else if leb version_major revision
      then write_v3_tail_and_advance config s reads
      else (some (err protocol_violation), s, reads)

  unfoldable pub revision_filled : HandshakeConfig → Handshake → Filled → Stepped
  unfolding select_tail
  revision_filled config s (none, h, reads) = (none, with_handler s h, reads)
  revision_filled config s (some (err e), h, reads) = (some (err e), with_handler s h, reads)
  revision_filled config s (some (ok _), h, reads) =
      select_tail config (peek_revision (take peek_len h.network_read_buffer)) (with_handler s h)
        reads

  unfoldable pub wait_for_peer_revision : HandshakeConfig → Handshake → List NetRead → Stepped
  unfolding revision_filled fill
  wait_for_peer_revision config s reads =
      revision_filled config s (fill peek_len s.link.handler reads)

-- What the decoder makes of the buffer.
unfoldable pub greeting_decoded :
    Handshake → Result (Option ZmtpGreeting) × List ℕ → List NetRead → Stepped
greeting_decoded s (answer, rest) reads =
    let s' = with_handler s (record s.link.handler { network_read_buffer = rest }) in
    elim answer [
      | err e ↦ (some (err e), s', reads)
      | ok none ↦ (some (err protocol_violation), s', reads)
      | ok (some pg) ↦ if ltb pg.version.0 3 then (some (err protocol_violation), s', reads) else (
        some (ok in_progress),
        enter security_handshake (record s' {
          negotiated_version = some (v3 pg.version.1);
          pending_peer_greeting = some pg;
        }),
        reads,
      )
    ]

unfoldable pub greeting_filled : Handshake → Filled → Stepped
unfolding greeting_decoded
greeting_filled s (none, h, reads) = (none, with_handler s h, reads)
greeting_filled s (some (err e), h, reads) = (some (err e), with_handler s h, reads)
greeting_filled s (some (ok _), h, reads) =
    greeting_decoded (with_handler s h) (decode h.network_read_buffer) reads

unfoldable pub receive_greeting : Handshake → List NetRead → Stepped
unfolding greeting_filled fill
receive_greeting s reads = greeting_filled s (fill greeting_length s.link.handler reads)
