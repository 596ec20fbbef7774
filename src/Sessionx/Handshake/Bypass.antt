-- ===== src/Sessionx/Handshake/Bypass.antt =====
-- The downgrade to ZMTP/2.0 in core/src/sessionx/protocol_handler/handshake.rs, from the signature
-- to the end of the handshake.
use rzmq.Base.{
  ℕ, Bool, true, false, ◌≤◌, ◌≡◌, refl, sym, ap, ◌∙◌, inl, inr, Option, some, List, [], ◌∷◌, ◌++◌,
  All, Bool-cases, ltb, length, take, take-append_le, append-nil, append_assoc, arith,
}
use rzmq.Base.Int.{ℤ}
use rzmq.Error.{Result, ok, err}
use rzmq.Message.{from_bytes}
use rzmq.Security.Negotiate.{null_mechanism}
use rzmq.Sessionx.Heartbeat.{ZmtpHeartbeatState, record_activity}
use rzmq.Sessionx.V2.{NetRead, validate_v2_socket_type_compat}
use rzmq.Sessionx.V2.Identity.{IsChunk, delivered, fresh_handler}
use rzmq.Sessionx.V2.Exchange.{
  in_progress, waiting_for_peer_revision, v2_identity_exchange, exchange_v2_identity,
}
use rzmq.Sessionx.V2.Exchange.Complete.{Completed, exchange_completes}
use rzmq.Sessionx.Handshake.{HandshakeConfig, Stepped, new_handshake, fill}
use rzmq.Sessionx.Handshake.Greet.{
  prelude, send_signature, write_v2_tail_and_advance, select_tail, revision_filled,
  wait_for_peer_revision,
}
use rzmq.Zmtp.Codec.{encode}
use rzmq.Zmtp.Greeting.{
  encode_v2_full, encode_v2_tail, encode_signature, peek_revision, v2, socket_type_code,
  socket_type_name_from_code,
}
use rzmq.Zmtp.Parser.{exceeds}
use Prim.Native.String.{String}

-- The loop ends with a buffer that is long enough, and no byte is lost.
abbrev FilledTo : ℕ → List ℕ → ℤ → ZmtpHeartbeatState → List NetRead → List ℕ → Type 0
FilledTo len buffer limit heartbeat reads whole =
    (buffer' : List ℕ) × (heartbeat' : ZmtpHeartbeatState) × (left : List NetRead) × (fill len
        (fresh_handler buffer limit heartbeat) reads
      ≡ (some (ok tt), fresh_handler buffer' limit heartbeat', left))
    × All IsChunk left
    × (ltb (length buffer') len ≡ false)
    × (buffer' ++ delivered left ≡ whole)

fill-FilledTo :
    (len : ℕ) (buffer : List ℕ) (limit : ℤ) (heartbeat : ZmtpHeartbeatState) (reads : List NetRead)
    → All IsChunk reads
    → len ≤ length (buffer ++ delivered reads)
    → FilledTo len buffer limit heartbeat reads (buffer ++ delivered reads)
unfolding fill
fill-FilledTo len buffer limit heartbeat [] chunks long =
    let enough : ltb (length buffer) len ≡ false = ground (arith, append-nil buffer) in
    (buffer, heartbeat, [], rw enough refl, tt, enough, refl)
fill-FilledTo len buffer limit heartbeat ((now, ok []) ∷ reads) (chunk, _) long = absurd chunk
fill-FilledTo len buffer limit heartbeat ((now, err e) ∷ reads) (chunk, _) long = absurd chunk
fill-FilledTo len buffer limit heartbeat ((now, ok (b ∷ bytes)) ∷ reads) (chunk, chunks) long =
    elim (Bool-cases (ltb (length buffer) len)) [
      | inr enough ↦ (
        buffer,
        heartbeat,
        (now, ok (b ∷ bytes)) ∷ reads,
        rw enough refl,
        (chunk, chunks),
        enough,
        refl,
      )
      | inl short ↦
          let whole = append_assoc buffer (b ∷ bytes) (delivered reads) in
          let (buffer', heartbeat', left, filled, chunks', enough, rest) =
            fill-FilledTo len (buffer ++ (b ∷ bytes)) limit (record_activity heartbeat now) reads
              chunks (rw whole long) in
          (buffer', heartbeat', left, rw (short) filled, chunks', enough, rw (sym whole) rest)
    ]

-- The peek looks at the first eleven bytes alone.
peek_revision-take :
    (buffer more : List ℕ) (code : ℕ) (rest : List ℕ)
    → ltb (length buffer) 11 ≡ false
    → buffer ++ more ≡ encode_v2_full code [] ++ rest
    → peek_revision (take 11 buffer) ≡ ok 1
unfolding peek_revision encode_v2_full encode_v2_tail
peek_revision-take buffer more code rest enough stream =
    let same : take 11 buffer ≡ take 11 (encode_v2_full code [] ++ rest) =
      sym (take-append_le 11 buffer more (ground arith)) ∙ ap (take 11) stream in
    rw same refl

long_greeting : (code : ℕ) (more : List ℕ) → 11 ≤ length (encode_v2_full code [] ++ more)
unfolding encode_v2_full encode_v2_tail
long_greeting code more = omega arith

-- The handshake is in the exchange of identities with no mechanism, and that exchange completes it.
abbrev pub Downgraded :
    HandshakeConfig → Stepped → ℕ → List ℕ → Option String → List ℕ → List ℕ → Type 0
Downgraded config (answer, s, left) sent identity name output rest =
    (answer ≡ some (ok in_progress))
    × (s.link.sub_phase ≡ v2_identity_exchange)
    × (s.negotiated_version ≡ some v2)
    × (s.security_mechanism ≡ null_mechanism)
    × Completed (exchange_v2_identity config.socket_type_name (ok tt) sent s.link left) identity
        name output rest

abbrev pub always : List ℕ → Result (Unit {0})
always bytes = ok tt

-- A socket that lets ZMTP/2.0 peers in is configured for any mechanisms, PLAIN among them, and is
-- either side of the connection; the peer sends a ZMTP/2.0 greeting of a socket type that the local
-- one may talk to, an identity of at most 255 bytes in one frame, and traffic behind it, in reads
-- that all bring bytes in; no write fails. Then the signature goes out, the handshake turns to the
-- exchange of identities with no security mechanism, and that exchange completes it: it reports the
-- identity, the peer has authenticated itself in no way, and the traffic is all left to be read.
pub plain_bypassed :
    (config : HandshakeConfig) (is_server : Bool) (limit : ℤ) (heartbeat : ZmtpHeartbeatState)
    (at peeked sent own code : ℕ) (name : String) (identity rest : List ℕ) (reads : List NetRead)
    → config.allow_zmtp2 ≡ true
    → socket_type_code config.socket_type_name ≡ some own
    → socket_type_name_from_code code ≡ some name
    → validate_v2_socket_type_compat config.socket_type_name code ≡ ok tt
    → length identity ≤ 255
    → exceeds limit (length identity) ≡ false
    → All IsChunk reads
    → delivered reads ≡ encode_v2_full code [] ++ (encode (from_bytes identity) [] ++ rest)
    → let (answer, s, left) =
        send_signature always at (new_handshake is_server limit heartbeat) reads in
      (answer ≡ some (ok in_progress))
      × (s.link.sub_phase ≡ waiting_for_peer_revision)
      × Downgraded config
          (wait_for_peer_revision always peeked config s left)
          sent
          identity
          (some name)
          (prelude ++ (own ∷ 0 ∷ 0 ∷ []))
          rest
unfolding send_signature wait_for_peer_revision revision_filled select_tail
    write_v2_tail_and_advance prelude encode_signature
plain_bypassed config is_server limit heartbeat at peeked sent own code name identity rest reads
      allowed coded known paired small fits chunks stream =
    let long : 11 ≤ length (delivered reads) = rw stream (long_greeting code _) in
    let (buffer', heartbeat', left, filled, chunks', enough, remains) =
      fill-FilledTo 11 [] limit (record_activity heartbeat at) reads chunks long in
    let peeked_one = peek_revision-take buffer' (delivered left) code _ enough (remains ∙ stream) in
    rw (filled, peeked_one, allowed, coded)
      (
        refl,
        refl,
        (
          refl,
          refl,
          refl,
          refl,
          exchange_completes config.socket_type_name name code identity rest buffer'
              (prelude ++ (own ∷ [])) limit heartbeat' sent left known paired small fits chunks'
              (remains ∙ stream),
        ),
      )
