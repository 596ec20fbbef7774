-- ===== src/Sessionx/V2/Exchange/Complete.antt =====
-- The exchange of core/src/sessionx/protocol_handler/v2_path.rs with a peer that keeps to ZMTP/2.0.
use rzmq.Base.{
  ℕ, false, ◌≤◌, ◌≡◌, refl, sym, ap, ◌∙◌, inl, inr, Option, none, some, List, [], ◌∷◌, ◌++◌, All,
  Bool-cases, ltb, length, drop, get_or, append-nil, append_assoc, drop-append_le, get_or-append,
  arith,
}
use rzmq.Base.Int.{ℤ}
use rzmq.Error.{ok, err}
use rzmq.Sessionx.Heartbeat.{ZmtpHeartbeatState, record_activity}
use rzmq.Sessionx.V2.{NetRead, Waited, read_v2_identity_frame, validate_v2_socket_type_compat}
use rzmq.Sessionx.V2.Identity.{IsChunk, delivered, fresh_handler, waited_answer}
use rzmq.Sessionx.V2.Peer.{identity_frame}
use rzmq.Sessionx.V2.Exchange.{
  V2Session, Exchanged, v2_identity_exchange, done, noted, progress, after_identity,
  consume_peer_v2_greeting, exchange_v2_identity,
}
use rzmq.Message.{from_bytes}
use rzmq.Zmtp.Parser.{exceeds}
use rzmq.Zmtp.Codec.{encode}
use rzmq.Zmtp.Greeting.{encode_v2_full, encode_v2_tail, socket_type_name_from_code}
use Prim.Native.String.{String}

-- What the loop over the greeting comes to when twelve bytes come in.
abbrev GreetingRead : List ℕ → ℤ → ZmtpHeartbeatState → List NetRead → List ℕ → Type 0
GreetingRead buffer limit heartbeat reads whole =
    (buffer' : List ℕ) × (heartbeat' : ZmtpHeartbeatState) × (left : List NetRead)
    × (consume_peer_v2_greeting (fresh_handler buffer limit heartbeat) reads
        ≡ (some (ok (get_or whole 11 0)), fresh_handler buffer' limit heartbeat', left))
    × All IsChunk left
    × (buffer' ++ delivered left ≡ drop 12 whole)

greeting_in_buffer :
    (buffer : List ℕ) (limit : ℤ) (heartbeat : ZmtpHeartbeatState) (reads : List NetRead)
    → All IsChunk reads
    → ltb (length buffer) 12 ≡ false
    → GreetingRead buffer limit heartbeat reads (buffer ++ delivered reads)
unfolding consume_peer_v2_greeting
greeting_in_buffer buffer limit heartbeat [] chunks enough = (
  drop 12 buffer,
  heartbeat,
  [],
  rw (enough, append-nil buffer) refl,
  tt,
  rw (append-nil buffer, append-nil (drop 12 buffer)) refl,
)
greeting_in_buffer buffer limit heartbeat (r ∷ reads) chunks enough = (
  drop 12 buffer,
  heartbeat,
  r ∷ reads,
  rw (enough, get_or-append buffer (delivered (r ∷ reads)) 11 0 (ground arith)) refl,
  chunks,
  sym (drop-append_le 12 buffer (delivered (r ∷ reads)) (ground arith)),
)

read_greeting :
    (buffer : List ℕ) (limit : ℤ) (heartbeat : ZmtpHeartbeatState) (reads : List NetRead)
    → All IsChunk reads
    → 12 ≤ length (buffer ++ delivered reads)
    → GreetingRead buffer limit heartbeat reads (buffer ++ delivered reads)
unfolding consume_peer_v2_greeting
read_greeting buffer limit heartbeat [] chunks long =
    greeting_in_buffer buffer limit heartbeat [] tt (ground (arith, append-nil buffer))
read_greeting buffer limit heartbeat ((now, ok []) ∷ reads) (chunk, _) long = absurd chunk
read_greeting buffer limit heartbeat ((now, err e) ∷ reads) (chunk, _) long = absurd chunk
read_greeting buffer limit heartbeat ((now, ok (b ∷ bytes)) ∷ reads) (chunk, chunks) long =
    elim (Bool-cases (ltb (length buffer) 12)) [
      | inr enough ↦
          greeting_in_buffer buffer limit heartbeat ((now, ok (b ∷ bytes)) ∷ reads) (chunk, chunks)
            enough
      | inl short ↦
          let whole = append_assoc buffer (b ∷ bytes) (delivered reads) in
          let (buffer', heartbeat', left, read, chunks', rest) =
            read_greeting (buffer ++ (b ∷ bytes)) limit (record_activity heartbeat now) reads chunks
              (rw whole long) in
          (buffer', heartbeat', left, rw (short, sym whole) read, chunks', rw (sym whole) rest)
    ]

-- A session whose greeting is written, with what has come in.
abbrev pub new_session : List ℕ → ℤ → ZmtpHeartbeatState → List ℕ → V2Session
new_session buffer limit heartbeat output = record {
  handler = fresh_handler buffer limit heartbeat;
  peer_socket_type = none;
  peer_identity_from_ready = none;
  sub_phase = v2_identity_exchange;
  output = output;
}

-- The session is done with the identity and the socket type of the peer, and `rest` is not read.
abbrev pub Completed : Exchanged → List ℕ → Option String → List ℕ → List ℕ → Type 0
Completed (outcome, s, left) identity name output rest =
    (outcome ≡ some (ok (progress (noted identity none))))
    × (s.peer_socket_type ≡ name)
    × (s.sub_phase ≡ done)
    × (s.output ≡ output)
    × (s.handler.network_read_buffer ++ delivered left ≡ rest)

after_identity-Completed :
    (w : Waited) (s : V2Session) (identity rest : List ℕ)
    → waited_answer w ≡ (some (ok identity), rest)
    → s.peer_identity_from_ready ≡ none
    → Completed (after_identity w s) identity s.peer_socket_type s.output rest
after_identity-Completed (none, h, reads) s identity rest answer fresh = absurd cc
after_identity-Completed (some (err e), h, reads) s identity rest answer fresh = absurd cc
after_identity-Completed (some (ok i), h, reads) s identity rest answer fresh =
    let same : i ≡ identity = cc in (rw (fresh, same) refl, refl, refl, refl, cc)

whole_greeting :
    (code : ℕ) (more : List ℕ)
    → (12 ≤ length (encode_v2_full code [] ++ more))
      × (get_or (encode_v2_full code [] ++ more) 11 0 ≡ code)
      × (drop 12 (encode_v2_full code [] ++ more) ≡ more)
unfolding encode_v2_full encode_v2_tail
whole_greeting code more = (omega arith, refl, refl)

not_too_long : (identity : List ℕ) → length identity ≤ 255 → ltb 255 (length identity) ≡ false
not_too_long identity small = ground arith

-- A ZMTP/2.0 peer of a socket type that the local one may talk to sends its greeting, an identity
-- of at most 255 bytes in one frame, and traffic behind it, in reads that all bring bytes in; our
-- own frame is written. Then the exchange is complete: it reports the identity, or that there is
-- none if it is empty, the session knows the socket type of the peer and is done, it has written
-- an empty identity frame, and the traffic is all left to be read.
pub exchange_completes :
    (own name : String) (code : ℕ) (identity rest buffer output : List ℕ) (limit : ℤ)
    (heartbeat : ZmtpHeartbeatState) (sent : ℕ) (reads : List NetRead)
    → socket_type_name_from_code code ≡ some name
    → validate_v2_socket_type_compat own code ≡ ok tt
    → length identity ≤ 255
    → exceeds limit (length identity) ≡ false
    → All IsChunk reads
    → buffer ++ delivered reads
      ≡ encode_v2_full code [] ++ (encode (from_bytes identity) [] ++ rest)
    → Completed
        (exchange_v2_identity own (ok tt) sent (new_session buffer limit heartbeat output) reads)
        identity
        (some name)
        (output ++ (0 ∷ 0 ∷ []))
        rest
unfolding exchange_v2_identity
exchange_completes own name code identity rest buffer output limit heartbeat sent reads known paired
      small fits chunks stream =
    let (long, at_11, behind) = whole_greeting code (encode (from_bytes identity) [] ++ rest) in
    let (buffer', heartbeat', left, read, chunks', remains) =
      read_greeting buffer limit heartbeat reads chunks (rw stream long) in
    let finished : waited_answer (
          read_v2_identity_frame (fresh_handler buffer' limit (record_activity heartbeat' sent))
            sent left)
        ≡ (some (ok identity), rest) =
      identity_frame (from_bytes identity) rest buffer' limit _ sent left (omega arith) fits chunks'
        (remains ∙ ap (drop 12) stream ∙ behind)
      ∙ rw (not_too_long identity small) refl in
    rw (read, stream, at_11, paired, known)
      (after_identity-Completed _ _ identity rest finished refl)
