-- ===== src/Sessionx/V2/Identity.antt =====
-- The identity frame of core/src/sessionx/protocol_handler/v2_path.rs, in the reads it comes in.
use rzmq.Base.{
  ℕ, ◌≡◌, refl, sym, Option, none, some, List, [], ◌∷◌, ◌++◌, All, append-nil, append_assoc,
}
use rzmq.Error.{Result, ok, err}
use rzmq.Base.Int.{ℤ}
use rzmq.Zmtp.Parser.{Parsed, new_parser, decode_from_buffer, decode_in, decode_header}
use rzmq.Zmtp.Parser.Chunks.{resume, decode_from_buffer-append}
use rzmq.Sessionx.V2.{
  V2Handler, NetRead, Waited, received, receive, identity_of, accept_identity, identity_parsed,
  try_identity, identity_round, read_v2_identity_frame, enforce_v2_identity_constraints,
}
use rzmq.Sessionx.Heartbeat.{ZmtpHeartbeatState}

-- A read that brings bytes in.
abbrev pub IsChunk : NetRead → Type 0
IsChunk (now, ok (b ∷ chunk)) = Unit
IsChunk (now, ok []) = ⊥
IsChunk (now, err e) = ⊥

abbrev pub delivered : List NetRead → List ℕ
delivered [] = []
delivered (r ∷ reads) = received r.1 ++ delivered reads

-- What one call of the parser says of an identity, and the bytes behind it.
unfoldable pub identity_answer : Parsed → Option (Result (List ℕ)) × List ℕ
identity_answer (ok (some msg), p, rest) =
    (some (identity_of (enforce_v2_identity_constraints msg) msg), rest)
identity_answer (ok none, p, rest) = (none, rest)
identity_answer (err e, p, rest) = (some (err e), rest)

-- The outcome of the loop, and the bytes that it has not used, read or not.
abbrev pub waited_answer : Waited → Option (Result (List ℕ)) × List ℕ
waited_answer (outcome, h, reads) = (outcome, h.network_read_buffer ++ delivered reads)

abbrev Filled : V2Handler → Type 0
Filled h = (b : ℕ) × (rest : List ℕ) × (h.network_read_buffer ≡ b ∷ rest)

try_identity_lem :
    (h : V2Handler) (now : ℕ)
    → Filled h
    → try_identity h now
      ≡ identity_parsed (decode_from_buffer h.zmtp_manual_parser h.network_read_buffer) h now
unfolding try_identity
try_identity_lem h now (b, rest, e) = rw e refl

append-Filled :
    (xs : List ℕ) (y : ℕ) (ys : List ℕ) → (b : ℕ) × (rest : List ℕ) × (xs ++ (y ∷ ys) ≡ b ∷ rest)
append-Filled [] y ys = (y, ys, refl)
append-Filled (x ∷ xs) y ys = (x, xs ++ (y ∷ ys), refl)

accept_identity-round :
    (o : Result (List ℕ)) (h : V2Handler) (now : ℕ) (r : NetRead) (reads : List NetRead)
    (next : Waited)
    → waited_answer (identity_round (accept_identity o h now) r reads next)
      ≡ (some o, h.network_read_buffer ++ delivered (r ∷ reads))
unfolding accept_identity identity_round
accept_identity-round (ok bytes) h now r reads next = refl
accept_identity-round (err e) h now r reads next = refl

accept_identity-last :
    (o : Result (List ℕ)) (h : V2Handler) (now : ℕ)
    → waited_answer ((accept_identity o h now).0, (accept_identity o h now).1, [])
      ≡ (some o, h.network_read_buffer ++ [])
unfolding accept_identity
accept_identity-last (ok bytes) h now = refl
accept_identity-last (err e) h now = refl

-- No read is left.
last_round :
    (d : Parsed) (h : V2Handler) (now : ℕ)
    → waited_answer ((identity_parsed d h now).0, (identity_parsed d h now).1, [])
      ≡ identity_answer d
unfolding identity_parsed identity_answer
last_round (ok (some msg), p, rest) h now =
    rw (accept_identity-last (identity_of (enforce_v2_identity_constraints msg) msg) _ now)
      (rw (append-nil rest) refl)
last_round (ok none, p, rest) h now = rw (append-nil rest) refl
last_round (err e, p, rest) h now = rw (append-nil rest) refl

-- A read brings bytes in, and the rounds behind it agree with the parser.
next_round :
    (d : Parsed) (h : V2Handler) (now : ℕ) (r : NetRead) (reads : List NetRead)
    → IsChunk r
    → ((s : V2Handler)
        → Filled s
        → waited_answer (read_v2_identity_frame s r.0 reads)
          ≡ identity_answer
              (decode_from_buffer s.zmtp_manual_parser (s.network_read_buffer ++ delivered reads)))
    → waited_answer (
        identity_round (identity_parsed d h now) r reads (
          read_v2_identity_frame
            (receive (identity_parsed d h now).1 r.0 (received r.1))
            r.0
            reads))
      ≡ identity_answer (resume d (delivered (r ∷ reads)))
unfolding identity_parsed identity_answer identity_round resume
next_round (ok (some msg), p, rest) h now r reads chunk rounds =
    accept_identity-round _ _ now r reads _
next_round (err e, p, rest) h now r reads chunk rounds = refl
next_round (ok none, p, rest) h now (at, ok (b ∷ bytes)) reads chunk rounds =
    let same =
      rounds
        (receive (record h { network_read_buffer = rest; zmtp_manual_parser = p }) at (b ∷ bytes))
        (append-Filled rest b bytes) in
    rw (sym (append_assoc rest (b ∷ bytes) (delivered reads))) same
next_round (ok none, p, rest) h now (at, ok []) reads chunk rounds = absurd chunk
next_round (ok none, p, rest) h now (at, err e) reads chunk rounds = absurd chunk

rounds_answer :
    (h : V2Handler) (now : ℕ) (reads : List NetRead)
    → Filled h
    → All IsChunk reads
    → waited_answer (read_v2_identity_frame h now reads)
      ≡ identity_answer
          (decode_from_buffer h.zmtp_manual_parser (h.network_read_buffer ++ delivered reads))
unfolding read_v2_identity_frame
rounds_answer h now [] filled chunks =
    rw (try_identity_lem h now filled, append-nil h.network_read_buffer) (last_round _ h now)
rounds_answer h now (r ∷ reads) filled (chunk, chunks) =
    rw
      (
        try_identity_lem h now filled,
        decode_from_buffer-append h.zmtp_manual_parser h.network_read_buffer
            (delivered (r ∷ reads)),
      )
      (next_round _ h now r reads chunk (λ s filled_s. rounds_answer s r.0 reads filled_s chunks))

-- The handler with the parser that the handshake begins with.
abbrev pub fresh_handler : List ℕ → ℤ → ZmtpHeartbeatState → V2Handler
fresh_handler buffer limit heartbeat = record {
  network_read_buffer = buffer;
  zmtp_manual_parser = new_parser limit;
  heartbeat_state = heartbeat;
}

-- While every read brings bytes in, the loop on a fresh parser gives the answer of one call of the
-- parser on the bytes of the buffer and of all reads, however they are cut: it waits exactly if
-- that call waits, it fails with the same error, and else it gives the identity or the error of
-- the constraints. No byte is lost: what is left in the buffer and in the reads is what that call
-- leaves.
pub read_v2_identity_frame-decode :
    (buffer : List ℕ) (limit : ℤ) (heartbeat : ZmtpHeartbeatState) (now : ℕ) (reads : List NetRead)
    → All IsChunk reads
    → waited_answer (read_v2_identity_frame (fresh_handler buffer limit heartbeat) now reads)
      ≡ identity_answer (decode_from_buffer (new_parser limit) (buffer ++ delivered reads))
unfolding read_v2_identity_frame try_identity identity_round
read_v2_identity_frame-decode (b ∷ buffer) limit heartbeat now reads chunks =
    rounds_answer _ now reads (b, buffer, refl) chunks
read_v2_identity_frame-decode [] limit heartbeat now [] chunks =
    unfold identity_answer decode_from_buffer decode_in decode_header in refl
read_v2_identity_frame-decode [] limit heartbeat now ((at, ok (b ∷ bytes)) ∷ reads) (_, chunks) =
    rounds_answer _ at reads (b, bytes, refl) chunks
read_v2_identity_frame-decode [] limit heartbeat now ((at, ok []) ∷ reads) (chunk, _) = absurd chunk
read_v2_identity_frame-decode [] limit heartbeat now ((at, err e) ∷ reads) (chunk, _) = absurd chunk
