-- ===== src/Security/Framer/Stream.antt =====
-- Streams of messages through the framers of core/src/security/framer.rs.
use rzmq.Base.{
  ℕ, zero, suc, ◌^◌, ◌<◌, ◌≡◌, ◌≢◌, refl, sym, ap, ◌∙◌, inl, inr, ◌⊎◌, false, Option, none, some,
  List, [], ◌∷◌, ◌++◌, map, append-nil, append_assoc, length, length-drop, take, drop, be_value,
  All, arith,
}
use rzmq.Base.Int.{ℤ}
use rzmq.Error.{Result, ok, err}
use rzmq.Message.{Msg, size}
use rzmq.Zmtp.Parser.{new_parser, Parsed, exceeds, decode_from_buffer}
use rzmq.Zmtp.Codec.{encode}
use rzmq.Zmtp.Codec.RoundTrip.{on_wire, encode-append, decode-encode}
use rzmq.Security.Framer.{
  new_null_framer, null_try_read_msg, null_write_msg_multipart, null_parsed, encode_all,
  IDataCipher, LengthPrefixedFramer, Read, Round, answer, again, decrypted, next_frame,
  after_parser, round, try_read_loop, try_read_msg,
}

-- Messages that a parser with this limit takes.
abbrev pub Allowed : ℤ → Msg → Type 0
Allowed limit m = (size m < 2 ^ 64) × (exceeds limit (size m) ≡ false)

module _ {F : Type 0} (read : F → List ℕ → Option (Result (Option Msg) × F × List ℕ)) where
  abbrev pub Many : Type 0
  Many = Option (List Msg × F × List ℕ)

  abbrev pub put_first : Msg → Many → Many
  put_first m none = none
  put_first m (some (ms, f, rest)) = some (m ∷ ms, f, rest)

  abbrev pub on_message : Option (Result (Option Msg) × F × List ℕ) → (F → List ℕ → Many) → Many
  on_message (some (ok (some m), f, rest)) k = put_first m (k f rest)
  on_message _ k = none

  -- As many messages as are asked for, if every read gives one.
  abbrev pub read_many : ℕ → F → List ℕ → Many
  read_many zero f network = some ([], f, network)
  read_many (suc n) f network = on_message (read f network) (λ g rest. read_many n g rest)

encode_all-append :
    (msgs : List Msg) (buffer : List ℕ) → encode_all msgs buffer ≡ buffer ++ encode_all msgs []
unfolding encode_all
encode_all-append [] buffer = sym (append-nil buffer)
encode_all-append (m ∷ msgs) buffer =
    let later = encode_all msgs [] in
    encode_all-append msgs (encode m buffer)
    ∙ ap (λ b. b ++ later) (encode-append m buffer)
    ∙ append_assoc buffer (encode m []) later
    ∙ ap (λ b. buffer ++ b) (sym (encode_all-append msgs (encode m [])))

pub encode_all_nil : encode_all [] [] ≡ []
unfolding encode_all
encode_all_nil = refl

-- The frames of a message list begin with those of its first message.
encode_all-cons :
    (m : Msg) (msgs : List Msg) → encode_all (m ∷ msgs) [] ≡ encode m [] ++ encode_all msgs []
unfolding encode_all
encode_all-cons m msgs = encode_all-append msgs (encode m [])

-- The parser takes the first of the messages off the buffer.
pub decode_first :
    (limit : ℤ) (m : Msg) (msgs : List Msg) (rest : List ℕ)
    → Allowed limit m
    → decode_from_buffer (new_parser limit) (encode_all (m ∷ msgs) [] ++ rest)
      ≡ (ok (some (on_wire m)), new_parser limit, encode_all msgs [] ++ rest)
decode_first limit m msgs rest (small, fits) =
    rw (encode_all-cons m msgs, append_assoc)
      (decode-encode limit m (encode_all msgs [] ++ rest) small fits)

null_read :
    (limit : ℤ) (msgs : List Msg) (rest : List ℕ)
    → All (Allowed limit) msgs
    → read_many
        (λ f network. some (null_try_read_msg f network))
        (length msgs)
        (new_null_framer limit)
        (encode_all msgs [] ++ rest)
      ≡ some (map on_wire msgs, new_null_framer limit, rest)
unfolding null_try_read_msg null_parsed
null_read limit [] rest h = rw encode_all_nil refl
null_read limit (m ∷ msgs) rest (allowed, h) =
    rw (decode_first limit m msgs rest allowed, null_read limit msgs rest h) refl

-- Messages of fewer than 2^64 bytes, within the limit, that a NULL framer writes are read back
-- by a new one, in their order, with their flags and bytes; what follows them stays in the
-- network buffer.
pub null_write-read :
    (limit : ℤ) (msgs : List Msg) (wire rest : List ℕ)
    → All (Allowed limit) msgs
    → null_write_msg_multipart msgs ≡ ok wire
    → read_many
        (λ f network. some (null_try_read_msg f network))
        (length msgs)
        (new_null_framer limit)
        (wire ++ rest)
      ≡ some (map on_wire msgs, new_null_framer limit, rest)
unfolding null_write_msg_multipart
null_write-read limit msgs wire rest h written =
    let e : wire ≡ encode_all msgs [] = cc in rw e (null_read limit msgs rest h)

module _ {S : Type 0} (c : IDataCipher S) where
  decrypted-again :
      (f g : LengthPrefixedFramer S) (r : Result (List ℕ) × S) (network rest : List ℕ)
      → decrypted c f r network ≡ again g rest
      → rest ≡ network
  unfolding decrypted
  decrypted-again f g (err e, s) network rest h = absurd cc
  decrypted-again f g (ok plaintext, s) network rest h = cc

  next_frame-again :
      (f g : LengthPrefixedFramer S) (network rest : List ℕ)
      → next_frame c f network ≡ again g rest
      → length rest < length network
  unfolding next_frame
  next_frame-again f g network rest h =
      let len = be_value (take 2 network) in
      let behind = drop 2 network in
      ground (
        arith,
        length-drop 2 network,
        length-drop len behind,
        decrypted-again f g (c.decrypt f.cipher (take len behind)) (drop len behind) rest,
      )

  round-again :
      (f g : LengthPrefixedFramer S) (network rest : List ℕ)
      → round c f network ≡ again g rest
      → length rest < length network
  unfolding round after_parser
  round-again f g network rest h = after (decode_from_buffer f.parser f.decrypted_buffer) h
    where
      after :
          (p : Parsed) → after_parser c f p network ≡ again g rest → length rest < length network
      after (err e, parser, left) h = absurd cc
      after (ok (some msg), parser, left) h = absurd cc
      after (ok none, parser, left) h = next_frame-again _ g network rest h

  Round-cases :
      (r : Round c)
      → ((x : Read c) × (r ≡ answer x))
        ⊎ ((g : LengthPrefixedFramer S) × (rest : List ℕ) × (r ≡ again g rest))
  Round-cases (answer x) = inl (x, refl)
  Round-cases (again g rest) = inr (g, rest, refl)

  try_read_loop_total :
      (fuel : ℕ) (f : LengthPrefixedFramer S) (network : List ℕ)
      → length network < fuel
      → try_read_loop c fuel f network ≢ none
  unfolding try_read_loop
  try_read_loop_total zero f network h = absurd (omega arith)
  try_read_loop_total (suc fuel) f network h = elim (Round-cases (round c f network)) [
    | inl (x, done) ↦ rw (done, try_read_loop) (λ e. cc)
    | inr (g, rest, more) ↦
        rw (more, try_read_loop)
          (try_read_loop_total fuel g rest (omega (arith, round-again f g network rest more)))
  ]

  -- A read of the encrypting framer returns, whatever the cipher does and the buffers hold.
  pub try_read_msg_total :
      (f : LengthPrefixedFramer S) (network : List ℕ) → try_read_msg c f network ≢ none
  unfolding try_read_msg
  try_read_msg_total f network = try_read_loop_total (suc (length network)) f network (omega arith)
