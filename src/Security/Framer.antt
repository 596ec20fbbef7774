-- ===== src/Security/Framer.antt =====
-- core/src/security/framer.rs: the framers of the data phase. The cipher of the encrypting framer is
-- the trait `IDataCipher` as a record. A round of the loop in `try_read_msg` takes at least two bytes
-- from the network buffer, so a fuel of its length and one suffices.
pub mod Stream
pub mod Sealed
use rzmq.Base.{
  ℕ, zero, suc, ◌+◌, ◌^◌, ◌%◌, Option, none, some, List, [], ◌∷◌, ◌++◌, ltb, if◌then◌else◌, length,
  take, drop, be_bytes, be_value,
}
use rzmq.Base.Int.{ℤ}
use rzmq.Error.{ZmqError, Result, ok, err}
use rzmq.Message.{Msg}
use rzmq.Zmtp.Parser.{ZmtpManualParser, new_parser, Parsed, decode_from_buffer}
use rzmq.Zmtp.Codec.{encode}

pub record NullFramer : Type 0 where
  pub parser : ZmtpManualParser

abbrev pub new_null_framer : ℤ → NullFramer
new_null_framer max_msg_size = record { parser = new_parser max_msg_size }

null_parsed : Parsed → Result (Option Msg) × NullFramer × List ℕ
null_parsed (r, parser, buffer) = (r, record { parser = parser }, buffer)

-- `NullFramer::try_read_msg`: the result, the framer and the network buffer after the call.
pub null_try_read_msg : NullFramer → List ℕ → Result (Option Msg) × NullFramer × List ℕ
unfolding null_parsed
null_try_read_msg f network_buffer = null_parsed (decode_from_buffer f.parser network_buffer)

-- The loop of both `write_msg_multipart`, into the buffer.
unfoldable pub encode_all : List Msg → List ℕ → List ℕ
encode_all [] buffer = buffer
encode_all (msg ∷ msgs) buffer = encode_all msgs (encode msg buffer)

-- `NullFramer::write_msg_multipart`
unfoldable pub null_write_msg_multipart : List Msg → Result (List ℕ)
null_write_msg_multipart msgs = ok (encode_all msgs [])

-- `IDataCipher`: what a call returns and the cipher's state after it.
pub record IDataCipher (S : Type 0) : Type 0 where
  pub encrypt : S → List ℕ → Result (List ℕ) × S
  pub decrypt : S → List ℕ → Result (List ℕ) × S

-- cipher.rs: the cipher without a state that changes nothing.
abbrev pub pass_through : IDataCipher (Unit {0})
pass_through = record {
  encrypt = λ s plaintext. (ok plaintext, s);
  decrypt = λ s ciphertext. (ok ciphertext, s);
}

pub record LengthPrefixedFramer (S : Type 0) : Type 0 where
  pub cipher : S
  pub parser : ZmtpManualParser
  pub decrypted_buffer : List ℕ

module _ {S : Type 0} (c : IDataCipher S) where
  abbrev pub new_framer : S → ℤ → LengthPrefixedFramer S
  new_framer cipher max_msg_size = record {
    cipher = cipher;
    parser = new_parser max_msg_size;
    decrypted_buffer = [];
  }

  abbrev pub Read : Type 0
  Read = Result (Option Msg) × LengthPrefixedFramer S × List ℕ

  -- What a round of the loop ends with: an answer, or a framer and a buffer for the next round.
  pub data Round : Type 0 where
    answer : Read → Round
    again : LengthPrefixedFramer S → List ℕ → Round

  -- The plaintext goes behind what is left of the one before.
  pub decrypted : LengthPrefixedFramer S → Result (List ℕ) × S → List ℕ → Round
  decrypted f (err e, s) network = answer (err e, record f { cipher = s }, network)
  decrypted f (ok plaintext, s) network =
      again (record f { cipher = s; decrypted_buffer = f.decrypted_buffer ++ plaintext }) network

  -- The part of a round behind the parser.
  pub next_frame : LengthPrefixedFramer S → List ℕ → Round
  next_frame f network =
      let len = be_value (take 2 network) in
      let behind = drop 2 network in
      if ltb (length network) 2
      then answer (ok none, f, network)
      else if ltb (length network) (2 + len)
      then answer (ok none, f, network)
      else decrypted f (c.decrypt f.cipher (take len behind)) (drop len behind)

  pub after_parser : LengthPrefixedFramer S → Parsed → List ℕ → Round
  after_parser f (err e, parser, rest) network =
      answer (err e, record f { parser = parser; decrypted_buffer = rest }, network)
  after_parser f (ok (some msg), parser, rest) network =
      answer (ok (some msg), record f { parser = parser; decrypted_buffer = rest }, network)
  after_parser f (ok none, parser, rest) network =
      next_frame (record f { parser = parser; decrypted_buffer = rest }) network

  pub round : LengthPrefixedFramer S → List ℕ → Round
  round f network = after_parser f (decode_from_buffer f.parser f.decrypted_buffer) network

  pub try_read_loop : ℕ → LengthPrefixedFramer S → List ℕ → Option Read
  try_read_loop zero f network = none
  try_read_loop (suc fuel) f network = elim (round f network) [
    | answer r ↦ some r
    | again g rest ↦ try_read_loop fuel g rest
  ]

  -- `LengthPrefixedFramer::try_read_msg`
  unfoldable pub try_read_msg : LengthPrefixedFramer S → List ℕ → Option Read
  try_read_msg f network = try_read_loop (suc (length network)) f network

  unfoldable pub sealed :
      LengthPrefixedFramer S → Result (List ℕ) × S → Result (List ℕ) × LengthPrefixedFramer S
  sealed f (err e, s) = (err e, record f { cipher = s })
  sealed f (ok ciphertext, s) =
      (ok (be_bytes 2 (length ciphertext % 2 ^ 16) ++ ciphertext), record f { cipher = s })

  -- `LengthPrefixedFramer::write_msg_multipart`
  unfoldable pub write_msg_multipart :
      LengthPrefixedFramer S → List Msg → Result (List ℕ) × LengthPrefixedFramer S
  unfolding sealed
  write_msg_multipart f msgs = sealed f (c.encrypt f.cipher (encode_all msgs []))
