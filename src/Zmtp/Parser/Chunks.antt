-- ===== src/Zmtp/Parser/Chunks.antt =====
-- The parser of core/src/protocol/zmtp/manual_parser.rs on parts of a stream.
use rzmq.Base.{
  ℕ, suc, ◌≡◌, refl, inl, inr, none, some, List, [], ◌∷◌, ◌++◌, ltb, Bool-cases, length,
  length-append, take, drop, get_or, be_value, take-append_le, drop-append_le, get_or-append, arith,
}
use rzmq.Error.{ok, err}
use rzmq.Zmtp.Flags.{zmtp_flag_long, has_bit}
use rzmq.Base.Int.{ℤ}
use rzmq.Zmtp.Parser.{
  ZmtpManualParser, ManualDecodingState, new_parser, Parsed, read_header, read_body, decode_body,
  decode_header, decode_from_buffer, decode_in,
}

-- What a later call makes of an answer, when more bytes have come in behind it.
unfoldable pub resume : Parsed → List ℕ → Parsed
resume (ok none, p, rest) more = decode_from_buffer p (rest ++ more)
resume (ok (some m), p, rest) more = (ok (some m), p, rest ++ more)
resume (err e, p, rest) more = (err e, p, rest ++ more)

decode_body-resume :
    (p : ZmtpManualParser) (flags size : ℕ) (src more : List ℕ)
    → decode_body p flags size (src ++ more) ≡ resume (decode_body p flags size src) more
unfolding decode_body resume decode_from_buffer
decode_body-resume p flags size src more = elim (Bool-cases (ltb (length src) size)) [
  | inl short ↦ rw short refl
  | inr enough ↦
      ground
        (arith, length-append src more, take-append_le size src more, drop-append_le size src more)
]

decode_header-resume :
    (limit : ℤ) (flags : ℕ) (rest more : List ℕ)
    → decode_header (new_parser limit) (flags ∷ (rest ++ more))
      ≡ resume (decode_header (new_parser limit) (flags ∷ rest)) more
unfolding resume decode_header decode_from_buffer
decode_header-resume limit flags rest more = elim (Bool-cases (has_bit flags zmtp_flag_long)) [
  | inl long ↦ rw long (elim (Bool-cases (ltb (suc (length rest)) 9)) [
    | inl short ↦ rw short (rw long refl)
    | inr enough ↦ ground (
      arith,
      length-append rest more,
      take-append_le 8 rest more,
      drop-append_le 8 rest more,
      decode_body-resume (new_parser limit) flags (be_value (take 8 rest)) (drop 8 rest) more,
    )
  ])
  | inr single ↦ rw single (elim (Bool-cases (ltb (suc (length rest)) 2)) [
    | inl short ↦ rw short (rw single refl)
    | inr enough ↦ ground (
      arith,
      length-append rest more,
      get_or-append rest more 0 0,
      drop-append_le 1 rest more,
      decode_body-resume (new_parser limit) flags (get_or rest 0 0) (drop 1 rest) more,
    )
  ])
]

decode_in-resume :
    (s : ManualDecodingState) (limit : ℤ) (src more : List ℕ)
    → decode_in s (record { state = s; max_msg_size = limit }) (src ++ more)
      ≡ resume (decode_in s (record { state = s; max_msg_size = limit }) src) more
unfolding decode_in
decode_in-resume read_header limit [] more = unfold resume decode_header decode_from_buffer in refl
decode_in-resume read_header limit (flags ∷ rest) more = decode_header-resume limit flags rest more
decode_in-resume (read_body flags size) limit src more = decode_body-resume _ flags size src more

-- Wherever the network cuts the stream, the parser answers alike: an answer on a part of the bytes,
-- resumed when the rest has come in, is the answer on all of them. An answer other than "more data"
-- depends on no later byte.
pub decode_from_buffer-append :
    (p : ZmtpManualParser) (src more : List ℕ)
    → decode_from_buffer p (src ++ more) ≡ resume (decode_from_buffer p src) more
unfolding decode_from_buffer
decode_from_buffer-append p src more = decode_in-resume p.state p.max_msg_size src more
