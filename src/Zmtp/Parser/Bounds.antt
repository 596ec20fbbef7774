-- ===== src/Zmtp/Parser/Bounds.antt =====
-- The size limit of core/src/protocol/zmtp/manual_parser.rs, and the bytes that it takes.
use rzmq.Base.{
  ℕ, ◌+◌, ◌≡◌, refl, ◌⊎◌, false, Option, none, some, List, [], ◌∷◌, length, take, drop, get_or,
  be_value, length-take, length-drop, arith,
}
use rzmq.Base.Int.{ℤ}
use rzmq.Error.{Result, ok, err}
use rzmq.Message.{Msg, size}
use rzmq.Zmtp.Parser.{
  ZmtpManualParser, ManualDecodingState, Parsed, new_parser, read_header, read_body, exceeds,
  decode_body, decode_header, decode_from_buffer, decode_in,
}

-- The frame whose body is awaited is one that the limit lets through.
abbrev pub StateWithin : ℤ → ManualDecodingState → Type 0
StateWithin limit read_header = Unit {0}
StateWithin limit (read_body flags n) = exceeds limit n ≡ false

abbrev pub AnswerWithin : ℤ → Result (Option Msg) → Type 0
AnswerWithin limit (ok none) = Unit {0}
AnswerWithin limit (ok (some m)) = exceeds limit (size m) ≡ false
AnswerWithin limit (err e) = Unit {0}

abbrev ParsedWithin : ℤ → Parsed → Type 0
ParsedWithin limit r =
    AnswerWithin limit r.0 × StateWithin limit r.1.state × (r.1.max_msg_size ≡ limit)

decode_body-within :
    (limit : ℤ) (s : ManualDecodingState) (flags n : ℕ) (src : List ℕ)
    → exceeds limit n ≡ false
    → ParsedWithin limit (decode_body (record { state = s; max_msg_size = limit }) flags n src)
unfolding decode_body
decode_body-within limit s flags n src fits = ground (arith, length-take n src)

decode_header-within :
    (limit : ℤ) (src : List ℕ) → ParsedWithin limit (decode_header (new_parser limit) src)
unfolding decode_header
decode_header-within limit [] = (tt, tt, refl)
decode_header-within limit (flags ∷ rest) = ground (
  arith,
  decode_body-within limit read_header flags (be_value (take 8 rest)) (drop 8 rest),
  decode_body-within limit read_header flags (get_or rest 0 0) (drop 1 rest),
)

decode_in-within :
    (limit : ℤ) (s : ManualDecodingState) (src : List ℕ)
    → StateWithin limit s
    → ParsedWithin limit (decode_in s (record { state = s; max_msg_size = limit }) src)
unfolding decode_in
decode_in-within limit read_header src h = decode_header-within limit src
decode_in-within limit (read_body flags n) src h = decode_body-within limit _ flags n src h

-- A parser that awaits no frame beyond its limit stays so, keeps its limit, and every message that
-- it returns is within the limit.
pub decode_from_buffer-within :
    (p : ZmtpManualParser) (src : List ℕ)
    → StateWithin p.max_msg_size p.state
    → AnswerWithin p.max_msg_size (decode_from_buffer p src).0
      × StateWithin p.max_msg_size (decode_from_buffer p src).1.state
      × ((decode_from_buffer p src).1.max_msg_size ≡ p.max_msg_size)
unfolding decode_from_buffer
decode_from_buffer-within p src h = decode_in-within p.max_msg_size p.state src h

-- A message that a parser without a pending frame returns takes a header of 2 or 9 bytes and its
-- own bytes away from the buffer, and leaves the parser as it was.
pub decode_from_buffer_consumes :
    (limit : ℤ) (src rest : List ℕ) (m : Msg) (p : ZmtpManualParser)
    → decode_from_buffer (new_parser limit) src ≡ (ok (some m), p, rest)
    → (p ≡ new_parser limit)
      × ((length src ≡ length rest + 2 + size m) ⊎ (length src ≡ length rest + 9 + size m))
unfolding decode_from_buffer decode_header decode_body
decode_from_buffer_consumes limit [] rest m p h = cc
decode_from_buffer_consumes limit (flags ∷ src) rest m p h = ground (
  arith,
  length-take (be_value (take 8 src)) (drop 8 src),
  length-drop (be_value (take 8 src)) (drop 8 src),
  length-drop 8 src,
  length-take (get_or src 0 0) (drop 1 src),
  length-drop (get_or src 0 0) (drop 1 src),
  length-drop 1 src,
)
