-- ===== src/Zmtp/Parser.antt =====
-- core/src/protocol/zmtp/manual_parser.rs: the parser of the live receive path. A buffer is the
-- list of its bytes; `usize` has 64 bits, so `raw_size as usize` keeps the value.
pub mod Frames
pub mod Bounds
pub mod Chunks
use rzmq.Base.{
  ℕ, Bool, false, Option, none, some, List, [], ◌∷◌, ltb, if◌then◌else◌, length, take, drop, get_or,
  be_value,
}
use rzmq.Base.Int.{ℤ, pos, negsuc}
use rzmq.Error.{protocol_violation, Result, ok, err}
use rzmq.Message.{Msg, from_bytes, set_flags}
use rzmq.Zmtp.Flags.{zmtp_flag_long, has_bit, msg_flags}

pub data ManualDecodingState : Type 0 where
  read_header : ManualDecodingState
  read_body : ℕ → ℕ → ManualDecodingState

pub record ZmtpManualParser : Type 0 where
  pub state : ManualDecodingState
  pub max_msg_size : ℤ

abbrev pub new_parser : ℤ → ZmtpManualParser
new_parser limit = record { state = read_header; max_msg_size = limit }

-- The result, the parser and the buffer after the call.
abbrev pub Parsed : Type 0
Parsed = Result (Option Msg) × ZmtpManualParser × List ℕ

-- `self.max_msg_size >= 0 && raw_size > self.max_msg_size as u64`
abbrev pub exceeds : ℤ → ℕ → Bool
exceeds (pos limit) raw_size = ltb limit raw_size
exceeds (negsuc n) raw_size = false

-- The `ReadBody` arm.
unfoldable pub decode_body : ZmtpManualParser → ℕ → ℕ → List ℕ → Parsed
decode_body p flags size src =
    if ltb (length src) size then (ok none, record p { state = read_body flags size }, src) else (
      ok (some (set_flags (from_bytes (take size src)) (msg_flags flags))),
      record p { state = read_header },
      drop size src,
    )

-- The `ReadHeader` arm and the round of the loop that follows it.
unfoldable pub decode_header : ZmtpManualParser → List ℕ → Parsed
decode_header p [] = (ok none, record p { state = read_header }, [])
decode_header p (flags ∷ rest) =
    let is_long = has_bit flags zmtp_flag_long in
    let header_len : ℕ = if is_long then 9 else 2 in
    let raw_size = if is_long then be_value (take 8 rest) else get_or rest 0 0 in
    let body = if is_long then drop 8 rest else drop 1 rest in
    if ltb (length (flags ∷ rest)) header_len
    then (ok none, record p { state = read_header }, flags ∷ rest)
    else if exceeds p.max_msg_size raw_size
    then (err protocol_violation, record p { state = read_header }, body)
    else decode_body p flags raw_size body

unfoldable pub decode_in : ManualDecodingState → ZmtpManualParser → List ℕ → Parsed
decode_in read_header p src = decode_header p src
decode_in (read_body flags size) p src = decode_body p flags size src

unfoldable pub decode_from_buffer : ZmtpManualParser → List ℕ → Parsed
unfolding decode_in
decode_from_buffer p src = decode_in p.state p src
