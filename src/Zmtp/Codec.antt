-- ===== src/Zmtp/Codec.antt =====
-- core/src/protocol/zmtp/codec.rs: the encoder of every outgoing frame, and the codec's decoder.
pub mod RoundTrip
pub mod Agree
use rzmq.Base.{
  ℕ, ◌%◌, ◌*◌, ◌^◌, Option, none, some, List, [], ◌∷◌, ◌++◌, ltb, leb, if◌then◌else◌, length,
  is_empty, take, drop, get_or, be_bytes, be_value, bit_or,
}
use rzmq.Error.{protocol_violation, Result, ok, err}
use rzmq.Message.{Msg, data_or_empty, size, from_bytes, set_flags}
use rzmq.Zmtp.Flags.{zmtp_flag_long, has_bit, frame_flags, msg_flags}

-- 64 MiB
abbrev pub codec_max_frame_size : ℕ
codec_max_frame_size = 64 * 1024 * 1024

pub record FrameHeader : Type 0 where
  pub flags : ℕ
  pub body_size : ℕ

pub data DecodingState : Type 0 where
  read_header : DecodingState
  read_body : FrameHeader → DecodingState

pub record ZmtpCodec : Type 0 where
  pub decoding_state : DecodingState
  pub prefix_bytes : Option (List ℕ)

abbrev pub new_codec : ZmtpCodec
new_codec = record { decoding_state = read_header; prefix_bytes = none }

-- `set_prefix_bytes` and `prime_with_prefix`.
pub set_prefix_bytes : ZmtpCodec → Option (List ℕ) → ZmtpCodec
set_prefix_bytes c prefix = record c { prefix_bytes = prefix }

pub prime_with_prefix : ZmtpCodec → List ℕ → ZmtpCodec
prime_with_prefix c prefix = if is_empty prefix then c else record c { prefix_bytes = some prefix }

-- Flags and length alone, behind what `dst` holds.
unfoldable pub encode_header_only : Msg → List ℕ → List ℕ
encode_header_only item dst =
    let data_size = size item in
    let flags = frame_flags item.flags in
    dst
    ++ (if leb data_size 255
        then flags ∷ data_size % 256 ∷ []
        else bit_or flags zmtp_flag_long ∷ be_bytes 8 (data_size % 2 ^ 64))

-- The whole frame, behind what `dst` holds. The source returns `Ok(())` on every path.
unfoldable pub encode : Msg → List ℕ → List ℕ
encode item dst =
    let bytes = data_or_empty item in
    let flags = frame_flags item.flags in
    dst
    ++ (if leb (length bytes) 255
        then flags ∷ length bytes % 256 ∷ bytes
        else bit_or flags zmtp_flag_long ∷ (be_bytes 8 (length bytes % 2 ^ 64) ++ bytes))

abbrev pub Decoded : Type 0
Decoded = Result (Option Msg) × ZmtpCodec × List ℕ

-- The `ReadBody` arm.
pub decode_body : ZmtpCodec → FrameHeader → List ℕ → Decoded
decode_body c header src =
    if ltb (length src) header.body_size
    then (ok none, record c { decoding_state = read_body header }, src)
    else (
      ok (some (set_flags (from_bytes (take header.body_size src)) (msg_flags header.flags))),
      record c { decoding_state = read_header },
      drop header.body_size src,
    )

-- The `ReadHeader` arm and the round of the loop that follows it.
pub decode_header : ZmtpCodec → List ℕ → Decoded
decode_header c src =
    let is_long = has_bit (get_or src 0 0) zmtp_flag_long in
    let header_len : ℕ = if is_long then 9 else 2 in
    let header_bytes = take header_len src in
    let body = drop header_len src in
    let raw_size = if is_long then be_value (drop 1 header_bytes) else get_or header_bytes 1 0 in
    let header : FrameHeader = record { flags = get_or header_bytes 0 0; body_size = raw_size } in
    if is_empty src
    then (ok none, record c { decoding_state = read_header }, src)
    else if ltb (length src) header_len
    then (ok none, record c { decoding_state = read_header }, src)
    else if ltb codec_max_frame_size raw_size
    then (err protocol_violation, record c { decoding_state = read_header }, body)
    else decode_body c header body

decode_in : DecodingState → ZmtpCodec → List ℕ → Decoded
decode_in read_header c src = decode_header c src
decode_in (read_body header) c src = decode_body c header src

-- The stored prefix is taken out and stands before the buffer.
pub prepend : Option (List ℕ) → List ℕ → List ℕ
prepend none src = src
prepend (some prefix) src = if is_empty prefix then src else prefix ++ src

pub decode : ZmtpCodec → List ℕ → Decoded
unfolding prepend decode_in
decode c src =
    decode_in c.decoding_state (record c { prefix_bytes = none }) (prepend c.prefix_bytes src)
