-- ===== src/Zmtp/Codec/Agree.antt =====
-- The decoder of core/src/protocol/zmtp/codec.rs beside the live parser, manual_parser.rs.
use rzmq.Base.{
  ℕ, ◌≡◌, refl, inl, inr, List, [], ◌∷◌, Bool-cases, take, drop, get_or, be_value, arith,
}
use rzmq.Base.Int.{pos}
use rzmq.Zmtp.Flags.{zmtp_flag_long, has_bit}
use rzmq.Zmtp.Parser
use rzmq.Zmtp.Parser.{ZmtpManualParser, ManualDecodingState, Parsed}
use rzmq.Zmtp.Codec.{
  ZmtpCodec, DecodingState, FrameHeader, read_header, read_body, Decoded, codec_max_frame_size,
  decode_body, decode_header, decode_in, decode, prepend,
}

abbrev pub as_state : DecodingState → ManualDecodingState
as_state read_header = Parser.read_header
as_state (read_body header) = Parser.read_body header.flags header.body_size

abbrev pub as_parser : ZmtpCodec → ZmtpManualParser
as_parser c = record { state = as_state c.decoding_state; max_msg_size = pos codec_max_frame_size }

abbrev pub as_parsed : Decoded → Parsed
as_parsed (r, c, rest) = (r, as_parser c, rest)

decode_body-decode_body :
    (c : ZmtpCodec) (s : ManualDecodingState) (header : FrameHeader) (src : List ℕ)
    → as_parsed (decode_body c header src)
      ≡ Parser.decode_body
          (record { state = s; max_msg_size = pos codec_max_frame_size })
          header.flags
          header.body_size
          src
unfolding decode_body Parser.decode_body
decode_body-decode_body c s header src = ground arith

get_or-take_one : (xs : List ℕ) → get_or (take 1 xs) 0 0 ≡ get_or xs 0 0
get_or-take_one [] = refl
get_or-take_one (x ∷ xs) = refl

decode_header-decode_header :
    (c : ZmtpCodec) (src : List ℕ)
    → as_parsed (decode_header c src)
      ≡ Parser.decode_header (Parser.new_parser (pos codec_max_frame_size)) src
unfolding decode_header Parser.decode_header
decode_header-decode_header c [] = refl
decode_header-decode_header c (flags ∷ rest) = elim (Bool-cases (has_bit flags zmtp_flag_long)) [
  | inl long ↦ rw long (
      ground (
        arith,
        decode_body-decode_body c Parser.read_header
            (record { flags = flags; body_size = be_value (take 8 rest) }) (drop 8 rest),
      ))
  | inr short ↦
      rw (short, get_or-take_one rest)
        (ground (
          arith,
          decode_body-decode_body c Parser.read_header
              (record { flags = flags; body_size = get_or rest 0 0 }) (drop 1 rest),
        ))
]

decode_in-decode_in :
    (c : ZmtpCodec) (s : DecodingState) (src : List ℕ)
    → as_parsed (decode_in s c src)
      ≡ Parser.decode_in
          (as_state s)
          (record { state = as_state s; max_msg_size = pos codec_max_frame_size })
          src
unfolding decode_in Parser.decode_in
decode_in-decode_in c read_header src = decode_header-decode_header c src
decode_in-decode_in c (read_body header) src = decode_body-decode_body c _ header src

-- The codec answers as the parser with a limit of 64 MiB does on the codec's stored prefix and the
-- buffer together: same answer, same state, same bytes left.
pub decode-decode_from_buffer :
    (c : ZmtpCodec) (src : List ℕ)
    → as_parsed (decode c src)
      ≡ Parser.decode_from_buffer (as_parser c) (prepend c.prefix_bytes src)
unfolding decode Parser.decode_from_buffer
decode-decode_from_buffer c src =
    decode_in-decode_in _ c.decoding_state (prepend c.prefix_bytes src)
