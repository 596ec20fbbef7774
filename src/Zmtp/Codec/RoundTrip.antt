-- ===== src/Zmtp/Codec/RoundTrip.antt =====
-- The encoder of core/src/protocol/zmtp/codec.rs and the live parser, one after the other.
use rzmq.Base.{
  ℕ, ◌<◌, ◌≡◌, ◌%◌, refl, ap, ◌∙◌, inl, inr, true, false, some, List, [], ◌++◌, leb, leb→le,
  Bool-cases, append_assoc, bit_or, ◌^◌, arith,
}
use rzmq.Base.Int.{ℤ}
use rzmq.Error.{ok}
use native.Mathlib.Nat.{mod-eq_of_lt}
use rzmq.Message.{MsgFlags, from_bytes, set_flags, Msg, size, data_or_empty}
use rzmq.Zmtp.Flags.{
  frame_flags, zmtp_flag_long, msg_flags-frame_flags, msg_flags-frame_flags_long, short_bit,
  long_bit,
}
use rzmq.Zmtp.Parser.{Parsed, new_parser, exceeds, decode_from_buffer}
use rzmq.Zmtp.Parser.Frames.{decode_short, decode_long}
use rzmq.Zmtp.Codec.{encode, encode_header_only}

-- A message as it arrives: no data has become empty data.
abbrev pub on_wire : Msg → Msg
on_wire m = record m { payload = some (data_or_empty m) }

-- The header alone, followed by the payload, is the whole frame.
pub encode_header_only-encode :
    (m : Msg) (dst : List ℕ) → encode_header_only m dst ++ data_or_empty m ≡ encode m dst
unfolding encode encode_header_only
encode_header_only-encode m dst = elim (Bool-cases (leb (size m) 255)) [
  | inl short ↦ rw short (append_assoc dst _ (data_or_empty m))
  | inr long ↦ rw long (append_assoc dst _ (data_or_empty m))
]

pub encode-append : (m : Msg) (dst : List ℕ) → encode m dst ≡ dst ++ encode m []
unfolding encode
encode-append m dst = refl

-- The parser reads back every message of fewer than 2^64 bytes that is within its limit, with
-- the message's flags and bytes, and leaves whatever follows the frame in the buffer.
pub decode-encode :
    (limit : ℤ) (m : Msg) (rest : List ℕ)
    → size m < 2 ^ 64
    → exceeds limit (size m) ≡ false
    → decode_from_buffer (new_parser limit) (encode m [] ++ rest)
      ≡ (ok (some (on_wire m)), new_parser limit, rest)
unfolding encode
decode-encode limit m rest small fits = elim (Bool-cases (leb (size m) 255)) [
  | inl short ↦
      rw (short, byte short)
        (decode_short limit (frame_flags m.flags) (data_or_empty m) rest (short_bit m.flags) fits
          ∙ ap (wrap (data_or_empty m)) (msg_flags-frame_flags m.flags))
  | inr long ↦
      rw (long, mod-eq_of_lt small, append_assoc)
        (decode_long limit (bit_or (frame_flags m.flags) zmtp_flag_long) (data_or_empty m) rest
            (long_bit m.flags) small fits
          ∙ ap (wrap (data_or_empty m)) (msg_flags-frame_flags_long m.flags))
]
  where
    wrap : List ℕ → MsgFlags → Parsed
    wrap body f = (ok (some (set_flags (from_bytes body) f)), new_parser limit, rest)

    byte : leb (size m) 255 ≡ true → size m % 256 ≡ size m
    byte h = omega (arith, leb→le (size m) 255 h)
