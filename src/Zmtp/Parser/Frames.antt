-- ===== src/Zmtp/Parser/Frames.antt =====
-- The parser of core/src/protocol/zmtp/manual_parser.rs on one whole frame.
use rzmq.Base.{
  ℕ, ◌<◌, ◌≡◌, refl, false, some, List, ◌∷◌, ◌++◌, le→ltb, length, length-append, take-append,
  drop-append, be_bytes, length-be_bytes, be_value-be_bytes, ◌^◌, arith, bit_and,
}
use rzmq.Base.Int.{ℤ}
use rzmq.Error.{ok}
use rzmq.Message.{from_bytes, set_flags}
use rzmq.Zmtp.Flags.{zmtp_flag_long, msg_flags}
use rzmq.Zmtp.Parser.{Parsed, new_parser, exceeds, decode_body, decode_header, decode_from_buffer}

-- One whole frame is read, and what stands behind it stays in the buffer.
abbrev pub frame_read : ℤ → ℕ → List ℕ → List ℕ → Parsed
frame_read limit flags body rest =
    (ok (some (set_flags (from_bytes body) (msg_flags flags))), new_parser limit, rest)

decode_body-whole :
    (limit : ℤ) (flags n : ℕ) (body rest : List ℕ)
    → length body ≡ n
    → decode_body (new_parser limit) flags n (body ++ rest) ≡ frame_read limit flags body rest
unfolding decode_body
decode_body-whole limit flags n body rest h = rw (
  le→ltb (length (body ++ rest)) n (omega (arith, length-append body rest)),
  take-append n body rest h,
  drop-append n body rest h,
)

pub decode_short :
    (limit : ℤ) (flags : ℕ) (body rest : List ℕ)
    → bit_and flags zmtp_flag_long ≡ 0
    → exceeds limit (length body) ≡ false
    → decode_from_buffer (new_parser limit) (flags ∷ length body ∷ (body ++ rest))
      ≡ frame_read limit flags body rest
unfolding decode_from_buffer decode_header
decode_short limit flags body rest short fits =
    rw (short, fits) (ground (arith, decode_body-whole limit flags (length body) body rest refl))

pub decode_long :
    (limit : ℤ) (flags : ℕ) (body rest : List ℕ)
    → bit_and flags zmtp_flag_long ≡ 2
    → length body < 2 ^ 64
    → exceeds limit (length body) ≡ false
    → decode_from_buffer (new_parser limit) (flags ∷ (be_bytes 8 (length body) ++ (body ++ rest)))
      ≡ frame_read limit flags body rest
unfolding decode_from_buffer decode_header
decode_long limit flags body rest long small fits =
    let header = be_bytes 8 (length body) in
    rw
      (
        long,
        take-append 8 header (body ++ rest) (length-be_bytes 8 (length body)),
        drop-append 8 header (body ++ rest) (length-be_bytes 8 (length body)),
        be_value-be_bytes 8 (length body) small,
        fits,
      )
      (ground (
        arith,
        length-append header (body ++ rest),
        length-be_bytes 8 (length body),
        decode_body-whole limit flags (length body) body rest refl,
      ))
