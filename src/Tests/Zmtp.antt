-- ===== src/Tests/Zmtp.antt =====
-- Frames, greetings and commands of core/src/protocol/zmtp.
use rzmq.Base.{
  ℕ, ◌≡◌, refl, Bool, true, some, List, [], ◌∷◌, ◌++◌, length, replicate, take, All, bytes_eq,
  bytes_key, ◌≤◌, arith,
}
use rzmq.Base.Int.{pos}
use rzmq.Base.Maps.{lookup}
use rzmq.Error.{ok}
use rzmq.Message.{Msg, from_bytes, set_flags, more_flag}
use rzmq.Zmtp.Parser.{new_parser, decode_from_buffer}
use rzmq.Zmtp.Parser.Chunks.{resume, decode_from_buffer-append}
use rzmq.Zmtp.Parser.Bounds.{StateWithin, AnswerWithin, decode_from_buffer-within}
use rzmq.Zmtp.Codec
use rzmq.Zmtp.Codec.{ZmtpCodec, codec_max_frame_size, prepend}
use rzmq.Zmtp.Codec.RoundTrip.{on_wire, decode-encode}
use rzmq.Zmtp.Codec.Agree.{as_parser, as_parsed, decode-decode_from_buffer}
use rzmq.Zmtp.Greeting
use rzmq.Zmtp.Greeting.{
  ZmtpGreeting, peek_revision, encode_v2_full, decode_v2_tail, socket_type_code,
  socket_type_name_from_code,
}
use rzmq.Zmtp.Greeting.V3.{Accepted, decode-encode_greeting, decode-Accepted}
use rzmq.Zmtp.Command.{Properties, ready, parse, create_msg}
use rzmq.Zmtp.Command.Properties.{Distinct, Fits}
use rzmq.Zmtp.Command.Parse.{parse-create_msg}

abbrev frame : Msg
frame = set_flags (from_bytes (7 ∷ 8 ∷ 9 ∷ [])) more_flag

abbrev wire : List ℕ
wire = 1 ∷ 3 ∷ 7 ∷ 8 ∷ 9 ∷ []

decode-encode_example :
    decode_from_buffer (new_parser (pos 16)) (Codec.encode frame [] ++ (0 ∷ []))
    ≡ (ok (some (on_wire frame)), new_parser (pos 16), 0 ∷ [])
decode-encode_example = decode-encode (pos 16) frame (0 ∷ []) (omega arith) refl

decode_from_buffer-append_example :
    decode_from_buffer (new_parser (pos 16)) ((1 ∷ 3 ∷ 7 ∷ []) ++ (8 ∷ 9 ∷ []))
    ≡ resume (decode_from_buffer (new_parser (pos 16)) (1 ∷ 3 ∷ 7 ∷ [])) (8 ∷ 9 ∷ [])
decode_from_buffer-append_example =
    decode_from_buffer-append (new_parser (pos 16)) (1 ∷ 3 ∷ 7 ∷ []) (8 ∷ 9 ∷ [])

decode_from_buffer-within_example :
    AnswerWithin (pos 16) (decode_from_buffer (new_parser (pos 16)) wire).0
    × StateWithin (pos 16) (decode_from_buffer (new_parser (pos 16)) wire).1.state
    × ((decode_from_buffer (new_parser (pos 16)) wire).1.max_msg_size ≡ pos 16)
decode_from_buffer-within_example = decode_from_buffer-within (new_parser (pos 16)) wire tt

abbrev primed : ZmtpCodec
primed = record { decoding_state = Codec.read_header; prefix_bytes = some (1 ∷ 3 ∷ []) }

decode-decode_from_buffer_example :
    as_parsed (Codec.decode primed (7 ∷ 8 ∷ 9 ∷ []))
    ≡ decode_from_buffer (as_parser primed) (prepend primed.prefix_bytes (7 ∷ 8 ∷ 9 ∷ []))
decode-decode_from_buffer_example = decode-decode_from_buffer primed (7 ∷ 8 ∷ 9 ∷ [])

abbrev mechanism : List ℕ
mechanism = 78 ∷ 85 ∷ 76 ∷ 76 ∷ replicate 16 0

abbrev greeting : ZmtpGreeting
greeting = record { version = (3, 0); mechanism = mechanism; as_server = true }

abbrev greeting_bytes : List ℕ
greeting_bytes = Greeting.encode mechanism true [] ++ []

decode-encode_greeting_example :
    Greeting.decode (Greeting.encode mechanism true [] ++ (5 ∷ [])) ≡ (ok (some greeting), 5 ∷ [])
decode-encode_greeting_example = decode-encode_greeting mechanism true refl (5 ∷ [])

-- The bytes of this greeting are decoded.
greeting_decoded : Greeting.decode greeting_bytes ≡ (ok (some greeting), [])
greeting_decoded = decode-encode_greeting mechanism true refl []

decode-Accepted_example :
    Accepted (take 64 greeting_bytes) greeting
    × (take 64 greeting_bytes ++ [] ≡ greeting_bytes)
    × (64 ≤ length greeting_bytes)
decode-Accepted_example = decode-Accepted greeting_bytes [] greeting greeting_decoded

abbrev utf8 : List ℕ → Bool
utf8 bytes = true

abbrev props : Properties
props = (1 ∷ 2 ∷ [], 3 ∷ []) ∷ (4 ∷ [], []) ∷ []

props-Distinct : Distinct props
unfolding lookup bytes_eq
props-Distinct = (refl, (refl, tt))

props_fit : All (Fits utf8) props
props_fit = ((omega arith, refl, omega arith), ((omega arith, refl, omega arith), tt))

parse-create_msg_example :
    parse utf8 (create_msg props) ≡ some (ready (record { properties = props }))
parse-create_msg_example = parse-create_msg utf8 props props-Distinct props_fit
