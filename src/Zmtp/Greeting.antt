-- ===== src/Zmtp/Greeting.antt =====
-- core/src/protocol/zmtp/greeting.rs: the greetings of ZMTP/3.x (64 bytes) and ZMTP/2.0 (12 bytes),
-- whole and in the stages in which the handshake sends them. A mechanism field `[u8; 20]` is a list,
-- and its length is a hypothesis where it matters.
pub mod V3
pub mod Staged
pub mod SocketType
use rzmq.Base.{
  ℕ, zero, suc, ◌+◌, ◌-◌, Bool, true, false, not, Option, none, some, List, [], ◌∷◌, ◌++◌, ltb,
  ◌==◌, if◌then◌else◌, length, take, drop, get_or, replicate,
}
use rzmq.Error.{protocol_violation, Result, ok, err}
use text.Mathlib.Text.{◌==◌ as str_eq}
use Prim.Native.String.{String}

abbrev pub greeting_length : ℕ
greeting_length = 64

abbrev pub mechanism_length : ℕ
mechanism_length = 20

abbrev pub version_major : ℕ
version_major = 3

abbrev pub version_minor : ℕ
version_minor = 0

abbrev pub signature_length : ℕ
signature_length = 10

abbrev pub v2_greeting_length : ℕ
v2_greeting_length = signature_length + 2

abbrev pub version_major_offset : ℕ
version_major_offset = 10

abbrev pub version_minor_offset : ℕ
version_minor_offset = 11

abbrev pub mechanism_offset : ℕ
mechanism_offset = 12

abbrev pub as_server_offset : ℕ
as_server_offset = mechanism_offset + mechanism_length

abbrev pub padding_offset : ℕ
padding_offset = as_server_offset + 1

abbrev pub padding_length : ℕ
padding_length = greeting_length - padding_offset

pub data NegotiatedVersion : Type 0 where
  v2 : NegotiatedVersion
  v3 : ℕ → NegotiatedVersion

abbrev pub is_v2 : NegotiatedVersion → Bool
is_v2 v2 = true
is_v2 (v3 minor) = false

-- Byte 10, behind a signature of which only the first and the last byte are checked.
unfoldable pub peek_revision : List ℕ → Result ℕ
peek_revision buf =
    if ltb (length buf) (signature_length + 1)
    then err protocol_violation
    else if not (get_or buf 0 0 == 0xff)
    then err protocol_violation
    else if not (get_or buf 9 0 == 0x7f)
    then err protocol_violation
    else ok (get_or buf version_major_offset 0)

pub record ZmtpV2Greeting : Type 0 where
  pub revision : ℕ
  pub socket_type : ℕ

abbrev pub v2_revision : ℕ
v2_revision = 1

-- The writers put their bytes behind what the buffer holds.
unfoldable pub encode_signature : List ℕ → List ℕ
encode_signature buffer = buffer ++ (0xff ∷ (replicate 8 0 ++ (0x7f ∷ [])))

unfoldable pub encode_v2_tail : ℕ → List ℕ → List ℕ
encode_v2_tail socket_type buffer = buffer ++ (v2_revision ∷ socket_type ∷ [])

unfoldable pub encode_v2_full : ℕ → List ℕ → List ℕ
unfolding encode_v2_tail
encode_v2_full socket_type buffer =
    encode_v2_tail socket_type (buffer ++ (0xff ∷ (replicate 8 0 ++ (0x7f ∷ []))))

pub decode_v2_tail : ℕ → ℕ → Result ZmtpV2Greeting
decode_v2_tail revision socket_type =
    if not (revision == v2_revision)
    then err protocol_violation
    else ok (record { revision = revision; socket_type = socket_type })

abbrev pub as_server_byte : Bool → ℕ
as_server_byte true = 1
as_server_byte false = 0

-- Minor version, mechanism and role, filled up with zeros to 53 bytes.
unfoldable pub encode_v3_tail_post_major : List ℕ → Bool → List ℕ → List ℕ
encode_v3_tail_post_major mechanism as_server buffer =
    let target = greeting_length - signature_length - 1 in
    let tail = version_minor ∷ (mechanism ++ (as_server_byte as_server ∷ [])) in
    let written = length tail in
    if ltb written target
    then buffer ++ (tail ++ replicate (target - written) 0)
    else buffer ++ tail

unfoldable pub encode_v3_tail : List ℕ → Bool → List ℕ → List ℕ
unfolding encode_v3_tail_post_major
encode_v3_tail mechanism as_server buffer =
    encode_v3_tail_post_major mechanism as_server (buffer ++ (version_major ∷ []))

pub record ZmtpGreeting : Type 0 where
  pub version : ℕ × ℕ
  pub mechanism : List ℕ
  pub as_server : Bool

unfoldable pub encode : List ℕ → Bool → List ℕ → List ℕ
unfolding encode_signature encode_v3_tail
encode mechanism as_server buffer = encode_v3_tail mechanism as_server (encode_signature buffer)

-- `for i in 0..PADDING_LENGTH`: the rounds left, and `i`.
padding_is_zero : ℕ → ℕ → List ℕ → Bool
padding_is_zero zero i bytes = true
padding_is_zero (suc k) i bytes =
    let rest = padding_is_zero k (i + 1) bytes in
    if get_or bytes (padding_offset + i) 0 == 0 then rest else false

parse_as_server : ℕ → Option Bool
parse_as_server byte = if byte == 0 then some false else if byte == 1 then some true else none

-- The checks on the 64 bytes that `decode` has taken.
parse_greeting : List ℕ → Result (Option ZmtpGreeting)
parse_greeting bytes =
    if not (get_or bytes 0 0 == 0xff)
    then err protocol_violation
    else if not (padding_is_zero padding_length 0 bytes)
    then err protocol_violation
    else if not (get_or bytes version_major_offset 0 == version_major)
    then err protocol_violation
    else elim (parse_as_server (get_or bytes as_server_offset 0)) [
      | none ↦ err protocol_violation
      | some as_server ↦ ok (
          some (record {
            version = (get_or bytes version_major_offset 0, get_or bytes version_minor_offset 0);
            mechanism = take mechanism_length (drop mechanism_offset bytes);
            as_server = as_server;
          }))
    ]

-- The answer and the buffer after the call. The 64 bytes are taken whatever they hold.
pub decode : List ℕ → Result (Option ZmtpGreeting) × List ℕ
decode buffer =
    if ltb (length buffer) greeting_length
    then (ok none, buffer)
    else (parse_greeting (take greeting_length buffer), drop greeting_length buffer)

abbrev pub v2_socket_type_pair : ℕ
v2_socket_type_pair = 0

abbrev pub v2_socket_type_pub : ℕ
v2_socket_type_pub = 1

abbrev pub v2_socket_type_sub : ℕ
v2_socket_type_sub = 2

abbrev pub v2_socket_type_req : ℕ
v2_socket_type_req = 3

abbrev pub v2_socket_type_rep : ℕ
v2_socket_type_rep = 4

abbrev pub v2_socket_type_dealer : ℕ
v2_socket_type_dealer = 5

abbrev pub v2_socket_type_router : ℕ
v2_socket_type_router = 6

abbrev pub v2_socket_type_pull : ℕ
v2_socket_type_pull = 7

abbrev pub v2_socket_type_push : ℕ
v2_socket_type_push = 8

unfoldable pub socket_type_code : String → Option ℕ
socket_type_code name =
    if str_eq name "PAIR"
    then some v2_socket_type_pair
    else if str_eq name "PUB"
    then some v2_socket_type_pub
    else if str_eq name "SUB"
    then some v2_socket_type_sub
    else if str_eq name "REQ"
    then some v2_socket_type_req
    else if str_eq name "REP"
    then some v2_socket_type_rep
    else if str_eq name "DEALER"
    then some v2_socket_type_dealer
    else if str_eq name "ROUTER"
    then some v2_socket_type_router
    else if str_eq name "PULL"
    then some v2_socket_type_pull
    else if str_eq name "PUSH"
    then some v2_socket_type_push
    else none

unfoldable pub socket_type_name_from_code : ℕ → Option String
socket_type_name_from_code code =
    if code == v2_socket_type_pair
    then some "PAIR"
    else if code == v2_socket_type_pub
    then some "PUB"
    else if code == v2_socket_type_sub
    then some "SUB"
    else if code == v2_socket_type_req
    then some "REQ"
    else if code == v2_socket_type_rep
    then some "REP"
    else if code == v2_socket_type_dealer
    then some "DEALER"
    else if code == v2_socket_type_router
    then some "ROUTER"
    else if code == v2_socket_type_pull
    then some "PULL"
    else if code == v2_socket_type_push
    then some "PUSH"
    else none
