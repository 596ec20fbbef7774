-- ===== src/Zmtp/Command.antt =====
-- core/src/protocol/zmtp/command.rs: command frames. Names and values are byte strings; whether a
-- name is UTF-8 is for `String::from_utf8`, the parameter `utf8`. A `HashMap` of properties is an
-- association list in the order of its iteration.
pub mod Properties
pub mod Parse
use rzmq.Base.{
  ℕ, zero, suc, ◌+◌, ◌%◌, ◌/◌, ◌^◌, ◌≡◌, Bool, true, false, not, ◌&&◌, ◌||◌, Option, none, some,
  List, [], ◌∷◌, ◌++◌, ltb, leb, ◌==◌, if◌then◌else◌, length, take, drop, be_bytes, be_value,
  bytes_key,
}
use rzmq.Base.Maps.{insert}
use rzmq.Error.{protocol_violation, internal, Result, ok, err}
use rzmq.Message.{Msg, from_bytes, set_flags, command_flag, is_command, is_more}

abbrev pub Properties : Type 0
Properties = List (List ℕ × List ℕ)

pub record ZmtpReady : Type 0 where
  pub properties : Properties

pub data ZmtpCommand : Type 0 where
  ping : List ℕ → ZmtpCommand
  pong : List ℕ → ZmtpCommand
  ready : ZmtpReady → ZmtpCommand
  error : ZmtpCommand
  unknown : List ℕ → ZmtpCommand

-- `slice::starts_with`
abbrev pub starts_with : List ℕ → List ℕ → Bool
starts_with [] body = true
starts_with (x ∷ xs) [] = false
starts_with (x ∷ xs) (y ∷ ys) = (y == x) && starts_with xs ys

-- b"\x04PING", b"\x04PONG", b"\x05READY" and b"\x05ERROR"
abbrev pub ping_name : List ℕ
ping_name = 4 ∷ b'P' ∷ b'I' ∷ b'N' ∷ b'G' ∷ []

abbrev pub pong_name : List ℕ
pong_name = 4 ∷ b'P' ∷ b'O' ∷ b'N' ∷ b'G' ∷ []

abbrev pub ready_name : List ℕ
ready_name = 5 ∷ b'R' ∷ b'E' ∷ b'A' ∷ b'D' ∷ b'Y' ∷ []

abbrev pub error_name : List ℕ
error_name = 5 ∷ b'E' ∷ b'R' ∷ b'R' ∷ b'O' ∷ b'R' ∷ []

-- One property: the length of the name, the name, the length of the value, the value.
unfoldable pub encode_property : List ℕ × List ℕ → List ℕ
encode_property (name, value) =
    if ltb 255 (length name)
    then []
    else length name % 256 ∷ (name ++ (be_bytes 4 (length value % 2 ^ 32) ++ value))

unfoldable pub encode_properties : Properties → List ℕ → List ℕ
encode_properties [] dst = dst
encode_properties (p ∷ props) dst = encode_properties props (dst ++ encode_property p)

pub create_msg : Properties → Msg
create_msg props = set_flags (from_bytes (encode_properties props ready_name)) command_flag

pub create_ping : ℕ → List ℕ → Msg
create_ping ttl context =
    set_flags (from_bytes (ping_name ++ (be_bytes 2 (ttl % 2 ^ 16) ++ context))) command_flag

pub create_pong : List ℕ → Msg
create_pong context = set_flags (from_bytes (pong_name ++ context)) command_flag

module _ (utf8 : List ℕ → Bool) where
  -- The `while` loop, on what the cursor has not reached. `none`: the fuel has run out.
  unfoldable pub parse_loop : ℕ → List ℕ → Properties → Option (Result Properties)
  parse_loop fuel [] props = some (ok props)
  parse_loop zero (b ∷ bs) props = none
  parse_loop (suc fuel) (name_len ∷ rest) props =
      let name = take name_len rest in
      let after_name = drop name_len rest in
      let value_len = be_value (take 4 after_name) in
      let after_len = drop 4 after_name in
      let more =
        parse_loop fuel (drop value_len after_len) (insert name (take value_len after_len) props) in
      if ltb (length rest) name_len
      then some (err protocol_violation)
      else if not (utf8 name)
      then some (err protocol_violation)
      else if ltb (length after_name) 4
      then some (err protocol_violation)
      else if ltb (length after_len) value_len
      then some (err protocol_violation)
      else more

  -- Each round takes a byte at least, so the fuel is the length of the body; `internal` stands for a
  -- loop that has run out of it.
  pub parse_properties : List ℕ → Result ZmtpReady
  parse_properties body = elim (parse_loop (length body) body []) [
    | none ↦ err internal
    | some (err e) ↦ err e
    | some (ok props) ↦ ok (record { properties = props })
  ]

  parse_body : List ℕ → Option ZmtpCommand
  parse_body body =
      if starts_with ping_name body && leb 7 (length body)
      then some (ping (drop 7 body))
      else if starts_with pong_name body && leb 5 (length body)
      then some (pong (drop 5 body))
      else if starts_with ready_name body && leb 6 (length body)
      then elim (parse_properties (drop 6 body)) [ ok cmd ↦ some (ready cmd) | err e ↦ none ]
      else if starts_with error_name body
      then some error
      else some (unknown body)

  pub parse : Msg → Option ZmtpCommand
  parse msg =
      if not (is_command msg) || is_more msg
      then none
      else elim msg.payload [ none ↦ none | some body ↦ parse_body body ]
