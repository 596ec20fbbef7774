-- ===== src/Security/Plain.antt =====
-- core/src/security/plain.rs and the statuses of core/src/security/mechanism.rs: the PLAIN handshake.
-- The texts of error reasons are a data type with what the texts show; the ZAP fields, which are
-- never set, are left out.
pub mod Hello
pub mod Verified
pub mod Handshake
use rzmq.Base.{
  ℕ, suc, ◌+◌, ◌%◌, min, Bool, true, false, not, ◌&&◌, Option, none, some, List, [], ◌∷◌, ◌++◌, ltb,
  if◌then◌else◌, length, take, drop, get_or, bytes_eq,
}
use rzmq.Error.{ZmqError, security_error, authentication_failure, invalid_state, Result, ok, err}
use rzmq.Message.{bytes_or_empty}

pub data MechanismStatus : Type 0 where
  initializing handshaking authenticating ready error : MechanismStatus

pub data ProcessTokenAction : Type 0 where
  continue_waiting produce_and_send handshake_complete : ProcessTokenAction

pub data PlainState : Type 0 where
  start : PlainState
  client_send_hello client_expect_welcome : PlainState
  server_expect_hello server_send_welcome : PlainState
  accepted failed : PlainState

pub data Reason : Type 0 where
  empty_token invalid_command_frame invalid_credentials : Reason
  hello_not_parsed : ZmqError → Reason
  expected_hello expected_welcome : List ℕ → Reason
  unexpected_by_server unexpected_by_client : PlainState → List ℕ → Reason
  error_from_server : List ℕ → Reason
  set_by_engine : Reason

pub record PlainMechanism : Type 0 where
  pub is_server : Bool
  pub state : PlainState
  pub username : Option (List ℕ)
  pub password : Option (List ℕ)
  pub expected_username : Option (List ℕ)
  pub expected_password : Option (List ℕ)
  pub error_reason : Option Reason

-- b"HELLO", b"WELCOME" and b"ERROR"
abbrev pub cmd_hello : List ℕ
cmd_hello = 72 ∷ 69 ∷ 76 ∷ 76 ∷ 79 ∷ []

abbrev pub cmd_welcome : List ℕ
cmd_welcome = 87 ∷ 69 ∷ 76 ∷ 67 ∷ 79 ∷ 77 ∷ 69 ∷ []

abbrev pub cmd_error : List ℕ
cmd_error = 69 ∷ 82 ∷ 82 ∷ 79 ∷ 82 ∷ []

unfoldable pub new_plain : Bool → PlainMechanism
new_plain is_server = record {
  is_server = is_server;
  state = if is_server then server_expect_hello else client_send_hello;
  username = none;
  password = none;
  expected_username = none;
  expected_password = none;
  error_reason = none;
}

unfoldable pub set_client_credentials :
    PlainMechanism → Option (List ℕ) → Option (List ℕ) → PlainMechanism
set_client_credentials m username password =
    if not m.is_server then record m { username = username; password = password } else m

unfoldable pub set_server_expected_credentials :
    PlainMechanism → Option (List ℕ) → Option (List ℕ) → PlainMechanism
set_server_expected_credentials m username password =
    if m.is_server
    then record m { expected_username = username; expected_password = password }
    else m

abbrev pub Credentials : Type 0
Credentials = List ℕ × List ℕ

-- What follows the user name: the length of the password and the password.
unfoldable pub parse_password : List ℕ → List ℕ → Result Credentials
parse_password username [] = err security_error
parse_password username (pass_len ∷ rest) =
    if ltb (length rest) pass_len then err security_error else ok (username, take pass_len rest)

unfoldable pub parse_hello_body : List ℕ → Result Credentials
parse_hello_body [] = err security_error
parse_hello_body (user_len ∷ []) = err security_error
parse_hello_body (user_len ∷ rest) =
    if ltb (length rest) (user_len + 1)
    then err security_error
    else parse_password (take user_len rest) (drop user_len rest)

-- `bytes.len().min(255) as u8`
abbrev pub field_len : List ℕ → ℕ
field_len bytes = min (length bytes) 255 % 256

unfoldable pub create_hello_body : List ℕ → List ℕ → List ℕ
create_hello_body username password =
    field_len username
    ∷ (take (field_len username) username
        ++ (field_len password ∷ take (field_len password) password))

-- `set_error_internal`
unfoldable pub set_error : PlainMechanism → Reason → PlainMechanism
set_error m reason = record m { error_reason = some reason; state = failed }

-- `expected.as_ref().map_or(false, |e| e == &given)`
unfoldable pub expects : Option (List ℕ) → List ℕ → Bool
expects none given = false
expects (some expected) given = bytes_eq expected given

abbrev pub Processed : Type 0
Processed = Result ProcessTokenAction × PlainMechanism

unfoldable pub verify : PlainMechanism → Result Credentials → Processed
verify m (err e) = (err e, set_error m (hello_not_parsed e))
verify m (ok (username, password)) =
    if expects m.expected_username username && expects m.expected_password password
    then (
      ok produce_and_send,
      record m { username = some username; password = some password; state = server_send_welcome },
    )
    else (err authentication_failure, set_error m invalid_credentials)

unfoldable pub server_process : PlainMechanism → PlainState → List ℕ → List ℕ → Processed
server_process m server_expect_hello command_name body =
    if bytes_eq command_name cmd_hello
    then verify m (parse_hello_body body)
    else (err security_error, set_error m (expected_hello command_name))
server_process m _ command_name body =
    (err security_error, set_error m (unexpected_by_server m.state command_name))

unfoldable pub client_process : PlainMechanism → PlainState → List ℕ → List ℕ → Processed
client_process m client_expect_welcome command_name body =
    if bytes_eq command_name cmd_welcome
    then (ok handshake_complete, record m { state = accepted })
    else if bytes_eq command_name cmd_error
    then (err authentication_failure, set_error m (error_from_server body))
    else (err security_error, set_error m (expected_welcome command_name))
client_process m _ command_name body =
    (err security_error, set_error m (unexpected_by_client m.state command_name))

unfoldable pub process_token : PlainMechanism → List ℕ → Processed
process_token m [] = (err security_error, set_error m empty_token)
process_token m (command_len ∷ rest) =
    let command_name = take command_len rest in
    let body = drop command_len rest in
    if ltb (suc (length rest)) (1 + command_len)
    then (err security_error, set_error m invalid_command_frame)
    else if m.is_server
    then server_process m m.state command_name body
    else client_process m m.state command_name body

abbrev pub Produced : Type 0
Produced = Result (Option (List ℕ)) × PlainMechanism

unfoldable pub produce_in : PlainState → PlainMechanism → Produced
produce_in client_send_hello m =
    let body = create_hello_body (bytes_or_empty m.username) (bytes_or_empty m.password) in
    (ok (some (5 ∷ (cmd_hello ++ body))), record m { state = client_expect_welcome })
produce_in server_send_welcome m = (ok (some (7 ∷ cmd_welcome)), record m { state = accepted })
produce_in _ m = (ok none, m)

unfoldable pub produce_token : PlainMechanism → Produced
unfolding produce_in
produce_token m = produce_in m.state m

abbrev pub status_of : PlainState → MechanismStatus
status_of accepted = ready
status_of failed = error
status_of _ = handshaking

abbrev pub status : PlainMechanism → MechanismStatus
status m = status_of m.state

-- The framer of the data phase is NULL's, so what is left is the peer's identity.
unfoldable pub framer_identity : MechanismStatus → PlainMechanism → Result (Option (List ℕ))
framer_identity ready m = ok m.username
framer_identity _ m = err invalid_state

unfoldable pub into_framer : PlainMechanism → Result (Option (List ℕ))
unfolding framer_identity
into_framer m = framer_identity (status m) m
