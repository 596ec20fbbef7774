-- ===== src/Security/Negotiate.antt =====
-- core/src/security/mod.rs and null.rs, and the security fields of core/src/socket/options.rs: which
-- mechanism a session takes, in a build with the default features, where NULL and PLAIN are known. A
-- string of the configuration is the list of its bytes.
pub mod Choice
use rzmq.Base.{
  ℕ, Bool, true, false, not, Option, none, some, List, [], ◌∷◌, ◌++◌, replicate, if◌then◌else◌,
  bytes_eq,
}
use rzmq.Error.{ZmqError, security_error, Result, ok, err}
use rzmq.Zmtp.Greeting.{ZmtpGreeting}
use rzmq.Security.Plain.{
  PlainMechanism, MechanismStatus, ready, status as plain_status, new_plain, set_client_credentials,
  set_server_expected_credentials,
}

pub record PlainMechanismSocketOptions : Type 0 where
  pub enabled : Bool
  pub server_role : Option Bool
  pub username : Option (List ℕ)
  pub password : Option (List ℕ)

-- The fields that the negotiation reads.
pub record ZmtpEngineConfig : Type 0 where
  pub security_enabled : Bool
  pub use_plain : Bool
  pub plain_username_for_engine : Option (List ℕ)
  pub plain_password_for_engine : Option (List ℕ)

-- `From<&SocketOptions>`: what it makes of the PLAIN options.
unfoldable pub engine_config : PlainMechanismSocketOptions → ZmtpEngineConfig
engine_config options = record {
  security_enabled = options.enabled;
  use_plain = options.enabled;
  plain_username_for_engine = options.username;
  plain_password_for_engine = options.password;
}

-- `Box<dyn Mechanism>`
pub data Mechanism : Type 0 where
  null_mechanism : Mechanism
  plain_mechanism : PlainMechanism → Mechanism

unfoldable pub initialize_null : Bool → ZmtpEngineConfig → Result Mechanism
initialize_null is_server local_config = ok null_mechanism

unfoldable pub initialize_plain : Bool → ZmtpEngineConfig → Result Mechanism
initialize_plain is_server local_config =
    let user_bytes = local_config.plain_username_for_engine in
    let pass_bytes = local_config.plain_password_for_engine in
    let plain_mech = new_plain is_server in
    if is_server
    then ok (plain_mechanism (set_server_expected_credentials plain_mech user_bytes pass_bytes))
    else ok (plain_mechanism (set_client_credentials plain_mech user_bytes pass_bytes))

pub record KnownMechanismDescriptor : Type 0 where
  pub name_static_bytes : List ℕ
  pub initializer : Bool → ZmtpEngineConfig → Result Mechanism
  pub is_locally_enabled : ZmtpEngineConfig → Bool

-- b"NULL" and b"PLAIN", filled up to 20 bytes.
abbrev pub null_name : List ℕ
null_name = 78 ∷ 85 ∷ 76 ∷ 76 ∷ replicate 16 0

abbrev pub plain_name : List ℕ
plain_name = 80 ∷ 76 ∷ 65 ∷ 73 ∷ 78 ∷ replicate 15 0

unfoldable pub known_mechanisms : List KnownMechanismDescriptor
known_mechanisms =
    record {
      name_static_bytes = null_name;
      initializer = initialize_null;
      is_locally_enabled = λ cfg. not cfg.security_enabled;
    }
    ∷ record {
      name_static_bytes = plain_name;
      initializer = initialize_plain;
      is_locally_enabled = λ cfg. cfg.use_plain;
    }
    ∷ []

unfoldable pub negotiate_among :
    List KnownMechanismDescriptor → Bool → ZmtpEngineConfig → List ℕ → Result Mechanism
negotiate_among [] is_server local_config proposed = err security_error
negotiate_among (descriptor ∷ rest) is_server local_config proposed =
    if bytes_eq descriptor.name_static_bytes proposed
    then (if descriptor.is_locally_enabled local_config
        then descriptor.initializer is_server local_config
        else err security_error)
    else negotiate_among rest is_server local_config proposed

unfoldable pub negotiate_security_mechanism :
    Bool → ZmtpEngineConfig → ZmtpGreeting → Result Mechanism
negotiate_security_mechanism is_server local_config peer_greeting =
    negotiate_among known_mechanisms is_server local_config peer_greeting.mechanism

-- `status` of a `Box<dyn Mechanism>`
unfoldable pub mechanism_status : Mechanism → MechanismStatus
mechanism_status null_mechanism = ready
mechanism_status (plain_mechanism m) = plain_status m
