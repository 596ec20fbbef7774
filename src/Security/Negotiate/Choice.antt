-- ===== src/Security/Negotiate/Choice.antt =====
-- The one mechanism that a configuration of core/src/security/mod.rs allows.
use rzmq.Base.{
  ℕ, ◌≡◌, ◌↔◌, refl, Bool, true, false, List, if◌then◌else◌, bytes_eq, bytes_eq_iff, arith,
}
use rzmq.Error.{security_error, Result, ok, err}
use rzmq.Zmtp.Greeting.{ZmtpGreeting}
use rzmq.Security.Plain.{
  handshaking, new_plain, set_client_credentials, set_server_expected_credentials,
}
use rzmq.Security.Negotiate.{
  PlainMechanismSocketOptions, Mechanism, null_mechanism, engine_config, initialize_null,
  initialize_plain, known_mechanisms, negotiate_among, negotiate_security_mechanism, null_name,
  plain_name, mechanism_status,
}

-- The mechanism that the options ask for.
abbrev pub configured : PlainMechanismSocketOptions → List ℕ
configured options = if options.enabled then plain_name else null_name

abbrev pub chosen : Bool → PlainMechanismSocketOptions → Result Mechanism
chosen is_server options =
    if options.enabled
    then initialize_plain is_server (engine_config options)
    else ok null_mechanism

names_differ : bytes_eq plain_name null_name ≡ false
unfolding bytes_eq
names_differ = refl

not_both : (g : List ℕ) → bytes_eq null_name g ≡ true → bytes_eq plain_name g ≡ true → ⊥
not_both g n p =
    let e = (bytes_eq_iff null_name g).0 n in
    let f = (bytes_eq_iff plain_name g).0 p in let no = names_differ in cc

negotiated :
    (is_server : Bool) (options : PlainMechanismSocketOptions) (g : ZmtpGreeting)
    → negotiate_security_mechanism is_server (engine_config options) g ≡ (
        if bytes_eq (configured options) g.mechanism
        then chosen is_server options
        else err security_error)
unfolding negotiate_security_mechanism negotiate_among known_mechanisms engine_config
    initialize_null
negotiated is_server options g = ground (arith, not_both g.mechanism)

initialized :
    (is_server : Bool) (options : PlainMechanismSocketOptions)
    → (m : Mechanism) × (initialize_plain is_server (engine_config options) ≡ ok m)
      × (mechanism_status m ≡ handshaking)
unfolding engine_config initialize_plain new_plain set_client_credentials
    set_server_expected_credentials mechanism_status
initialized true options = (_, refl, refl)
initialized false options = (_, refl, refl)

-- Negotiation succeeds exactly if the peer proposes the mechanism that the options ask for, with an
-- initialized mechanism of that kind; anything else is a security error.
pub negotiate_iff :
    (is_server : Bool) (options : PlainMechanismSocketOptions) (g : ZmtpGreeting)
    → let answer = negotiate_security_mechanism is_server (engine_config options) g in
      ((answer ≡ err security_error) ↔ ¬ (g.mechanism ≡ configured options))
      × ((g.mechanism ≡ configured options) ↔ (
          answer ≡ (
            if options.enabled
            then initialize_plain is_server (engine_config options)
            else ok null_mechanism)))
negotiate_iff is_server options g =
    let (m, made, h) = initialized is_server options in
    rw (negotiated is_server options g)
      (ground (arith, made, bytes_eq_iff (configured options) g.mechanism))

-- With PLAIN configured, no proposal of the peer gives a mechanism that is ready before a handshake.
pub negotiate_no_downgrade :
    (is_server : Bool) (options : PlainMechanismSocketOptions) (g : ZmtpGreeting) (m : Mechanism)
    → options.enabled ≡ true
    → negotiate_security_mechanism is_server (engine_config options) g ≡ ok m
    → mechanism_status m ≡ handshaking
negotiate_no_downgrade is_server options g m on h =
    let (n, made, waits) = initialized is_server options in
    ground (arith, negotiated is_server options g, made, waits)
