-- ===== src/Socket/Options/Apply.antt =====
-- `apply_core_option_value` of core/src/socket/options.rs. An option's number is a natural one.
use rzmq.Base.{ℕ, ◌≡◌, refl, Bool, true, Option, none, some, List, [], ◌∷◌, nat_eq}
use rzmq.Base.Int.{ℤ, pos, negsuc}
use rzmq.Base.Maps.{lookup}
use rzmq.Error.{unsupported_option, invalid_option, Result, ok, err}
use rzmq.Security.Negotiate.{PlainMechanismSocketOptions}
use rzmq.Socket.Options.{
  SocketOptions, OptionName, option_id, opt_sndhwm, opt_rcvhwm, opt_linger, opt_routing_id,
  opt_reconnect_ivl, opt_reconnect_ivl_max, opt_rcvtimeo, opt_sndtimeo, opt_tcp_keepalive,
  opt_tcp_keepalive_idle, opt_tcp_keepalive_cnt, opt_tcp_keepalive_intvl, opt_heartbeat_ivl,
  opt_heartbeat_timeout, opt_handshake_ivl, opt_maxmsgsize, opt_max_connections, opt_tcp_cork,
  opt_zmtp2_allowed, opt_zap_domain, opt_plain_server, opt_plain_username, opt_plain_password,
  opt_subscribe, opt_unsubscribe, opt_last_endpoint, opt_router_mandatory, opt_auto_delimiter,
  opt_zmq_type,
}
use rzmq.Socket.Options.Parse.{
  parse_i32_option, parse_bool_option, parse_timeout_option, parse_linger_option,
  parse_secs_duration_option, parse_u32_option, parse_keepalive_mode_option, parse_blob_option,
  parse_heartbeat_option, parse_handshake_option, parse_reconnect_ivl_option,
  parse_reconnect_ivl_max_option, parse_maxmsgsize_option, parse_max_connections_option,
  parse_string_option,
}

-- `max(0)`
unfoldable pub hwm : ℤ → ℕ
hwm (pos n) = n
hwm (negsuc n) = 0

abbrev pub with_plain : SocketOptions → PlainMechanismSocketOptions → SocketOptions
with_plain o plain = record o { plain_options = plain }

-- A value that does not parse changes nothing.
unfoldable pub set :
    {A : Type 0}
    → Result A
    → (A → SocketOptions)
    → SocketOptions
    → Result (Unit {0}) × SocketOptions
set (ok v) assign o = (ok tt, assign v)
set (err e) assign o = (err e, o)

-- The numbers that the source matches on.
abbrev pub known_options : List (ℕ × OptionName)
known_options =
    (option_id opt_sndhwm, opt_sndhwm)
    ∷ (option_id opt_rcvhwm, opt_rcvhwm)
    ∷ (option_id opt_linger, opt_linger)
    ∷ (option_id opt_routing_id, opt_routing_id)
    ∷ (option_id opt_reconnect_ivl, opt_reconnect_ivl)
    ∷ (option_id opt_reconnect_ivl_max, opt_reconnect_ivl_max)
    ∷ (option_id opt_rcvtimeo, opt_rcvtimeo)
    ∷ (option_id opt_sndtimeo, opt_sndtimeo)
    ∷ (option_id opt_tcp_keepalive, opt_tcp_keepalive)
    ∷ (option_id opt_tcp_keepalive_idle, opt_tcp_keepalive_idle)
    ∷ (option_id opt_tcp_keepalive_cnt, opt_tcp_keepalive_cnt)
    ∷ (option_id opt_tcp_keepalive_intvl, opt_tcp_keepalive_intvl)
    ∷ (option_id opt_heartbeat_ivl, opt_heartbeat_ivl)
    ∷ (option_id opt_heartbeat_timeout, opt_heartbeat_timeout)
    ∷ (option_id opt_handshake_ivl, opt_handshake_ivl)
    ∷ (option_id opt_maxmsgsize, opt_maxmsgsize)
    ∷ (option_id opt_max_connections, opt_max_connections)
    ∷ (option_id opt_tcp_cork, opt_tcp_cork)
    ∷ (option_id opt_zmtp2_allowed, opt_zmtp2_allowed)
    ∷ (option_id opt_zap_domain, opt_zap_domain)
    ∷ (option_id opt_plain_server, opt_plain_server)
    ∷ (option_id opt_plain_username, opt_plain_username)
    ∷ (option_id opt_plain_password, opt_plain_password)
    ∷ (option_id opt_subscribe, opt_subscribe)
    ∷ (option_id opt_unsubscribe, opt_unsubscribe)
    ∷ (option_id opt_last_endpoint, opt_last_endpoint)
    ∷ (option_id opt_router_mandatory, opt_router_mandatory)
    ∷ (option_id opt_auto_delimiter, opt_auto_delimiter)
    ∷ (option_id opt_zmq_type, opt_zmq_type)
    ∷ []

unfoldable pub option_name : ℕ → Option OptionName
unfolding option_id
option_name id = lookup id known_options

module _ (utf8 : List ℕ → Bool) where
  unfoldable pub apply_option :
      OptionName → List ℕ → SocketOptions → Result (Unit {0}) × SocketOptions
  apply_option opt_sndhwm value o =
      set (parse_i32_option value) (λ v. record o { sndhwm = hwm v }) o
  apply_option opt_rcvhwm value o =
      set (parse_i32_option value) (λ v. record o { rcvhwm = hwm v }) o
  apply_option opt_linger value o = set (parse_linger_option value) (λ v. record o { linger = v }) o
  apply_option opt_routing_id value o =
      set (parse_blob_option value) (λ v. record o { routing_id = some v }) o
  apply_option opt_reconnect_ivl value o =
      set (parse_reconnect_ivl_option value) (λ v. record o { reconnect_ivl = v }) o
  apply_option opt_reconnect_ivl_max value o =
      set (parse_reconnect_ivl_max_option value) (λ v. record o { reconnect_ivl_max = v }) o
  apply_option opt_rcvtimeo value o =
      set (parse_timeout_option value (option_id opt_rcvtimeo)) (λ v. record o { rcvtimeo = v }) o
  apply_option opt_sndtimeo value o =
      set (parse_timeout_option value (option_id opt_sndtimeo)) (λ v. record o { sndtimeo = v }) o
  apply_option opt_tcp_keepalive value o =
      set (parse_keepalive_mode_option value) (λ v. record o { tcp_keepalive_enabled = v }) o
  apply_option opt_tcp_keepalive_idle value o =
      set (parse_secs_duration_option value) (λ v. record o { tcp_keepalive_idle = v }) o
  apply_option opt_tcp_keepalive_cnt value o =
      set (parse_u32_option value) (λ v. record o { tcp_keepalive_count = v }) o
  apply_option opt_tcp_keepalive_intvl value o =
      set (parse_secs_duration_option value) (λ v. record o { tcp_keepalive_interval = v }) o
  apply_option opt_heartbeat_ivl value o =
      set (parse_heartbeat_option value (option_id opt_heartbeat_ivl))
        (λ v. record o { heartbeat_ivl = v }) o
  apply_option opt_heartbeat_timeout value o =
      set (parse_heartbeat_option value (option_id opt_heartbeat_timeout))
        (λ v. record o { heartbeat_timeout = v }) o
  apply_option opt_handshake_ivl value o =
      set (parse_handshake_option value (option_id opt_handshake_ivl))
        (λ v. record o { handshake_ivl = v }) o
  apply_option opt_maxmsgsize value o =
      set (parse_maxmsgsize_option value) (λ v. record o { maxmsgsize = v }) o
  apply_option opt_max_connections value o =
      set (parse_max_connections_option value (option_id opt_max_connections))
        (λ v. record o { max_connections = v }) o
  apply_option opt_tcp_cork value o =
      set (parse_bool_option value) (λ v. record o { tcp_cork = v }) o
  apply_option opt_zmtp2_allowed value o =
      set (parse_bool_option value) (λ v. record o { allow_zmtp2 = v }) o
  apply_option opt_zap_domain value o =
      set (parse_string_option utf8 value (option_id opt_zap_domain))
        (λ v. record o { zap_domain = some v }) o
  apply_option opt_plain_server value o =
      set (parse_bool_option value)
        (λ v. with_plain o (record o.plain_options { server_role = some v; enabled = true })) o
  apply_option opt_plain_username value o =
      set (parse_string_option utf8 value (option_id opt_plain_username))
        (λ v. with_plain o (record o.plain_options { username = some v; enabled = true })) o
  apply_option opt_plain_password value o =
      set (parse_string_option utf8 value (option_id opt_plain_password))
        (λ v. with_plain o (record o.plain_options { password = some v; enabled = true })) o
  apply_option opt_subscribe value o = (err (unsupported_option (option_id opt_subscribe)), o)
  apply_option opt_unsubscribe value o = (err (unsupported_option (option_id opt_unsubscribe)), o)
  apply_option opt_last_endpoint value o =
      (err (unsupported_option (option_id opt_last_endpoint)), o)
  apply_option opt_router_mandatory value o =
      (err (unsupported_option (option_id opt_router_mandatory)), o)
  apply_option opt_auto_delimiter value o =
      (err (unsupported_option (option_id opt_auto_delimiter)), o)
  apply_option opt_zmq_type value o = (err (unsupported_option (option_id opt_zmq_type)), o)

  abbrev pub apply_named :
      Option OptionName → ℕ → List ℕ → SocketOptions → Result (Unit {0}) × SocketOptions
  apply_named none id value o = (err (invalid_option id), o)
  apply_named (some name) id value o = apply_option name value o

  unfoldable pub apply_core_option_value :
      ℕ → List ℕ → SocketOptions → Result (Unit {0}) × SocketOptions
  apply_core_option_value id value o = apply_named (option_name id) id value o

pub option_name-option_id : (name : OptionName) → option_name (option_id name) ≡ some name
unfolding option_name option_id lookup
option_name-option_id opt_sndhwm = refl
option_name-option_id opt_rcvhwm = refl
option_name-option_id opt_linger = refl
option_name-option_id opt_routing_id = refl
option_name-option_id opt_reconnect_ivl = refl
option_name-option_id opt_reconnect_ivl_max = refl
option_name-option_id opt_rcvtimeo = refl
option_name-option_id opt_sndtimeo = refl
option_name-option_id opt_tcp_keepalive = refl
option_name-option_id opt_tcp_keepalive_idle = refl
option_name-option_id opt_tcp_keepalive_cnt = refl
option_name-option_id opt_tcp_keepalive_intvl = refl
option_name-option_id opt_heartbeat_ivl = refl
option_name-option_id opt_heartbeat_timeout = refl
option_name-option_id opt_handshake_ivl = refl
option_name-option_id opt_maxmsgsize = refl
option_name-option_id opt_max_connections = refl
option_name-option_id opt_tcp_cork = refl
option_name-option_id opt_zmtp2_allowed = refl
option_name-option_id opt_zap_domain = refl
option_name-option_id opt_plain_server = refl
option_name-option_id opt_plain_username = refl
option_name-option_id opt_plain_password = refl
option_name-option_id opt_subscribe = refl
option_name-option_id opt_unsubscribe = refl
option_name-option_id opt_last_endpoint = refl
option_name-option_id opt_router_mandatory = refl
option_name-option_id opt_auto_delimiter = refl
option_name-option_id opt_zmq_type = refl
