-- ===== src/Socket/Options/Retrieve.antt =====
-- `retrieve_core_option_value` of core/src/socket/options.rs.
use rzmq.Base.{
  ℕ, ◌/◌, ◌%◌, ◌^◌, Bool, true, false, Option, none, some, List, [], if◌then◌else◌, ltb,
}
use rzmq.Base.Int.{ℤ, pos, negsuc}
use rzmq.Base.Words.{le_bytes, signed, unsigned}
use rzmq.Error.{unsupported_option, invalid_option, internal, permission_denied, Result, ok, err}
use rzmq.Socket.Options.{
  SocketOptions, OptionName, option_id, opt_sndhwm, opt_rcvhwm, opt_linger, opt_routing_id,
  opt_reconnect_ivl, opt_reconnect_ivl_max, opt_rcvtimeo, opt_sndtimeo, opt_last_endpoint,
  opt_tcp_keepalive, opt_tcp_keepalive_idle, opt_tcp_keepalive_cnt, opt_tcp_keepalive_intvl,
  opt_heartbeat_ivl, opt_heartbeat_timeout, opt_handshake_ivl, opt_maxmsgsize, opt_max_connections,
  opt_tcp_cork, opt_zmtp2_allowed, opt_zap_domain, opt_plain_server, opt_plain_username,
  opt_plain_password, opt_zmq_type, opt_subscribe, opt_unsubscribe, opt_router_mandatory,
  opt_auto_delimiter,
}
use rzmq.Socket.Options.Apply.{option_name}

-- What is read of the core's state: the last endpoint bound, and the number of the socket type.
pub record CoreState : Type 0 where
  pub last_bound_endpoint : Option (List ℕ)
  pub socket_type : ℕ

-- `to_ne_bytes` of an `i32` and of an `i64`.
abbrev pub i32_bytes : ℤ → List ℕ
i32_bytes v = le_bytes 4 (unsigned (256 ^ 4) v)

abbrev pub i64_bytes : ℤ → List ℕ
i64_bytes v = le_bytes 8 (unsigned (256 ^ 8) v)

-- `n as i32`
unfoldable pub as_i32 : ℕ → ℤ
as_i32 n = signed (256 ^ 4) (n % 256 ^ 4)

abbrev pub i32_max : ℕ
i32_max = 2147483647

-- `try_into().unwrap_or(i32::MAX)`
unfoldable pub saturated : ℕ → ℤ
saturated n = if ltb i32_max n then pos i32_max else pos n

-- `map_or`
abbrev pub map_or : ℤ → (ℕ → ℤ) → Option ℕ → ℤ
map_or absent f none = absent
map_or absent f (some n) = f n

-- `as_secs` of a duration in milliseconds.
unfoldable pub as_secs_i32 : ℕ → ℤ
as_secs_i32 d = as_i32 (d / 1000)

abbrev pub bool_as_i32 : Bool → ℤ
bool_as_i32 true = pos 1
bool_as_i32 false = pos 0

abbrev pub or_unset : Option (List ℕ) → Result (List ℕ)
or_unset none = err internal
or_unset (some bytes) = ok bytes

abbrev pub or_empty : Option (List ℕ) → List ℕ
or_empty none = []
or_empty (some bytes) = bytes

abbrev pub role_bytes : Option Bool → Option (List ℕ)
role_bytes none = none
role_bytes (some b) = some (i32_bytes (bool_as_i32 b))

unfoldable pub retrieve_option : OptionName → CoreState → SocketOptions → Result (List ℕ)
retrieve_option opt_sndhwm core o = ok (i32_bytes (as_i32 o.sndhwm))
retrieve_option opt_rcvhwm core o = ok (i32_bytes (as_i32 o.rcvhwm))
retrieve_option opt_linger core o = ok (i32_bytes (map_or (negsuc 0) saturated o.linger))
retrieve_option opt_routing_id core o = or_unset o.routing_id
retrieve_option opt_reconnect_ivl core o = ok (i32_bytes (map_or (pos 0) as_i32 o.reconnect_ivl))
retrieve_option opt_reconnect_ivl_max core o =
    ok (i32_bytes (map_or (pos 0) as_i32 o.reconnect_ivl_max))
retrieve_option opt_rcvtimeo core o = ok (i32_bytes (map_or (negsuc 0) saturated o.rcvtimeo))
retrieve_option opt_sndtimeo core o = ok (i32_bytes (map_or (negsuc 0) saturated o.sndtimeo))
retrieve_option opt_last_endpoint core o = ok (or_empty core.last_bound_endpoint)
retrieve_option opt_tcp_keepalive core o = ok (i32_bytes o.tcp_keepalive_enabled)
retrieve_option opt_tcp_keepalive_idle core o =
    ok (i32_bytes (map_or (pos 0) as_secs_i32 o.tcp_keepalive_idle))
retrieve_option opt_tcp_keepalive_cnt core o =
    ok (i32_bytes (map_or (pos 0) as_i32 o.tcp_keepalive_count))
retrieve_option opt_tcp_keepalive_intvl core o =
    ok (i32_bytes (map_or (pos 0) as_secs_i32 o.tcp_keepalive_interval))
retrieve_option opt_heartbeat_ivl core o = ok (i32_bytes (map_or (pos 0) as_i32 o.heartbeat_ivl))
retrieve_option opt_heartbeat_timeout core o =
    ok (i32_bytes (map_or (pos 0) as_i32 o.heartbeat_timeout))
retrieve_option opt_handshake_ivl core o = ok (i32_bytes (map_or (pos 0) as_i32 o.handshake_ivl))
retrieve_option opt_maxmsgsize core o = ok (i64_bytes o.maxmsgsize)
retrieve_option opt_max_connections core o =
    ok (i32_bytes (map_or (negsuc 0) as_i32 o.max_connections))
retrieve_option opt_tcp_cork core o = ok (i32_bytes (bool_as_i32 o.tcp_cork))
retrieve_option opt_zmtp2_allowed core o = ok (i32_bytes (bool_as_i32 o.allow_zmtp2))
retrieve_option opt_zap_domain core o = or_unset o.zap_domain
retrieve_option opt_plain_server core o = or_unset (role_bytes o.plain_options.server_role)
retrieve_option opt_plain_username core o = or_unset o.plain_options.username
retrieve_option opt_plain_password core o = err permission_denied
retrieve_option opt_zmq_type core o = ok (i32_bytes (as_i32 core.socket_type))
retrieve_option opt_subscribe core o = err (unsupported_option (option_id opt_subscribe))
retrieve_option opt_unsubscribe core o = err (unsupported_option (option_id opt_unsubscribe))
retrieve_option opt_router_mandatory core o =
    err (unsupported_option (option_id opt_router_mandatory))
retrieve_option opt_auto_delimiter core o = err (unsupported_option (option_id opt_auto_delimiter))

abbrev pub retrieve_named : Option OptionName → ℕ → CoreState → SocketOptions → Result (List ℕ)
retrieve_named none id core o = err (invalid_option id)
retrieve_named (some name) id core o = retrieve_option name core o

unfoldable pub retrieve_core_option_value : ℕ → CoreState → SocketOptions → Result (List ℕ)
retrieve_core_option_value id core o = retrieve_named (option_name id) id core o
