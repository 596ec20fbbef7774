-- ===== src/Socket/Options/Parse.antt =====
-- The parsers of option values in core/src/socket/options.rs, on a host that stores words with their
-- lowest byte first. Whether a string is UTF-8 is for the parameter `utf8`.
use rzmq.Base.{
  ℕ, zero, suc, ◌*◌, ◌^◌, Bool, false, Option, none, some, List, ◌==◌, if◌then◌else◌, length, ltb,
}
use rzmq.Base.Int.{ℤ, pos, negsuc}
use rzmq.Base.Words.{le_value, signed}
use rzmq.Error.{invalid_option_value, Result, ok, err}
use rzmq.Socket.Options.{
  option_id, opt_linger, opt_tcp_keepalive, opt_routing_id, opt_reconnect_ivl,
  opt_reconnect_ivl_max, opt_maxmsgsize,
}

unfoldable pub parse_i32_option : List ℕ → Result ℤ
parse_i32_option value =
    if length value == 4
    then ok (signed (256 ^ 4) (le_value value))
    else err (invalid_option_value 0)

-- What a parser does with the number, an error with the number's parser passed on.
abbrev pub and_then : {A B : Type 0} → Result A → (A → Result B) → Result B
and_then (ok a) f = f a
and_then (err e) f = err e

-- `map_err` to an error that names the option.
abbrev pub naming : {A : Type 0} → ℕ → Result A → Result A
naming option_id (ok a) = ok a
naming option_id (err e) = err (invalid_option_value option_id)

unfoldable pub is_one : ℤ → Bool
is_one (pos n) = n == 1
is_one (negsuc n) = false

unfoldable pub parse_bool_option : List ℕ → Result Bool
parse_bool_option value = and_then (parse_i32_option value) (λ v. ok (is_one v))

-- A number of milliseconds, or -1 for no limit.
unfoldable pub limited : ℕ → ℤ → Result (Option ℕ)
limited id (pos n) = ok (some n)
limited id (negsuc zero) = ok none
limited id (negsuc (suc n)) = err (invalid_option_value id)

unfoldable pub parse_duration_ms_option : List ℕ → Result (Option ℕ)
parse_duration_ms_option value = and_then (parse_i32_option value) (limited 0)

-- A number of seconds.
unfoldable pub seconds : ℤ → Result (Option ℕ)
seconds (pos n) = ok (some (n * 1000))
seconds (negsuc n) = err (invalid_option_value 0)

unfoldable pub parse_secs_duration_option : List ℕ → Result (Option ℕ)
parse_secs_duration_option value = and_then (parse_i32_option value) seconds

unfoldable pub parse_timeout_option : List ℕ → ℕ → Result (Option ℕ)
parse_timeout_option value id = and_then (naming id (parse_i32_option value)) (limited id)

unfoldable pub parse_linger_option : List ℕ → Result (Option ℕ)
unfolding option_id
parse_linger_option value = and_then (parse_i32_option value) (limited (option_id opt_linger))

unfoldable pub counted : ℤ → Result (Option ℕ)
counted (pos n) = ok (some n)
counted (negsuc n) = err (invalid_option_value 0)

unfoldable pub parse_u32_option : List ℕ → Result (Option ℕ)
parse_u32_option value = and_then (parse_i32_option value) counted

unfoldable pub keepalive_mode : ℤ → Result ℤ
keepalive_mode (pos zero) = ok (pos 0)
keepalive_mode (pos (suc zero)) = ok (pos 1)
keepalive_mode (pos (suc (suc n))) = err (invalid_option_value (option_id opt_tcp_keepalive))
keepalive_mode (negsuc zero) = ok (negsuc 0)
keepalive_mode (negsuc (suc n)) = err (invalid_option_value (option_id opt_tcp_keepalive))

unfoldable pub parse_keepalive_mode_option : List ℕ → Result ℤ
parse_keepalive_mode_option value = and_then (parse_i32_option value) keepalive_mode

unfoldable pub parse_blob_option : List ℕ → Result (List ℕ)
parse_blob_option value =
    if ltb 255 (length value)
    then err (invalid_option_value (option_id opt_routing_id))
    else ok value

-- A number of milliseconds, or 0 for none.
unfoldable pub positive : ℕ → ℤ → Result (Option ℕ)
positive id (pos zero) = ok none
positive id (pos (suc n)) = ok (some (suc n))
positive id (negsuc n) = err (invalid_option_value id)

unfoldable pub parse_heartbeat_option : List ℕ → ℕ → Result (Option ℕ)
parse_heartbeat_option value id = and_then (naming id (parse_i32_option value)) (positive id)

unfoldable pub parse_handshake_option : List ℕ → ℕ → Result (Option ℕ)
parse_handshake_option value id = and_then (naming id (parse_i32_option value)) (positive id)

unfoldable pub reconnect_ivl_of : ℤ → Result (Option ℕ)
reconnect_ivl_of (negsuc zero) = ok none
reconnect_ivl_of (pos zero) = ok none
reconnect_ivl_of (pos (suc n)) = ok (some (suc n))
reconnect_ivl_of (negsuc (suc n)) = err (invalid_option_value (option_id opt_reconnect_ivl))

unfoldable pub parse_reconnect_ivl_option : List ℕ → Result (Option ℕ)
parse_reconnect_ivl_option value = and_then (parse_i32_option value) reconnect_ivl_of

unfoldable pub reconnect_ivl_max_of : ℤ → Result (Option ℕ)
reconnect_ivl_max_of (pos n) = ok (some n)
reconnect_ivl_max_of (negsuc n) = err (invalid_option_value (option_id opt_reconnect_ivl_max))

unfoldable pub parse_reconnect_ivl_max_option : List ℕ → Result (Option ℕ)
parse_reconnect_ivl_max_option value = and_then (parse_i32_option value) reconnect_ivl_max_of

-- -1 is unlimited.
unfoldable pub maxmsgsize_of : ℤ → Result ℤ
maxmsgsize_of (pos n) = ok (pos n)
maxmsgsize_of (negsuc zero) = ok (negsuc 0)
maxmsgsize_of (negsuc (suc n)) = err (invalid_option_value (option_id opt_maxmsgsize))

unfoldable pub parse_maxmsgsize_option : List ℕ → Result ℤ
parse_maxmsgsize_option value =
    if length value == 8
    then maxmsgsize_of (signed (256 ^ 8) (le_value value))
    else err (invalid_option_value (option_id opt_maxmsgsize))

-- A number of connections, or -1 for no limit; there is no limit of 0.
unfoldable pub max_connections_of : ℕ → ℤ → Result (Option ℕ)
max_connections_of id (negsuc zero) = ok none
max_connections_of id (pos zero) = err (invalid_option_value id)
max_connections_of id (pos (suc n)) = ok (some (suc n))
max_connections_of id (negsuc (suc n)) = err (invalid_option_value id)

unfoldable pub parse_max_connections_option : List ℕ → ℕ → Result (Option ℕ)
parse_max_connections_option value id =
    and_then (naming id (parse_i32_option value)) (max_connections_of id)

module _ (utf8 : List ℕ → Bool) where
  unfoldable pub parse_string_option : List ℕ → ℕ → Result (List ℕ)
  parse_string_option value id = if utf8 value then ok value else err (invalid_option_value id)
