-- ===== src/Socket/Options/PlainOn.antt =====
-- PLAIN options of core/src/socket/options.rs and the mechanisms of core/src/security/mod.rs.
use rzmq.Base.{ℕ, ◌≡◌, refl, sym, Bool, true, false, Option, none, some, List, [], ◌∷◌, ◌++◌, arith}
use mathlib.Core.Path.{subst}
use rzmq.Error.{Result, ok, err}
use rzmq.Zmtp.Greeting.{ZmtpGreeting}
use rzmq.Security.Plain.{handshaking}
use rzmq.Security.Negotiate.{
  Mechanism, engine_config, negotiate_security_mechanism, mechanism_status,
}
use rzmq.Security.Negotiate.Choice.{negotiate_no_downgrade}
use rzmq.Socket.Options.{
  SocketOptions, OptionName, option_id, opt_sndhwm, opt_rcvhwm, opt_linger, opt_routing_id,
  opt_reconnect_ivl, opt_reconnect_ivl_max, opt_rcvtimeo, opt_sndtimeo, opt_tcp_keepalive,
  opt_tcp_keepalive_idle, opt_tcp_keepalive_cnt, opt_tcp_keepalive_intvl, opt_heartbeat_ivl,
  opt_heartbeat_timeout, opt_handshake_ivl, opt_maxmsgsize, opt_max_connections, opt_tcp_cork,
  opt_zmtp2_allowed, opt_zap_domain, opt_plain_server, opt_plain_username, opt_plain_password,
  opt_subscribe, opt_unsubscribe, opt_last_endpoint, opt_router_mandatory, opt_auto_delimiter,
  opt_zmq_type,
}
use rzmq.Socket.Options.Parse.{
  parse_i32_option, parse_bool_option, parse_timeout_option, parse_linger_option,
  parse_secs_duration_option, parse_u32_option, parse_keepalive_mode_option, parse_blob_option,
  parse_heartbeat_option, parse_handshake_option, parse_reconnect_ivl_option,
  parse_reconnect_ivl_max_option, parse_maxmsgsize_option, parse_max_connections_option,
  parse_string_option,
}
use rzmq.Socket.Options.Apply.{
  set, hwm, with_plain, option_name, option_name-option_id, apply_named, apply_option,
  apply_core_option_value,
}

-- Options set one after another, each by its number.
abbrev pub Setting : Type 0
Setting = ℕ × List ℕ

unfoldable pub is_plain : OptionName → Bool
is_plain opt_plain_server = true
is_plain opt_plain_username = true
is_plain opt_plain_password = true
is_plain _ = false

abbrev pub Enabled : SocketOptions → Type 0
Enabled o = o.plain_options.enabled ≡ true

set-Enabled :
    {A : Type 0} (parsed : Result A) (assign : A → SocketOptions) (o : SocketOptions)
    → ((a : A) → Enabled (assign a))
    → Enabled o
    → Enabled (set parsed assign o).1
unfolding set
set-Enabled (ok a) assign o back h = back a
set-Enabled (err e) assign o back h = h

accepted-Enabled :
    {A : Type 0} (parsed : Result A) (assign : A → SocketOptions) (o : SocketOptions)
    → ((a : A) → Enabled (assign a))
    → (set parsed assign o).0 ≡ ok tt
    → Enabled (set parsed assign o).1
unfolding set
accepted-Enabled (ok a) assign o back h = back a
accepted-Enabled (err e) assign o back h = ground arith

module _ (utf8 : List ℕ → Bool) where
  unfoldable pub set_all : List Setting → SocketOptions → SocketOptions
  set_all [] o = o
  set_all ((id, value) ∷ later) o = set_all later (apply_core_option_value utf8 id value o).1

  apply_option-Enabled :
      (name : OptionName) (value : List ℕ) (o : SocketOptions)
      → Enabled o
      → Enabled (apply_option utf8 name value o).1
  unfolding apply_option
  apply_option-Enabled opt_sndhwm value o h =
      set-Enabled (parse_i32_option value) (λ v. record o { sndhwm = hwm v }) o (λ v. h) h
  apply_option-Enabled opt_rcvhwm value o h =
      set-Enabled (parse_i32_option value) (λ v. record o { rcvhwm = hwm v }) o (λ v. h) h
  apply_option-Enabled opt_linger value o h =
      set-Enabled (parse_linger_option value) (λ v. record o { linger = v }) o (λ v. h) h
  apply_option-Enabled opt_routing_id value o h =
      set-Enabled (parse_blob_option value) (λ v. record o { routing_id = some v }) o (λ v. h) h
  apply_option-Enabled opt_reconnect_ivl value o h =
      set-Enabled (parse_reconnect_ivl_option value) (λ v. record o { reconnect_ivl = v }) o
        (λ v. h) h
  apply_option-Enabled opt_reconnect_ivl_max value o h =
      set-Enabled (parse_reconnect_ivl_max_option value) (λ v. record o { reconnect_ivl_max = v }) o
        (λ v. h) h
  apply_option-Enabled opt_rcvtimeo value o h =
      set-Enabled (parse_timeout_option value (option_id opt_rcvtimeo))
        (λ v. record o { rcvtimeo = v }) o (λ v. h) h
  apply_option-Enabled opt_sndtimeo value o h =
      set-Enabled (parse_timeout_option value (option_id opt_sndtimeo))
        (λ v. record o { sndtimeo = v }) o (λ v. h) h
  apply_option-Enabled opt_tcp_keepalive value o h =
      set-Enabled (parse_keepalive_mode_option value) (λ v. record o { tcp_keepalive_enabled = v })
        o (λ v. h) h
  apply_option-Enabled opt_tcp_keepalive_idle value o h =
      set-Enabled (parse_secs_duration_option value) (λ v. record o { tcp_keepalive_idle = v }) o
        (λ v. h) h
  apply_option-Enabled opt_tcp_keepalive_cnt value o h =
      set-Enabled (parse_u32_option value) (λ v. record o { tcp_keepalive_count = v }) o (λ v. h) h
  apply_option-Enabled opt_tcp_keepalive_intvl value o h =
      set-Enabled (parse_secs_duration_option value) (λ v. record o { tcp_keepalive_interval = v })
        o (λ v. h) h
  apply_option-Enabled opt_heartbeat_ivl value o h =
      set-Enabled (parse_heartbeat_option value (option_id opt_heartbeat_ivl))
        (λ v. record o { heartbeat_ivl = v }) o (λ v. h) h
  apply_option-Enabled opt_heartbeat_timeout value o h =
      set-Enabled (parse_heartbeat_option value (option_id opt_heartbeat_timeout))
        (λ v. record o { heartbeat_timeout = v }) o (λ v. h) h
  apply_option-Enabled opt_handshake_ivl value o h =
      set-Enabled (parse_handshake_option value (option_id opt_handshake_ivl))
        (λ v. record o { handshake_ivl = v }) o (λ v. h) h
  apply_option-Enabled opt_maxmsgsize value o h =
      set-Enabled (parse_maxmsgsize_option value) (λ v. record o { maxmsgsize = v }) o (λ v. h) h
  apply_option-Enabled opt_max_connections value o h =
      set-Enabled (parse_max_connections_option value (option_id opt_max_connections))
        (λ v. record o { max_connections = v }) o (λ v. h) h
  apply_option-Enabled opt_tcp_cork value o h =
      set-Enabled (parse_bool_option value) (λ v. record o { tcp_cork = v }) o (λ v. h) h
  apply_option-Enabled opt_zmtp2_allowed value o h =
      set-Enabled (parse_bool_option value) (λ v. record o { allow_zmtp2 = v }) o (λ v. h) h
  apply_option-Enabled opt_zap_domain value o h =
      set-Enabled (parse_string_option utf8 value (option_id opt_zap_domain))
        (λ v. record o { zap_domain = some v }) o (λ v. h) h
  apply_option-Enabled opt_plain_server value o h =
      set-Enabled (parse_bool_option value)
        (λ v. with_plain o (record o.plain_options { server_role = some v; enabled = true })) o
        (λ v. refl) h
  apply_option-Enabled opt_plain_username value o h =
      set-Enabled (parse_string_option utf8 value (option_id opt_plain_username))
        (λ v. with_plain o (record o.plain_options { username = some v; enabled = true })) o
        (λ v. refl) h
  apply_option-Enabled opt_plain_password value o h =
      set-Enabled (parse_string_option utf8 value (option_id opt_plain_password))
        (λ v. with_plain o (record o.plain_options { password = some v; enabled = true })) o
        (λ v. refl) h
  apply_option-Enabled opt_subscribe value o h = h
  apply_option-Enabled opt_unsubscribe value o h = h
  apply_option-Enabled opt_last_endpoint value o h = h
  apply_option-Enabled opt_router_mandatory value o h = h
  apply_option-Enabled opt_auto_delimiter value o h = h
  apply_option-Enabled opt_zmq_type value o h = h

  accepted_plain :
      (name : OptionName) (value : List ℕ) (o : SocketOptions)
      → is_plain name ≡ true
      → (apply_option utf8 name value o).0 ≡ ok tt
      → Enabled (apply_option utf8 name value o).1
  unfolding apply_option is_plain
  accepted_plain opt_sndhwm value o r h = ground arith
  accepted_plain opt_rcvhwm value o r h = ground arith
  accepted_plain opt_linger value o r h = ground arith
  accepted_plain opt_routing_id value o r h = ground arith
  accepted_plain opt_reconnect_ivl value o r h = ground arith
  accepted_plain opt_reconnect_ivl_max value o r h = ground arith
  accepted_plain opt_rcvtimeo value o r h = ground arith
  accepted_plain opt_sndtimeo value o r h = ground arith
  accepted_plain opt_tcp_keepalive value o r h = ground arith
  accepted_plain opt_tcp_keepalive_idle value o r h = ground arith
  accepted_plain opt_tcp_keepalive_cnt value o r h = ground arith
  accepted_plain opt_tcp_keepalive_intvl value o r h = ground arith
  accepted_plain opt_heartbeat_ivl value o r h = ground arith
  accepted_plain opt_heartbeat_timeout value o r h = ground arith
  accepted_plain opt_handshake_ivl value o r h = ground arith
  accepted_plain opt_maxmsgsize value o r h = ground arith
  accepted_plain opt_max_connections value o r h = ground arith
  accepted_plain opt_tcp_cork value o r h = ground arith
  accepted_plain opt_zmtp2_allowed value o r h = ground arith
  accepted_plain opt_zap_domain value o r h = ground arith
  accepted_plain opt_plain_server value o r h =
      accepted-Enabled (parse_bool_option value)
        (λ v. with_plain o (record o.plain_options { server_role = some v; enabled = true })) o
        (λ v. refl) h
  accepted_plain opt_plain_username value o r h =
      accepted-Enabled (parse_string_option utf8 value (option_id opt_plain_username))
        (λ v. with_plain o (record o.plain_options { username = some v; enabled = true })) o
        (λ v. refl) h
  accepted_plain opt_plain_password value o r h =
      accepted-Enabled (parse_string_option utf8 value (option_id opt_plain_password))
        (λ v. with_plain o (record o.plain_options { password = some v; enabled = true })) o
        (λ v. refl) h
  accepted_plain opt_subscribe value o r h = ground arith
  accepted_plain opt_unsubscribe value o r h = ground arith
  accepted_plain opt_last_endpoint value o r h = ground arith
  accepted_plain opt_router_mandatory value o r h = ground arith
  accepted_plain opt_auto_delimiter value o r h = ground arith
  accepted_plain opt_zmq_type value o r h = ground arith

  apply_named-Enabled :
      (name : Option OptionName) (id : ℕ) (value : List ℕ) (o : SocketOptions)
      → Enabled o
      → Enabled (apply_named utf8 name id value o).1
  apply_named-Enabled none id value o h = h
  apply_named-Enabled (some name) id value o h = apply_option-Enabled name value o h

  set_all-Enabled :
      (settings : List Setting) (o : SocketOptions) → Enabled o → Enabled (set_all settings o)
  unfolding set_all apply_core_option_value
  set_all-Enabled [] o h = h
  set_all-Enabled ((id, value) ∷ later) o h =
      set_all-Enabled later (apply_named utf8 (option_name id) id value o).1
        (apply_named-Enabled (option_name id) id value o h)

  set_all-append :
      (before after : List Setting) (o : SocketOptions)
      → set_all (before ++ after) o ≡ set_all after (set_all before o)
  unfolding set_all
  set_all-append [] after o = refl
  set_all-append ((id, value) ∷ before) after o =
      set_all-append before after (apply_core_option_value utf8 id value o).1

  set_plain :
      (name : OptionName) (value : List ℕ) (later : List Setting) (o : SocketOptions)
      → is_plain name ≡ true
      → (apply_option utf8 name value o).0 ≡ ok tt
      → Enabled (set_all ((option_id name, value) ∷ later) o)
  unfolding set_all apply_core_option_value
  set_plain name value later o p a =
      subst (λ n. Enabled (set_all later (apply_named utf8 n (option_id name) value o).1))
        (sym (option_name-option_id name))
        (set_all-Enabled later (apply_option utf8 name value o).1 (accepted_plain name value o p a))

  -- Once a PLAIN option was set with a value that is accepted, whatever options are set before and
  -- after it, no ZMTP/3 greeting makes the negotiation of a session give a mechanism that is ready
  -- without a handshake.
  pub plain_option_protects :
      (before after : List Setting) (name : OptionName) (value : List ℕ) (o : SocketOptions)
      (is_server : Bool) (g : ZmtpGreeting) (m : Mechanism)
      → is_plain name ≡ true
      → (apply_option utf8 name value (set_all before o)).0 ≡ ok tt
      → negotiate_security_mechanism is_server
          (engine_config (set_all (before ++ ((option_id name, value) ∷ after)) o).plain_options)
          g
        ≡ ok m
      → mechanism_status m ≡ handshaking
  plain_option_protects before after name value o is_server g m p a n =
      let o' = set_all (before ++ ((option_id name, value) ∷ after)) o in
      let enabled : Enabled o' =
        rw (set_all-append before ((option_id name, value) ∷ after) o)
          (set_plain name value after (set_all before o) p a) in
      negotiate_no_downgrade is_server o'.plain_options g m enabled n
