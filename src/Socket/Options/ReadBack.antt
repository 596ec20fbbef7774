-- ===== src/Socket/Options/ReadBack.antt =====
-- Values of core/src/socket/options.rs that are set and read again.
pub mod Numbers
use rzmq.Base.{
  ℕ, ◌^◌, ◌≡◌, refl, sym, ap, ◌∙◌, Bool, true, false, Option, none, some, List, [], length, All,
  IsByte, arith, ◌==◌, ==_iff, Bool-cases, inl, inr, if◌then◌else◌, ltb,
}
use rzmq.Base.Int.{ℤ, pos, negsuc}
use rzmq.Base.Words.{le_value, signed}
use rzmq.Error.{permission_denied, Result, ok, err}
use rzmq.Socket.Options.{
  SocketOptions, OptionName, option_id, opt_sndhwm, opt_rcvhwm, opt_linger, opt_routing_id,
  opt_reconnect_ivl, opt_reconnect_ivl_max, opt_rcvtimeo, opt_sndtimeo, opt_tcp_keepalive,
  opt_tcp_keepalive_idle, opt_tcp_keepalive_cnt, opt_tcp_keepalive_intvl, opt_heartbeat_ivl,
  opt_heartbeat_timeout, opt_handshake_ivl, opt_maxmsgsize, opt_max_connections, opt_tcp_cork,
  opt_zmtp2_allowed, opt_zap_domain, opt_plain_server, opt_plain_username, opt_plain_password,
  opt_subscribe, opt_unsubscribe, opt_last_endpoint, opt_router_mandatory, opt_auto_delimiter,
  opt_zmq_type,
}
use rzmq.Socket.Options.Parse.{
  parse_i32_option, and_then, naming, is_one, limited, seconds, counted, keepalive_mode, positive,
  reconnect_ivl_of, reconnect_ivl_max_of, maxmsgsize_of, max_connections_of, parse_bool_option,
  parse_timeout_option, parse_linger_option, parse_secs_duration_option, parse_u32_option,
  parse_keepalive_mode_option, parse_blob_option, parse_heartbeat_option, parse_handshake_option,
  parse_reconnect_ivl_option, parse_reconnect_ivl_max_option, parse_maxmsgsize_option,
  parse_max_connections_option, parse_string_option,
}
use rzmq.Socket.Options.Apply.{set, hwm, with_plain, apply_option}
use rzmq.Socket.Options.Retrieve.{
  CoreState, i32_bytes, i64_bytes, as_i32, saturated, map_or, as_secs_i32, bool_as_i32,
  retrieve_option,
}
use rzmq.Socket.Options.ReadBack.Numbers.{
  Fits, word_back, parse_i32_back, at_least_0, one_or_0, hwm_back, limited_back, positive_back,
  seconds_back, counted_back, reconnect_ivl_back, reconnect_ivl_max_back, max_connections_back,
  keepalive_back, maxmsgsize_back, bool_back,
}

-- The number in a value of 4 bytes.
abbrev pub number : List ℕ → ℤ
number value = signed (256 ^ 4) (le_value value)

-- What is read after a value was set: a negative high-water mark and a reconnect interval of -1 are
-- read as 0, and so is a flag that is not 1; any other value is read as it was set.
pub reads_as : OptionName → List ℕ → List ℕ
reads_as opt_sndhwm value = i32_bytes (at_least_0 (number value))
reads_as opt_rcvhwm value = i32_bytes (at_least_0 (number value))
reads_as opt_reconnect_ivl value = i32_bytes (at_least_0 (number value))
reads_as opt_tcp_cork value = i32_bytes (one_or_0 (number value))
reads_as opt_zmtp2_allowed value = i32_bytes (one_or_0 (number value))
reads_as opt_plain_server value = i32_bytes (one_or_0 (number value))
reads_as _ value = value

-- What reading an option answers after a value was set: the password is not read.
unfoldable pub reads_back : OptionName → List ℕ → Result (List ℕ)
unfolding reads_as
reads_back opt_plain_password value = err permission_denied
reads_back name value = ok (reads_as name value)

-- If the value parses to `a`, this is what is read of the options with it.
set_back :
    {A : Type 0} (parsed : Result A) (assign : A → SocketOptions) (o : SocketOptions)
    (read : SocketOptions → Result (List ℕ)) (bytes : List ℕ)
    → (set parsed assign o).0 ≡ ok tt
    → ((a : A) → parsed ≡ ok a → read (assign a) ≡ ok bytes)
    → read (set parsed assign o).1 ≡ ok bytes
unfolding set
set_back (ok a) assign o read bytes h back = back a refl
set_back (err e) assign o read bytes h back = ground arith

-- The number of a value, if a parser of numbers takes it.
and_then_ok :
    {A : Type 0} (q : Result ℤ) (f : ℤ → Result A) (a : A)
    → and_then q f ≡ ok a
    → (v : ℤ) × (q ≡ ok v) × (f v ≡ ok a)
and_then_ok (ok v) f a h = (v, refl, h)
and_then_ok (err e) f a h = ground arith

naming_ok : (id : ℕ) (q : Result ℤ) (v : ℤ) → naming id q ≡ ok v → q ≡ ok v
naming_ok id (ok w) v h = h
naming_ok id (err e) v h = ground arith

-- A parser of numbers, and what is read of its result.
number_back :
    {A : Type 0} (f : ℤ → Result A) (show : A → ℤ) (norm : ℤ → ℤ) (value : List ℕ) (a : A)
    → ((v : ℤ) (r : A) → Fits v → f v ≡ ok r → show r ≡ norm v)
    → All IsByte value
    → and_then (parse_i32_option value) f ≡ ok a
    → (show a ≡ norm (number value)) × (i32_bytes (number value) ≡ value)
number_back f show norm value a back b h =
    let (v, e, p) = and_then_ok (parse_i32_option value) f a h in
    let (word, fits, same) = parse_i32_back value v b e in
    (back v a fits p ∙ ap norm same, sym (ap i32_bytes same) ∙ word)

kept_back :
    {A : Type 0} (f : ℤ → Result A) (show : A → ℤ) (value : List ℕ) (a : A)
    → ((v : ℤ) (r : A) → Fits v → f v ≡ ok r → show r ≡ v)
    → All IsByte value
    → and_then (parse_i32_option value) f ≡ ok a
    → i32_bytes (show a) ≡ value
kept_back f show value a back b h =
    let (shown, word) = number_back f show (λ v. v) value a back b h in ap i32_bytes shown ∙ word

norm_back :
    {A : Type 0} (f : ℤ → Result A) (show : A → ℤ) (norm : ℤ → ℤ) (value : List ℕ) (a : A)
    → ((v : ℤ) (r : A) → Fits v → f v ≡ ok r → show r ≡ norm v)
    → All IsByte value
    → and_then (parse_i32_option value) f ≡ ok a
    → i32_bytes (show a) ≡ i32_bytes (norm (number value))
norm_back f show norm value a back b h = ap i32_bytes (number_back f show norm value a back b h).0

named_back :
    {A : Type 0} (id : ℕ) (f : ℤ → Result A) (show : A → ℤ) (value : List ℕ) (a : A)
    → ((v : ℤ) (r : A) → Fits v → f v ≡ ok r → show r ≡ v)
    → All IsByte value
    → and_then (naming id (parse_i32_option value)) f ≡ ok a
    → i32_bytes (show a) ≡ value
named_back id f show value a back b h =
    let (v, e, p) = and_then_ok (naming id (parse_i32_option value)) f a h in
    let (word, fits, same) = parse_i32_back value v b (naming_ok id (parse_i32_option value) v e) in
    ap i32_bytes (back v a fits p) ∙ word

flag_of : {a b : Bool} → ok a ≡ ok b → b ≡ a
flag_of h = ground arith

flag_back :
    (value : List ℕ) (flag : Bool)
    → All IsByte value
    → parse_bool_option value ≡ ok flag
    → i32_bytes (bool_as_i32 flag) ≡ i32_bytes (one_or_0 (number value))
unfolding parse_bool_option
flag_back value flag b h =
    norm_back (λ v. ok (is_one v)) bool_as_i32 one_or_0 value flag
      (λ v r f e. ap bool_as_i32 (flag_of e) ∙ bool_back v) b h

hwm_read :
    (value : List ℕ) (v : ℤ)
    → All IsByte value
    → parse_i32_option value ≡ ok v
    → i32_bytes (as_i32 (hwm v)) ≡ i32_bytes (at_least_0 (number value))
hwm_read value v b h =
    let (word, fits, same) = parse_i32_back value v b h in
    ap i32_bytes (hwm_back v fits ∙ ap at_least_0 same)

size_back :
    (value : List ℕ) (v : ℤ)
    → All IsByte value
    → parse_maxmsgsize_option value ≡ ok v
    → i64_bytes v ≡ value
unfolding parse_maxmsgsize_option
size_back value v b h = elim (Bool-cases (length value == 8)) [
  | inl e ↦
      let big : maxmsgsize_of (signed (256 ^ 8) (le_value value)) ≡ ok v = ground arith in
      let same : v ≡ signed (256 ^ 8) (le_value value) =
        maxmsgsize_back (signed (256 ^ 8) (le_value value)) v big in
      rw (same) (word_back 8 value b ((==_iff (length value) 8).0 e))
  | inr e ↦ ground arith
]

blob_back : (value bytes : List ℕ) → parse_blob_option value ≡ ok bytes → bytes ≡ value
unfolding parse_blob_option
blob_back value bytes h = ground arith

string_back :
    (utf8 : List ℕ → Bool) (value bytes : List ℕ) (id : ℕ)
    → parse_string_option utf8 value id ≡ ok bytes
    → bytes ≡ value
unfolding parse_string_option
string_back utf8 value bytes id h = ground arith

-- A value that an option accepts, and then reading that option: it answers the value as it was set, but
-- for a negative high-water mark and a reconnect interval of -1, which are read as 0, and a flag other
-- than 1, which is read as 0 too. Only the PLAIN password is not read: that is refused.
pub retrieve-apply :
    (utf8 : List ℕ → Bool) (name : OptionName) (value : List ℕ) (o : SocketOptions)
    (core : CoreState)
    → All IsByte value
    → (apply_option utf8 name value o).0 ≡ ok tt
    → retrieve_option name core (apply_option utf8 name value o).1 ≡ reads_back name value
unfolding apply_option retrieve_option reads_as reads_back parse_timeout_option parse_linger_option
    parse_secs_duration_option parse_u32_option parse_keepalive_mode_option parse_heartbeat_option
    parse_handshake_option parse_reconnect_ivl_option parse_reconnect_ivl_max_option
    parse_max_connections_option
retrieve-apply utf8 opt_sndhwm value o core b h =
    set_back (parse_i32_option value) (λ v. record o { sndhwm = hwm v }) o
      (retrieve_option opt_sndhwm core) (i32_bytes (at_least_0 (number value))) h
      (λ v e. ap ok (hwm_read value v b e))
retrieve-apply utf8 opt_rcvhwm value o core b h =
    set_back (parse_i32_option value) (λ v. record o { rcvhwm = hwm v }) o
      (retrieve_option opt_rcvhwm core) (i32_bytes (at_least_0 (number value))) h
      (λ v e. ap ok (hwm_read value v b e))
retrieve-apply utf8 opt_linger value o core b h =
    set_back (parse_linger_option value) (λ v. record o { linger = v }) o
      (retrieve_option opt_linger core) value h
      (λ v e. ap ok (
        kept_back (limited (option_id opt_linger)) (map_or (negsuc 0) saturated) value v
          (limited_back (option_id opt_linger)) b e))
retrieve-apply utf8 opt_routing_id value o core b h =
    set_back (parse_blob_option value) (λ v. record o { routing_id = some v }) o
      (retrieve_option opt_routing_id core) value h (λ v e. ap ok (blob_back value v e))
retrieve-apply utf8 opt_reconnect_ivl value o core b h =
    set_back (parse_reconnect_ivl_option value) (λ v. record o { reconnect_ivl = v }) o
      (retrieve_option opt_reconnect_ivl core) (i32_bytes (at_least_0 (number value))) h
      (λ v e. ap ok (
        norm_back reconnect_ivl_of (map_or (pos 0) as_i32) at_least_0 value v reconnect_ivl_back b
          e))
retrieve-apply utf8 opt_reconnect_ivl_max value o core b h =
    set_back (parse_reconnect_ivl_max_option value) (λ v. record o { reconnect_ivl_max = v }) o
      (retrieve_option opt_reconnect_ivl_max core) value h
      (λ v e. ap ok (
        kept_back (reconnect_ivl_max_of) (map_or (pos 0) as_i32) value v (reconnect_ivl_max_back) b
          e))
retrieve-apply utf8 opt_rcvtimeo value o core b h =
    set_back (parse_timeout_option value (option_id opt_rcvtimeo)) (λ v. record o { rcvtimeo = v })
      o (retrieve_option opt_rcvtimeo core) value h
      (λ v e. ap ok (
        named_back (option_id opt_rcvtimeo) (limited (option_id opt_rcvtimeo))
          (map_or (negsuc 0) saturated) value v (limited_back (option_id opt_rcvtimeo)) b e))
retrieve-apply utf8 opt_sndtimeo value o core b h =
    set_back (parse_timeout_option value (option_id opt_sndtimeo)) (λ v. record o { sndtimeo = v })
      o (retrieve_option opt_sndtimeo core) value h
      (λ v e. ap ok (
        named_back (option_id opt_sndtimeo) (limited (option_id opt_sndtimeo))
          (map_or (negsuc 0) saturated) value v (limited_back (option_id opt_sndtimeo)) b e))
retrieve-apply utf8 opt_tcp_keepalive value o core b h =
    set_back (parse_keepalive_mode_option value) (λ v. record o { tcp_keepalive_enabled = v }) o
      (retrieve_option opt_tcp_keepalive core) value h
      (λ v e.
        ap ok (kept_back keepalive_mode (λ r. r) value v (λ w r f p. keepalive_back w r p) b e))
retrieve-apply utf8 opt_tcp_keepalive_idle value o core b h =
    set_back (parse_secs_duration_option value) (λ v. record o { tcp_keepalive_idle = v }) o
      (retrieve_option opt_tcp_keepalive_idle core) value h
      (λ v e. ap ok (kept_back (seconds) (map_or (pos 0) as_secs_i32) value v (seconds_back) b e))
retrieve-apply utf8 opt_tcp_keepalive_cnt value o core b h =
    set_back (parse_u32_option value) (λ v. record o { tcp_keepalive_count = v }) o
      (retrieve_option opt_tcp_keepalive_cnt core) value h
      (λ v e. ap ok (kept_back (counted) (map_or (pos 0) as_i32) value v (counted_back) b e))
retrieve-apply utf8 opt_tcp_keepalive_intvl value o core b h =
    set_back (parse_secs_duration_option value) (λ v. record o { tcp_keepalive_interval = v }) o
      (retrieve_option opt_tcp_keepalive_intvl core) value h
      (λ v e. ap ok (kept_back (seconds) (map_or (pos 0) as_secs_i32) value v (seconds_back) b e))
retrieve-apply utf8 opt_heartbeat_ivl value o core b h =
    set_back (parse_heartbeat_option value (option_id opt_heartbeat_ivl))
      (λ v. record o { heartbeat_ivl = v }) o (retrieve_option opt_heartbeat_ivl core) value h
      (λ v e. ap ok (
        named_back (option_id opt_heartbeat_ivl) (positive (option_id opt_heartbeat_ivl))
          (map_or (pos 0) as_i32) value v (positive_back (option_id opt_heartbeat_ivl)) b e))
retrieve-apply utf8 opt_heartbeat_timeout value o core b h =
    set_back (parse_heartbeat_option value (option_id opt_heartbeat_timeout))
      (λ v. record o { heartbeat_timeout = v }) o (retrieve_option opt_heartbeat_timeout core) value
      h
      (λ v e. ap ok (
        named_back (option_id opt_heartbeat_timeout) (positive (option_id opt_heartbeat_timeout))
          (map_or (pos 0) as_i32) value v (positive_back (option_id opt_heartbeat_timeout)) b e))
retrieve-apply utf8 opt_handshake_ivl value o core b h =
    set_back (parse_handshake_option value (option_id opt_handshake_ivl))
      (λ v. record o { handshake_ivl = v }) o (retrieve_option opt_handshake_ivl core) value h
      (λ v e. ap ok (
        named_back (option_id opt_handshake_ivl) (positive (option_id opt_handshake_ivl))
          (map_or (pos 0) as_i32) value v (positive_back (option_id opt_handshake_ivl)) b e))
retrieve-apply utf8 opt_maxmsgsize value o core b h =
    set_back (parse_maxmsgsize_option value) (λ v. record o { maxmsgsize = v }) o
      (retrieve_option opt_maxmsgsize core) value h (λ v e. ap ok (size_back value v b e))
retrieve-apply utf8 opt_max_connections value o core b h =
    set_back (parse_max_connections_option value (option_id opt_max_connections))
      (λ v. record o { max_connections = v }) o (retrieve_option opt_max_connections core) value h
      (λ v e. ap ok (
        named_back (option_id opt_max_connections)
          (max_connections_of (option_id opt_max_connections)) (map_or (negsuc 0) as_i32) value v
          (max_connections_back (option_id opt_max_connections)) b e))
retrieve-apply utf8 opt_tcp_cork value o core b h =
    set_back (parse_bool_option value) (λ v. record o { tcp_cork = v }) o
      (retrieve_option opt_tcp_cork core) (i32_bytes (one_or_0 (number value))) h
      (λ v e. ap ok (flag_back value v b e))
retrieve-apply utf8 opt_zmtp2_allowed value o core b h =
    set_back (parse_bool_option value) (λ v. record o { allow_zmtp2 = v }) o
      (retrieve_option opt_zmtp2_allowed core) (i32_bytes (one_or_0 (number value))) h
      (λ v e. ap ok (flag_back value v b e))
retrieve-apply utf8 opt_zap_domain value o core b h =
    set_back (parse_string_option utf8 value (option_id opt_zap_domain))
      (λ v. record o { zap_domain = some v }) o (retrieve_option opt_zap_domain core) value h
      (λ v e. ap ok (string_back utf8 value v (option_id opt_zap_domain) e))
retrieve-apply utf8 opt_plain_server value o core b h =
    set_back (parse_bool_option value)
      (λ v. with_plain o (record o.plain_options { server_role = some v; enabled = true })) o
      (retrieve_option opt_plain_server core) (i32_bytes (one_or_0 (number value))) h
      (λ v e. ap ok (flag_back value v b e))
retrieve-apply utf8 opt_plain_username value o core b h =
    set_back (parse_string_option utf8 value (option_id opt_plain_username))
      (λ v. with_plain o (record o.plain_options { username = some v; enabled = true })) o
      (retrieve_option opt_plain_username core) value h
      (λ v e. ap ok (string_back utf8 value v (option_id opt_plain_username) e))
retrieve-apply utf8 opt_plain_password value o core b h = refl
retrieve-apply utf8 opt_subscribe value o core b h = ground arith
retrieve-apply utf8 opt_unsubscribe value o core b h = ground arith
retrieve-apply utf8 opt_last_endpoint value o core b h = ground arith
retrieve-apply utf8 opt_router_mandatory value o core b h = ground arith
retrieve-apply utf8 opt_auto_delimiter value o core b h = ground arith
retrieve-apply utf8 opt_zmq_type value o core b h = ground arith
