-- ===== src/Socket/Options.antt =====
-- core/src/socket/options.rs, in a build with the default features: the options of a socket. A
-- `Duration` is its milliseconds, a string or blob the list of its bytes.
pub mod Parse
pub mod Apply
pub mod Retrieve
pub mod ReadBack
pub mod PlainOn
use rzmq.Base.Int.{ℤ, pos, negsuc}
use rzmq.Base.{ℕ, Bool, true, false, Option, none, some, List, [], ◌∷◌}
use rzmq.Security.Negotiate.{PlainMechanismSocketOptions}

pub record IoUringSocketOptions : Type 0 where
  pub send_zerocopy : Bool
  pub recv_multishot : Bool
  pub session_enabled : Bool

pub record SocketOptions : Type 0 where
  pub rcvhwm : ℕ
  pub sndhwm : ℕ
  pub rcvtimeo : Option ℕ
  pub sndtimeo : Option ℕ
  pub linger : Option ℕ
  pub reconnect_ivl : Option ℕ
  pub reconnect_ivl_max : Option ℕ
  pub backlog : Option ℕ
  pub routing_id : Option (List ℕ)
  pub socket_type_name : List ℕ
  pub tcp_keepalive_enabled : ℤ
  pub tcp_keepalive_idle : Option ℕ
  pub tcp_keepalive_count : Option ℕ
  pub tcp_keepalive_interval : Option ℕ
  pub tcp_nodelay : Bool
  pub max_connections : Option ℕ
  pub maxmsgsize : ℤ
  pub allow_zmtp2 : Bool
  pub heartbeat_ivl : Option ℕ
  pub heartbeat_timeout : Option ℕ
  pub handshake_ivl : Option ℕ
  pub router_mandatory : Bool
  pub tcp_cork : Bool
  pub io_uring : IoUringSocketOptions
  pub zap_domain : Option (List ℕ)
  pub plain_options : PlainMechanismSocketOptions

abbrev pub default_plain_options : PlainMechanismSocketOptions
default_plain_options = record {
  enabled = false;
  server_role = none;
  username = none;
  password = none;
}

abbrev pub default_io_uring : IoUringSocketOptions
default_io_uring = record { send_zerocopy = false; recv_multishot = false; session_enabled = false }

abbrev pub default_reconnect_ivl_ms : ℕ
default_reconnect_ivl_ms = 1000

-- b"UNKNOWN" is the name of a socket type until the socket is created.
abbrev pub default_options : SocketOptions
default_options = record {
  rcvhwm = 256;
  sndhwm = 256;
  rcvtimeo = none;
  sndtimeo = none;
  linger = some 0;
  reconnect_ivl = some default_reconnect_ivl_ms;
  reconnect_ivl_max = some 0;
  backlog = none;
  routing_id = none;
  socket_type_name = 85 ∷ 78 ∷ 75 ∷ 78 ∷ 79 ∷ 87 ∷ 78 ∷ [];
  tcp_keepalive_enabled = pos 0;
  tcp_keepalive_idle = none;
  tcp_keepalive_count = none;
  tcp_keepalive_interval = none;
  tcp_nodelay = true;
  max_connections = some 1024;
  maxmsgsize = negsuc 0;
  allow_zmtp2 = true;
  heartbeat_ivl = none;
  heartbeat_timeout = none;
  handshake_ivl = none;
  router_mandatory = false;
  tcp_cork = false;
  io_uring = default_io_uring;
  zap_domain = none;
  plain_options = default_plain_options;
}

-- The options by name; the last six are those of the socket patterns, or can only be read.
pub data OptionName : Type 0 where
  opt_sndhwm opt_rcvhwm opt_linger opt_routing_id opt_reconnect_ivl opt_reconnect_ivl_max :
      OptionName
  opt_rcvtimeo opt_sndtimeo opt_tcp_keepalive opt_tcp_keepalive_idle : OptionName
  opt_tcp_keepalive_cnt opt_tcp_keepalive_intvl opt_heartbeat_ivl opt_heartbeat_timeout : OptionName
  opt_handshake_ivl opt_maxmsgsize opt_max_connections opt_tcp_cork opt_zmtp2_allowed : OptionName
  opt_zap_domain opt_plain_server opt_plain_username opt_plain_password : OptionName
  opt_subscribe opt_unsubscribe opt_last_endpoint opt_router_mandatory opt_auto_delimiter :
      OptionName
  opt_zmq_type : OptionName

-- The numbers of the options. ZMQ_TYPE is a literal in the source.
unfoldable pub option_id : OptionName → ℕ
option_id opt_sndhwm = 23
option_id opt_rcvhwm = 24
option_id opt_linger = 17
option_id opt_subscribe = 6
option_id opt_unsubscribe = 7
option_id opt_routing_id = 5
option_id opt_reconnect_ivl = 18
option_id opt_reconnect_ivl_max = 21
option_id opt_rcvtimeo = 27
option_id opt_sndtimeo = 28
option_id opt_last_endpoint = 32
option_id opt_tcp_keepalive = 34
option_id opt_tcp_keepalive_idle = 35
option_id opt_tcp_keepalive_cnt = 36
option_id opt_tcp_keepalive_intvl = 37
option_id opt_heartbeat_ivl = 38
option_id opt_heartbeat_timeout = 39
option_id opt_handshake_ivl = 41
option_id opt_router_mandatory = 33
option_id opt_auto_delimiter = 42
option_id opt_zmtp2_allowed = 1180
option_id opt_zap_domain = 55
option_id opt_plain_server = 44
option_id opt_plain_username = 45
option_id opt_plain_password = 46
option_id opt_maxmsgsize = 22
option_id opt_max_connections = 1000
option_id opt_tcp_cork = 1172
option_id opt_zmq_type = 16
