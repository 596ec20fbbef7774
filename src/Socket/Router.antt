-- ===== src/Socket/Router.antt =====
-- core/src/socket/router_socket.rs: the ROUTER socket, without its sends. What the queue of messages
-- answers and what the core's maps hold are arguments.
pub mod Send
pub mod Invariant
pub mod Calls
pub mod Fragments
pub mod Arrivals
pub mod Exchange
use rzmq.Base.{
  ℕ, zero, suc, ◌+◌, ◌/◌, ◌%◌, Bool, true, false, not, Option, none, some, List, [], ◌∷◌, ◌++◌, ltb,
  ◌==◌, bytes_eq, if◌then◌else◌, is_empty, nat_eq,
}
use rzmq.Base.Int.{ℤ, pos}
use rzmq.Base.Maps.{lookup, insert, remove}
use rzmq.Error.{invalid_state, unsupported_option, Result, ok, err}
use rzmq.Message.{Msg, from_bytes, set_flags, more_flag, difference, size}
use rzmq.Patterns.LoadBalancer.{Uri}
use rzmq.Patterns.Framing.{
  FramingLatch, new_latch, router_auto_encode, router_auto_decode, is_manual, set_manual,
}
use rzmq.Patterns.Router as RouterMap
use rzmq.Patterns.Router.{Blob}
use rzmq.Patterns.Coordinator.{WritePipeCoordinator, add_pipe, remove_pipe}
use rzmq.Patterns.Orchestrator.{
  Orchestrator, new_orchestrator, accumulate_pipe_frame, Pushed, queue_item, recv_message,
  recv_logical_message, clear_pipe_state, close,
}
use rzmq.Socket.Core.{CoreState, uri_of, endpoint_of, peer_type}
use rzmq.Socket.Options.{option_id, opt_router_mandatory, opt_auto_delimiter}
use rzmq.Socket.Options.Parse.{parse_bool_option}
use rzmq.Socket.Options.Retrieve.{i32_bytes}
use text.Mathlib.Text.{◌==◌ as str_eq}
use Prim.Native.String.{String}

-- The option `router_mandatory` is kept in the core. A fragmented send has the endpoint it goes to,
-- and holds the permit of its pipe.
pub record RouterSocket : Type 0 where
  pub router_mandatory : Bool
  pub router_map_for_send : RouterMap.RouterMap
  pub incoming_orchestrator : Orchestrator
  pub pipe_to_identity_shared_map : List (ℕ × Blob)
  pub current_send_target : Option Uri
  pub pipe_send_coordinator : WritePipeCoordinator
  pub framing : FramingLatch

abbrev pub new_router : RouterSocket
new_router = record {
  router_mandatory = false;
  router_map_for_send = RouterMap.new_map;
  incoming_orchestrator = new_orchestrator;
  pipe_to_identity_shared_map = [];
  current_send_target = none;
  pipe_send_coordinator = [];
  framing = new_latch router_auto_encode router_auto_decode;
}

-- The digits of a number in base ten, before `digits`.
unfoldable pub decimal_from : ℕ → ℕ → List ℕ → List ℕ
decimal_from zero n digits = digits
decimal_from (suc fuel) n digits =
    let rest = decimal_from fuel (n / 10) ((48 + n % 10) ∷ digits) in
    if ltb n 10 then (48 + n) ∷ digits else rest

-- `format!("pipe:{}", pipe_read_id)`; a number has fewer digits than itself and one.
unfoldable pub pipe_id_to_placeholder_identity : ℕ → Blob
unfolding decimal_from
pipe_id_to_placeholder_identity pipe_read_id =
    112 ∷ 105 ∷ 112 ∷ 101 ∷ 58 ∷ decimal_from (suc pipe_read_id) pipe_read_id []

abbrev pub or_placeholder : ℕ → Option Blob → Blob
or_placeholder pipe_read_id none = pipe_id_to_placeholder_identity pipe_read_id
or_placeholder pipe_read_id (some identity) = identity

unfoldable pub strip_delimiter : List Msg → List Msg
strip_delimiter [] = []
strip_delimiter (frame ∷ frames) = if size frame == 0 then frames else frame ∷ frames

-- The `match` on the type of the peer: all of a ROUTER's message is payload.
unfoldable pub strip_for : Option String → List Msg → List Msg
unfolding strip_delimiter
strip_for none frames = strip_delimiter frames
strip_for (some name) frames = if str_eq name "ROUTER" then frames else strip_delimiter frames

-- An item of the queue: the sender and the payload.
abbrev pub Item : Type 0
Item = Blob × List Msg

unfoldable pub process_incoming_zmtp_message : CoreState → ℕ → List Msg → RouterSocket → Item
process_incoming_zmtp_message core pipe_read_id raw_zmtp_message sock = (
  or_placeholder pipe_read_id (lookup pipe_read_id sock.pipe_to_identity_shared_map),
  if is_manual sock.framing
      then raw_zmtp_message
      else strip_for (peer_type core pipe_read_id) raw_zmtp_message,
)

abbrev pub clear_more : Msg → Msg
clear_more msg = set_flags msg (difference msg.flags more_flag)

-- `last_mut`, whose MORE flag is taken away.
unfoldable pub clear_last : List Msg → List Msg
clear_last [] = []
clear_last (last ∷ []) = clear_more last ∷ []
clear_last (frame ∷ next ∷ frames) = frame ∷ clear_last (next ∷ frames)

unfoldable pub transform_qitem_to_app_frames : Item → List Msg
unfolding clear_last
transform_qitem_to_app_frames (identity_blob, payload_frames) =
    let id_msg = from_bytes identity_blob in
    clear_last (
      (if not (is_empty payload_frames) then set_flags id_msg more_flag else clear_more id_msg)
      ∷ payload_frames)

abbrev pub q_item_frames : Item → Unit {0} → List Msg × Unit {0}
q_item_frames q_item s = (transform_qitem_to_app_frames q_item, s)

unfoldable pub recv : Bool → Result Item → RouterSocket → Result Msg × RouterSocket
recv running popped sock =
    if not running
    then (err invalid_state, sock)
    else (let (answer, _, o) = recv_message q_item_frames sock.incoming_orchestrator tt popped in
        (answer, record sock { incoming_orchestrator = o }))

unfoldable pub recv_multipart : Bool → Result Item → RouterSocket → Result (List Msg) × RouterSocket
recv_multipart running popped sock =
    if not running
    then (err invalid_state, sock)
    else (let (answer, _, o) =
          recv_logical_message q_item_frames sock.incoming_orchestrator tt popped in
        (answer, record sock { incoming_orchestrator = o }))

-- A frame from a pipe, with the item that it hands to the queue, if any.
unfoldable pub handle_pipe_event :
    CoreState → Pushed → ℕ → Msg → RouterSocket → Result (Unit {0}) × Option Item × RouterSocket
handle_pipe_event core pushed pipe_read_id msg sock =
    let (whole, o) = accumulate_pipe_frame sock.incoming_orchestrator pipe_read_id msg in
    let sock' = record sock { incoming_orchestrator = o } in
    elim whole [
      | none ↦ (ok tt, none, sock')
      | some raw_zmtp_message ↦ (
        queue_item pushed,
        some (process_incoming_zmtp_message core pipe_read_id raw_zmtp_message sock'),
        sock',
      )
    ]

unfoldable pub set_pattern_option : ℕ → List ℕ → RouterSocket → Result (Unit {0}) × RouterSocket
set_pattern_option option value sock =
    if option == option_id opt_router_mandatory
    then elim (parse_bool_option value) [
      | ok mandatory ↦ (ok tt, record sock { router_mandatory = mandatory })
      | err e ↦ (err e, sock)
    ]
    else if option == option_id opt_auto_delimiter
    then elim (parse_bool_option value) [
      | ok true ↦ (ok tt, sock)
      | ok false ↦ (ok tt, record sock { framing = (set_manual sock.framing).0 })
      | err e ↦ (err e, sock)
    ]
    else (err (unsupported_option option), sock)

abbrev pub bool_bytes : Bool → List ℕ
bool_bytes b = i32_bytes (pos (if b then 1 else 0))

unfoldable pub get_pattern_option : ℕ → RouterSocket → Result (List ℕ)
get_pattern_option option sock =
    if option == option_id opt_router_mandatory
    then ok (bool_bytes sock.router_mandatory)
    else if option == option_id opt_auto_delimiter
    then ok (bool_bytes (not (is_manual sock.framing)))
    else err (unsupported_option option)

-- `process_command` on Stop.
unfoldable pub stop : RouterSocket → RouterSocket
stop sock = record sock { incoming_orchestrator = close sock.incoming_orchestrator }

-- An identity of at least one byte, or the placeholder of the pipe.
unfoldable pub identity_or_placeholder : ℕ → Option Blob → Blob
identity_or_placeholder pipe_read_id none = pipe_id_to_placeholder_identity pipe_read_id
identity_or_placeholder pipe_read_id (some []) = pipe_id_to_placeholder_identity pipe_read_id
identity_or_placeholder pipe_read_id (some (b ∷ bytes)) = b ∷ bytes

abbrev pub attach : ℕ → Blob → Uri → RouterSocket → RouterSocket
attach pipe_read_id identity endpoint_uri sock = record sock {
  router_map_for_send =
      RouterMap.add_peer sock.router_map_for_send identity pipe_read_id endpoint_uri;
  pipe_to_identity_shared_map = insert pipe_read_id identity sock.pipe_to_identity_shared_map;
  pipe_send_coordinator = add_pipe sock.pipe_send_coordinator pipe_read_id;
}

-- Both the endpoint of the pipe and its connection are known.
unfoldable pub pipe_attached : CoreState → ℕ → Option Blob → RouterSocket → RouterSocket
pipe_attached core pipe_read_id peer_identity sock = elim (uri_of core pipe_read_id) [
  | none ↦ sock
  | some endpoint_uri ↦ elim (endpoint_of core pipe_read_id) [
    | none ↦ sock
    | some info ↦
        attach pipe_read_id (identity_or_placeholder pipe_read_id peer_identity) endpoint_uri sock
  ]
]

unfoldable pub update_peer_identity : CoreState → ℕ → Option Blob → RouterSocket → RouterSocket
update_peer_identity core pipe_read_id new_identity sock = elim (uri_of core pipe_read_id) [
  | none ↦ sock
  | some endpoint_uri ↦
      let identity = identity_or_placeholder pipe_read_id new_identity in
      record sock {
        router_map_for_send =
            RouterMap.update_peer_identity sock.router_map_for_send pipe_read_id identity
              endpoint_uri (peer_type core pipe_read_id);
        pipe_to_identity_shared_map = insert pipe_read_id identity sock.pipe_to_identity_shared_map;
      }
]

abbrev pub same_uri : Option Uri → Uri → Bool
same_uri none uri = false
same_uri (some u) uri = bytes_eq u uri

-- The target of a fragmented send, once the pipe is gone whose endpoint and connection are given.
unfoldable pub target_without : Option Uri → Bool → Option Uri → Option Uri
target_without endpoint_uri connected none = none
target_without endpoint_uri connected (some target) =
    if not connected
    then some target
    else if same_uri endpoint_uri target
    then none
    else some target

abbrev pub is_some : {A : Type 0} → Option A → Bool
is_some none = false
is_some (some a) = true

unfoldable pub pipe_detached : CoreState → ℕ → RouterSocket → RouterSocket
unfolding target_without
pipe_detached core pipe_read_id sock = record sock {
  router_map_for_send = RouterMap.remove_peer_by_read_pipe sock.router_map_for_send pipe_read_id;
  pipe_to_identity_shared_map = remove pipe_read_id sock.pipe_to_identity_shared_map;
  pipe_send_coordinator = (remove_pipe sock.pipe_send_coordinator pipe_read_id).1;
  current_send_target =
      target_without (uri_of core pipe_read_id) (is_some (endpoint_of core pipe_read_id))
        sock.current_send_target;
  incoming_orchestrator = clear_pipe_state sock.incoming_orchestrator pipe_read_id;
}
