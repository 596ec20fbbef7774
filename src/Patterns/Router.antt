-- ===== src/Patterns/Router.antt =====
-- core/src/socket/patterns/router.rs: the two maps of a ROUTER socket and how it frames a message
-- for each kind of peer. Each operation is one step; what others see
-- between its two locks is left out.
pub mod Links
pub mod Routed
pub mod Collision
pub mod Wire
use rzmq.Base.{
  ℕ, Bool, true, false, Option, none, some, List, [], ◌∷◌, bytes_eq, bytes_key, nat_eq,
  if◌then◌else◌, is_empty,
}
use rzmq.Base.Maps.{lookup, insert, remove}
use rzmq.Message.{Msg, new, set_flags, more_flag}
use rzmq.Patterns.Framing.{FramingLatch, is_manual, encode, with_more, delimiter}
use text.Mathlib.Text.{◌==◌ as str_eq}
use Prim.Native.String.{String}

-- The four strategies for outgoing frames.
pub data RouterSendStrategy : Type 0 where
  req_peer dealer_peer router_peer default_router : RouterSendStrategy

abbrev pub Blob : Type 0
Blob = List ℕ

pub record PeerInfo : Type 0 where
  pub uri : List ℕ
  pub strategy : RouterSendStrategy

pub record RouterMap : Type 0 where
  pub identity_to_peer_info : List (Blob × PeerInfo)
  pub read_pipe_to_identity : List (ℕ × Blob)

abbrev pub new_map : RouterMap
new_map = record { identity_to_peer_info = []; read_pipe_to_identity = [] }

-- The forward map without the identity that the pipe had before, if that is another one.
unlink_old : Option Blob → Blob → List (Blob × PeerInfo) → List (Blob × PeerInfo)
unlink_old none identity infos = infos
unlink_old (some old) identity infos = if bytes_eq old identity then infos else remove old infos

unfoldable pub add_peer : RouterMap → Blob → ℕ → List ℕ → RouterMap
unfolding unlink_old
add_peer m identity pipe_read_id endpoint_uri =
    let info : PeerInfo = record { uri = endpoint_uri; strategy = default_router } in
    let infos = insert identity info m.identity_to_peer_info in
    record {
      identity_to_peer_info =
          unlink_old (lookup pipe_read_id m.read_pipe_to_identity) identity infos;
      read_pipe_to_identity = insert pipe_read_id identity m.read_pipe_to_identity;
    }

unfoldable pub remove_peer_by_read_pipe : RouterMap → ℕ → RouterMap
remove_peer_by_read_pipe m pipe_read_id = elim (lookup pipe_read_id m.read_pipe_to_identity) [
  | none ↦ m
  | some identity ↦ record {
    identity_to_peer_info = remove identity m.identity_to_peer_info;
    read_pipe_to_identity = remove pipe_read_id m.read_pipe_to_identity;
  }
]

unfoldable pub get_identity_by_read_pipe : RouterMap → ℕ → Option Blob
get_identity_by_read_pipe m pipe_read_id = lookup pipe_read_id m.read_pipe_to_identity

-- The first pipe in iteration order that has the identity.
pub find_pipe : Blob → List (ℕ × Blob) → Option ℕ
find_pipe identity [] = none
find_pipe identity ((pipe, b) ∷ rest) =
    if bytes_eq b identity then some pipe else find_pipe identity rest

remove_found : Option ℕ → List (ℕ × Blob) → List (ℕ × Blob)
remove_found none pipes = pipes
remove_found (some pipe) pipes = remove pipe pipes

unfoldable pub remove_peer_by_identity : RouterMap → Blob → RouterMap
unfolding remove_found
remove_peer_by_identity m identity = elim (lookup identity m.identity_to_peer_info) [
  | none ↦ m
  | some info ↦ record {
    identity_to_peer_info = remove identity m.identity_to_peer_info;
    read_pipe_to_identity =
        remove_found (find_pipe identity m.read_pipe_to_identity) m.read_pipe_to_identity;
  }
]

-- The strategy for a peer's socket type, if the peer named one.
unfoldable pub peer_strategy : Option String → RouterSendStrategy
peer_strategy none = default_router
peer_strategy (some name) =
    if str_eq name "REQ"
    then req_peer
    else if str_eq name "DEALER"
    then dealer_peer
    else if str_eq name "ROUTER"
    then router_peer
    else default_router

unfoldable pub update_peer_identity : RouterMap → ℕ → Blob → List ℕ → Option String → RouterMap
unfolding unlink_old
update_peer_identity m pipe_read_id new_identity endpoint_uri peer_socket_type =
    let info : PeerInfo = record {
      uri = endpoint_uri;
      strategy = peer_strategy peer_socket_type;
    } in
    let old = lookup pipe_read_id m.read_pipe_to_identity in
    record {
      identity_to_peer_info =
          insert new_identity info (unlink_old old new_identity m.identity_to_peer_info);
      read_pipe_to_identity = insert pipe_read_id new_identity m.read_pipe_to_identity;
    }

unfoldable pub get_peer_info_for_identity : RouterMap → Blob → Option PeerInfo
get_peer_info_for_identity m identity = lookup identity m.identity_to_peer_info

-- The identity frame that goes before a payload.
addressed : Msg → List Msg → List Msg
addressed identity payload = (if is_empty payload then identity else with_more identity) ∷ payload

unfoldable pub prepare_wire_frames : RouterSendStrategy → Msg → List Msg → FramingLatch → List Msg
unfolding addressed
prepare_wire_frames req_peer identity payload framing = delimiter (is_empty payload) ∷ payload
prepare_wire_frames dealer_peer identity payload framing =
    if is_manual framing then payload else encode framing (addressed identity payload)
prepare_wire_frames router_peer identity payload framing = payload
prepare_wire_frames default_router identity payload framing =
    encode framing (addressed identity payload)
