-- ===== src/Socket/Core.antt =====
-- core/src/socket/core/state.rs: the part of a socket core's state that the socket types read.
use rzmq.Base.{ℕ, Bool, Option, none, some, List, bytes_key, nat_eq}
use rzmq.Base.Maps.{lookup}
use rzmq.Patterns.LoadBalancer.{Uri}
use Prim.Native.String.{String}

-- Of the two pipe ids the one that the core reads from; every entry has a connection.
pub record EndpointInfo : Type 0 where
  pub pipe_ids : Option ℕ
  pub peer_socket_type : Option String

pub record CoreState : Type 0 where
  pub running : Bool
  pub endpoints : List (Uri × EndpointInfo)
  pub pipe_read_id_to_endpoint_uri : List (ℕ × Uri)

abbrev pub endpoint : CoreState → Uri → Option EndpointInfo
endpoint core uri = lookup uri core.endpoints

-- `and_then` on what a lookup finds.
abbrev pub bind : {A B : Type 0} → Option A → (A → Option B) → Option B
bind none f = none
bind (some a) f = f a

abbrev pub uri_of : CoreState → ℕ → Option Uri
uri_of core pipe_read_id = lookup pipe_read_id core.pipe_read_id_to_endpoint_uri

abbrev pub endpoint_of : CoreState → ℕ → Option EndpointInfo
endpoint_of core pipe_read_id = bind (uri_of core pipe_read_id) (endpoint core)

abbrev pub peer_type : CoreState → ℕ → Option String
peer_type core pipe_read_id = bind (endpoint_of core pipe_read_id) (λ info. info.peer_socket_type)

-- The pipe of an endpoint that has both a connection and a pipe.
abbrev pub connected_pipe : CoreState → Uri → Option ℕ
connected_pipe core uri = bind (endpoint core uri) (λ info. info.pipe_ids)
