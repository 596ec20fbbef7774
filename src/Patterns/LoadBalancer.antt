-- ===== src/Patterns/LoadBalancer.antt =====
-- core/src/socket/patterns/load_balancer.rs: endpoint URIs in turn. The front of the `VecDeque` is
-- the head of the list. Waiting for a connection (`wait_for_connection`) is left out.
pub mod Turns
use rzmq.Base.{
  ℕ, Bool, true, false, not, ◌||◌, Option, none, some, List, [], ◌∷◌, ◌++◌, bytes_eq, if◌then◌else◌,
  length, is_empty,
}

abbrev pub Uri : Type 0
Uri = List ℕ

-- The queue of `connection_uris`.
abbrev pub LoadBalancer : Type 0
LoadBalancer = List Uri

unfoldable pub contains : LoadBalancer → Uri → Bool
contains [] uri = false
contains (u ∷ uris) uri = bytes_eq u uri || contains uris uri

unfoldable pub add_connection : LoadBalancer → Uri → LoadBalancer
add_connection uris uri = if contains uris uri then uris else uris ++ (uri ∷ [])

-- `position` and `remove`: the first entry that is the URI.
pub remove_connection : LoadBalancer → Uri → LoadBalancer
remove_connection [] uri = []
remove_connection (u ∷ uris) uri = if bytes_eq u uri then uris else u ∷ remove_connection uris uri

unfoldable pub get_next_connection_uri : LoadBalancer → Option Uri × LoadBalancer
get_next_connection_uri [] = (none, [])
get_next_connection_uri (u ∷ uris) = (some u, uris ++ (u ∷ []))

unfoldable pub has_connections : LoadBalancer → Bool
has_connections uris = not (is_empty uris)

unfoldable pub connection_count : LoadBalancer → ℕ
connection_count uris = length uris
