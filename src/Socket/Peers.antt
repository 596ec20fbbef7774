-- ===== src/Socket/Peers.antt =====
-- The loop that core/src/socket/req_socket.rs and push_socket.rs share: which connection a message
-- goes to. A peer is known to the socket's core by a key of its map of endpoints.
pub mod Selection
use rzmq.Base.{
  ℕ, zero, suc, Bool, true, false, not, Option, none, some, List, [], ◌∷◌, if◌then◌else◌, length,
}
use rzmq.Error.{ZmqError, invalid_state, resource_limit_reached, timeout, Result, ok, err}
use rzmq.Patterns.LoadBalancer.{
  Uri, LoadBalancer, contains, get_next_connection_uri, remove_connection,
}

-- What a call finds when it looks: the keys of the core's `endpoints`, and whether it still runs.
pub record Core : Type 0 where
  pub endpoints : List Uri
  pub running : Bool

-- The rounds of the loop until a peer is found or the queue is empty.
unfoldable pub find_live : ℕ → List Uri → LoadBalancer → Option Uri × LoadBalancer
find_live zero endpoints uris = (none, uris)
find_live (suc fuel) endpoints uris =
    let (next, turned) = get_next_connection_uri uris in
    elim next [
      | none ↦ (none, turned)
      | some uri ↦
          let rest = find_live fuel endpoints (remove_connection turned uri) in
          if contains endpoints uri then (some uri, turned) else rest
    ]

-- The loop once no peer is left, in a socket that runs: under a timeout of zero it does not wait.
abbrev pub gives_up : Option ℕ → Option (Result Uri)
gives_up none = none
gives_up (some zero) = some (err resource_limit_reached)
gives_up (some (suc duration)) = some (err timeout)

abbrev pub waits_for : Option ℕ → Bool
waits_for (some zero) = false
waits_for _ = true

-- The whole loop. `waits` are the core and the queue after each wait that a connection ends; behind
-- them no connection comes. Its answer `none` says that it waits on, without a limit.
unfoldable pub select_peer :
    Option ℕ → Core → LoadBalancer → List (Core × LoadBalancer) → Option (Result Uri) × LoadBalancer
select_peer sndtimeo core uris [] =
    let searched = find_live (suc (length uris)) core.endpoints uris in
    elim searched.0 [
      | some uri ↦ (some (ok uri), searched.1)
      | none ↦ (if core.running then gives_up sndtimeo else some (err invalid_state), searched.1)
    ]
select_peer sndtimeo core uris ((core', uris') ∷ waits) =
    let searched = find_live (suc (length uris)) core.endpoints uris in
    let again = select_peer sndtimeo core' uris' waits in
    elim searched.0 [
      | some uri ↦ (some (ok uri), searched.1)
      | none ↦
          if not core.running
          then (some (err invalid_state), searched.1)
          else if waits_for sndtimeo
          then again
          else (gives_up sndtimeo, searched.1)
    ]
