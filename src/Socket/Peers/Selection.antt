-- ===== src/Socket/Peers/Selection.antt =====
-- Which peer the loop of core/src/socket/req_socket.rs and push_socket.rs selects.
use rzmq.Base.{
  ℕ, zero, suc, ◌<◌, ◌≡◌, refl, true, ◌≢◌, ◌⊎◌, Option, none, some, List, [], ◌∷◌, ◌++◌,
  if◌then◌else◌, length, arith,
}
use rzmq.Error.{ok}
use rzmq.Patterns.LoadBalancer.{
  Uri, LoadBalancer, contains, get_next_connection_uri, remove_connection,
}
use rzmq.Patterns.LoadBalancer.Turns.{Single, remove_connection-snoc}
use rzmq.Socket.Peers.{Core, find_live, select_peer}

-- The first peer of the queue that is known, and the queue behind it with that peer at the end.
unfoldable pub first_live : List Uri → LoadBalancer → Option Uri × LoadBalancer
first_live endpoints [] = (none, [])
first_live endpoints (u ∷ uris) =
    if contains endpoints u then (some u, uris ++ (u ∷ [])) else first_live endpoints uris

-- On a queue without repetitions, one round more than its length is enough for the loop: it selects
-- the first peer that the core knows, drops the unknown ones before it from the queue, and puts it
-- at the queue's end; if none is known, the queue is left empty.
pub find_live-first_live :
    (fuel : ℕ) (endpoints : List Uri) (uris : LoadBalancer)
    → Single uris
    → length uris < fuel
    → find_live fuel endpoints uris ≡ first_live endpoints uris
unfolding find_live first_live get_next_connection_uri
find_live-first_live zero endpoints uris s h = ground arith
find_live-first_live (suc fuel) endpoints [] s h = refl
find_live-first_live (suc fuel) endpoints (u ∷ uris) s h =
    rw (
      remove_connection-snoc uris u s.0,
      find_live-first_live fuel endpoints uris s.1 (omega arith),
    )

find_live-contains :
    (fuel : ℕ) (endpoints : List Uri) (uris : LoadBalancer) (uri : Uri)
    → (find_live fuel endpoints uris).0 ≡ some uri
    → contains endpoints uri ≡ true
unfolding find_live get_next_connection_uri
find_live-contains zero endpoints uris uri h = cc
find_live-contains (suc fuel) endpoints [] uri h = cc
find_live-contains (suc fuel) endpoints (u ∷ uris) uri h =
    ground (arith, find_live-contains fuel endpoints (remove_connection (uris ++ (u ∷ [])) u) uri)

-- The peer is known at the start, or after one of the waits.
abbrev pub Knows : Uri → Core → List (Core × LoadBalancer) → Type 0
Knows uri core [] = contains core.endpoints uri ≡ true
Knows uri core ((core', uris) ∷ waits) =
    (contains core.endpoints uri ≡ true) ⊎ Knows uri core' waits

-- A peer that is selected is one that the core knows at the start or after one of the waits.
pub select_peer_known :
    (sndtimeo : Option ℕ) (core : Core) (uris : LoadBalancer) (waits : List (Core × LoadBalancer))
    (uri : Uri)
    → (select_peer sndtimeo core uris waits).0 ≡ some (ok uri)
    → Knows uri core waits
unfolding select_peer
select_peer_known sndtimeo core uris [] uri h =
    ground (arith, find_live-contains (suc (length uris)) core.endpoints uris uri)
select_peer_known sndtimeo core uris ((core', uris') ∷ waits) uri h = ground (
  arith,
  find_live-contains (suc (length uris)) core.endpoints uris uri,
  select_peer_known sndtimeo core' uris' waits uri,
)

-- With a timeout the selection ends: as soon as no further connection comes it has an answer.
pub select_peer_ends :
    (duration : ℕ) (core : Core) (uris : LoadBalancer) (waits : List (Core × LoadBalancer))
    → (select_peer (some duration) core uris waits).0 ≢ none
unfolding select_peer
select_peer_ends duration core uris [] h = ground arith
select_peer_ends duration core uris ((core', uris') ∷ waits) h =
    ground (arith, select_peer_ends duration core' uris' waits)

first_live-contains :
    (endpoints : List Uri) (uris : LoadBalancer) (u : Uri)
    → (first_live endpoints uris).0 ≡ some u
    → contains endpoints u ≡ true
unfolding first_live
first_live-contains endpoints [] u h = cc
first_live-contains endpoints (v ∷ uris) u h = ground (arith, first_live-contains endpoints uris u)

-- A selection that need not wait.
pub select_peer_first :
    (sndtimeo : Option ℕ) (core : Core) (uris : LoadBalancer) (u : Uri)
    → Single uris
    → (first_live core.endpoints uris).0 ≡ some u
    → (select_peer sndtimeo core uris [] ≡ (some (ok u), (first_live core.endpoints uris).1))
      × (contains core.endpoints u ≡ true)
unfolding select_peer
select_peer_first sndtimeo core uris u s h = (
  ground (arith, find_live-first_live (suc (length uris)) core.endpoints uris s (omega arith)),
  first_live-contains core.endpoints uris u h,
)
