-- ===== src/Patterns/Router/Collision.antt =====
-- What a shared identity does to the maps of core/src/socket/patterns/router.rs.
use rzmq.Base.{ℕ, ◌≡◌, ◌≢◌, none, some, List, bytes_eq_refl, bytes_key, nat_eq, ==_iff, arith}
use rzmq.Base.Maps.{lookup, insert, lookup-insert, lookup-remove}
use rzmq.Patterns.Router.{
  Blob, RouterMap, add_peer, remove_peer_by_read_pipe, get_identity_by_read_pipe,
  get_peer_info_for_identity,
}

-- When a second pipe was added under the identity of a first one, the departure of the first pipe
-- takes the identity's route away, although the second pipe is still there under that identity.
pub stranded_peer :
    (m : RouterMap) (i : Blob) (p q : ℕ) (uri : List ℕ)
    → p ≢ q
    → get_identity_by_read_pipe m p ≡ some i
    → let after = remove_peer_by_read_pipe (add_peer m i q uri) p in
      (get_identity_by_read_pipe after q ≡ some i)
      × (get_identity_by_read_pipe after p ≡ none)
      × (get_peer_info_for_identity after i ≡ none)
unfolding add_peer remove_peer_by_read_pipe get_identity_by_read_pipe get_peer_info_for_identity
stranded_peer m i p q uri apart h =
    let pipes = insert q i m.read_pipe_to_identity in
    let named : lookup p pipes ≡ some i =
      ground (arith, lookup-insert q p i m.read_pipe_to_identity, ==_iff q p) in
    rw (named, remove_peer_by_read_pipe)
      (
        ground (
          arith,
          lookup-remove p q pipes,
          lookup-insert q q i m.read_pipe_to_identity,
          ==_iff p q,
          ==_iff q q,
        ),
        ground (arith, lookup-remove p p pipes, ==_iff p p),
        ground
            (arith, lookup-remove i i (add_peer m i q uri).identity_to_peer_info, bytes_eq_refl i),
      )
