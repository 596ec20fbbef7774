-- ===== src/Patterns/Router/Links.antt =====
-- How the forward and the reverse map of core/src/socket/patterns/router.rs belong together.
use rzmq.Base.{
  ℕ, ◌≡◌, ◌≢◌, inl, inr, Option, none, some, List, bytes_eq_iff, bytes_eq_refl, bytes_key, nat_eq,
  ==_iff, Option-cases, arith,
}
use rzmq.Base.Maps.{lookup, insert, remove, lookup-insert, lookup-remove}
use rzmq.Patterns.Router.{
  Blob, PeerInfo, RouterMap, default_router, add_peer, remove_peer_by_read_pipe,
  update_peer_identity, get_identity_by_read_pipe, get_peer_info_for_identity, unlink_old,
  peer_strategy, remove_peer_by_identity, remove_found, find_pipe,
}
use Prim.Native.String.{String}

-- Each pipe's identity is routable, and no two pipes share one.
pub record Linked (m : RouterMap) : Type 0 where
  pub routable :
      (p : ℕ) (i : Blob)
      → get_identity_by_read_pipe m p ≡ some i
      → get_peer_info_for_identity m i ≢ none
  pub single :
      (p q : ℕ) (i : Blob)
      → get_identity_by_read_pipe m p ≡ some i
      → get_identity_by_read_pipe m q ≡ some i
      → p ≡ q

-- No pipe but `p` has the identity.
abbrev pub FreeFor : RouterMap → ℕ → Blob → Type 0
FreeFor m p i = (q : ℕ) → get_identity_by_read_pipe m q ≡ some i → q ≡ p

-- What a state whose identity left both maps with its pipe keeps.
drop-Linked :
    (m : RouterMap) (p : ℕ) (i : Blob)
    → Linked m
    → lookup p m.read_pipe_to_identity ≡ some i
    → Linked (record {
      identity_to_peer_info = remove i m.identity_to_peer_info;
      read_pipe_to_identity = remove p m.read_pipe_to_identity;
    })
unfolding get_identity_by_read_pipe get_peer_info_for_identity
drop-Linked m p i l found = record {
  routable = λ q j h e. ground (
    arith,
    lookup-remove p q m.read_pipe_to_identity,
    lookup-remove i j m.identity_to_peer_info,
    ==_iff p q,
    bytes_eq_iff i j,
    l.routable q j,
    l.single p q i found,
  );
  single = λ q r j h k. ground (
    arith,
    lookup-remove p q m.read_pipe_to_identity,
    lookup-remove p r m.read_pipe_to_identity,
    ==_iff p q,
    ==_iff p r,
    l.single q r j,
  );
}

-- A pipe that goes, known or not, leaves the maps linked: each remaining pipe's identity is
-- routable, and no two pipes share one.
pub remove_peer_by_read_pipe-Linked :
    (m : RouterMap) (p : ℕ) → Linked m → Linked (remove_peer_by_read_pipe m p)
unfolding remove_peer_by_read_pipe
remove_peer_by_read_pipe-Linked m p l = elim (Option-cases (lookup p m.read_pipe_to_identity)) [
  | inl missing ↦ rw (missing, remove_peer_by_read_pipe) l
  | inr (i, found) ↦ rw (found, remove_peer_by_read_pipe) (drop-Linked m p i l found)
]

-- A forward map without the pipe's old identity still has what another pipe is called.
unlink_old_keeps :
    (m : RouterMap) (p q : ℕ) (i j : Blob) (infos : List (Blob × PeerInfo))
    → Linked m
    → lookup q m.read_pipe_to_identity ≡ some j
    → q ≢ p
    → lookup j infos ≢ none
    → lookup j (unlink_old (lookup p m.read_pipe_to_identity) i infos) ≢ none
unfolding unlink_old get_identity_by_read_pipe
unlink_old_keeps m p q i j infos l h apart has =
    elim (Option-cases (lookup p m.read_pipe_to_identity)) [
      | inl missing ↦ rw missing has
      | inr (o, found) ↦
          ground (arith, lookup-remove o j infos, bytes_eq_iff o j, has, l.single p q o found)
    ]

-- An identity stays where only another old one goes.
unlink_old_new :
    (o : Option Blob) (i : Blob) (infos : List (Blob × PeerInfo))
    → lookup i infos ≢ none
    → lookup i (unlink_old o i infos) ≢ none
unfolding unlink_old
unlink_old_new none i infos has = has
unlink_old_new (some o) i infos has = ground (arith, lookup-remove o i infos, bytes_eq_iff o i, has)

inserted :
    (i j : Blob) (info : PeerInfo) (infos : List (Blob × PeerInfo))
    → lookup j infos ≢ none
    → lookup j (insert i info infos) ≢ none
inserted i j info infos has = ground (arith, lookup-insert i j info infos, has)

inserted_new :
    (i : Blob) (info : PeerInfo) (infos : List (Blob × PeerInfo))
    → lookup i (insert i info infos) ≢ none
inserted_new i info infos e = ground (arith, lookup-insert i i info infos, bytes_eq_refl i)

-- A pipe takes an identity that no other pipe has, and the forward map has it and what the other
-- pipes are called.
take-Linked :
    (m : RouterMap) (p : ℕ) (i : Blob) (infos : List (Blob × PeerInfo))
    → Linked m
    → FreeFor m p i
    → lookup i infos ≢ none
    → ((q : ℕ) (j : Blob)
        → lookup q m.read_pipe_to_identity ≡ some j
        → q ≢ p
        → lookup j infos ≢ none)
    → Linked (record {
      identity_to_peer_info = infos;
      read_pipe_to_identity = insert p i m.read_pipe_to_identity;
    })
unfolding get_identity_by_read_pipe get_peer_info_for_identity
take-Linked m p i infos l free has keeps = record {
  routable =
      λ q j h e. ground (arith, lookup-insert p q i m.read_pipe_to_identity, ==_iff p q, keeps q j);
  single = λ q r j h k. ground (
    arith,
    lookup-insert p q i m.read_pipe_to_identity,
    lookup-insert p r i m.read_pipe_to_identity,
    ==_iff p q,
    ==_iff p r,
    l.single q r j,
    free q,
    free r,
  );
}

-- A pipe that is identified again under an identity that no other pipe has leaves the maps linked.
pub update_peer_identity-Linked :
    (m : RouterMap) (p : ℕ) (i : Blob) (uri : List ℕ) (peer : Option String)
    → Linked m
    → FreeFor m p i
    → Linked (update_peer_identity m p i uri peer)
unfolding update_peer_identity get_peer_info_for_identity get_identity_by_read_pipe
update_peer_identity-Linked m p i uri peer l free =
    let info : PeerInfo = record { uri = uri; strategy = peer_strategy peer } in
    let infos = m.identity_to_peer_info in
    let rest = unlink_old (lookup p m.read_pipe_to_identity) i infos in
    take-Linked m p i (insert i info rest) l free (inserted_new i info rest) (λ q j h apart.
      inserted i j info rest (unlink_old_keeps m p q i j infos l h apart (l.routable q j h)))

-- So does a pipe that is added under an identity that no other pipe has.
pub add_peer-Linked :
    (m : RouterMap) (p : ℕ) (i : Blob) (uri : List ℕ)
    → Linked m
    → FreeFor m p i
    → Linked (add_peer m i p uri)
unfolding add_peer get_peer_info_for_identity get_identity_by_read_pipe
add_peer-Linked m p i uri l free =
    let info : PeerInfo = record { uri = uri; strategy = default_router } in
    let infos = insert i info m.identity_to_peer_info in
    let old = lookup p m.read_pipe_to_identity in
    take-Linked m p i (unlink_old old i infos) l free
      (unlink_old_new old i infos (inserted_new i info m.identity_to_peer_info))
      (λ q j h apart.
        unlink_old_keeps m p q i j infos l h apart
          (inserted i j info m.identity_to_peer_info (l.routable q j h)))

-- An identity that goes takes no other name to a pipe than it had.
pub remove_peer_by_identity_names :
    (m : RouterMap) (i j : Blob) (q : ℕ)
    → get_identity_by_read_pipe (remove_peer_by_identity m i) q ≡ some j
    → get_identity_by_read_pipe m q ≡ some j
unfolding remove_peer_by_identity remove_found get_identity_by_read_pipe
remove_peer_by_identity_names m i j q h =
    elim (Option-cases (find_pipe i m.read_pipe_to_identity)) [
      | inl missing ↦ ground arith
      | inr (p, found) ↦ ground (arith, lookup-remove p q m.read_pipe_to_identity)
    ]
