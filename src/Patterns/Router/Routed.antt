-- ===== src/Patterns/Router/Routed.antt =====
-- Who the identities of core/src/socket/patterns/router.rs belong to: the forward map, which messages
-- are sent by, has no identity that is not some pipe's.
use rzmq.Base.{
  ℕ, ◌≡◌, inl, inr, Option, none, some, List, [], ◌∷◌, true, Bool-cases, ◌==◌, bytes_eq,
  bytes_eq_iff, bytes_key, nat_eq, ==_iff, Option-cases, arith,
}
use rzmq.Base.Maps.{
  lookup, insert, remove, lookup-insert, lookup-remove, Distinct, insert-Distinct, remove-Distinct,
}
use rzmq.Patterns.Router.{
  Blob, PeerInfo, RouterMap, new_map, default_router, add_peer, remove_peer_by_read_pipe,
  update_peer_identity, unlink_old, peer_strategy, remove_peer_by_identity, remove_found, find_pipe,
}
use Prim.Native.String.{String}

pub record Routed (m : RouterMap) : Type 0 where
  pub distinct : Distinct m.read_pipe_to_identity
  pub owned :
      (i : Blob) (info : PeerInfo)
      → lookup i m.identity_to_peer_info ≡ some info
      → (p : ℕ) × (lookup p m.read_pipe_to_identity ≡ some i)

pub new_map-Routed : Routed new_map
unfolding lookup
new_map-Routed = record { distinct = tt; owned = λ i info h. absurd cc }

-- What is left of the forward map when a pipe that is renamed gives its old identity back.
unlinked :
    (old : Option Blob) (i j : Blob) (infos : List (Blob × PeerInfo)) (info : PeerInfo)
    → lookup j (unlink_old old i infos) ≡ some info
    → (lookup j infos ≡ some info) × (old ≡ some j → j ≡ i)
unfolding unlink_old
unlinked none i j infos info h = (h, λ e. absurd cc)
unlinked (some o) i j infos info h =
    ground (arith, lookup-remove o j infos, bytes_eq_iff o i, bytes_eq_iff o j)

-- Behind a pipe that is named anew, each identity that the pipe did not give up is some pipe's.
renamed :
    (m : RouterMap) (p : ℕ) (i j : Blob) (info : PeerInfo)
    → Routed m
    → lookup j m.identity_to_peer_info ≡ some info
    → (lookup p m.read_pipe_to_identity ≡ some j → j ≡ i)
    → (q : ℕ) × (lookup q (insert p i m.read_pipe_to_identity) ≡ some j)
renamed m p i j info r h given_up =
    let (q, named) = r.owned j info h in
    elim (Bool-cases (p == q)) [
      | inl same ↦ (
        p,
        ground (
          arith,
          ==_iff p q,
          ==_iff p p,
          named,
          given_up,
          lookup-insert p p i m.read_pipe_to_identity,
        ),
      )
      | inr apart ↦ (q, ground (arith, named, lookup-insert p q i m.read_pipe_to_identity))
    ]

-- The pipe itself has its new identity.
new_name :
    (m : RouterMap) (p : ℕ) (i j : Blob)
    → bytes_eq i j ≡ true
    → (q : ℕ) × (lookup q (insert p i m.read_pipe_to_identity) ≡ some j)
new_name m p i j same =
    (p, ground (arith, ==_iff p p, bytes_eq_iff i j, lookup-insert p p i m.read_pipe_to_identity))

-- A pipe that is added leaves every identity that messages can be sent to with a pipe.
pub add_peer-Routed :
    (m : RouterMap) (i : Blob) (p : ℕ) (uri : List ℕ) → Routed m → Routed (add_peer m i p uri)
unfolding add_peer
add_peer-Routed m i p uri r =
    let info : PeerInfo = record { uri = uri; strategy = default_router } in
    let infos = insert i info m.identity_to_peer_info in
    record {
      distinct = insert-Distinct p i m.read_pipe_to_identity r.distinct;
      owned = λ j other h.
          let left = unlinked (lookup p m.read_pipe_to_identity) i j infos other h in
          elim (Bool-cases (bytes_eq i j)) [
            | inl same ↦ new_name m p i j same
            | inr apart ↦
                renamed m p i j other r
                  (ground (arith, left.0, lookup-insert i j info m.identity_to_peer_info)) left.1
          ];
    }

-- So does a pipe that is identified again.
pub update_peer_identity-Routed :
    (m : RouterMap) (p : ℕ) (i : Blob) (uri : List ℕ) (peer : Option String)
    → Routed m
    → Routed (update_peer_identity m p i uri peer)
unfolding update_peer_identity
update_peer_identity-Routed m p i uri peer r =
    let info : PeerInfo = record { uri = uri; strategy = peer_strategy peer } in
    let old = lookup p m.read_pipe_to_identity in
    let infos = unlink_old old i m.identity_to_peer_info in
    record {
      distinct = insert-Distinct p i m.read_pipe_to_identity r.distinct;
      owned = λ j other h. elim (Bool-cases (bytes_eq i j)) [
        | inl same ↦ new_name m p i j same
        | inr apart ↦
            let left =
              unlinked old i j m.identity_to_peer_info other
                (ground (arith, h, lookup-insert i j info infos)) in
            renamed m p i j other r left.0 left.1
      ];
    }

-- What is left when an identity goes from both maps with its pipe.
drop-Routed :
    (m : RouterMap) (p : ℕ) (i : Blob)
    → Routed m
    → lookup p m.read_pipe_to_identity ≡ some i
    → Routed (record {
      identity_to_peer_info = remove i m.identity_to_peer_info;
      read_pipe_to_identity = remove p m.read_pipe_to_identity;
    })
drop-Routed m p i r found = record {
  distinct = remove-Distinct p m.read_pipe_to_identity r.distinct;
  owned = λ j other h.
      let (q, named) =
        r.owned j other (ground (arith, h, lookup-remove i j m.identity_to_peer_info)) in
      (
        q,
        ground (
          arith,
          h,
          found,
          named,
          ==_iff p q,
          bytes_eq_iff i j,
          lookup-remove i j m.identity_to_peer_info,
          lookup-remove p q m.read_pipe_to_identity,
        ),
      );
}

pub remove_peer_by_read_pipe-Routed :
    (m : RouterMap) (p : ℕ) → Routed m → Routed (remove_peer_by_read_pipe m p)
unfolding remove_peer_by_read_pipe
remove_peer_by_read_pipe-Routed m p r = elim (Option-cases (lookup p m.read_pipe_to_identity)) [
  | inl missing ↦ rw (missing, remove_peer_by_read_pipe) r
  | inr (i, found) ↦ rw (found, remove_peer_by_read_pipe) (drop-Routed m p i r found)
]

-- The pipe that is found for an identity has it.
lookup-find_pipe :
    (i : Blob) (pipes : List (ℕ × Blob)) (p : ℕ)
    → Distinct pipes
    → find_pipe i pipes ≡ some p
    → lookup p pipes ≡ some i
unfolding find_pipe lookup
lookup-find_pipe i [] p d h = absurd cc
lookup-find_pipe i ((q, b) ∷ rest) p (fresh, d) h = elim (Bool-cases (bytes_eq b i)) [
  | inl same ↦ ground (arith, bytes_eq_iff b i, ==_iff q q)
  | inr apart ↦ ground (arith, lookup-find_pipe i rest p d, fresh, ==_iff q p)
]

-- Behind an identity without a pipe.
alone-Routed :
    (m : RouterMap) (i : Blob)
    → Routed m
    → Routed (record m { identity_to_peer_info = remove i m.identity_to_peer_info })
alone-Routed m i r = record {
  distinct = r.distinct;
  owned =
      λ j other h. r.owned j other (ground (arith, h, lookup-remove i j m.identity_to_peer_info));
}

pub remove_peer_by_identity-Routed :
    (m : RouterMap) (i : Blob) → Routed m → Routed (remove_peer_by_identity m i)
unfolding remove_peer_by_identity remove_found
remove_peer_by_identity-Routed m i r = elim (Option-cases (lookup i m.identity_to_peer_info)) [
  | inl unknown ↦ rw (unknown, remove_peer_by_identity) r
  | inr (info, known) ↦
      rw (known, remove_peer_by_identity)
        (elim (Option-cases (find_pipe i m.read_pipe_to_identity)) [
          | inl missing ↦ rw (missing, remove_found) (alone-Routed m i r)
          | inr (p, found) ↦
              rw (found, remove_found)
                (drop-Routed m p i r
                  (lookup-find_pipe i m.read_pipe_to_identity p r.distinct found))
        ])
]
