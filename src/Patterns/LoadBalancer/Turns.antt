-- ===== src/Patterns/LoadBalancer/Turns.antt =====
-- Turns and membership in the queue of core/src/socket/patterns/load_balancer.rs.
use rzmq.Base.{
  ℕ, zero, suc, ◌≡◌, refl, sym, ap, ◌∙◌, false, not, ◌&&◌, ◌||◌, Option, some, List, [], ◌∷◌, ◌++◌,
  map, append_assoc, append-nil, bytes_eq, bytes_eq_iff, length, arith,
}
use rzmq.Patterns.LoadBalancer.{
  Uri, LoadBalancer, contains, add_connection, remove_connection, get_next_connection_uri,
}

-- The answers of `n` calls in a row, and the queue after them.
pub turns : ℕ → LoadBalancer → List (Option Uri) × LoadBalancer
turns zero uris = ([], uris)
turns (suc n) uris =
    let (uri, uris') = get_next_connection_uri uris in
    let (rest, uris'') = turns n uris' in (uri ∷ rest, uris'')

turns-front : (xs ys : LoadBalancer) → turns (length xs) (xs ++ ys) ≡ (map some xs, ys ++ xs)
unfolding turns get_next_connection_uri
turns-front [] ys = ap (λ zs. ([], zs)) (sym (append-nil ys))
turns-front (x ∷ xs) ys =
    rw (append_assoc xs ys (x ∷ []), turns-front xs (ys ++ (x ∷ [])), append_assoc ys (x ∷ []) xs)

-- As many calls as there are connections select each of them once, in queue order, and leave the
-- queue as it was.
pub turns_round : (uris : LoadBalancer) → turns (length uris) uris ≡ (map some uris, uris)
turns_round uris = ap (turns (length uris)) (sym (append-nil uris)) ∙ turns-front uris []

-- No URI is queued twice.
abbrev pub Single : LoadBalancer → Type 0
Single [] = Unit {0}
Single (u ∷ uris) = (contains uris u ≡ false) × Single uris

contains-snoc :
    (uris : LoadBalancer) (u v : Uri)
    → contains (uris ++ (u ∷ [])) v ≡ (contains uris v || bytes_eq u v)
unfolding contains
contains-snoc [] u v = ground arith
contains-snoc (x ∷ uris) u v = ground (arith, contains-snoc uris u v)

Single-snoc :
    (uris : LoadBalancer) (u : Uri)
    → contains uris u ≡ false
    → Single uris
    → Single (uris ++ (u ∷ []))
unfolding contains
Single-snoc [] u h s = (refl, tt)
Single-snoc (x ∷ uris) u h s =
    ground (arith, contains-snoc uris u x, bytes_eq_iff x u, bytes_eq_iff u x, Single-snoc uris u)

contains-remove_connection :
    (uris : LoadBalancer) (u v : Uri)
    → Single uris
    → contains (remove_connection uris u) v ≡ (not (bytes_eq u v) && contains uris v)
unfolding contains remove_connection
contains-remove_connection [] u v s = ground arith
contains-remove_connection (x ∷ uris) u v s = ground (
  arith,
  bytes_eq_iff x u,
  bytes_eq_iff x v,
  bytes_eq_iff u v,
  contains-remove_connection uris u v s.1,
)

-- The queue's last entry, if it is nowhere else.
pub remove_connection-snoc :
    (uris : LoadBalancer) (u : Uri)
    → contains uris u ≡ false
    → remove_connection (uris ++ (u ∷ [])) u ≡ uris
unfolding contains remove_connection
remove_connection-snoc [] u h = ground (arith, bytes_eq_iff u u)
remove_connection-snoc (x ∷ uris) u h = ground (arith, remove_connection-snoc uris u)

Single-remove_connection :
    (uris : LoadBalancer) (u : Uri) → Single uris → Single (remove_connection uris u)
unfolding remove_connection
Single-remove_connection [] u s = tt
Single-remove_connection (x ∷ uris) u s =
    ground (arith, contains-remove_connection uris u x s.1, Single-remove_connection uris u s.1)

contains-add_connection :
    (uris : LoadBalancer) (u v : Uri)
    → contains (add_connection uris u) v ≡ (bytes_eq u v || contains uris v)
unfolding add_connection
contains-add_connection uris u v = ground (arith, contains-snoc uris u v, bytes_eq_iff u v)

Single-add_connection :
    (uris : LoadBalancer) (u : Uri) → Single uris → Single (add_connection uris u)
unfolding add_connection
Single-add_connection uris u s = ground (arith, Single-snoc uris u)

Single-get_next : (uris : LoadBalancer) → Single uris → Single (get_next_connection_uri uris).1
unfolding get_next_connection_uri
Single-get_next [] s = tt
Single-get_next (u ∷ uris) s = Single-snoc uris u s.0 s.1

-- On a queue without repetitions: adding a URI makes it a member and removing it takes it out, both
-- leave every other membership alone, and adding, removing and selecting keep the queue without
-- repetitions.
pub queue_as_set :
    (uris : LoadBalancer) (u v : Uri)
    → Single uris
    → (contains (add_connection uris u) v ≡ (bytes_eq u v || contains uris v))
      × (contains (remove_connection uris u) v ≡ (not (bytes_eq u v) && contains uris v))
      × Single (add_connection uris u)
      × Single (remove_connection uris u)
      × Single (get_next_connection_uri uris).1
queue_as_set uris u v s = (
  contains-add_connection uris u v,
  contains-remove_connection uris u v s,
  Single-add_connection uris u s,
  Single-remove_connection uris u s,
  Single-get_next uris s,
)
