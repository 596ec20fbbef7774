-- ===== src/Tests/Patterns.antt =====
-- Tries, load balancers, framing and router maps of core/src/socket/patterns.
use rzmq.Base.{
  ℕ, ◌<◌, ◌≡◌, ◌↔◌, refl, true, none, some, List, [], ◌∷◌, ◌++◌, bytes_key, nat_eq, arith,
}
use rzmq.Base.Maps.{lookup, insert}
use rzmq.Message.{Msg, from_bytes}
use rzmq.Patterns.Trie.{empty_node, matches}
use rzmq.Patterns.Trie.History.{Change, adds, drops, run, spec_run, matches-history}
use rzmq.Patterns.Router.{
  RouterMap, new_map, add_peer, remove_peer_by_read_pipe, get_identity_by_read_pipe,
  get_peer_info_for_identity,
}
use rzmq.Patterns.Router.Collision.{stranded_peer}
use rzmq.Patterns.Framing.{with_more}
use rzmq.Patterns.Orchestrator.{new_orchestrator}
use rzmq.Patterns.Orchestrator.Assembly.{Arrival, of_pipe, feed, waiting, interleaved_messages}

abbrev changes : List Change
changes = adds (1 ∷ []) ∷ adds (1 ∷ 2 ∷ []) ∷ drops (1 ∷ []) ∷ []

matches-history_example :
    (matches (1 ∷ 2 ∷ 3 ∷ []) (run empty_node changes) ≡ true)
    ↔ ((t : List ℕ) × (r : List ℕ) × (1 ∷ 2 ∷ 3 ∷ [] ≡ t ++ r) × (0 < spec_run 0 t changes))
matches-history_example = matches-history changes (1 ∷ 2 ∷ 3 ∷ []) (omega arith)

abbrev identity : Msg
identity = from_bytes (9 ∷ [])

abbrev last : Msg
last = from_bytes (8 ∷ [])

abbrev one_peer : RouterMap
one_peer = add_peer new_map (9 ∷ []) 1 (5 ∷ [])

one_peer_named : get_identity_by_read_pipe one_peer 1 ≡ some (9 ∷ [])
unfolding get_identity_by_read_pipe add_peer lookup insert
one_peer_named = refl

stranded_peer_example :
    let after = remove_peer_by_read_pipe (add_peer one_peer (9 ∷ []) 2 (6 ∷ [])) 1 in
    (get_identity_by_read_pipe after 2 ≡ some (9 ∷ []))
    × (get_identity_by_read_pipe after 1 ≡ none)
    × (get_peer_info_for_identity after (9 ∷ []) ≡ none)
stranded_peer_example =
    stranded_peer one_peer (9 ∷ []) 1 2 (6 ∷ []) (λ e. omega arith) one_peer_named

abbrev head : Msg
head = with_more (from_bytes (7 ∷ []))

abbrev arrivals : List Arrival
arrivals = (1, head) ∷ (2, last) ∷ (1, last) ∷ (1, identity) ∷ []

interleaved_messages_example :
    (of_pipe 1 (feed new_orchestrator arrivals).0 ≡ (head ∷ last ∷ []) ∷ (identity ∷ []) ∷ [])
    × (waiting (feed new_orchestrator arrivals).1 1 ≡ [])
interleaved_messages_example =
    interleaved_messages arrivals 1 ((head ∷ last ∷ []) ∷ (identity ∷ []) ∷ []) refl
      ((refl, refl), (refl, tt))
