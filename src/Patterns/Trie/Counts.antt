-- ===== src/Patterns/Trie/Counts.antt =====
-- The trie of core/src/socket/patterns/trie.rs seen as a count for each topic.
use rzmq.Base.{
  ℕ, ◌+◌, ◌-◌, ◌%◌, ◌<◌, ◌≡◌, refl, inl, inr, none, some, List, [], ◌∷◌, ◌==◌, Option-cases,
  bytes_eq, if◌then◌else◌, arith,
}
use rzmq.Patterns.Trie.{
  TrieNode, Children, node, leaf, child, usize_mod, empty_node, get_child, update_child, subscribe,
  release, unsubscribe,
}

-- How often a topic is subscribed to.

abbrev pub count_at : List ℕ → TrieNode → ℕ
count_at [] (node count children) = count
count_at (b ∷ topic) (node count children) = elim (get_child b children) [
  | none ↦ 0
  | some n ↦ count_at topic n
]

get_child-update_child :
    (b j : ℕ) (f : TrieNode → TrieNode) (c : Children)
    → get_child j (update_child b f c) ≡ (
        if b == j
        then some (f (elim (get_child b c) [ none ↦ empty_node | some n ↦ n ]))
        else get_child j c)
unfolding get_child update_child
get_child-update_child b j f leaf = ground arith
get_child-update_child b j f (child i n rest) = ground (arith, get_child-update_child b j f rest)

pub count_at-empty : (u : List ℕ) → count_at u empty_node ≡ 0
unfolding get_child
count_at-empty [] = refl
count_at-empty (b ∷ u) = refl

-- A subscription counts up its topic, and no other.
pub count_at-subscribe :
    (t u : List ℕ) (n : TrieNode)
    → count_at u (subscribe t n)
      ≡ (if bytes_eq t u then (count_at t n + 1) % usize_mod else count_at u n)
unfolding subscribe bytes_eq
count_at-subscribe [] [] (node c ch) = refl
count_at-subscribe [] (j ∷ u) (node c ch) = refl
count_at-subscribe (b ∷ t) [] (node c ch) = refl
count_at-subscribe (b ∷ t) (j ∷ u) (node c ch) = elim (Option-cases (get_child b ch)) [
  | inl missing ↦ ground (
    arith,
    get_child-update_child b j (subscribe t) ch,
    count_at-subscribe t u empty_node,
    count_at-empty t,
    count_at-empty u,
  )
  | inr (n, found) ↦
      ground (arith, get_child-update_child b j (subscribe t) ch, count_at-subscribe t u n)
]

-- An unsubscription counts down its topic if that has subscriptions, changes no other count, and
-- answers whether it took the last one.
pub count_at-unsubscribe :
    (t u : List ℕ) (n : TrieNode)
    → count_at t n < usize_mod
    → (count_at u (unsubscribe t n).0 ≡ (if bytes_eq t u then count_at t n - 1 else count_at u n))
      × ((unsubscribe t n).1 ≡ (count_at t n == 1))
unfolding unsubscribe release bytes_eq
count_at-unsubscribe [] [] (node c ch) h = ground arith
count_at-unsubscribe [] (j ∷ u) (node c ch) h = ground arith
count_at-unsubscribe (b ∷ t) [] (node c ch) h = elim (Option-cases (get_child b ch)) [
  | inl missing ↦ ground arith
  | inr (n, found) ↦ ground (arith, count_at-unsubscribe t [] n)
]
count_at-unsubscribe (b ∷ t) (j ∷ u) (node c ch) h = elim (Option-cases (get_child b ch)) [
  | inl missing ↦ ground arith
  | inr (n, found) ↦
      ground (
        arith,
        get_child-update_child b j (λ _. (unsubscribe t n).0) ch,
        count_at-unsubscribe t u n,
      )
]
