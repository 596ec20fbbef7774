-- ===== src/Patterns/Trie/Matching.antt =====
-- The prefixes of a message in the trie of core/src/socket/patterns/trie.rs.
use rzmq.Base.{
  ℕ, ◌<◌, ◌≡◌, ◌↔◌, refl, sym, ap, ◌∙◌, inl, inr, true, some, List, [], ◌∷◌, ◌++◌, ltb, Bool-cases,
  Option-cases, arith,
}
use rzmq.Patterns.Trie.{TrieNode, Children, node, get_child, matches_from, matches}
use rzmq.Patterns.Trie.Counts.{count_at}

-- A prefix of the message that is subscribed to.
abbrev pub SubscribedPrefix : List ℕ → TrieNode → Type 0
SubscribedPrefix message root =
    (topic : List ℕ) × (rest : List ℕ) × (message ≡ topic ++ rest) × (0 < count_at topic root)

below_child :
    {b c : ℕ} {m : List ℕ} {n : TrieNode} {ch : Children}
    → get_child b ch ≡ some n
    → SubscribedPrefix m n
    → SubscribedPrefix (b ∷ m) (node c ch)
below_child {b} found (t, r, e, pos) = (b ∷ t, r, ap (λ xs. b ∷ xs) e, rw (found, count_at) pos)

prefix-of-matches_from :
    (m : List ℕ) (n : TrieNode) → matches_from m n ≡ true → SubscribedPrefix m n
unfolding matches_from
prefix-of-matches_from [] (node c ch) h = ([], [], refl, ground arith)
prefix-of-matches_from (b ∷ m) (node c ch) h = elim (Bool-cases (ltb 0 c)) [
  | inl here ↦ ([], b ∷ m, refl, ground arith)
  | inr below ↦ elim (Option-cases (get_child b ch)) [
    | inl missing ↦ cc (rw (below, missing) at h)
    | inr (n, found) ↦ below_child found (prefix-of-matches_from m n (rw (below, found) at h))
  ]
]

matches_from-of-prefix :
    (t r : List ℕ) (n : TrieNode) → 0 < count_at t n → matches_from (t ++ r) n ≡ true
unfolding matches_from
matches_from-of-prefix [] [] (node c ch) h = ground arith
matches_from-of-prefix [] (b ∷ r) (node c ch) h = ground arith
matches_from-of-prefix (b ∷ t) r (node c ch) h = elim (Option-cases (get_child b ch)) [
  | inl missing ↦ ground arith
  | inr (n, found) ↦ ground (arith, matches_from-of-prefix t r n)
]

matches-matches_from : (m : List ℕ) (n : TrieNode) → matches m n ≡ matches_from m n
unfolding matches matches_from
matches-matches_from [] (node c ch) = ground arith
matches-matches_from (b ∷ m) (node c ch) = ground arith

-- A message matches exactly if a prefix of it, the empty and the whole one included, is subscribed to.
pub matches_iff : (m : List ℕ) (n : TrieNode) → (matches m n ≡ true) ↔ SubscribedPrefix m n
matches_iff m n = (
  λ h. prefix-of-matches_from m n (sym (matches-matches_from m n) ∙ h),
  λ (t, r, e, pos). rw (matches-matches_from, e) (matches_from-of-prefix t r n pos),
)
