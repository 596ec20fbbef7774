-- ===== src/Patterns/Trie/History.antt =====
-- Histories of subscriptions in core/src/socket/patterns/trie.rs, beside an abstract count.
use rzmq.Base.{
  ℕ, ◌+◌, ◌-◌, ◌≤◌, ◌<◌, ◌≡◌, ◌↔◌, refl, ap, ◌∙◌, true, List, [], ◌∷◌, ◌++◌, bytes_eq, bytes_eq_iff,
  if◌then◌else◌, length, arith,
}
use rzmq.Patterns.Trie.{TrieNode, usize_mod, empty_node, subscribe, unsubscribe, matches}
use rzmq.Patterns.Trie.Counts.{count_at, count_at-subscribe, count_at-unsubscribe, count_at-empty}
use rzmq.Patterns.Trie.Matching.{matches_iff}

pub data Change : Type 0 where
  adds : List ℕ → Change
  drops : List ℕ → Change

-- The trie after a history, the latest change last.
unfoldable pub step : TrieNode → Change → TrieNode
step n (adds t) = subscribe t n
step n (drops t) = (unsubscribe t n).0

unfoldable pub run : TrieNode → List Change → TrieNode
run n [] = n
run n (c ∷ cs) = run (step n c) cs

-- The specification: a topic's subscriptions, with no trie.
pub spec_step : ℕ → List ℕ → Change → ℕ
spec_step k u (adds t) = if bytes_eq t u then k + 1 else k
spec_step k u (drops t) = if bytes_eq t u then k - 1 else k

pub spec_run : ℕ → List ℕ → List Change → ℕ
spec_run k u [] = k
spec_run k u (c ∷ cs) = spec_run (spec_step k u c) u cs

bytes_eq-eq : (t u : List ℕ) → bytes_eq t u ≡ true → t ≡ u
bytes_eq-eq t u = (bytes_eq_iff t u).0

count_at-step :
    (n : TrieNode) (u : List ℕ) (c : Change) (bound : ℕ)
    → ((v : List ℕ) → count_at v n ≤ bound)
    → bound + 1 < usize_mod
    → count_at u (step n c) ≡ spec_step (count_at u n) u c
unfolding step spec_step
count_at-step n u (adds t) bound le h =
    ground (arith, le t, le u, count_at-subscribe t u n, bytes_eq_iff t u)
count_at-step n u (drops t) bound le h =
    ground (arith, le t, count_at-unsubscribe t u n, bytes_eq_iff t u)

spec_step-le : (k : ℕ) (u : List ℕ) (c : Change) → spec_step k u c ≤ k + 1
unfolding spec_step
spec_step-le k u (adds t) = ground arith
spec_step-le k u (drops t) = ground arith

count_at-run :
    (cs : List Change) (n : TrieNode) (u : List ℕ) (bound : ℕ)
    → ((v : List ℕ) → count_at v n ≤ bound)
    → bound + length cs < usize_mod
    → count_at u (run n cs) ≡ spec_run (count_at u n) u cs
unfolding run spec_run
count_at-run [] n u bound le h = refl
count_at-run (c ∷ cs) n u bound le h = rw (← count_at-step n u c bound le (omega arith)) (
    count_at-run cs (step n c) u (bound + 1)
      (λ v.
        omega (
          arith,
          le v,
          count_at-step n v c bound le (omega arith),
          spec_step-le (count_at v n) v c,
        ))
      (omega arith))

-- After any history of fewer than 2^64 changes, each topic has as many subscriptions in the trie as
-- the changes to it alone leave, where a drop of a topic without one changes nothing.
pub count_at-history :
    (cs : List Change) (u : List ℕ)
    → length cs < usize_mod
    → count_at u (run empty_node cs) ≡ spec_run 0 u cs
count_at-history cs u h =
    count_at-run cs empty_node u 0 (λ v. omega (arith, count_at-empty v)) (omega arith)
    ∙ ap (λ k. spec_run k u cs) (count_at-empty u)

-- After any history of fewer than 2^64 changes, a message matches exactly if one of its prefixes
-- has a subscription left.
pub matches-history :
    (cs : List Change) (m : List ℕ)
    → length cs < usize_mod
    → (matches m (run empty_node cs) ≡ true)
      ↔ ((t : List ℕ) × (r : List ℕ) × (m ≡ t ++ r) × (0 < spec_run 0 t cs))
matches-history cs m h = (
  λ e.
      let (t, r, split, pos) = (matches_iff m (run empty_node cs)).0 e in
      (t, r, split, omega (arith, count_at-history cs t h)),
  λ (t, r, split, pos).
      (matches_iff m (run empty_node cs)).1 (t, r, split, omega (arith, count_at-history cs t h)),
)
