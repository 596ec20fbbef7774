-- ===== src/Patterns/Trie.antt =====
-- core/src/socket/patterns/trie.rs: the subscriptions of a SUB socket. Each operation is one
-- sequential walk; the locks on the nodes are left out. Counts are `AtomicUsize`, so they wrap.
pub mod Counts
pub mod Matching
pub mod History
use rzmq.Base.{
  ℕ, ◌+◌, ◌-◌, ◌%◌, ◌^◌, Bool, true, false, Option, none, some, List, [], ◌∷◌, ◌++◌, ltb, ◌==◌,
  if◌then◌else◌,
}

-- The children are a map from bytes to nodes.
mutual
  pub data TrieNode : Type 0 where
    node : ℕ → Children → TrieNode

  pub data Children : Type 0 where
    leaf : Children
    child : ℕ → TrieNode → Children → Children

abbrev pub usize_mod : ℕ
usize_mod = 2 ^ 64

abbrev pub empty_node : TrieNode
empty_node = node 0 leaf

pub get_child : ℕ → Children → Option TrieNode
get_child b leaf = none
get_child b (child j n rest) = if j == b then some n else get_child b rest

-- `entry(byte).or_insert_with(default)`, and the walk goes on in that node.
pub update_child : ℕ → (TrieNode → TrieNode) → Children → Children
update_child b f leaf = child b (f empty_node) leaf
update_child b f (child j n rest) =
    if j == b then child j (f n) rest else child j n (update_child b f rest)

pub subscribe : List ℕ → TrieNode → TrieNode
subscribe [] (node count children) = node ((count + 1) % usize_mod) children
subscribe (b ∷ topic) (node count children) = node count (update_child b (subscribe topic) children)

-- `fetch_sub`, and `fetch_add` where the count was zero.
pub release : ℕ → ℕ × Bool
release old_count =
    let lowered = (old_count + usize_mod - 1) % usize_mod in
    if ltb 0 old_count then (lowered, old_count == 1) else ((lowered + 1) % usize_mod, false)

pub unsubscribe : List ℕ → TrieNode → TrieNode × Bool
unsubscribe [] (node count children) =
    let (count', last) = release count in (node count' children, last)
unsubscribe (b ∷ topic) (node count children) = elim (get_child b children) [
  | none ↦ (node count children, false)
  | some n ↦
      let (n', last) = unsubscribe topic n in (node count (update_child b (λ _. n') children), last)
]

abbrev pub node_count : TrieNode → ℕ
node_count (node count children) = count

-- The walk along the message's bytes.
pub matches_from : List ℕ → TrieNode → Bool
matches_from [] (node count children) = ltb 0 count
matches_from (b ∷ topic) (node count children) =
    if ltb 0 count
    then true
    else elim (get_child b children) [ none ↦ false | some n ↦ matches_from topic n ]

pub matches : List ℕ → TrieNode → Bool
unfolding matches_from
matches message_topic root =
    if ltb 0 (node_count root) then true else matches_from message_topic root

mutual
  pub collect_topics : TrieNode → List ℕ → List (List ℕ)
  collect_topics (node count children) prefix =
      (if ltb 0 count then prefix ∷ [] else []) ++ collect_children children prefix

  pub collect_children : Children → List ℕ → List (List ℕ)
  collect_children leaf prefix = []
  collect_children (child b n rest) prefix =
      collect_topics n (prefix ++ (b ∷ [])) ++ collect_children rest prefix

pub get_all_topics : TrieNode → List (List ℕ)
get_all_topics root = collect_topics root []
