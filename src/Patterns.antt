-- ===== src/Patterns.antt =====
-- core/src/socket/patterns: what the socket types are built of.
pub mod Trie
pub mod LoadBalancer
pub mod Framing
pub mod Router
pub mod Orchestrator
pub mod Coordinator
