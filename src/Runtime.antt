-- ===== src/Runtime.antt =====
-- core/src/runtime: what the actors of the library share.
pub mod WaitGroup
