-- ===== src/Tests.antt =====
-- Runs of the model on small inputs, which the theorems speak of.
mod Zmtp
mod Security
mod Patterns
mod Sessionx
mod Socket
mod Runtime
