-- ===== src/Error.antt =====
-- core/src/error.rs: the errors, without their message texts, and the result that carries them.
use rzmq.Base.{ℕ, ◌≡◌, ◌⊎◌, refl, inl, inr}

-- An option error names the option.
pub data ZmqError : Type 0 where
  io_error invalid_argument timeout : ZmqError
  addr_in_use addr_not_available connection_refused host_unreachable network_unreachable : ZmqError
  connection_closed permission_denied : ZmqError
  invalid_endpoint endpoint_resolution_failed dns_resolution_failed : ZmqError
  invalid_option invalid_option_value : ℕ → ZmqError
  invalid_socket_type invalid_state protocol_violation invalid_message : ZmqError
  security_error invalid_curve_key authentication_failure encryption_error : ZmqError
  resource_limit_reached unsupported_transport : ZmqError
  unsupported_option : ℕ → ZmqError
  unsupported_feature internal : ZmqError

pub data Result {ℓ} (A : Type ℓ) : Type ℓ where
  ok : A → Result A
  err : ZmqError → Result A

-- To split on an answer and keep the equation.
pub Result-cases : (r : Result (Unit {0})) → (r ≡ ok tt) ⊎ ((e : ZmqError) × (r ≡ err e))
Result-cases (ok _) = inl refl
Result-cases (err e) = inr (e, refl)
