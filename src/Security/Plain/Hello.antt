-- ===== src/Security/Plain/Hello.antt =====
-- The body of the HELLO command of core/src/security/plain.rs.
use rzmq.Base.{
  ℕ, ◌+◌, ◌<◌, ◌≡◌, refl, ◌∙◌, List, [], ◌∷◌, ◌++◌, le→ltb, length, length-append, length-take,
  take, drop, take-min, take_all, take-append, drop-append, arith,
}
use rzmq.Error.{ok}
use rzmq.Security.Plain.{parse_hello_body, parse_password, create_hello_body, field_len}

cut : (bytes : List ℕ) → take (field_len bytes) bytes ≡ take 255 bytes
cut bytes = take-min 255 (field_len bytes) bytes (omega arith)

cut_length : (bytes : List ℕ) → field_len bytes ≡ length (take 255 bytes)
cut_length bytes = omega (arith, length-take 255 bytes)

parse_password_fields : (u p : List ℕ) → parse_password u (length p ∷ p) ≡ ok (u, p)
unfolding parse_password
parse_password_fields u p =
    rw (le→ltb (length p) (length p) (omega arith), take_all (length p) p (omega arith))

parse_hello_body_long :
    (n : ℕ) (rest : List ℕ)
    → n < length rest
    → parse_hello_body (n ∷ rest) ≡ parse_password (take n rest) (drop n rest)
unfolding parse_hello_body
parse_hello_body_long n [] h = absurd (omega arith)
parse_hello_body_long n (x ∷ rest) h = rw (le→ltb (length (x ∷ rest)) (n + 1) (omega arith))

parse_hello_body_fields :
    (u p : List ℕ) → parse_hello_body (length u ∷ (u ++ (length p ∷ p))) ≡ ok (u, p)
parse_hello_body_fields u p =
    let rest = u ++ (length p ∷ p) in
    parse_hello_body_long (length u) rest (omega (arith, length-append u (length p ∷ p)))
    ∙ rw
        (take-append (length u) u (length p ∷ p) refl, drop-append (length u) u (length p ∷ p) refl)
        (parse_password_fields u p)

-- The parser reads back from a HELLO body the first 255 bytes of the user name and of the password.
pub parse_hello_body-create_hello_body :
    (username password : List ℕ)
    → parse_hello_body (create_hello_body username password)
      ≡ ok (take 255 username, take 255 password)
unfolding create_hello_body
parse_hello_body-create_hello_body username password =
    rw (cut username, cut password, cut_length username, cut_length password)
      (parse_hello_body_fields (take 255 username) (take 255 password))
