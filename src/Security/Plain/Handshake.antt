-- ===== src/Security/Plain/Handshake.antt =====
-- A client and a server of core/src/security/plain.rs with each other, and the state that failed.
use rzmq.Base.{
  ℕ, ◌+◌, ◌≡◌, ◌↔◌, refl, ap, ◌∙◌, true, false, none, some, List, [], ◌∷◌, ◌++◌, take, length,
  bytes_eq, bytes_eq_iff, bytes_eq_refl, le→ltb, arith,
}
use rzmq.Error.{ok, err, authentication_failure, security_error, invalid_state}
use rzmq.Security.Plain.{
  PlainMechanism, client_expect_welcome, server_send_welcome, accepted, failed, error,
  produce_and_send, handshake_complete, cmd_hello, cmd_welcome, new_plain, set_client_credentials,
  set_server_expected_credentials, create_hello_body, process_token, produce_token, produce_in,
  set_error, expects, verify, server_process, client_process, into_framer, framer_identity, status,
}
use rzmq.Security.Plain.Hello.{parse_hello_body-create_hello_body}
use rzmq.Security.Plain.Verified.{HandshakeEvent, token, produce, fault, step, run}

abbrev pub client_of : List ℕ → List ℕ → PlainMechanism
client_of username password =
    set_client_credentials (new_plain false) (some username) (some password)

abbrev pub server_of : List ℕ → List ℕ → PlainMechanism
server_of username password =
    set_server_expected_credentials (new_plain true) (some username) (some password)

-- The token that carries the HELLO.
abbrev pub hello_token : List ℕ → List ℕ → List ℕ
hello_token username password = 5 ∷ (cmd_hello ++ create_hello_body username password)

produced_hello :
    (u p : List ℕ)
    → produce_token (client_of u p)
      ≡ (ok (some (hello_token u p)), record (client_of u p) { state = client_expect_welcome })
unfolding produce_token set_client_credentials new_plain
produced_hello u p = refl

server_answer :
    (u p eu ep : List ℕ)
    → process_token (server_of eu ep) (hello_token u p)
      ≡ verify (server_of eu ep) (ok (take 255 u, take 255 p))
unfolding process_token set_server_expected_credentials new_plain server_process bytes_eq
server_answer u p eu ep = rw (
  le→ltb (length (hello_token u p)) (1 + 5) (omega arith),
  parse_hello_body-create_hello_body u p,
)

-- The server accepts a client's HELLO exactly if the credentials that it expects are the first 255
-- bytes of the client's; it refuses any other with an authentication failure.
pub server_accepts_iff :
    (u p eu ep : List ℕ)
    → (((process_token (server_of eu ep) (hello_token u p)).0 ≡ ok produce_and_send)
        ↔ ((eu ≡ take 255 u) × (ep ≡ take 255 p)))
      × (((process_token (server_of eu ep) (hello_token u p)).0 ≡ err authentication_failure)
          ↔ ¬ ((eu ≡ take 255 u) × (ep ≡ take 255 p)))
unfolding verify expects set_server_expected_credentials new_plain
server_accepts_iff u p eu ep =
    rw (server_answer u p eu ep)
      (ground (arith, bytes_eq_iff eu (take 255 u), bytes_eq_iff ep (take 255 p)))

-- A client and a server that expects the first 255 bytes of the client's credentials finish the
-- handshake: HELLO, WELCOME, and both are ready; the server knows the client by the user name.
pub handshake_done :
    (u p : List ℕ)
    → let client = client_of u p in
      let waiting = record client { state = client_expect_welcome } in
      let server = server_of (take 255 u) (take 255 p) in
      let known = record server {
        username = some (take 255 u);
        password = some (take 255 p);
        state = server_send_welcome;
      } in
      let done = record known { state = accepted } in
      (produce_token client ≡ (ok (some (hello_token u p)), waiting))
      × (process_token server (hello_token u p) ≡ (ok produce_and_send, known))
      × (produce_token known ≡ (ok (some (7 ∷ cmd_welcome)), done))
      × (process_token waiting (7 ∷ cmd_welcome)
          ≡ (ok handshake_complete, record waiting { state = accepted }))
      × (into_framer done ≡ ok (some (take 255 u)))
      × (into_framer (record waiting { state = accepted }) ≡ ok (some u))
unfolding produce_token set_client_credentials set_server_expected_credentials new_plain verify
    expects process_token client_process server_process bytes_eq into_framer framer_identity
handshake_done u p = (
  refl,
  server_answer u p (take 255 u) (take 255 p)
      ∙ rw (bytes_eq_refl (take 255 u), bytes_eq_refl (take 255 p)) refl,
  refl,
  refl,
  refl,
  refl,
)

token_after_failure :
    (m : PlainMechanism) (bytes : List ℕ)
    → m.state ≡ failed
    → ((process_token m bytes).0 ≡ err security_error) × ((process_token m bytes).1.state ≡ failed)
unfolding process_token set_error server_process client_process
token_after_failure m [] h = (refl, refl)
token_after_failure m (n ∷ rest) h = rw h (ground arith)

produce_after_failure : (m : PlainMechanism) → m.state ≡ failed → produce_token m ≡ (ok none, m)
unfolding produce_token produce_in
produce_after_failure m h = rw h refl

stays_failed :
    (m : PlainMechanism) (past : List HandshakeEvent)
    → m.state ≡ failed
    → (run m past).state ≡ failed
unfolding run step set_error
stays_failed m [] h = h
stays_failed m (token t ∷ past) h = (token_after_failure (run m past) t (stays_failed m past h)).1
stays_failed m (produce ∷ past) h =
    let f = stays_failed m past h in ap (λ r. r.1.state) (produce_after_failure (run m past) f) ∙ f
stays_failed m (fault reason ∷ past) h = refl

-- A mechanism that failed stays so through every event; it refuses every token, sends none and hands
-- out no framer.
pub failed_for_good :
    (m : PlainMechanism) (past : List HandshakeEvent) (bytes : List ℕ)
    → m.state ≡ failed
    → (status (run m past) ≡ error)
      × ((process_token (run m past) bytes).0 ≡ err security_error)
      × ((produce_token (run m past)).0 ≡ ok none)
      × (into_framer (run m past) ≡ err invalid_state)
unfolding into_framer
failed_for_good m past bytes h =
    let f = stays_failed m past h in
    (
      rw f refl,
      (token_after_failure (run m past) bytes f).0,
      ap (λ r. r.0) (produce_after_failure (run m past) f),
      rw (f, framer_identity) refl,
    )
