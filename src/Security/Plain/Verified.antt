-- ===== src/Security/Plain/Verified.antt =====
-- Histories of a PLAIN server of core/src/security/plain.rs.
use rzmq.Base.{
  ℕ, suc, ◌+◌, ◌≡◌, refl, sym, ap, ◌∙◌, inl, inr, true, Option, none, some, List, [], ◌∷◌, ltb,
  take, drop, length, bytes_eq, bytes_eq_iff, Bool-cases,
}
use rzmq.Error.{Result, ok, err}
use rzmq.Security.Plain.{
  PlainMechanism, PlainState, Reason, Credentials, start, client_send_hello, client_expect_welcome,
  server_expect_hello, server_send_welcome, accepted, failed, cmd_hello, new_plain,
  set_server_expected_credentials, parse_hello_body, process_token, produce_token, produce_in,
  set_error, expects, verify, server_process, into_framer, framer_identity, hello_not_parsed,
  invalid_credentials, status_of,
}

-- What the engine does to a mechanism during the handshake.
pub data HandshakeEvent : Type 0 where
  token : List ℕ → HandshakeEvent
  produce : HandshakeEvent
  fault : Reason → HandshakeEvent

unfoldable pub step : PlainMechanism → HandshakeEvent → PlainMechanism
step m (token bytes) = (process_token m bytes).1
step m produce = (produce_token m).1
step m (fault reason) = set_error m reason

-- The mechanism after the events, of which the last comes first.
unfoldable pub run : PlainMechanism → List HandshakeEvent → PlainMechanism
run m [] = m
run m (e ∷ past) = step (run m past) e

-- One of the events is a HELLO with this user name and this password.
pub data Presents (u p : List ℕ) : List HandshakeEvent → Type 0 where
  here :
      (n : ℕ) (rest : List ℕ) (past : List HandshakeEvent)
      → take n rest ≡ cmd_hello
      → parse_hello_body (drop n rest) ≡ ok (u, p)
      → Presents u p (token (n ∷ rest) ∷ past)
  there :
      (e : HandshakeEvent) (past : List HandshakeEvent)
      → Presents u p past
      → Presents u p (e ∷ past)

-- The peer has shown the credentials that the server expects, and is known by their user name.
abbrev pub Shown :
    Option (List ℕ) → Option (List ℕ) → List HandshakeEvent → Option (List ℕ) → Type 0
Shown eu ep past username =
    (u p : List ℕ) × (username ≡ some u) × (eu ≡ some u) × (ep ≡ some p) × Presents u p past

module _ (eu ep : Option (List ℕ)) where
  abbrev Proof : PlainState → List HandshakeEvent → Option (List ℕ) → Type 0
  Proof server_send_welcome past username = Shown eu ep past username
  Proof accepted past username = Shown eu ep past username
  Proof client_send_hello past username = ⊥
  Proof client_expect_welcome past username = ⊥
  Proof start past username = Unit {0}
  Proof server_expect_hello past username = Unit {0}
  Proof failed past username = Unit {0}

  record Good (m : PlainMechanism) (past : List HandshakeEvent) : Type 0 where
    server : m.is_server ≡ true
    user : m.expected_username ≡ eu
    pass : m.expected_password ≡ ep
    proof : Proof m.state past m.username

  Shown-later :
      (e : HandshakeEvent) (past : List HandshakeEvent) (username : Option (List ℕ))
      → Shown eu ep past username
      → Shown eu ep (e ∷ past) username
  Shown-later e past username (u, p, known, a, b, h) = (u, p, known, a, b, there e past h)

  Proof-later :
      (s : PlainState) (e : HandshakeEvent) (past : List HandshakeEvent)
      (username : Option (List ℕ))
      → Proof s past username
      → Proof s (e ∷ past) username
  Proof-later server_send_welcome e past username h = Shown-later e past username h
  Proof-later accepted e past username h = Shown-later e past username h
  Proof-later client_send_hello e past username h = h
  Proof-later client_expect_welcome e past username h = h
  Proof-later start e past username h = tt
  Proof-later server_expect_hello e past username h = tt
  Proof-later failed e past username h = tt

  later :
      (m : PlainMechanism) (e : HandshakeEvent) (past : List HandshakeEvent)
      → Good m past
      → Good m (e ∷ past)
  later m e past g = record {
    server = g.server;
    user = g.user;
    pass = g.pass;
    proof = Proof-later m.state e past m.username g.proof;
  }

  set_error-Good :
      (m : PlainMechanism) (past now : List HandshakeEvent) (r : Reason)
      → Good m past
      → Good (set_error m r) now
  unfolding set_error
  set_error-Good m past now r g = record {
    server = g.server;
    user = g.user;
    pass = g.pass;
    proof = tt;
  }

  expects_eq : (o : Option (List ℕ)) (b : List ℕ) → expects o b ≡ true → o ≡ some b
  unfolding expects
  expects_eq none b h = cc
  expects_eq (some a) b h = ap some ((bytes_eq_iff a b).0 h)

  verify-Good :
      (m : PlainMechanism) (r : Result Credentials) (past now : List HandshakeEvent)
      → Good m past
      → ((u p : List ℕ) → r ≡ ok (u, p) → Presents u p now)
      → Good (verify m r).1 now
  unfolding verify
  verify-Good m (err e) past now g shown = set_error-Good m past now (hello_not_parsed e) g
  verify-Good m (ok (u, p)) past now g shown = elim (Bool-cases (expects m.expected_username u)) [
    | inr other ↦ rw other (set_error-Good m past now invalid_credentials g)
    | inl user ↦ elim (Bool-cases (expects m.expected_password p)) [
      | inr other ↦ rw (user, other) (set_error-Good m past now invalid_credentials g)
      | inl pass ↦
          rw (user, pass)
            (record {
              server = g.server;
              user = g.user;
              pass = g.pass;
              proof = (
                u,
                p,
                refl,
                sym g.user ∙ expects_eq m.expected_username u user,
                sym g.pass ∙ expects_eq m.expected_password p pass,
                shown u p refl,
              );
            })
    ]
  ]

  server_process-Good :
      (m : PlainMechanism) (s : PlainState) (n : ℕ) (rest : List ℕ) (past : List HandshakeEvent)
      → Good m past
      → Good (server_process m s (take n rest) (drop n rest)).1 (token (n ∷ rest) ∷ past)
  unfolding server_process
  server_process-Good m server_expect_hello n rest past g =
      elim (Bool-cases (bytes_eq (take n rest) cmd_hello)) [
        | inl hello ↦ rw hello (
            verify-Good m (parse_hello_body (drop n rest)) past _ g (λ u p parsed.
              here n rest past ((bytes_eq_iff (take n rest) cmd_hello).0 hello) parsed))
        | inr other ↦ rw other (set_error-Good m past _ _ g)
      ]
  server_process-Good m start n rest past g = set_error-Good m past _ _ g
  server_process-Good m client_send_hello n rest past g = set_error-Good m past _ _ g
  server_process-Good m client_expect_welcome n rest past g = set_error-Good m past _ _ g
  server_process-Good m server_send_welcome n rest past g = set_error-Good m past _ _ g
  server_process-Good m accepted n rest past g = set_error-Good m past _ _ g
  server_process-Good m failed n rest past g = set_error-Good m past _ _ g

  process_token-Good :
      (m : PlainMechanism) (bytes : List ℕ) (past : List HandshakeEvent)
      → Good m past
      → Good (process_token m bytes).1 (token bytes ∷ past)
  unfolding process_token
  process_token-Good m [] past g = set_error-Good m past _ _ g
  process_token-Good m (n ∷ rest) past g = elim (Bool-cases (ltb (suc (length rest)) (1 + n))) [
    | inl short ↦ rw short (set_error-Good m past _ _ g)
    | inr whole ↦ simp (whole, g.server) (server_process-Good m m.state n rest past g)
  ]

  produce_in-Good :
      (s : PlainState) (m : PlainMechanism) (past : List HandshakeEvent)
      → Good m past
      → Proof s past m.username
      → Good (produce_in s m).1 (produce ∷ past)
  unfolding produce_in
  produce_in-Good client_send_hello m past g h = elim h [ ]
  produce_in-Good client_expect_welcome m past g h = elim h [ ]
  produce_in-Good server_send_welcome m past g h = record {
    server = g.server;
    user = g.user;
    pass = g.pass;
    proof = Shown-later produce past m.username h;
  }
  produce_in-Good start m past g h = later m produce past g
  produce_in-Good server_expect_hello m past g h = later m produce past g
  produce_in-Good accepted m past g h = later m produce past g
  produce_in-Good failed m past g h = later m produce past g

  run-Good :
      (past : List HandshakeEvent)
      → Good (run (set_server_expected_credentials (new_plain true) eu ep) past) past
  unfolding run step set_server_expected_credentials new_plain produce_token
  run-Good [] = record { server = refl; user = refl; pass = refl; proof = tt }
  run-Good (token bytes ∷ past) = process_token-Good _ bytes past (run-Good past)
  run-Good (produce ∷ past) = let g = run-Good past in produce_in-Good _ _ past g g.proof
  run-Good (fault reason ∷ past) = set_error-Good _ past _ reason (run-Good past)

  renamed :
      (past : List HandshakeEvent) (username identity : Option (List ℕ))
      → Shown eu ep past username
      → Result.ok username ≡ ok identity
      → Shown eu ep past identity
  renamed past username identity (u, p, known, a, b, h) e = (u, p, cc, a, b, h)

  framer_identity-Good :
      (s : PlainState) (m : PlainMechanism) (past : List HandshakeEvent)
      (identity : Option (List ℕ))
      → Proof s past m.username
      → framer_identity (status_of s) m ≡ ok identity
      → Shown eu ep past identity
  unfolding framer_identity
  framer_identity-Good accepted m past identity h e = renamed past m.username identity h e
  framer_identity-Good client_send_hello m past identity h e = elim h [ ]
  framer_identity-Good client_expect_welcome m past identity h e = elim h [ ]
  framer_identity-Good server_send_welcome m past identity h e = absurd cc
  framer_identity-Good start m past identity h e = absurd cc
  framer_identity-Good server_expect_hello m past identity h e = absurd cc
  framer_identity-Good failed m past identity h e = absurd cc

-- Whatever the engine does to a PLAIN server, in whatever order: if the server then hands out a
-- framer, it has been shown a HELLO with the user name and the password that it was told to expect,
-- and the identity is that user name.
pub into_framer_verified :
    (eu ep : Option (List ℕ)) (past : List HandshakeEvent) (identity : Option (List ℕ))
    → into_framer (run (set_server_expected_credentials (new_plain true) eu ep) past) ≡ ok identity
    → Shown eu ep past identity
unfolding into_framer
into_framer_verified eu ep past identity h =
    let g = run-Good eu ep past in framer_identity-Good eu ep _ _ past identity g.proof h
