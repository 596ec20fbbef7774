-- ===== src/Sessionx/Handshake/Security/Granted.antt =====
-- Whom a PLAIN server lets through the security handshake of
-- core/src/sessionx/protocol_handler/handshake.rs.
use rzmq.Base.{ℕ, ◌≡◌, refl, ap, ◌∙◌, ◌⊎◌, inl, inr, true, Option, none, some, List, [], ◌∷◌, arith}
use rzmq.Error.{security_error, Result, ok, err, Result-cases}
use rzmq.Message.{Msg, from_bytes, data_or_empty}
use rzmq.Security.Plain as Plain
use rzmq.Security.Plain.{
  PlainMechanism, PlainState, cmd_welcome, ProcessTokenAction, continue_waiting, produce_and_send,
  handshake_complete, accepted, server_send_welcome, new_plain, set_server_expected_credentials,
  produce_in,
}
use rzmq.Security.Plain.Verified.{
  HandshakeEvent, token, produce, step, run, Presents, there, into_framer_verified,
}
use rzmq.Security.Negotiate.{
  PlainMechanismSocketOptions, engine_config, null_mechanism, plain_mechanism, mechanism_status,
  negotiate_security_mechanism, negotiate_among, known_mechanisms, initialize_plain,
  initialize_null,
}
use rzmq.Zmtp.Greeting.{ZmtpGreeting}
use rzmq.Sessionx.V2.{NetRead}
use rzmq.Sessionx.V2.Exchange.{
  ZmtpHandshakeProgress, HandshakeSubPhase, identity_ready, security_handshake, ready_exchange,
}
use rzmq.Sessionx.Handshake.{HandshakeConfig, Handshake, with_handler, wrote}
use rzmq.Sessionx.Handshake.Security.{
  Commanded, Looped, command_bytes, with_mechanism, send_token, reply, act, commanded,
  exchange_token, by_status, security_loop, rounds, process_token, produce_token, into_framer,
  finish, negotiated, first_entry, perform_security_handshake_step, read_handshake_command_frame,
}
use rzmq.Sessionx.Handshake.Security.Ends.{Progresses, process_token-Good}

-- The sub-phase and the answer that a step ends with.
abbrev pub phase_of : Looped → Option HandshakeSubPhase
phase_of none = none
phase_of (some (answer, s, left)) = some s.link.sub_phase

abbrev pub answer_of : Looped → Option (Option (Result ZmtpHandshakeProgress))
answer_of none = none
answer_of (some (answer, s, left)) = some answer

-- The command that was read first is a HELLO with the credentials that the options hold, and the
-- answer reports their user name.
abbrev pub Verified : PlainMechanismSocketOptions → Option (Result Msg) → Looped → Type 0
Verified options command l =
    (msg : Msg) × (u p : List ℕ) × (command ≡ some (ok msg))
    × (options.username ≡ some u)
    × (options.password ≡ some p)
    × Presents u p (token (data_or_empty msg) ∷ [])
    × (answer_of l ≡ some (some (ok (identity_ready u))))

-- A step that goes on has verified the peer.
abbrev Grants : PlainMechanismSocketOptions → Option (Result Msg) → Looped → Type 0
Grants options command l = phase_of l ≡ some ready_exchange → Verified options command l

welcomed :
    (m : PlainMechanism)
    → m.state ≡ server_send_welcome
    → Plain.produce_token m ≡ (ok (some (7 ∷ cmd_welcome)), record m { state = accepted })
unfolding Plain.produce_token produce_in
welcomed m at = rw (at, produce_in) refl

module _ (options : PlainMechanismSocketOptions) (msg : Msg) where
  abbrev fresh : PlainMechanism
  fresh = set_server_expected_credentials (new_plain true) options.username options.password

  -- The HELLO is the token, whatever the server has produced since.
  abbrev Since : List HandshakeEvent → Type 0
  Since past = (u p : List ℕ) → Presents u p past → Presents u p (token (data_or_empty msg) ∷ [])

  Since-produce : Since (produce ∷ token (data_or_empty msg) ∷ [])
  Since-produce u p (there e past h) = h

  finish-Grants :
      (past : List HandshakeEvent) (r : Result (Option (List ℕ))) (s : Handshake)
      (reads : List NetRead)
      → Plain.into_framer (run fresh past) ≡ r
      → s.link.sub_phase ≡ security_handshake
      → Since past
      → Grants options (some (ok msg)) (some (finish r s reads))
  unfolding finish
  finish-Grants past (err e) s reads made before since = λ h. absurd cc
  finish-Grants past (ok none) s reads made before since =
      let (u, p, known, eu, ep, shown) =
        into_framer_verified options.username options.password past none made in
      absurd cc
  finish-Grants past (ok (some id)) s reads made before since =
      let (u, p, known, eu, ep, shown) =
        into_framer_verified options.username options.password past (some id) made in
      let same : id ≡ u = cc in
      λ h. (
        msg,
        u,
        p,
        refl,
        eu,
        ep,
        since u p shown,
        ap (λ (i : List ℕ). some (some (ok (identity_ready i)))) same,
      )

  module _ (write : List ℕ → Result (Unit {0})) (now : ℕ) where
    complete-Grants :
        (past : List HandshakeEvent) (m : PlainMechanism) (s : Handshake) (reads : List NetRead)
        → run fresh past ≡ record m { state = accepted }
        → s.link.sub_phase ≡ security_handshake
        → Since past
        → Grants options (some (ok msg)) (
            security_loop write now 2
              (with_mechanism s (plain_mechanism (record m { state = accepted })))
              reads)
    unfolding security_loop by_status into_framer mechanism_status
    complete-Grants past m s reads reached before since =
        finish-Grants past _ (with_mechanism s (plain_mechanism (record m { state = accepted })))
          reads (ap Plain.into_framer reached) before since

    act-Grants :
        (action : Result ProcessTokenAction) (m : PlainMechanism) (s : Handshake)
        (reads : List NetRead)
        → Progresses action m.state
        → run fresh (token (data_or_empty msg) ∷ []) ≡ m
        → s.link.sub_phase ≡ security_handshake
        → Grants options (some (ok msg)) (
            act write now action
              (security_loop write now 2)
              (with_mechanism s (plain_mechanism m))
              reads)
    unfolding act reply send_token produce_token Plain.produce_token produce_in step run
    act-Grants (err e) m s reads at reached before = λ h. absurd cc
    act-Grants (ok continue_waiting) m s reads at reached before = elim at [ ]
    act-Grants (ok handshake_complete) m s reads at reached before = rw at (
        complete-Grants (token (data_or_empty msg) ∷ []) m s reads
          (reached ∙ ap (λ (state : PlainState). record m { state = state }) at) before
          (λ u p h. h))
    act-Grants (ok produce_and_send) m s reads at reached before =
        let bytes = command_bytes (from_bytes (7 ∷ cmd_welcome)) in
        rw (welcomed m at) (elim (Result-cases (write bytes)) [
          | inr (e, broken) ↦ rw (broken, send_token) (λ h. absurd cc)
          | inl sent ↦
              rw (sent, send_token)
                (complete-Grants (produce ∷ token (data_or_empty msg) ∷ []) m (wrote now bytes s)
                  reads
                  (ap (λ (x : PlainMechanism). (Plain.produce_token x).1) reached
                    ∙ ap (λ (x : Plain.Produced). x.1) (welcomed m at))
                  before Since-produce)
        ])

    commanded-Grants :
        (c : Commanded) (s : Handshake)
        → c.0 ≡ some (ok msg)
        → s.security_mechanism ≡ plain_mechanism fresh
        → s.link.sub_phase ≡ security_handshake
        → Grants options (some (ok msg)) (commanded write now c (security_loop write now 2) s)
    unfolding commanded process_token step run
    commanded-Grants (outcome, h, reads) s read known before =
        rw (read, known, commanded, process_token)
          (act-Grants _ (Plain.process_token fresh (data_or_empty msg)).1 (with_handler s h) reads
            (process_token-Good fresh (data_or_empty msg)) refl before)

module _ (options : PlainMechanismSocketOptions) (write : List ℕ → Result (Unit {0}))
    (now : ℕ) where
  waited-Grants :
      (c : Commanded) (s : Handshake)
      → s.security_mechanism ≡ plain_mechanism (fresh options (from_bytes []))
      → s.link.sub_phase ≡ security_handshake
      → Grants options c.0 (commanded write now c (security_loop write now 2) s)
  unfolding commanded
  waited-Grants (none, h, reads) s known before = λ e. absurd cc
  waited-Grants (some (err e), h, reads) s known before = λ e. absurd cc
  waited-Grants (some (ok msg), h, reads) s known before =
      commanded-Grants options msg write now (some (ok msg), h, reads) s refl known before

  rounds-Grants :
      (s : Handshake) (reads : List NetRead)
      → s.link.sub_phase ≡ security_handshake
      → Grants options (read_handshake_command_frame s.link.handler now reads).0 (
          rounds write now
            (with_mechanism s (plain_mechanism (fresh options (from_bytes []))))
            reads)
  unfolding rounds security_loop by_status exchange_token produce_token Plain.produce_token
      produce_in mechanism_status new_plain set_server_expected_credentials
  rounds-Grants s reads before =
      waited-Grants (read_handshake_command_frame s.link.handler now reads)
        (with_mechanism s (plain_mechanism (fresh options (from_bytes [])))) refl before

  server_negotiates :
      (greeting : ZmtpGreeting)
      → options.enabled ≡ true
      → (negotiate_security_mechanism true (engine_config options) greeting ≡ err security_error)
        ⊎ (negotiate_security_mechanism true (engine_config options) greeting
            ≡ ok (plain_mechanism (fresh options (from_bytes []))))
  unfolding negotiate_security_mechanism negotiate_among known_mechanisms engine_config
      initialize_plain initialize_null new_plain
  server_negotiates greeting on = ground arith

  entry-Grants :
      (config : HandshakeConfig) (greeting : Option ZmtpGreeting) (s : Handshake)
      (reads : List NetRead)
      → config.engine ≡ engine_config options
      → options.enabled ≡ true
      → s.is_server ≡ true
      → s.link.sub_phase ≡ security_handshake
      → Grants options
          (read_handshake_command_frame s.link.handler now reads).0
          (first_entry write now config greeting s reads)
  unfolding first_entry negotiated
  entry-Grants config none s reads configured on server before = λ e. absurd cc
  entry-Grants config (some greeting) s reads configured on server before =
      rw (configured, server)
        (elim (server_negotiates greeting on) [
          | inl refused ↦ rw (refused, negotiated) (λ e. absurd cc)
          | inr made ↦
              rw (made, negotiated) (rounds-Grants (record s { is_server = true }) reads before)
        ])

  -- A server whose options enable PLAIN, at the start of its security handshake, whatever its peer
  -- proposes and sends and however writes end: if the step ends in the exchange of READY, then the
  -- command that it read first is a HELLO with the user name and the password of the options, and the
  -- step reports that user name.
  pub security_granted :
      (config : HandshakeConfig) (s : Handshake) (reads : List NetRead)
      → config.engine ≡ engine_config options
      → options.enabled ≡ true
      → s.is_server ≡ true
      → s.security_mechanism ≡ null_mechanism
      → s.link.sub_phase ≡ security_handshake
      → phase_of (perform_security_handshake_step write now config s reads) ≡ some ready_exchange
      → Verified options
          (read_handshake_command_frame s.link.handler now reads).0
          (perform_security_handshake_step write now config s reads)
  unfolding perform_security_handshake_step
  security_granted config s reads configured on server null before =
      rw (null, perform_security_handshake_step)
        (entry-Grants config s.pending_peer_greeting s reads configured on server before)
