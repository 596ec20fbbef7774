-- ===== src/Sessionx/Handshake/Security/Ends.antt =====
-- The loop over tokens in core/src/sessionx/protocol_handler/handshake.rs ends.
use rzmq.Base.{
  ℕ, zero, suc, ◌+◌, ◌≤◌, ◌<◌, ◌≡◌, refl, ap, ◌⊎◌, inl, inr, ◌&&◌, none, some, List, [], ◌∷◌, ltb,
  length, take, drop, bytes_eq, if_either, arith,
}
use rzmq.Error.{Result, ok, err, Result-cases}
use rzmq.Message.{from_bytes, data_or_empty}
use rzmq.Security.Plain as Plain
use rzmq.Security.Plain.{
  PlainMechanism, PlainState, start, client_send_hello, client_expect_welcome, server_expect_hello,
  server_send_welcome, accepted, failed, ProcessTokenAction, continue_waiting, produce_and_send,
  handshake_complete, verify, server_process, client_process, produce_in, parse_hello_body,
  Credentials, status_of, Processed, expects, cmd_hello, cmd_welcome, cmd_error,
}
use rzmq.Security.Negotiate.{Mechanism, null_mechanism, plain_mechanism, mechanism_status}
use rzmq.Sessionx.V2.{NetRead}
use rzmq.Sessionx.Handshake.{Handshake, Stepped, with_handler, wrote}
use rzmq.Sessionx.Handshake.Security.{
  Commanded, Looped, Next, command_bytes, with_mechanism, send_token, reply, act, commanded,
  exchange_token, by_status, security_loop, rounds, process_token, produce_token,
}

-- How many further rounds a mechanism can make the loop take.
abbrev pub rank_of : PlainState → ℕ
rank_of accepted = 0
rank_of failed = 0
rank_of client_send_hello = 2
rank_of _ = 1

abbrev pub rank : Mechanism → ℕ
rank null_mechanism = 0
rank (plain_mechanism m) = rank_of m.state

abbrev Ended : Looped → Type 0
Ended l = (r : Stepped) × (l ≡ some r)

abbrev Ends : ℕ → Next → Type 0
Ends k next =
    (s : Handshake) (reads : List NetRead) → rank s.security_mechanism < k → Ended (next s reads)

-- An action of PLAIN, and the state that the mechanism is in then.
abbrev pub Progress : ProcessTokenAction → PlainState → Type 0
Progress handshake_complete state = state ≡ accepted
Progress produce_and_send state = state ≡ server_send_welcome
Progress continue_waiting state = ⊥

abbrev pub Progresses : Result ProcessTokenAction → PlainState → Type 0
Progresses (err e) state = Unit
Progresses (ok action) state = Progress action state

abbrev pub Good : Processed → Type 0
Good (action, m) = Progresses action m.state

verify-Good : (m : PlainMechanism) (r : Result Credentials) → Good (verify m r)
unfolding verify
verify-Good m (err e) = tt
verify-Good m (ok (u, p)) =
    if_either Good (expects m.expected_username u && expects m.expected_password p) _ _ refl tt

server_process-Good :
    (m : PlainMechanism) (state : PlainState) (name body : List ℕ)
    → Good (server_process m state name body)
unfolding server_process
server_process-Good m server_expect_hello name body =
    if_either Good (bytes_eq name cmd_hello) _ _ (verify-Good m (parse_hello_body body)) tt
server_process-Good m _ name body = tt

client_process-Good :
    (m : PlainMechanism) (state : PlainState) (name body : List ℕ)
    → Good (client_process m state name body)
unfolding client_process
client_process-Good m client_expect_welcome name body =
    if_either Good (bytes_eq name cmd_welcome) _ _ refl
      (if_either Good (bytes_eq name cmd_error) _ _ tt tt)
client_process-Good m _ name body = tt

pub process_token-Good : (m : PlainMechanism) (token : List ℕ) → Good (Plain.process_token m token)
unfolding Plain.process_token
process_token-Good m [] = tt
process_token-Good m (n ∷ rest) = if_either Good (ltb (suc (length rest)) (1 + n)) _ _ tt (
    if_either Good m.is_server _ _ (server_process-Good m m.state (take n rest) (drop n rest))
      (client_process-Good m m.state (take n rest) (drop n rest)))

module _ (write : List ℕ → Result (Unit {0})) (now k : ℕ) (next : Next) (ends : Ends k next)
    (left : 1 ≤ k) where
  send_token-Ended :
      (token : List ℕ) (s : Handshake) (reads : List NetRead)
      → rank s.security_mechanism < k
      → Ended (send_token write now token next s reads)
  unfolding send_token
  send_token-Ended token s reads low =
      elim (Result-cases (write (command_bytes (from_bytes token)))) [
        | inl sent ↦
            rw (sent, send_token) (ends (wrote now (command_bytes (from_bytes token)) s) reads low)
        | inr (e, broken) ↦ rw (broken, send_token) (_, refl)
      ]

  act-Ended :
      (action : Result ProcessTokenAction) (m : PlainMechanism) (s : Handshake)
      (reads : List NetRead)
      → Progresses action m.state
      → Ended (act write now action next (with_mechanism s (plain_mechanism m)) reads)
  unfolding act reply produce_token Plain.produce_token produce_in
  act-Ended (err e) m s reads h = (_, refl)
  act-Ended (ok continue_waiting) m s reads h = elim h [ ]
  act-Ended (ok handshake_complete) m s reads h =
      ends (with_mechanism s (plain_mechanism m)) reads (omega (arith, ap rank_of h))
  act-Ended (ok produce_and_send) m s reads h = rw h (
      send_token-Ended _ (with_mechanism s (plain_mechanism (record m { state = accepted }))) reads
        (omega arith))

  commanded-Ended :
      (c : Commanded) (m : PlainMechanism) (s : Handshake)
      → s.security_mechanism ≡ plain_mechanism m
      → Ended (commanded write now c next s)
  unfolding commanded process_token
  commanded-Ended (none, h, reads) m s known = (_, refl)
  commanded-Ended (some (err e), h, reads) m s known = (_, refl)
  commanded-Ended (some (ok msg), h, reads) m s known = rw known (
      act-Ended _ (Plain.process_token m (data_or_empty msg)).1 (with_handler s h) reads
        (process_token-Good m (data_or_empty msg)))

  quiet-Ended :
      (m : PlainMechanism) (s : Handshake) (reads : List NetRead)
      → Ended (exchange_token write now (ok none) next (with_mechanism s (plain_mechanism m)) reads)
  unfolding exchange_token
  quiet-Ended m s reads = commanded-Ended _ m (with_mechanism s (plain_mechanism m)) refl

by_status-Ended :
    (write : List ℕ → Result (Unit {0})) (now k : ℕ) (next : Next) (state : PlainState)
    (m : PlainMechanism) (s : Handshake) (reads : List NetRead)
    → Ends k next
    → s.security_mechanism ≡ plain_mechanism m
    → m.state ≡ state
    → rank_of state < suc k
    → Ended (by_status write now (status_of state) next s reads)
unfolding by_status exchange_token produce_token Plain.produce_token produce_in
by_status-Ended write now k next accepted m s reads ends known at low = (_, refl)
by_status-Ended write now k next failed m s reads ends known at low = (_, refl)
by_status-Ended write now k next client_send_hello m s reads ends known at low =
    rw (known, at) (send_token-Ended write now k next ends (omega arith) _ _ reads (omega arith))
by_status-Ended write now k next server_send_welcome m s reads ends known at low =
    rw (known, at) (send_token-Ended write now k next ends (omega arith) _ _ reads (omega arith))
by_status-Ended write now k next start m s reads ends known at low =
    rw (known, at, produce_in)
      (quiet-Ended write now k next ends (omega arith) (record m { state = start }) s reads)
by_status-Ended write now k next client_expect_welcome m s reads ends known at low =
    rw (known, at, produce_in)
      (quiet-Ended write now k next ends (omega arith) (record m { state = client_expect_welcome })
        s reads)
by_status-Ended write now k next server_expect_hello m s reads ends known at low =
    rw (known, at, produce_in)
      (quiet-Ended write now k next ends (omega arith) (record m { state = server_expect_hello }) s
        reads)

which : (m : Mechanism) → (m ≡ null_mechanism) ⊎ ((p : PlainMechanism) × (m ≡ plain_mechanism p))
which null_mechanism = inl refl
which (plain_mechanism p) = inr (p, refl)

security_loop-Ends :
    (write : List ℕ → Result (Unit {0})) (now k : ℕ) → Ends k (security_loop write now k)
unfolding security_loop mechanism_status
security_loop-Ends write now zero s reads low = absurd (omega arith)
security_loop-Ends write now (suc k) s reads low = elim (which s.security_mechanism) [
  | inl null ↦ rw (null, by_status) (_, refl)
  | inr (m, plain) ↦
      rw (plain, mechanism_status)
        (by_status-Ended write now k _ m.state m (with_mechanism s (plain_mechanism m)) reads
          (security_loop-Ends write now k) refl refl (rw (← ap rank plain) low))
]

rank_of_small : (state : PlainState) → rank_of state < 3
rank_of_small start = omega arith
rank_of_small client_send_hello = omega arith
rank_of_small client_expect_welcome = omega arith
rank_of_small server_expect_hello = omega arith
rank_of_small server_send_welcome = omega arith
rank_of_small accepted = omega arith
rank_of_small failed = omega arith

rank_small : (m : Mechanism) → rank m < 3
rank_small null_mechanism = omega arith
rank_small (plain_mechanism m) = rank_of_small m.state

-- Three rounds of the loop are enough: whatever mechanism the step has, what it reads and how its
-- writes end, it comes to an answer, or waits for a further read, within these rounds.
pub rounds_end :
    (write : List ℕ → Result (Unit {0})) (now : ℕ) (s : Handshake) (reads : List NetRead)
    → (r : Stepped) × (rounds write now s reads ≡ some r)
unfolding rounds
rounds_end write now s reads =
    security_loop-Ends write now 3 s reads (rank_small s.security_mechanism)
