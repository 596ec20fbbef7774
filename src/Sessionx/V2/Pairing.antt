-- ===== src/Sessionx/V2/Pairing.antt =====
-- Which socket types of core/src/sessionx/protocol_handler/v2_path.rs talk to each other.
use rzmq.Base.{ℕ, ◌≡◌, refl, Bool, ◌&&◌, ◌||◌, some, ◌==◌, arith}
use rzmq.Zmtp.Greeting.{socket_type_name_from_code}
use rzmq.Sessionx.V2.{pairing_ok, pairing_of_known, validate_v2_socket_type_compat}
use Prim.Native.String.{String}

-- The codes `i` and `j`, in either order.
either : ℕ → ℕ → ℕ → ℕ → Bool
either i j c d = ((c == i) && (d == j)) || ((c == j) && (d == i))

either-swap : (i j c d : ℕ) → either i j c d ≡ either i j d c
unfolding either
either-swap i j c d = ground arith

-- The pairs as codes.
abbrev codes_pair : ℕ → ℕ → Bool
codes_pair c d =
    either 0 0 c d
    || either 1 2 c d
    || either 3 4 c d
    || either 3 6 c d
    || either 4 5 c d
    || either 5 5 c d
    || either 5 6 c d
    || either 6 6 c d
    || either 7 8 c d

pair_table :
    (d : ℕ)
    → (pairing_ok "PAIR" d ≡ (d == 0))
      × (pairing_ok "PUB" d ≡ (d == 2))
      × (pairing_ok "SUB" d ≡ (d == 1))
      × (pairing_ok "REQ" d ≡ ((d == 4) || (d == 6)))
      × (pairing_ok "REP" d ≡ ((d == 3) || (d == 5)))
unfolding pairing_ok
pair_table d = (ground arith, ground arith, ground arith, ground arith, ground arith)

pair_table_more :
    (d : ℕ)
    → (pairing_ok "DEALER" d ≡ ((d == 4) || (d == 6) || (d == 5)))
      × (pairing_ok "ROUTER" d ≡ ((d == 3) || (d == 5) || (d == 6)))
      × (pairing_ok "PULL" d ≡ (d == 8))
      × (pairing_ok "PUSH" d ≡ (d == 7))
unfolding pairing_ok
pair_table_more d = (ground arith, ground arith, ground arith, ground arith)

pairing-codes :
    (c d : ℕ) (a : String) → socket_type_name_from_code c ≡ some a → pairing_ok a d ≡ codes_pair c d
unfolding socket_type_name_from_code either
pairing-codes c d a h = ground (arith, pair_table d, pair_table_more d)

codes_pair-swap : (c d : ℕ) → codes_pair c d ≡ codes_pair d c
codes_pair-swap c d =
    rw
      (
        either-swap 0 0 c d,
        either-swap 1 2 c d,
        either-swap 3 4 c d,
        either-swap 3 6 c d,
        either-swap 4 5 c d,
        either-swap 5 5 c d,
        either-swap 5 6 c d,
        either-swap 6 6 c d,
        either-swap 7 8 c d,
      )
      refl

-- For two known socket types, either side of a ZMTP/2.0 connection accepts the other exactly if
-- the other accepts it: the checks of both sides answer alike.
pub pairing_symmetric :
    (c d : ℕ) (a b : String)
    → socket_type_name_from_code c ≡ some a
    → socket_type_name_from_code d ≡ some b
    → validate_v2_socket_type_compat a d ≡ validate_v2_socket_type_compat b c
unfolding validate_v2_socket_type_compat pairing_of_known
pairing_symmetric c d a b ha hb =
    rw (ha, hb, pairing-codes c d a ha, pairing-codes d c b hb, codes_pair-swap c d) refl
