-- ===== src/Socket/Options/ReadBack/Numbers.antt =====
-- The numbers in the values of core/src/socket/options.rs: each parser against what is read back.
use rzmq.Base.{
  ℕ, zero, suc, ◌*◌, ◌/◌, ◌^◌, ◌<◌, ◌≡◌, refl, ap, ◌∙◌, Option, List, length, All, IsByte, arith,
  if◌then◌else◌, ◌==◌, ==_iff, ltb, ltb→lt, Bool-cases, inl, inr,
}
use mathlib.Core.Path.{subst}
use rzmq.Base.Int.{ℤ, pos, negsuc}
use rzmq.Base.Words.{
  le_bytes, le_value, le_bytes-le_value, le_value_bound, signed, unsigned, unsigned-signed,
}
use rzmq.Error.{ok}
use rzmq.Socket.Options.Parse.{
  parse_i32_option, is_one, limited, seconds, counted, keepalive_mode, positive, reconnect_ivl_of,
  reconnect_ivl_max_of, maxmsgsize_of, max_connections_of,
}
use rzmq.Socket.Options.Retrieve.{i32_bytes, as_i32, saturated, map_or, as_secs_i32, bool_as_i32}
use rzmq.Socket.Options.Apply.{hwm}

-- A number that is not negative fits the word.
abbrev pub Fits : ℤ → Type 0
Fits (pos n) = n < 2147483648
Fits (negsuc n) = Unit {0}

signed-Fits : (n : ℕ) → Fits (signed (256 ^ 4) n)
unfolding signed
signed-Fits n = elim (Bool-cases (ltb (2 * n) (256 ^ 4))) [
  | inl h ↦ rw (h) (omega (arith, ltb→lt (2 * n) (256 ^ 4) h))
  | inr h ↦ rw (h) tt
]

pub word_back :
    (k : ℕ) (value : List ℕ)
    → All IsByte value
    → length value ≡ k
    → le_bytes k (unsigned (256 ^ k) (signed (256 ^ k) (le_value value))) ≡ value
word_back k value b h =
    let fits : le_value value < 256 ^ k =
      subst (λ j. le_value value < 256 ^ j) h (le_value_bound value b) in
    ap (le_bytes k) (unsigned-signed (256 ^ k) (le_value value) fits)
    ∙ subst (λ j. le_bytes j (le_value value) ≡ value) h (le_bytes-le_value value b)

pub parse_i32_back :
    (value : List ℕ) (v : ℤ)
    → All IsByte value
    → parse_i32_option value ≡ ok v
    → (i32_bytes v ≡ value) × Fits v × (v ≡ signed (256 ^ 4) (le_value value))
unfolding parse_i32_option
parse_i32_back value v b h = elim (Bool-cases (length value == 4)) [
  | inl e ↦
      let same : v ≡ signed (256 ^ 4) (le_value value) = ground arith in
      rw (same)
        (word_back 4 value b ((==_iff (length value) 4).0 e), signed-Fits (le_value value), refl)
  | inr e ↦ ground arith
]

as_i32_small : (n : ℕ) → n < 2147483648 → as_i32 n ≡ pos n
unfolding as_i32 signed
as_i32_small n h = ground arith

saturated_small : (n : ℕ) → n < 2147483648 → saturated n ≡ pos n
unfolding saturated
saturated_small n h = ground arith

-- A negative number is taken for 0.
abbrev pub at_least_0 : ℤ → ℤ
at_least_0 (pos n) = pos n
at_least_0 (negsuc n) = pos 0

pub hwm_back : (v : ℤ) → Fits v → as_i32 (hwm v) ≡ at_least_0 v
unfolding hwm
hwm_back (pos n) h = as_i32_small n h
hwm_back (negsuc n) h = as_i32_small 0 (omega arith)

pub limited_back :
    (id : ℕ) (v : ℤ) (r : Option ℕ)
    → Fits v
    → limited id v ≡ ok r
    → map_or (negsuc 0) saturated r ≡ v
unfolding limited
limited_back id (pos n) r f h = ground (arith, saturated_small n f)
limited_back id (negsuc zero) r f h = ground arith
limited_back id (negsuc (suc n)) r f h = ground arith

pub positive_back :
    (id : ℕ) (v : ℤ) (r : Option ℕ) → Fits v → positive id v ≡ ok r → map_or (pos 0) as_i32 r ≡ v
unfolding positive
positive_back id (pos zero) r f h = ground arith
positive_back id (pos (suc n)) r f h = ground (arith, as_i32_small (suc n) f)
positive_back id (negsuc n) r f h = ground arith

pub seconds_back :
    (v : ℤ) (r : Option ℕ) → Fits v → seconds v ≡ ok r → map_or (pos 0) as_secs_i32 r ≡ v
unfolding seconds as_secs_i32
seconds_back (pos n) r f h =
    let whole : n * 1000 / 1000 ≡ n = omega arith in ground (arith, as_i32_small n f, whole)
seconds_back (negsuc n) r f h = ground arith

pub counted_back : (v : ℤ) (r : Option ℕ) → Fits v → counted v ≡ ok r → map_or (pos 0) as_i32 r ≡ v
unfolding counted
counted_back (pos n) r f h = ground (arith, as_i32_small n f)
counted_back (negsuc n) r f h = ground arith

pub reconnect_ivl_max_back :
    (v : ℤ) (r : Option ℕ) → Fits v → reconnect_ivl_max_of v ≡ ok r → map_or (pos 0) as_i32 r ≡ v
unfolding reconnect_ivl_max_of
reconnect_ivl_max_back (pos n) r f h = ground (arith, as_i32_small n f)
reconnect_ivl_max_back (negsuc n) r f h = ground arith

pub reconnect_ivl_back :
    (v : ℤ) (r : Option ℕ)
    → Fits v
    → reconnect_ivl_of v ≡ ok r
    → map_or (pos 0) as_i32 r ≡ at_least_0 v
unfolding reconnect_ivl_of
reconnect_ivl_back (pos zero) r f h = ground arith
reconnect_ivl_back (pos (suc n)) r f h = ground (arith, as_i32_small (suc n) f)
reconnect_ivl_back (negsuc zero) r f h = ground arith
reconnect_ivl_back (negsuc (suc n)) r f h = ground arith

pub max_connections_back :
    (id : ℕ) (v : ℤ) (r : Option ℕ)
    → Fits v
    → max_connections_of id v ≡ ok r
    → map_or (negsuc 0) as_i32 r ≡ v
unfolding max_connections_of
max_connections_back id (pos zero) r f h = ground arith
max_connections_back id (pos (suc n)) r f h = ground (arith, as_i32_small (suc n) f)
max_connections_back id (negsuc zero) r f h = ground arith
max_connections_back id (negsuc (suc n)) r f h = ground arith

pub keepalive_back : (v r : ℤ) → keepalive_mode v ≡ ok r → r ≡ v
unfolding keepalive_mode
keepalive_back (pos zero) r h = ground arith
keepalive_back (pos (suc zero)) r h = ground arith
keepalive_back (pos (suc (suc n))) r h = ground arith
keepalive_back (negsuc zero) r h = ground arith
keepalive_back (negsuc (suc n)) r h = ground arith

pub maxmsgsize_back : (v r : ℤ) → maxmsgsize_of v ≡ ok r → r ≡ v
unfolding maxmsgsize_of
maxmsgsize_back (pos n) r h = ground arith
maxmsgsize_back (negsuc zero) r h = ground arith
maxmsgsize_back (negsuc (suc n)) r h = ground arith

-- Any number but 1 is taken for false.
abbrev pub one_or_0 : ℤ → ℤ
one_or_0 v = if is_one v then v else pos 0

pub bool_back : (v : ℤ) → bool_as_i32 (is_one v) ≡ one_or_0 v
unfolding is_one
bool_back (pos n) = ground (arith, ==_iff n 1)
bool_back (negsuc n) = refl
