-- ===== src/Base/Words.antt =====
-- Little-endian bytes, and signed words of 4 and 8 bytes in two's complement.
use Prim.Native.Nat.{ℕ, zero, suc, ◌+◌, ◌-◌, ◌*◌, ◌/◌, ◌%◌, ◌^◌, ◌<◌}
use mathlib.Core.Path.{◌≡◌, refl}
use mathlib.Core.List.{List, [], ◌∷◌}
use native.Mathlib.Omega.{arith}
use rzmq.Base.Tests.{ltb, if◌then◌else◌}
use rzmq.Base.Lists.{length, All}
use rzmq.Base.Bytes.{IsByte}
use rzmq.Base.Int.{ℤ, pos, negsuc}

pub le_bytes : ℕ → ℕ → List ℕ
le_bytes zero n = []
le_bytes (suc k) n = n % 256 ∷ le_bytes k (n / 256)

unfoldable pub le_value : List ℕ → ℕ
le_value [] = 0
le_value (b ∷ bytes) = b + 256 * le_value bytes

pub le_bytes-le_value :
    (bytes : List ℕ) → All IsByte bytes → le_bytes (length bytes) (le_value bytes) ≡ bytes
unfolding le_bytes le_value
le_bytes-le_value [] h = refl
le_bytes-le_value (b ∷ bytes) (h, later) =
    let low : (b + 256 * le_value bytes) % 256 ≡ b = omega (arith, h) in
    let high : (b + 256 * le_value bytes) / 256 ≡ le_value bytes = omega (arith, h) in
    rw (low, high, le_bytes-le_value bytes later) refl

-- The largest value of `w` bits, signed, is below half of the modulus `m`.
unfoldable pub signed : ℕ → ℕ → ℤ
signed m n = if ltb (2 * n) m then pos n else negsuc (m - n - 1)

pub unsigned : ℕ → ℤ → ℕ
unsigned m (pos n) = n
unsigned m (negsuc n) = m - n - 1

pub unsigned-signed : (m n : ℕ) → n < m → unsigned m (signed m n) ≡ n
unfolding unsigned signed
unsigned-signed m n h = ground arith

pub le_value_bound : (bytes : List ℕ) → All IsByte bytes → le_value bytes < 256 ^ length bytes
unfolding le_value
le_value_bound [] h = omega arith
le_value_bound (b ∷ bytes) (h, later) =
    let step : le_value (b ∷ bytes) < 256 ^ suc (length bytes) =
      omega (arith, h, le_value_bound bytes later) in
    step
