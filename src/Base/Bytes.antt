-- ===== src/Base/Bytes.antt =====
-- Bytes and the big-endian integers that `put_u16`, `put_u32`, `put_u64` write and `get_*` read.
use Prim.Native.Nat.{ℕ, zero, suc, ◌+◌, ◌*◌, ◌/◌, ◌%◌, ◌^◌, ◌<◌}
use mathlib.Core.Path.{◌≡◌, refl, ◌∙◌}
use mathlib.Core.List.{List, [], ◌∷◌, ◌++◌}
use native.Mathlib.Omega.{arith}
use rzmq.Base.Lists.{length, length-append, All, All-append}

abbrev pub IsByte : ℕ → Type 0
IsByte b = b < 256

-- The `k` lowest bytes of `n`, the highest of them first.
pub be_bytes : ℕ → ℕ → List ℕ
be_bytes zero n = []
be_bytes (suc k) n = be_bytes k (n / 256) ++ (n % 256 ∷ [])

pub be_value_from : ℕ → List ℕ → ℕ
be_value_from acc [] = acc
be_value_from acc (b ∷ bs) = be_value_from (acc * 256 + b) bs

abbrev pub be_value : List ℕ → ℕ
be_value = be_value_from 0

pub length-be_bytes : (k n : ℕ) → length (be_bytes k n) ≡ k
unfolding be_bytes
length-be_bytes zero n = refl
length-be_bytes (suc k) n =
    omega (arith, length-append (be_bytes k (n / 256)) (n % 256 ∷ []), length-be_bytes k (n / 256))

be_value_from-append :
    (acc : ℕ) (xs : List ℕ) (b : ℕ)
    → be_value_from acc (xs ++ (b ∷ [])) ≡ be_value_from acc xs * 256 + b
unfolding be_value_from
be_value_from-append acc [] b = refl
be_value_from-append acc (x ∷ xs) b = be_value_from-append (acc * 256 + x) xs b

-- A number that fits `k` bytes is read back.
pub be_value-be_bytes : (k n : ℕ) → n < 256 ^ k → be_value (be_bytes k n) ≡ n
unfolding be_bytes be_value_from
be_value-be_bytes zero n h = omega arith
be_value-be_bytes (suc k) n h =
    be_value_from-append 0 (be_bytes k (n / 256)) (n % 256)
    ∙ omega (arith, be_value-be_bytes k (n / 256) (omega arith))

pub be_bytes-IsByte : (k n : ℕ) → All IsByte (be_bytes k n)
unfolding be_bytes
be_bytes-IsByte zero n = tt
be_bytes-IsByte (suc k) n =
    All-append IsByte (be_bytes k (n / 256)) _ (be_bytes-IsByte k (n / 256)) (omega arith, tt)
