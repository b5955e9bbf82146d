-- ===== src/Base/Words.antt =====
-- Unsigned machine words and their byte encodings. A word is a natural number with the range stated
-- where it matters; arithmetic that the source leaves unchecked wraps, as a release build does.
use Prim.Native.Nat.{ℕ, zero, suc, ◌+◌, ◌-◌, ◌*◌, ◌/◌, ◌%◌, ◌^◌, ◌<◌}
use mathlib.Core.Path.{◌≡◌, refl}
use mathlib.Core.List.{List, [], ◌∷◌, ◌++◌}
use native.Mathlib.Omega.{arith}
use native.Mathlib.Nat.{pow-suc}
use presidium.Base.Tests.{ltb, if◌then◌else◌}
use presidium.Base.Lists.{length, length-append}

abbrev pub u64_mod : ℕ
u64_mod = 18446744073709551616

abbrev pub u32_mod : ℕ
u32_mod = 4294967296

abbrev pub IsU64 : ℕ → Type 0
IsU64 n = n < u64_mod

abbrev pub IsU32 : ℕ → Type 0
IsU32 n = n < u32_mod

-- `n + 1` on a u64.
unfoldable pub wrapping_suc : ℕ → ℕ
wrapping_suc n = (n + 1) % u64_mod

-- `n - 1` on a u64.
unfoldable pub wrapping_pred : ℕ → ℕ
wrapping_pred n = (n + (u64_mod - 1)) % u64_mod

-- `n.saturating_add(1)` on a u64.
unfoldable pub saturating_suc : ℕ → ℕ
saturating_suc n = if ltb n (u64_mod - 1) then n + 1 else u64_mod - 1

-- The `k` low bytes of a number, the least significant first.
unfoldable pub to_le : ℕ → ℕ → List ℕ
to_le zero n = []
to_le (suc k) n = (n % 256) ∷ to_le k (n / 256)

unfoldable pub from_le : List ℕ → ℕ
from_le [] = 0
from_le (b ∷ bs) = b + 256 * from_le bs

-- The same, the most significant first.
unfoldable pub to_be : ℕ → ℕ → List ℕ
to_be zero n = []
to_be (suc k) n = to_be k (n / 256) ++ (n % 256) ∷ []

pub length-to_le : (k n : ℕ) → length (to_le k n) ≡ k
unfolding to_le
length-to_le zero n = refl
length-to_le (suc k) n = omega (arith, length-to_le k (n / 256))

pub length-to_be : (k n : ℕ) → length (to_be k n) ≡ k
unfolding to_be
length-to_be zero n = refl
length-to_be (suc k) n =
    omega (arith, length-append (to_be k (n / 256)) ((n % 256) ∷ []), length-to_be k (n / 256))

-- Reading back what was written.
pub from_le-to_le : (k n : ℕ) → n < 256 ^ k → from_le (to_le k n) ≡ n
unfolding to_le from_le
from_le-to_le zero n h = omega arith
from_le-to_le (suc k) n h =
    let bound : 256 ^ suc k ≡ 256 ^ k * 256 = pow-suc 256 k in
    omega (arith, from_le-to_le k (n / 256) (omega arith))

pub from_be_acc : ℕ → List ℕ → ℕ
from_be_acc acc [] = acc
from_be_acc acc (b ∷ bs) = from_be_acc (256 * acc + b) bs

unfoldable pub from_be : List ℕ → ℕ
unfolding from_be_acc
from_be bs = from_be_acc 0 bs

from_be_acc-append :
    (acc : ℕ) (xs : List ℕ) (b : ℕ) → from_be_acc acc (xs ++ b ∷ []) ≡ 256 * from_be_acc acc xs + b
unfolding from_be_acc
from_be_acc-append acc [] b = refl
from_be_acc-append acc (x ∷ xs) b = from_be_acc-append (256 * acc + x) xs b

pub from_be-to_be : (k n : ℕ) → n < 256 ^ k → from_be (to_be k n) ≡ n
unfolding to_be from_be
from_be-to_be zero n h = omega arith
from_be-to_be (suc k) n h =
    let bound : 256 ^ suc k ≡ 256 ^ k * 256 = pow-suc 256 k in
    omega (
      arith,
      from_be_acc-append 0 (to_be k (n / 256)) (n % 256),
      from_be-to_be k (n / 256) (omega arith),
    )
