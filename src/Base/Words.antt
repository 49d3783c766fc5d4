-- ===== src/Base/Words.antt =====
-- Machine words: unsigned arithmetic with its wrap-around written out.
use Prim.Native.Nat.{ℕ, ◌+◌, ◌-◌, ◌*◌, ◌/◌, ◌%◌, ◌^◌, ◌≤◌}
use native.Mathlib.Omega.{arith}

abbrev pub u32 : ℕ → ℕ
u32 n = n % 2 ^ 32

-- `uint64_t` and `size_t`
abbrev pub u64 : ℕ → ℕ
u64 n = n % 2 ^ 64

-- `a - b` on `uint32_t`; both are below 2 ^ 32.
abbrev pub sub32 : ℕ → ℕ → ℕ
sub32 a b = (a + 2 ^ 32 - b) % 2 ^ 32

-- What a check by division says of the product.
pub mul_div-le : (n a e : ℕ) → n ≤ a / e → n * e ≤ a
mul_div-le n a e h = grind arith

pub mul-le : (a b c d : ℕ) → a ≤ b → c ≤ d → a * c ≤ b * d
mul-le a b c d h k = grind arith
