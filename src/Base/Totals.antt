-- ===== src/Base/Totals.antt =====
-- Sums over the first `n` members of a family.
use Prim.Native.Nat.{ℕ, zero, suc, ◌+◌, ◌≤◌, ◌<◌}
use mathlib.Core.Path.{◌≡◌, refl}
use mathlib.Core.Bool.{false}
use native.Mathlib.Decide.{dec_lt, ℕ_discrete}
use native.Mathlib.Omega.{arith}
use zeroipc.Base.Tests.{◌==◌}

pub total : ℕ → (ℕ → ℕ) → ℕ
total zero f = 0
total (suc n) f = total n f + f n

pub total-ext : (n : ℕ) (f g : ℕ → ℕ) → ((i : ℕ) → i < n → f i ≡ g i) → total n f ≡ total n g
unfolding total
total-ext zero f g h = refl
total-ext (suc n) f g h =
    omega (arith, h n (omega arith), total-ext n f g (λ i lt. h i (omega arith)))

-- One member changes.
pub total_change :
    (n : ℕ) (f g : ℕ → ℕ) (i : ℕ)
    → i < n
    → ((j : ℕ) → (i == j) ≡ false → f j ≡ g j)
    → total n f + g i ≡ total n g + f i
unfolding total
total_change zero f g i lt h = absurd (omega arith)
total_change (suc n) f g i lt h = elim (dec_lt i n) [
  | yes below ↦ ground (arith, total_change n f g i below h, h n)
  | no last ↦ ground (arith, total-ext n f g (λ j q. h j (ground arith)))
]

pub total-le : (n : ℕ) (f : ℕ → ℕ) → ((i : ℕ) → i < n → f i ≤ 1) → total n f ≤ n
unfolding total
total-le zero f h = omega arith
total-le (suc n) f h = omega (arith, h n (omega arith), total-le n f (λ i lt. h i (omega arith)))

-- A sum that reaches its bound has every member at its bound.
pub total_full :
    (n : ℕ) (f : ℕ → ℕ) → ((i : ℕ) → i < n → f i ≤ 1) → total n f ≡ n → (i : ℕ) → i < n → f i ≡ 1
unfolding total
total_full zero f h e i lt = absurd (omega arith)
total_full (suc n) f h e i lt = elim (dec_lt i n) [
  | yes below ↦
      total_full n f (λ j q. h j (omega arith))
        (omega (arith, h n (omega arith), total-le n f (λ j q. h j (omega arith)))) i below
  | no last ↦
      let here : n ≡ i = omega arith in
      rw (← here) (omega (arith, h n (omega arith), total-le n f (λ j q. h j (omega arith))))
]

pub total-zero : (n : ℕ) (f : ℕ → ℕ) → ((i : ℕ) → i < n → f i ≡ 0) → total n f ≡ 0
unfolding total
total-zero zero f h = refl
total-zero (suc n) f h =
    omega (arith, h n (omega arith), total-zero n f (λ i lt. h i (omega arith)))

-- A sum below its bound has a member at 0.
pub total_missing : (n : ℕ) (f : ℕ → ℕ) → total n f < n → (i : ℕ) × (i < n) × (f i ≡ 0)
unfolding total
total_missing zero f h = absurd (omega arith)
total_missing (suc n) f h = elim (ℕ_discrete (f n) 0) [
  | yes e ↦ (n, omega arith, e)
  | no ne ↦ let (i, lt, e) = total_missing n f (omega arith) in (i, omega arith, e)
]

-- A member is at most the sum.
pub total-member : (n : ℕ) (f : ℕ → ℕ) (i : ℕ) → i < n → f i ≤ total n f
unfolding total
total-member zero f i lt = absurd (omega arith)
total-member (suc n) f i lt = elim (dec_lt i n) [
  | yes below ↦ omega (arith, total-member n f i below)
  | no last ↦ let same : i ≡ n = omega arith in rw same (omega arith)
]
