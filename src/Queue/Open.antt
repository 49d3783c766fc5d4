-- ===== src/Queue/Open.antt =====
-- c/src/queue.c: the capacities that zeroipc_queue_open accepts.
use zeroipc.Base.{
  ℕ, zero, suc, ◌+◌, ◌-◌, ◌*◌, ◌/◌, ◌%◌, ◌^◌, ◌<◌, ◌≡◌, ◌↔◌, Bool, true, not, ◌==◌, refl, arith, ap,
  if◌then◌else◌, false, ◌||◌, ℕ_discrete,
}
use zeroipc.Queue.Create.{pow_suc, pow_pos}

-- `a & b` on numbers of `n` bits.
unfoldable pub bit_and : ℕ → ℕ → ℕ → ℕ
bit_and zero a b = 0
bit_and (suc n) a b = (a % 2) * (b % 2) + 2 * bit_and n (a / 2) (b / 2)

-- The checks of zeroipc_queue_open on the header of the region that it has found.
unfoldable pub accepts : ℕ → ℕ → Bool
accepts capacity elem_size =
    if capacity == 0 || elem_size == 0
    then false
    else if not (bit_and 32 capacity (capacity - 1) == 0)
    then false
    else true

bit_and_self : (n a : ℕ) → a < 2 ^ n → bit_and n a a ≡ a
unfolding bit_and
bit_and_self zero a lt = omega arith
bit_and_self (suc n) a lt = elim (ℕ_discrete (a % 2) 0) [
  | yes even ↦ grind (arith, bit_and_self n (a / 2), pow_suc n)
  | no odd ↦
      let one : a % 2 ≡ 1 = omega arith in
      rw (one, bit_and_self n (a / 2) (omega (arith, pow_suc n))) (omega arith)
]

-- A positive number that has no bit in common with its predecessor is a power of two.
pow_of_bit_and :
    (n c : ℕ) → 0 < c → c < 2 ^ n → bit_and n c (c - 1) ≡ 0 → (j : ℕ) × (j < n) × (c ≡ 2 ^ j)
unfolding bit_and
pow_of_bit_and zero c pos lt e = absurd (omega arith)
pow_of_bit_and (suc n) c pos lt e = elim (ℕ_discrete (c % 2) 0) [
  | yes even ↦
      let (j, j_lt, half) =
        pow_of_bit_and n (c / 2) (omega arith) (omega (arith, pow_suc n)) (halved even) in
      (suc j, omega arith, omega (arith, pow_suc j))
  | no odd ↦ (0, omega arith, alone odd)
]
  where
    halved : c % 2 ≡ 0 → bit_and n (c / 2) (c / 2 - 1) ≡ 0
    halved even = let pred : (c - 1) / 2 ≡ c / 2 - 1 = omega arith in rw⁻¹ pred (omega (arith, e))

    alone : ¬ (c % 2 ≡ 0) → c ≡ 2 ^ 0
    alone odd =
        let pred : (c - 1) / 2 ≡ c / 2 = omega arith in
        let same : bit_and n (c / 2) (c / 2) ≡ c / 2 =
          bit_and_self n (c / 2) (omega (arith, pow_suc n)) in
        omega (arith, e, ap (bit_and n (c / 2)) pred, same)

-- Every power of two below 2 ^ n has no bit in common with its predecessor.
pub bit_and_pow : (n j : ℕ) → j < n → bit_and n (2 ^ j) (2 ^ j - 1) ≡ 0
unfolding bit_and
bit_and_pow zero j lt = absurd (omega arith)
bit_and_pow (suc n) zero lt = bit_and_zero n
  where
    bit_and_zero : (n : ℕ) → 1 * 0 + 2 * bit_and n 0 0 ≡ 0
    bit_and_zero zero = refl
    bit_and_zero (suc n) = omega (arith, bit_and_zero n)
bit_and_pow (suc n) (suc j) lt =
    let half : 2 ^ suc j / 2 ≡ 2 ^ j = omega (arith, pow_suc j) in
    let pred : (2 ^ suc j - 1) / 2 ≡ 2 ^ j - 1 = omega (arith, pow_suc j, pow_pos j) in
    let even : 2 ^ suc j % 2 ≡ 0 = omega (arith, pow_suc j) in
    rw (half, pred, even) (omega (arith, bit_and_pow n j (omega arith)))

-- zeroipc_queue_open accepts a 32-bit capacity and an element size exactly when the element size is
-- not 0 and the capacity is a power of two.
pub accepts_iff :
    (capacity elem_size : ℕ)
    → capacity < 2 ^ 32
    → (accepts capacity elem_size ≡ true)
      ↔ ((0 < elem_size) × (j : ℕ) × (j < 32) × (capacity ≡ 2 ^ j))
unfolding accepts
accepts_iff capacity elem_size lt = (forth, back)
  where
    forth :
        accepts capacity elem_size ≡ true
        → (0 < elem_size) × (j : ℕ) × (j < 32) × (capacity ≡ 2 ^ j)
    forth e =
        let (j, j_lt, power) = pow_of_bit_and 32 capacity (ground arith) lt (ground arith) in
        (ground arith, j, j_lt, power)

    back :
        (0 < elem_size) × (j : ℕ) × (j < 32) × (capacity ≡ 2 ^ j)
        → accepts capacity elem_size ≡ true
    back (pos, j, j_lt, e) =
        let apart : bit_and 32 capacity (capacity - 1) ≡ 0 = rw e (bit_and_pow 32 j j_lt) in
        let filled : 0 < capacity = rw e (pow_pos j) in ground (arith, apart)
