-- ===== src/Queue/Create.antt =====
-- c/src/queue.c: the capacity that zeroipc_queue_create gives a queue, and that a new queue is an empty FIFO.
use zeroipc.Base.{
  sharing-false, ℕ, zero, suc, ◌+◌, ◌-◌, ◌*◌, ◌%◌, ◌^◌, ◌≤◌, ◌<◌, ◌≡◌, Option, none, some, refl,
  sym, ◌∙◌, ap, arith, u64, ltb, if◌then◌else◌, [], inl, inr, ◌⊎◌, dec_lt, subst,
}
use native.Mathlib.Nat.{mod-eq_of_lt}
use zeroipc.Queue.{slot}
use zeroipc.Queue.System.{fresh}
use zeroipc.Queue.Alone.Holds.{Holds}

-- `while (cap_p2 < capacity) cap_p2 <<= 1`; `none` if the loop does not end within the fuel.
unfoldable pub round_from : ℕ → ℕ → ℕ → Option ℕ
round_from zero cap_p2 capacity = none
round_from (suc fuel) cap_p2 capacity =
    let rest = round_from fuel (u64 (cap_p2 * 2)) capacity in
    if ltb cap_p2 capacity then rest else some cap_p2

pub pow_suc : (k : ℕ) → 2 ^ k * 2 ≡ 2 ^ suc k
pow_suc k = grind arith

pub pow_pos : (k : ℕ) → 0 < 2 ^ k
pow_pos zero = omega arith
pow_pos (suc k) = omega (arith, pow_pos k, pow_suc k)

pow_add : (j k : ℕ) → 2 ^ (j + k) ≡ 2 ^ j * 2 ^ k
pow_add j zero = grind arith
pow_add j (suc k) = grind (arith, pow_add j k, pow_suc k, pow_suc (j + k))

pub pow_mono : (j k : ℕ) → 2 ^ j ≤ 2 ^ (j + k)
pow_mono j zero = grind arith
pow_mono j (suc k) = grind (arith, pow_mono j k, pow_suc (j + k))

-- From 2 ^ k on, with room for the shifts up to 2 ^ 63.
round_from_pow :
    (n k capacity : ℕ)
    → k + n ≡ 63
    → capacity ≤ 2 ^ 63
    → (k ≡ 0) ⊎ (2 ^ k < 2 * capacity)
    → (j : ℕ) × (j ≤ 63)
      × (round_from (suc n) (2 ^ k) capacity ≡ some (2 ^ j))
      × (capacity ≤ 2 ^ j)
      × ((j ≡ 0) ⊎ (2 ^ j < 2 * capacity))
unfolding round_from
round_from_pow zero k capacity e le low =
    let last : k ≡ 63 = omega arith in
    let at_top : 2 ^ k ≡ 2 ^ 63 = ap (λ t. 2 ^ t) last in
    (k, omega arith, ground arith, omega arith, low)
round_from_pow (suc n) k capacity e le low = elim (dec_lt (2 ^ k) capacity) [
  | yes below ↦
      let (j, j_le, done, fits, tight) =
        round_from_pow n (suc k) capacity (omega arith) le (inr (omega (arith, pow_suc k))) in
      (j, j_le, ground (arith, shifted), fits, tight)
  | no reached ↦ (k, omega arith, ground arith, omega arith, low)
]
  where
    bounded : 2 ^ suc k ≤ 2 ^ 63
    bounded = subst (λ t. 2 ^ suc k ≤ 2 ^ t) (ℕ_eq e) (pow_mono (suc k) n)
      where
        ℕ_eq : k + suc n ≡ 63 → suc k + n ≡ 63
        ℕ_eq h = omega arith

    shifted : u64 (2 ^ k * 2) ≡ 2 ^ suc k
    shifted = omega (arith, pow_suc k, bounded)

-- The rounding loop of zeroipc_queue_create ends for every capacity from 1 to 2 ^ 63, within 64 rounds,
-- with the least power of two that is not smaller.
pub round_from-ends :
    (capacity : ℕ)
    → 0 < capacity
    → capacity ≤ 2 ^ 63
    → (j : ℕ) × (round_from 64 1 capacity ≡ some (2 ^ j))
      × (capacity ≤ 2 ^ j)
      × (2 ^ j < 2 * capacity)
round_from-ends capacity pos le =
    let (j, j_le, done, fits, tight) = round_from_pow 63 0 capacity (omega arith) le (inl refl) in
    (j, done, fits, tight_pow j tight)
  where
    tight_pow : (j : ℕ) → (j ≡ 0) ⊎ (2 ^ j < 2 * capacity) → 2 ^ j < 2 * capacity
    tight_pow j (inl e) = rw e (omega arith)
    tight_pow j (inr lt) = lt

-- From a power of two up to 2 ^ 63, or from 0, the loop never comes to a larger capacity.
round_from-spins :
    (fuel cap_p2 capacity k : ℕ)
    → 2 ^ 63 < capacity
    → (cap_p2 ≡ 0) ⊎ ((cap_p2 ≡ 2 ^ k) × (k ≤ 63))
    → round_from fuel cap_p2 capacity ≡ none
unfolding round_from
round_from-spins zero cap_p2 capacity k lt at = refl
round_from-spins (suc fuel) cap_p2 capacity k lt (inl e) =
    ground (arith, round_from-spins fuel (u64 (cap_p2 * 2)) capacity k lt (inl (omega arith)))
round_from-spins (suc fuel) cap_p2 capacity k lt (inr (e, le)) = elim (dec_lt k 63) [
  | yes below ↦
      let bounded : 2 ^ suc k ≤ 2 ^ 63 =
        subst (λ t. 2 ^ suc k ≤ 2 ^ t) (ℕ_sub below) (pow_mono (suc k) (62 - k)) in
      ground (
        arith,
        pow_suc k,
        round_from-spins fuel (u64 (cap_p2 * 2)) capacity (suc k) lt
            (inr (omega (arith, pow_suc k, bounded), omega arith)),
      )
  | no last ↦
      let at_top : 2 ^ k ≡ 2 ^ 63 = ap (λ t. 2 ^ t) (k_eq last) in
      ground (arith, round_from-spins fuel (u64 (cap_p2 * 2)) capacity k lt (inl (omega arith)))
]
  where
    ℕ_sub : k < 63 → suc k + (62 - k) ≡ 63
    ℕ_sub h = omega arith

    k_eq : ¬ (k < 63) → k ≡ 63
    k_eq h = omega arith

-- For a capacity above 2 ^ 63 the rounding loop of zeroipc_queue_create does not end, however many
-- rounds it makes.
pub round_from-never_ends :
    (capacity fuel : ℕ) → 2 ^ 63 < capacity → round_from fuel 1 capacity ≡ none
round_from-never_ends capacity fuel lt =
    round_from-spins fuel 1 capacity 0 lt (inr (refl, omega arith))

mod_small : (n m : ℕ) → n < m → n % m ≡ n
mod_small n m h = mod-eq_of_lt h

-- A new queue whose capacity is a power of two from 2 to 2 ^ 31 is at rest and holds no element, so
-- that its calls are those of an empty FIFO.
pub fresh-Holds :
    {A : Type 0} (j elem_size : ℕ) (buf log : ℕ → A)
    → 0 < j
    → j ≤ 31
    → 0 < elem_size
    → 2 ^ j * elem_size ≤ 2 ^ 32
    → Holds (fresh (2 ^ j) elem_size buf log).queue 0 []
unfolding fresh slot
fresh-Holds j elem_size buf log pos le item_pos in_words = record {
  two = omega (arith, pow_mono 1 (j - 1), pow_eq);
  small = subst (λ t. 2 ^ j ≤ 2 ^ t) up (pow_mono j (31 - j));
  own_bytes = sharing-false (2 ^ j) elem_size item_pos in_words;
  rounds = 2 ^ (32 - j);
  divides = sym (pow_add j (32 - j)) ∙ ap (λ t. 2 ^ t) all;
  head_eq = refl;
  tail_eq = refl;
  fits = omega arith;
  item = λ k lt. absurd (omega arith);
  free = λ k lo hi.
      mod_small (0 + k) (2 ^ j) (omega arith)
      ∙ sym (mod_small (0 + k) (2 ^ 32) (omega (arith, small_j)));
}
  where
    up : j + (31 - j) ≡ 31
    up = omega arith

    all : j + (32 - j) ≡ 32
    all = omega arith

    pow_eq : 2 ^ (1 + (j - 1)) ≡ 2 ^ j
    pow_eq = ap (λ t. 2 ^ t) (pred_eq pos)
      where
        pred_eq : 0 < j → 1 + (j - 1) ≡ j
        pred_eq h = omega arith

    small_j : 2 ^ j ≤ 2 ^ 31
    small_j = subst (λ t. 2 ^ j ≤ 2 ^ t) up (pow_mono j (31 - j))
