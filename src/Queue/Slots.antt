-- ===== src/Queue/Slots.antt =====
-- Which counters share a slot, and what the sign of a difference says of two counters.
use zeroipc.Base.{
  offset, sharing, offset_inj, true, ◌⊎◌, inl, inr, Bool-cases, ℕ, ◌+◌, ◌*◌, ◌^◌, ◌≤◌, ◌<◌, ◌≡◌,
  ◌≢◌, arith, dec_lt, zero, suc, ◌∙◌, u32,
}
use native.Mathlib.Nat.{mod-mod_of_dvd, dvd-mul_right}
use zeroipc.Queue.{slot, sign_of_diff, Sign, negative}

-- Counters less than `cap` apart have different slots.
pub slot_inj : (cap a b : ℕ) → a ≤ b → b < a + cap → slot cap a ≡ slot cap b → a ≡ b
unfolding slot
slot_inj cap a b le lt e = grind arith

-- One round further on the slot is the same.
pub slot_round : (cap a : ℕ) → slot cap (a + cap) ≡ slot cap a
unfolding slot
slot_round cap a = grind arith

pub slot-lt : (cap a : ℕ) → 0 < cap → slot cap a < cap
unfolding slot
slot-lt cap a h = omega arith

pub sign_of_diff-zero : (a b : ℕ) → a < 2 ^ 32 → b < 2 ^ 32 → sign_of_diff a b ≡ Sign.zero → a ≡ b
unfolding sign_of_diff
sign_of_diff-zero a b ha hb h = ground arith

pub sign_of_diff_self : (a : ℕ) → a < 2 ^ 32 → sign_of_diff a a ≡ Sign.zero
unfolding sign_of_diff
sign_of_diff_self a h = ground arith

slot-slot : (cap t : ℕ) → 0 < cap → slot cap (slot cap t) ≡ slot cap t
unfolding slot
slot-slot cap t pos = grind arith

-- Of any `cap` counters in a row one has a given slot.
pub slot_at :
    (cap h t : ℕ) → 0 < cap → (u : ℕ) × (h ≤ u) × (u < h + cap) × (slot cap u ≡ slot cap t)
slot_at cap zero t pos =
    (slot cap t, omega arith, omega (arith, slot-lt cap t pos), slot-slot cap t pos)
slot_at cap (suc h) t pos =
    let (u, le, lt, e) = slot_at cap h t pos in
    elim (dec_lt h u) [
      | yes above ↦ (u, omega arith, omega arith, e)
      | no last ↦ (u + cap, omega arith, omega arith, slot_round cap u ∙ e)
    ]

pub sign_of_diff_ahead :
    (a b : ℕ) → b ≤ a → a < b + 2 ^ 31 → a < 2 ^ 32 → sign_of_diff a b ≢ negative
unfolding sign_of_diff
sign_of_diff_ahead a b le lt ha h = ground arith

-- The slot survives the wrap of the counter, where the capacity divides 2 ^ 32.
pub slot-u32 : (cap k t : ℕ) → cap * k ≡ 2 ^ 32 → slot cap (u32 t) ≡ slot cap t
unfolding slot
slot-u32 cap k t e = mod-mod_of_dvd _ t (rw e at (dvd-mul_right cap k))

pub sign_of_diff-behind :
    (a b : ℕ) → a < b → b ≤ a + 2 ^ 31 → sign_of_diff (u32 a) (u32 b) ≡ negative
unfolding sign_of_diff
sign_of_diff-behind a b lt le = ground arith

-- Two slots with one offset are one, unless elements share bytes.
pub apart :
    (cap elem_size t u : ℕ)
    → 0 < cap
    → offset elem_size (slot cap t) ≡ offset elem_size (slot cap u)
    → (sharing cap elem_size ≡ true) ⊎ (slot cap t ≡ slot cap u)
apart cap elem_size t u pos e = elim (Bool-cases (sharing cap elem_size)) [
  | inl shared ↦ inl shared
  | inr own ↦ inr (
      offset_inj cap elem_size (slot cap t) (slot cap u) own (slot-lt cap t pos) (slot-lt cap u pos)
        e)
]
