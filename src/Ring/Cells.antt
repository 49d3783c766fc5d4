-- ===== src/Ring/Cells.antt =====
-- The cells of the buffer that positions of the stream stand for, and what memcpy does to them.
use zeroipc.Base.{ℕ, ◌+◌, ◌-◌, ◌%◌, ◌≤◌, ◌<◌, ◌≡◌, ◌⊎◌, inl, inr, arith}
use zeroipc.Ring.{fill}

pub fill_in :
    {A : Type 0} (f g : ℕ → A) (a n j : ℕ) → a ≤ j → j < a + n → fill f a g n j ≡ g (j - a)
unfolding fill
fill_in f g a n j lo hi = ground arith

pub fill_out : {A : Type 0} (f g : ℕ → A) (a n j : ℕ) → (j < a) ⊎ (a + n ≤ j) → fill f a g n j ≡ f j
unfolding fill
fill_out f g a n j (inl h) = ground arith
fill_out f g a n j (inr h) = ground arith

-- Positions less than the capacity apart have different cells.
pub cell_inj : (cap a b : ℕ) → a ≤ b → b < a + cap → a % cap ≡ b % cap → a ≡ b
cell_inj cap a b le lt e = grind arith

-- Before the end of the buffer, and behind it.
pub cell_near : (cap w j : ℕ) → 0 < cap → w % cap + j < cap → (w + j) % cap ≡ w % cap + j
cell_near cap w j pos h = grind arith

pub cell_far :
    (cap w j : ℕ) → 0 < cap → cap ≤ w % cap + j → j < cap → (w + j) % cap ≡ w % cap + j - cap
cell_far cap w j pos h lt = grind arith

pub cell-lt : (cap w : ℕ) → 0 < cap → w % cap < cap
cell-lt cap w pos = omega arith

pub cell_wrap : (cap w : ℕ) → 0 < cap → (w + (cap - w % cap)) % cap ≡ 0
cell_wrap cap w pos = grind arith
