-- ===== src/Barrier/Rounds.antt =====
-- The rounds of a barrier whose participants give no timeout: the invariant, and that it holds.
pub mod Moves
pub mod Sync
use zeroipc.Base.{ℕ, ◌+◌, ◌-◌, ◌≤◌, ◌<◌, ◌≡◌, ◌≢◌, ◌⊎◌, Bool, true, false, u32, ℤ, pos, total}
use zeroipc.Barrier.{
  Barrier, Pc, idle, load_generation, arrive, reset, release, spin, leave, passed, timed_out,
}

-- The last to arrive, until it lets the others go.
abbrev pub is_last : Pc → Bool
is_last reset = true
is_last release = true
is_last p = false

-- What a participant at a place knows: how often it has arrived, against the round, and whether its
-- copy of the generation is the current one.
abbrev pub Place : ℕ → ℕ → Pc → Type 0
Place round arrivals idle = arrivals ≡ round
Place round arrivals (load_generation timed) = (timed ≡ false) × (arrivals ≡ round)
Place round arrivals (arrive timed my) = (timed ≡ false) × (arrivals ≡ round) × (my ≡ u32 round)
Place round arrivals reset = arrivals ≡ round + 1
Place round arrivals release = arrivals ≡ round + 1
Place round arrivals (spin timed my) =
    (timed ≡ false)
    × (((arrivals ≡ round + 1) × (my ≡ u32 round)) ⊎ ((arrivals ≡ round) × (my ≢ u32 round)))
Place round arrivals leave = ⊥
Place round arrivals passed = arrivals ≡ round
Place round arrivals timed_out = ⊥

-- How many participants have arrived in the round.
abbrev pub present : ℕ → (ℕ → ℕ) → ℕ → ℕ
present n arrivals round = total n (λ i. arrivals i - round)

pub record Inv (n : ℕ) (b : Barrier) (pc : ℕ → Pc) (arrivals : ℕ → ℕ) (round : ℕ) : Type 0 where
  pub nonzero : 0 < n
  pub num_eq : b.num_participants ≡ pos n
  pub generation_eq : b.generation ≡ u32 round
  pub place : (i : ℕ) → i < n → Place round (arrivals i) (pc i)
  pub counted : present n arrivals round < n → b.arrived ≡ pos (present n arrivals round)
  pub last : (i : ℕ) → i < n → is_last (pc i) ≡ true → present n arrivals round ≡ n
  pub one_last : (i j : ℕ) → i < n → j < n → is_last (pc i) ≡ true → is_last (pc j) ≡ true → i ≡ j
  pub some_last : present n arrivals round ≡ n → (i : ℕ) × (i < n) × (is_last (pc i) ≡ true)
  pub cleared : (i : ℕ) → i < n → pc i ≡ release → b.arrived ≡ pos 0
