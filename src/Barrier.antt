-- ===== src/Barrier.antt =====
-- c/src/barrier.c: a barrier that a fixed number of participants pass together, again and again.
pub mod System
pub mod Rounds
mod Tests
use zeroipc.Base.{
  ℕ, ◌+◌, Bool, true, ◌&&◌, Option, none, some, ◌==◌, if◌then◌else◌, u32, ℤ, pos, negsuc, ◌+ℤ◌,
  ◌-ℤ◌, eq_ℤ, ltb_ℤ,
}

-- `barrier_header_t`, without its padding. `generation` is the bit pattern of its int32_t.
pub record Barrier : Type 0 where
  pub arrived : ℤ
  pub generation : ℕ
  pub num_participants : ℤ

-- The header that zeroipc_barrier_create writes, if it does not refuse the number.
unfoldable pub init : ℤ → Option Barrier
init (pos num) =
    if num == 0
    then none
    else some (record { arrived = pos 0; generation = 0; num_participants = pos num })
init (negsuc k) = none

-- Where a thread stands in zeroipc_barrier_wait or (`timed`) zeroipc_barrier_wait_timeout, before one
-- access to shared memory. `my` is `my_generation`.
pub data Pc : Type 0 where
  idle : Pc
  load_generation : (timed : Bool) → Pc
  arrive : (timed : Bool) (my : ℕ) → Pc
  reset : Pc  -- the last to arrive, before it stores 0
  release : Pc  -- the last to arrive, before it increments the generation
  spin : (timed : Bool) (my : ℕ) → Pc
  leave : Pc  -- timed out, before it takes its arrival back
  passed : Pc
  timed_out : Pc

-- The call of zeroipc_barrier_wait_timeout refuses a negative timeout.
unfoldable pub enter_wait_timeout : ℤ → Pc
enter_wait_timeout timeout = if ltb_ℤ timeout (pos 0) then timed_out else load_generation true

-- One access. `late` says that the clock is past the timeout.
unfoldable pub step : Bool → Barrier → Pc → Barrier × Pc
step late b idle = (b, idle)
step late b (load_generation timed) = (b, arrive timed b.generation)
step late b (arrive timed my) = (
  record b { arrived = b.arrived +ℤ pos 1 },
  if eq_ℤ (b.arrived +ℤ pos 1) b.num_participants then reset else spin timed my,
)
step late b reset = (record b { arrived = pos 0 }, release)
step late b release = (record b { generation = u32 (b.generation + 1) }, passed)
step late b (spin timed my) =
    (b, if b.generation == my then (if timed && late then leave else spin timed my) else passed)
step late b leave = (record b { arrived = b.arrived -ℤ pos 1 }, timed_out)
step late b passed = (b, passed)
step late b timed_out = (b, timed_out)
