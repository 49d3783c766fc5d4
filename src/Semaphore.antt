-- ===== src/Semaphore.antt =====
-- cpp/include/zeroipc/semaphore.h: the semaphore, one shared access at a time. mutex.h is a semaphore
-- with initial and maximal count 1.
pub mod System
pub mod Lock
pub mod Permits
mod Tests
use zeroipc.Base.{
  ◌-◌, ◌^◌, ℕ, ◌+◌, Bool, true, false, not, ◌&&◌, ◌||◌, if◌then◌else◌, ℤ, pos, negsuc, ◌+ℤ◌, ◌-ℤ◌,
  leb_ℤ, ltb_ℤ, eq_ℤ,
}

-- `Semaphore::Header`, without its padding.
pub record Semaphore : Type 0 where
  pub count : ℤ
  pub waiting : ℤ
  pub max_count : ℤ

-- What the constructor does with its counts: the header that it writes, or std::invalid_argument.
pub data Made : Type 0 where
  made : Semaphore → Made
  invalid_argument : Made

unfoldable pub make : ℤ → ℤ → Made
make initial_count max_count =
    if ltb_ℤ initial_count (pos 0)
    then invalid_argument
    else if ltb_ℤ max_count (pos 0)
    then invalid_argument
    else if ltb_ℤ (pos 0) max_count && ltb_ℤ max_count initial_count
    then invalid_argument
    else made (record { count = initial_count; waiting = pos 0; max_count = max_count })

-- Where a thread stands in acquire, acquire_for (`timed`), try_acquire or release, before one access
-- to shared memory. A thread stays at `acquired` until it releases.
pub data Pc : Type 0 where
  idle : Pc
  acquire_enter : (timed : Bool) → Pc
  acquire_load : (timed : Bool) → Pc
  acquire_claim : (timed : Bool) (current : ℤ) → Pc
  acquire_leave : (success : Bool) → Pc
  try_load : Pc
  try_claim : (current : ℤ) → Pc
  release_load : Pc
  release_claim : (current : ℤ) → Pc
  acquired : Pc
  refused : Pc
  released : Pc
  overflow_error : Pc

-- After an attempt that failed: `late` says that the clock is past the deadline.
unfoldable pub acquire_again : Bool → Bool → Pc
acquire_again timed late = if timed && late then acquire_leave false else acquire_load timed

-- The head of the loop of try_acquire.
unfoldable pub try_loop : ℤ → Pc
try_loop current = if ltb_ℤ (pos 0) current then try_claim current else refused

-- `current + 1` on int32_t, in two's complement.
unfoldable pub next_count : ℤ → ℤ
next_count current =
    if eq_ℤ current (pos (2 ^ 31 - 1)) then negsuc (2 ^ 31 - 1) else current +ℤ pos 1

-- One access. `lost` says that a weak compare-exchange fails without a reason.
unfoldable pub step : Bool → Bool → Semaphore → Pc → Semaphore × Pc
unfolding acquire_again try_loop next_count
step lost late s (acquire_enter timed) =
    (record s { waiting = s.waiting +ℤ pos 1 }, acquire_load timed)
step lost late s (acquire_load timed) =
    (s, if ltb_ℤ (pos 0) s.count then acquire_claim timed s.count else acquire_again timed late)
step lost late s (acquire_claim timed current) =
    if not lost && eq_ℤ s.count current
    then (record s { count = current -ℤ pos 1 }, acquire_leave true)
    else (s, acquire_again timed late)
step lost late s (acquire_leave success) =
    (record s { waiting = s.waiting -ℤ pos 1 }, if success then acquired else refused)
step lost late s try_load = (s, try_loop s.count)
step lost late s (try_claim current) =
    if not lost && eq_ℤ s.count current
    then (record s { count = current -ℤ pos 1 }, acquired)
    else (s, try_loop s.count)
step lost late s release_load = (
  s,
  if ltb_ℤ (pos 0) s.max_count && leb_ℤ s.max_count s.count
      then overflow_error
      else release_claim s.count,
)
step lost late s (release_claim current) =
    if not lost && eq_ℤ s.count current
    then (record s { count = next_count current }, released)
    else (s, release_load)
step lost late s p = (s, p)
