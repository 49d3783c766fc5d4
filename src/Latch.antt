-- ===== src/Latch.antt =====
-- c/src/latch.c: a latch that counts down to zero, once.
pub mod System
pub mod Countdown
mod Tests
use zeroipc.Base.{
  ℕ, ◌+◌, ◌-◌, ◌*◌, Bool, true, false, not, ◌&&◌, Option, none, some, ltb, leb, ◌==◌, if◌then◌else◌,
  ℤ, pos, negsuc, leb_ℤ, ltb_ℤ,
}

-- `latch_header_t`, without its padding. zeroipc_latch_create takes no negative count, and nothing else
-- makes one.
pub record Latch : Type 0 where
  pub count : ℕ
  pub initial_count : ℕ

-- The header that zeroipc_latch_create writes, if it does not refuse the count.
unfoldable pub init : ℤ → Option Latch
init (pos count) = some (record { count = count; initial_count = count })
init (negsuc k) = none

-- `(current >= n) ? (current - n) : 0`
unfoldable pub new_count : ℕ → ℕ → ℕ
new_count current n = if leb n current then current - n else 0

-- `if (backoff_us < max_backoff_us) backoff_us *= 2`
unfoldable pub next_backoff : ℕ → ℕ
next_backoff backoff = if ltb backoff 1000 then backoff * 2 else backoff

-- Where a thread stands in a call, before one access to shared memory; the last four are returns.
-- The argument of zeroipc_latch_count_down is positive from `down_load` on.
pub data Pc : Type 0 where
  idle : Pc
  down_load : (n : ℕ) → Pc
  down_claim : (n current : ℕ) → Pc
  wait_load : (backoff : ℕ) → Pc
  timed_load : (backoff : ℕ) → Pc
  try_load : Pc
  counted : Pc
  waited : Pc
  timed_out : Pc
  tried : Bool → Pc

-- The head of the loop of zeroipc_latch_count_down.
unfoldable pub down_loop : ℕ → ℕ → Pc
down_loop n current = if ltb 0 current then down_claim n current else counted

-- The entries of the calls. A negative timeout is refused.
unfoldable pub enter_count_down : ℤ → Pc
enter_count_down n = if leb_ℤ n (pos 0) then counted else enter n
  where
    enter : ℤ → Pc
    enter (pos k) = down_load k
    enter (negsuc k) = counted

unfoldable pub enter_wait_timeout : ℤ → Pc
enter_wait_timeout timeout = if ltb_ℤ timeout (pos 0) then timed_out else timed_load 1

-- One access. `lost` says that a weak compare-exchange fails without a reason, `late` that the clock
-- is past the timeout.
unfoldable pub step : Bool → Bool → Latch → Pc → Latch × Pc
unfolding down_loop new_count next_backoff
step lost late l idle = (l, idle)
step lost late l (down_load n) = (l, down_loop n l.count)
step lost late l (down_claim n current) =
    if not lost && l.count == current
    then (record l { count = new_count current n }, counted)
    else (l, down_loop n l.count)
step lost late l (wait_load b) = (l, if ltb 0 l.count then wait_load (next_backoff b) else waited)
step lost late l (timed_load b) =
    (l, if ltb 0 l.count then (if late then timed_out else timed_load (next_backoff b)) else waited)
step lost late l try_load = (l, tried (l.count == 0))
step lost late l counted = (l, counted)
step lost late l waited = (l, waited)
step lost late l timed_out = (l, timed_out)
step lost late l (tried b) = (l, tried b)
