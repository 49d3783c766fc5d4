-- ===== src/CppLatch.antt =====
-- cpp/include/zeroipc/latch.h: the latch of C++ on the header of latch.c, one shared access at a time.
pub mod Same
pub mod Create
use zeroipc.Base.{
  ℕ, ◌-◌, ◌*◌, Bool, not, ◌&&◌, ltb, leb, ◌==◌, if◌then◌else◌, ℤ, pos, negsuc, leb_ℤ,
}
use zeroipc.Latch.{Latch}

-- Where a thread stands in a call, before one access to shared memory. The last five are the returns, and
-- the exception of `count_down`.
pub data CppLatchPc : Type 0 where
  cpp_idle : CppLatchPc
  cpp_down_load : (n : ℕ) → CppLatchPc
  cpp_down_claim : (n current : ℕ) → CppLatchPc
  cpp_wait_load : (backoff_us : ℕ) → CppLatchPc
  cpp_timed_load : (backoff_us : ℕ) → CppLatchPc
  cpp_try_load : CppLatchPc
  cpp_counted : CppLatchPc
  cpp_waited : CppLatchPc
  cpp_timed_out : CppLatchPc
  cpp_tried : Bool → CppLatchPc
  cpp_refused : CppLatchPc

-- The entry of `count_down`.
unfoldable pub cpp_enter_count_down : ℤ → CppLatchPc
cpp_enter_count_down (pos n) = if n == 0 then cpp_refused else cpp_down_load n
cpp_enter_count_down (negsuc k) = cpp_refused

-- The head of the loop of `count_down`.
unfoldable pub cpp_down_loop : ℕ → ℕ → CppLatchPc
cpp_down_loop n current = if ltb 0 current then cpp_down_claim n current else cpp_counted

-- The backoff of detail/spin_wait.h.
unfoldable pub cpp_backoff : ℕ → ℕ
cpp_backoff backoff_us = if ltb backoff_us 1000 then backoff_us * 2 else backoff_us

-- One access. `lost` says that a weak compare-exchange fails without a reason, `late` that the clock
-- is past the deadline.
unfoldable pub cpp_latch_step : Bool → Bool → Latch → CppLatchPc → Latch × CppLatchPc
unfolding cpp_down_loop cpp_backoff
cpp_latch_step lost late l (cpp_down_load n) = (l, cpp_down_loop n l.count)
cpp_latch_step lost late l (cpp_down_claim n current) =
    if not lost && l.count == current
    then (record l { count = if leb n current then current - n else 0 }, cpp_counted)
    else (l, cpp_down_loop n l.count)
cpp_latch_step lost late l (cpp_wait_load b) =
    (l, if leb l.count 0 then cpp_waited else cpp_wait_load (cpp_backoff b))
cpp_latch_step lost late l (cpp_timed_load b) = (
  l,
  if leb l.count 0
      then cpp_waited
      else if late
      then cpp_timed_out
      else cpp_timed_load (cpp_backoff b),
)
cpp_latch_step lost late l cpp_try_load = (l, cpp_tried (l.count == 0))
cpp_latch_step lost late l p = (l, p)

-- `reset`, which must not run beside other calls.
unfoldable pub cpp_reset : Latch → Latch
cpp_reset l = record l { count = l.initial_count }
