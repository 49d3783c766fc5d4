-- ===== src/CppBarrier.antt =====
-- cpp/include/zeroipc/barrier.h: the barrier of C++ on the header of barrier.c, one shared access at a
-- time.
pub mod Same
pub mod Create
use zeroipc.Base.{ℕ, ◌+◌, Bool, true, false, ◌&&◌, ◌==◌, if◌then◌else◌, u32, pos, ◌+ℤ◌, ◌-ℤ◌, eq_ℤ}
use zeroipc.Barrier.{Barrier}

-- Where a thread stands in `wait` or (`timed`) `wait_for`, before one access to shared memory. The last
-- two are the returns: of `wait` or with true, and with false.
pub data CppBarrierPc : Type 0 where
  cpp_idle : CppBarrierPc
  cpp_load_generation : (timed : Bool) → CppBarrierPc
  cpp_arrive : (timed : Bool) (my_generation : ℕ) → CppBarrierPc
  cpp_reset_arrived : CppBarrierPc
  cpp_release : CppBarrierPc
  cpp_spin : (timed : Bool) (my_generation : ℕ) → CppBarrierPc
  cpp_take_back : CppBarrierPc
  cpp_passed : CppBarrierPc
  cpp_timed_out : CppBarrierPc

-- One access. `late` says that the clock is past the deadline.
unfoldable pub cpp_barrier_step : Bool → Barrier → CppBarrierPc → Barrier × CppBarrierPc
cpp_barrier_step late b (cpp_load_generation timed) = (b, cpp_arrive timed b.generation)
cpp_barrier_step late b (cpp_arrive timed my) =
    let arrived = b.arrived +ℤ pos 1 in
    (
      record b { arrived = arrived },
      if eq_ℤ arrived b.num_participants then cpp_reset_arrived else cpp_spin timed my,
    )
cpp_barrier_step late b cpp_reset_arrived = (record b { arrived = pos 0 }, cpp_release)
cpp_barrier_step late b cpp_release = (record b { generation = u32 (b.generation + 1) }, cpp_passed)
cpp_barrier_step late b (cpp_spin false my) =
    (b, if b.generation == my then cpp_spin false my else cpp_passed)
cpp_barrier_step late b (cpp_spin true my) = (
  b,
  if b.generation == my then (if late then cpp_take_back else cpp_spin true my) else cpp_passed,
)
cpp_barrier_step late b cpp_take_back = (record b { arrived = b.arrived -ℤ pos 1 }, cpp_timed_out)
cpp_barrier_step late b p = (b, p)
