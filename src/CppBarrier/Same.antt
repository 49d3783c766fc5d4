-- ===== src/CppBarrier/Same.antt =====
-- The barrier of C++ does what barrier.c does, so that processes of both can share one barrier.
use zeroipc.Base.{◌≡◌, Bool, true, false, arith, refl}
use zeroipc.Barrier.{
  Barrier, Pc, step, idle, load_generation, arrive, reset, release, spin, leave, passed, timed_out,
}
use zeroipc.CppBarrier.{
  CppBarrierPc, cpp_barrier_step, cpp_idle, cpp_load_generation, cpp_arrive, cpp_reset_arrived,
  cpp_release, cpp_spin, cpp_take_back, cpp_passed, cpp_timed_out,
}

-- The place of the C++ functions that corresponds to a place in barrier.c.
abbrev pub cpp_of_barrier : Pc → CppBarrierPc
cpp_of_barrier idle = cpp_idle
cpp_of_barrier (load_generation timed) = cpp_load_generation timed
cpp_of_barrier (arrive timed my) = cpp_arrive timed my
cpp_of_barrier reset = cpp_reset_arrived
cpp_of_barrier release = cpp_release
cpp_of_barrier (spin timed my) = cpp_spin timed my
cpp_of_barrier leave = cpp_take_back
cpp_of_barrier passed = cpp_passed
cpp_of_barrier timed_out = cpp_timed_out

-- Each access of `wait` or `wait_for` of barrier.h does to a barrier what the corresponding access of
-- barrier.c does, and goes on at the corresponding place.
pub cpp_barrier_step-step :
    (late : Bool) (b : Barrier) (p : Pc)
    → cpp_barrier_step late b (cpp_of_barrier p)
      ≡ ((step late b p).0, cpp_of_barrier (step late b p).1)
unfolding cpp_barrier_step step
cpp_barrier_step-step late b idle = refl
cpp_barrier_step-step late b (load_generation timed) = refl
cpp_barrier_step-step late b (arrive timed my) = ground arith
cpp_barrier_step-step late b reset = refl
cpp_barrier_step-step late b release = refl
cpp_barrier_step-step late b (spin false my) = ground arith
cpp_barrier_step-step late b (spin true my) = ground arith
cpp_barrier_step-step late b leave = refl
cpp_barrier_step-step late b passed = refl
cpp_barrier_step-step late b timed_out = refl
