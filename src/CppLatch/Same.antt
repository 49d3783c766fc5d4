-- ===== src/CppLatch/Same.antt =====
-- The latch of C++ does what latch.c does, so that processes of both can share one latch.
use zeroipc.Base.{◌≡◌, Bool, arith, refl}
use zeroipc.Latch.{
  Latch, Pc, step, down_loop, new_count, next_backoff, idle, down_load, down_claim, wait_load,
  timed_load, try_load, counted, waited, timed_out, tried,
}
use zeroipc.CppLatch.{
  CppLatchPc, cpp_latch_step, cpp_down_loop, cpp_backoff, cpp_idle, cpp_down_load, cpp_down_claim,
  cpp_wait_load, cpp_timed_load, cpp_try_load, cpp_counted, cpp_waited, cpp_timed_out, cpp_tried,
}

-- The place of the C++ functions that corresponds to a place in latch.c.
abbrev pub cpp_of_latch : Pc → CppLatchPc
cpp_of_latch idle = cpp_idle
cpp_of_latch (down_load n) = cpp_down_load n
cpp_of_latch (down_claim n current) = cpp_down_claim n current
cpp_of_latch (wait_load b) = cpp_wait_load b
cpp_of_latch (timed_load b) = cpp_timed_load b
cpp_of_latch try_load = cpp_try_load
cpp_of_latch counted = cpp_counted
cpp_of_latch waited = cpp_waited
cpp_of_latch timed_out = cpp_timed_out
cpp_of_latch (tried b) = cpp_tried b

-- Each access of a call of latch.h does to a latch what the corresponding access of latch.c does, and
-- goes on at the corresponding place.
pub cpp_latch_step-step :
    (lost late : Bool) (l : Latch) (p : Pc)
    → cpp_latch_step lost late l (cpp_of_latch p)
      ≡ ((step lost late l p).0, cpp_of_latch (step lost late l p).1)
unfolding cpp_latch_step cpp_down_loop cpp_backoff step down_loop new_count next_backoff
cpp_latch_step-step lost late l idle = refl
cpp_latch_step-step lost late l (down_load n) = ground arith
cpp_latch_step-step lost late l (down_claim n current) = ground arith
cpp_latch_step-step lost late l (wait_load b) = ground arith
cpp_latch_step-step lost late l (timed_load b) = ground arith
cpp_latch_step-step lost late l try_load = refl
cpp_latch_step-step lost late l counted = refl
cpp_latch_step-step lost late l waited = refl
cpp_latch_step-step lost late l timed_out = refl
cpp_latch_step-step lost late l (tried b) = refl
