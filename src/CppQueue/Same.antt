-- ===== src/CppQueue/Same.antt =====
-- The queue of C++ does what queue.c does, so that processes of both can share one queue.
use zeroipc.Base.{
  ℕ, ◌*◌, ◌^◌, ◌≤◌, ◌<◌, false, sym, ◌∙◌, offset, typed_offset, sharing, sharing-false,
  offset_small, ◌≡◌, Bool, arith, refl,
}
use zeroipc.Queue.{
  Queue, Pc, step, slot, sign_of_diff, push_load, push_check, push_claim, push_write, push_publish,
  pop_load, pop_check, pop_claim, pop_read, idle, pop_recycle, pushed, full, popped, empty,
}
use zeroipc.Queue.Slots.{slot-lt}
use zeroipc.CppQueue.{
  CppPc, cpp_step, cpp_idle, cpp_push_load, cpp_push_check, cpp_push_claim, cpp_push_write,
  cpp_push_publish, cpp_pop_load, cpp_pop_check, cpp_pop_claim, cpp_pop_read, cpp_pop_release,
  cpp_pushed, cpp_popped, cpp_failed,
}

module _ {A : Type 0} where
  -- The place of the C++ functions that corresponds to a place in queue.c.
  abbrev pub cpp_of : Pc A → CppPc A
  cpp_of (push_load v) = cpp_push_load v
  cpp_of (push_check v t) = cpp_push_check v t
  cpp_of (push_claim v t) = cpp_push_claim v t
  cpp_of (push_write v t) = cpp_push_write v t
  cpp_of (push_publish t) = cpp_push_publish t
  cpp_of pop_load = cpp_pop_load
  cpp_of (pop_check h) = cpp_pop_check h
  cpp_of (pop_claim h) = cpp_pop_claim h
  cpp_of (pop_read h) = cpp_pop_read h
  cpp_of (pop_recycle h v) = cpp_pop_release h v
  cpp_of pushed = cpp_pushed
  cpp_of full = cpp_failed
  cpp_of (popped v) = cpp_popped v
  cpp_of empty = cpp_failed
  cpp_of idle = cpp_idle

  -- The typed pointer of C++ and the product of C agree on a slot.
  same_offset :
      (q : Queue A) (t : ℕ)
      → 0 < q.capacity
      → sharing q.capacity q.elem_size ≡ false
      → typed_offset q.elem_size (slot q.capacity t) ≡ offset q.elem_size (slot q.capacity t)
  same_offset q t pos own =
      let (narrow, wide) =
        offset_small q.capacity q.elem_size (slot q.capacity t) own (slot-lt q.capacity t pos) in
      wide ∙ sym narrow

  -- On a queue whose array has at most 2 ^ 32 bytes, with a capacity and an element size that are not 0:
  -- each access of `push` or `pop` of queue.h does to a queue what the corresponding access of
  -- zeroipc_queue_push or zeroipc_queue_pop of queue.c does, and goes on at the corresponding place.
  pub cpp_step-step :
      (lost : Bool) (q : Queue A) (p : Pc A)
      → 0 < q.capacity
      → 0 < q.elem_size
      → q.capacity * q.elem_size ≤ 2 ^ 32
      → cpp_step lost q (cpp_of p) ≡ ((step lost q p).0, cpp_of (step lost q p).1)
  unfolding cpp_step step sign_of_diff slot
  cpp_step-step lost q (push_check v t) pos item fits = ground arith
  cpp_step-step lost q (push_claim v t) pos item fits = ground arith
  cpp_step-step lost q (pop_check h) pos item fits = ground arith
  cpp_step-step lost q (pop_claim h) pos item fits = ground arith
  cpp_step-step lost q (push_load v) pos item fits = refl
  cpp_step-step lost q (push_write v t) pos item fits =
      ground (arith, same_offset q t pos (sharing-false q.capacity q.elem_size item fits))
  cpp_step-step lost q (push_publish t) pos item fits = refl
  cpp_step-step lost q pop_load pos item fits = refl
  cpp_step-step lost q (pop_read h) pos item fits =
      ground (arith, same_offset q h pos (sharing-false q.capacity q.elem_size item fits))
  cpp_step-step lost q (pop_recycle h v) pos item fits = refl
  cpp_step-step lost q pushed pos item fits = refl
  cpp_step-step lost q full pos item fits = refl
  cpp_step-step lost q (popped v) pos item fits = refl
  cpp_step-step lost q empty pos item fits = refl
  cpp_step-step lost q idle pos item fits = refl
