-- ===== src/Ffi/Same.antt =====
-- The raw queue functions of ffi.c do what those of queue.c do, so that callers of both can share one
-- queue.
use zeroipc.Base.{ℕ, ◌^◌, ◌<◌, ◌≡◌, ◌↔◌, Bool, true, arith, refl}
use zeroipc.Queue.{
  Queue, Pc, step, sign_of_diff, push_load, push_check, push_claim, push_write, push_publish,
  pop_load, pop_check, pop_claim, pop_read, idle, pop_recycle, pushed, full, popped, empty, size,
  is_empty, is_full,
}
use zeroipc.Queue.Open.{accepts}
use zeroipc.Ffi.{
  RawPc, raw_step, raw_push_load, raw_push_check, raw_push_claim, raw_push_write, raw_push_publish,
  raw_pop_load, raw_pop_check, raw_pop_claim, raw_pop_read, raw_pop_recycle, raw_pushed, raw_popped,
  raw_failed, raw_idle, ffi_ok, ffi_empty, ffi_full, q_validate, raw_size, raw_empty, raw_full,
}

-- zeroipc_raw_queue_size, _empty and _full make of two counters below 2 ^ 32 what those
-- of queue.c make of them.
pub raw_size-size :
    (capacity head tail : ℕ)
    → head < 2 ^ 32
    → tail < 2 ^ 32
    → (raw_size tail head ≡ size head tail)
      × (raw_empty tail head ≡ is_empty head tail)
      × (raw_full tail head capacity ≡ is_full capacity head tail)
unfolding raw_size raw_empty raw_full size is_empty is_full
raw_size-size capacity head tail head_in tail_in = ground arith

module _ {A : Type 0} where
  -- The place of the raw functions that corresponds to a place in queue.c.
  abbrev pub raw_of : Pc A → RawPc A
  raw_of (push_load v) = raw_push_load v
  raw_of (push_check v t) = raw_push_check v t
  raw_of (push_claim v t) = raw_push_claim v t
  raw_of (push_write v t) = raw_push_write v t
  raw_of (push_publish t) = raw_push_publish t
  raw_of pop_load = raw_pop_load
  raw_of (pop_check h) = raw_pop_check h
  raw_of (pop_claim h) = raw_pop_claim h
  raw_of (pop_read h) = raw_pop_read h
  raw_of (pop_recycle h v) = raw_pop_recycle h v
  raw_of pushed = raw_pushed ffi_ok
  raw_of full = raw_failed ffi_full
  raw_of (popped v) = raw_popped ffi_ok v
  raw_of empty = raw_failed ffi_empty
  raw_of idle = raw_idle

  -- Every access of a raw push or pop does to the shared queue what the access of queue.c at the
  -- corresponding place does, and comes to the corresponding place or return.
  pub raw_step-step :
      (lost : Bool) (q : Queue A) (p : Pc A)
      → raw_step lost q (raw_of p) ≡ ((step lost q p).0, raw_of (step lost q p).1)
  unfolding raw_step step sign_of_diff
  raw_step-step lost q (push_check v t) = ground arith
  raw_step-step lost q (push_claim v t) = ground arith
  raw_step-step lost q (pop_check h) = ground arith
  raw_step-step lost q (pop_claim h) = ground arith
  raw_step-step lost q (push_load v) = refl
  raw_step-step lost q (push_write v t) = refl
  raw_step-step lost q (push_publish t) = refl
  raw_step-step lost q pop_load = refl
  raw_step-step lost q (pop_read h) = refl
  raw_step-step lost q (pop_recycle h v) = refl
  raw_step-step lost q pushed = refl
  raw_step-step lost q full = refl
  raw_step-step lost q (popped v) = refl
  raw_step-step lost q empty = refl
  raw_step-step lost q idle = refl

  -- The raw push and pop go on exactly with the headers that zeroipc_queue_open accepts, and of these
  -- with those of the caller's element size.
  pub q_validate-accepts :
      (q : Queue A) (elem_size : ℕ)
      → (q_validate q elem_size ≡ ffi_ok)
        ↔ ((accepts q.capacity q.elem_size ≡ true) × (q.elem_size ≡ elem_size))
  unfolding q_validate accepts
  q_validate-accepts q elem_size = ground arith
