-- ===== src/Ffi/SameStack.antt =====
-- The raw stack functions of ffi.c do what those of stack.c do.
use zeroipc.Base.{◌≡◌, Bool, arith, refl}
use zeroipc.Stack.{
  Stack, Pc, step, idle, push_load, push_reserve, push_mark, push_undo, push_write, push_publish,
  pop_load, pop_reserve, pop_mark, pop_undo, pop_read, pop_release, top_load, top_mark, top_read,
  top_restore, pushed, full, popped, topped, empty, top_gave_up, timeout, size, is_empty, is_full,
}
use zeroipc.Ffi.{ffi_ok, ffi_empty, ffi_full}
use zeroipc.Ffi.RawStack.{
  RawStackPc, raw_stack_step, raw_idle, raw_push_load, raw_push_reserve, raw_push_mark,
  raw_push_undo, raw_push_write, raw_push_publish, raw_pop_load, raw_pop_reserve, raw_pop_mark,
  raw_pop_undo, raw_pop_read, raw_pop_release, raw_top_load, raw_top_mark, raw_top_read,
  raw_top_restore, raw_done, raw_read, raw_stack_size, raw_stack_empty, raw_stack_full,
}

module _ {A : Type 0} where
  -- The place of the raw functions that corresponds to a place in stack.c. They have one code for a
  -- full stack and a push that timed out, and one for an empty stack and a pop or peek that did.
  abbrev pub raw_of_stack : Pc A → RawStackPc A
  raw_of_stack idle = raw_idle
  raw_of_stack (push_load v) = raw_push_load v
  raw_of_stack (push_reserve v c) = raw_push_reserve v c
  raw_of_stack (push_mark v i k) = raw_push_mark v i k
  raw_of_stack (push_undo i) = raw_push_undo i
  raw_of_stack (push_write v i) = raw_push_write v i
  raw_of_stack (push_publish i) = raw_push_publish i
  raw_of_stack pop_load = raw_pop_load
  raw_of_stack (pop_reserve c) = raw_pop_reserve c
  raw_of_stack (pop_mark i k) = raw_pop_mark i k
  raw_of_stack (pop_undo i) = raw_pop_undo i
  raw_of_stack (pop_read i) = raw_pop_read i
  raw_of_stack (pop_release i v) = raw_pop_release i v
  raw_of_stack (top_load k) = raw_top_load k
  raw_of_stack (top_mark i k) = raw_top_mark i k
  raw_of_stack (top_read i) = raw_top_read i
  raw_of_stack (top_restore i v) = raw_top_restore i v
  raw_of_stack pushed = raw_done ffi_ok
  raw_of_stack full = raw_done ffi_full
  raw_of_stack (popped v) = raw_read ffi_ok v
  raw_of_stack (topped v) = raw_read ffi_ok v
  raw_of_stack empty = raw_done ffi_empty
  raw_of_stack top_gave_up = raw_done ffi_empty
  raw_of_stack timeout = raw_done ffi_full

  -- Every access of a raw push, pop or peek does to the shared stack what the access of stack.c at
  -- the corresponding place does, and comes to the corresponding place or return. A push or pop
  -- that gives up returns the code for a full or an empty stack, where stack.c has a code of its
  -- own.
  pub raw_stack_step-step :
      (lost : Bool) (s : Stack A) (p : Pc A)
      → raw_stack_step lost s (raw_of_stack p) ≡ ((step lost s p).0, raw_of_stack (step lost s p).1)
  unfolding raw_stack_step step
  raw_stack_step-step lost s (push_load v) = ground arith
  raw_stack_step-step lost s (push_reserve v c) = ground arith
  raw_stack_step-step lost s (push_mark v i k) = ground arith
  raw_stack_step-step lost s pop_load = ground arith
  raw_stack_step-step lost s (pop_reserve c) = ground arith
  raw_stack_step-step lost s (pop_mark i k) = ground arith
  raw_stack_step-step lost s (top_load k) = ground arith
  raw_stack_step-step lost s (top_mark i k) = ground arith
  raw_stack_step-step lost s (push_undo i) = refl
  raw_stack_step-step lost s (push_write v i) = refl
  raw_stack_step-step lost s (push_publish i) = refl
  raw_stack_step-step lost s (pop_undo i) = refl
  raw_stack_step-step lost s (pop_read i) = refl
  raw_stack_step-step lost s (pop_release i v) = refl
  raw_stack_step-step lost s (top_read i) = refl
  raw_stack_step-step lost s (top_restore i v) = refl
  raw_stack_step-step lost s idle = refl
  raw_stack_step-step lost s pushed = refl
  raw_stack_step-step lost s full = refl
  raw_stack_step-step lost s (popped v) = refl
  raw_stack_step-step lost s (topped v) = refl
  raw_stack_step-step lost s empty = refl
  raw_stack_step-step lost s top_gave_up = refl
  raw_stack_step-step lost s timeout = refl

  -- zeroipc_raw_stack_size, _empty and _full agree with those of stack.c.
  pub raw_stack_size-size :
      (s : Stack A)
      → (raw_stack_size s ≡ size s)
        × (raw_stack_empty s ≡ is_empty s)
        × (raw_stack_full s ≡ is_full s)
  unfolding raw_stack_size raw_stack_empty raw_stack_full size is_empty is_full
  raw_stack_size-size s = ground arith
