-- ===== src/CppStack/Same.antt =====
-- The stack of C++ does what stack.c does, so that processes of both can share one stack.
use zeroipc.Base.{
  ℕ, ◌*◌, ◌^◌, ◌≤◌, ◌<◌, false, sym, ◌∙◌, offset, typed_offset, sharing, sharing-false,
  offset_small, ◌≡◌, Bool, arith, refl,
}
use zeroipc.Stack.{
  Stack, Pc, step, idle, push_load, push_reserve, push_mark, push_undo, push_write, push_publish,
  pop_load, pop_reserve, pop_mark, pop_undo, pop_read, pop_release, top_load, top_mark, top_read,
  top_restore, pushed, full, popped, topped, empty, top_gave_up, timeout, last_index,
}
use zeroipc.CppStack.{
  CppStackPc, cpp_stack_step, cpp_idle, cpp_push_load, cpp_push_reserve, cpp_push_mark,
  cpp_push_undo, cpp_push_write, cpp_push_publish, cpp_pop_load, cpp_pop_reserve, cpp_pop_mark,
  cpp_pop_undo, cpp_pop_read, cpp_pop_release, cpp_top_load, cpp_top_mark, cpp_top_read,
  cpp_top_restore, cpp_pushed, cpp_popped, cpp_topped, cpp_failed,
}

module _ {A : Type 0} where
  -- The place of the C++ functions that corresponds to a place in stack.c. They have no code for a call
  -- that has given up.
  abbrev pub cpp_of_stack : Pc A → CppStackPc A
  cpp_of_stack idle = cpp_idle
  cpp_of_stack (push_load v) = cpp_push_load v
  cpp_of_stack (push_reserve v c) = cpp_push_reserve v c
  cpp_of_stack (push_mark v i k) = cpp_push_mark v i k
  cpp_of_stack (push_undo i) = cpp_push_undo i
  cpp_of_stack (push_write v i) = cpp_push_write v i
  cpp_of_stack (push_publish i) = cpp_push_publish i
  cpp_of_stack pop_load = cpp_pop_load
  cpp_of_stack (pop_reserve c) = cpp_pop_reserve c
  cpp_of_stack (pop_mark i k) = cpp_pop_mark i k
  cpp_of_stack (pop_undo i) = cpp_pop_undo i
  cpp_of_stack (pop_read i) = cpp_pop_read i
  cpp_of_stack (pop_release i v) = cpp_pop_release i v
  cpp_of_stack (top_load k) = cpp_top_load k
  cpp_of_stack (top_mark i k) = cpp_top_mark i k
  cpp_of_stack (top_read i) = cpp_top_read i
  cpp_of_stack (top_restore i v) = cpp_top_restore i v
  cpp_of_stack pushed = cpp_pushed
  cpp_of_stack (popped v) = cpp_popped v
  cpp_of_stack (topped v) = cpp_topped v
  cpp_of_stack full = cpp_failed
  cpp_of_stack empty = cpp_failed
  cpp_of_stack top_gave_up = cpp_failed
  cpp_of_stack timeout = cpp_failed

  -- The slot that a place reads or writes is in the arrays.
  abbrev pub IsWithin : Stack A → Pc A → Type 0
  IsWithin s (push_write v i) = i < s.capacity
  IsWithin s (pop_read i) = i < s.capacity
  IsWithin s (top_read i) = i < s.capacity
  IsWithin s p = Unit

  same_offset :
      (s : Stack A) (i : ℕ)
      → sharing s.capacity s.elem_size ≡ false
      → i < s.capacity
      → typed_offset s.elem_size i ≡ offset s.elem_size i
  same_offset s i own lt =
      let (narrow, wide) = offset_small s.capacity s.elem_size i own lt in wide ∙ sym narrow

  -- On a stack whose elements have at least one byte and all together at most 2 ^ 32, at a slot in the
  -- arrays: each access of `push`, `pop` or `top` of stack.h does to a stack what the corresponding
  -- access of stack.c does, and goes on at the corresponding place.
  pub cpp_stack_step-step :
      (lost : Bool) (s : Stack A) (p : Pc A)
      → 0 < s.elem_size
      → s.capacity * s.elem_size ≤ 2 ^ 32
      → IsWithin s p
      → cpp_stack_step lost s (cpp_of_stack p) ≡ ((step lost s p).0, cpp_of_stack (step lost s p).1)
  unfolding cpp_stack_step step last_index
  cpp_stack_step-step lost s idle item fits within = refl
  cpp_stack_step-step lost s (push_load v) item fits within = ground arith
  cpp_stack_step-step lost s (push_reserve v c) item fits within = ground arith
  cpp_stack_step-step lost s (push_mark v i k) item fits within = ground arith
  cpp_stack_step-step lost s (push_undo i) item fits within = refl
  cpp_stack_step-step lost s (push_write v i) item fits within =
      ground (arith, same_offset s i (sharing-false s.capacity s.elem_size item fits) within)
  cpp_stack_step-step lost s (push_publish i) item fits within = refl
  cpp_stack_step-step lost s pop_load item fits within = ground arith
  cpp_stack_step-step lost s (pop_reserve c) item fits within = ground arith
  cpp_stack_step-step lost s (pop_mark i k) item fits within = ground arith
  cpp_stack_step-step lost s (pop_undo i) item fits within = refl
  cpp_stack_step-step lost s (pop_read i) item fits within =
      ground (arith, same_offset s i (sharing-false s.capacity s.elem_size item fits) within)
  cpp_stack_step-step lost s (pop_release i v) item fits within = refl
  cpp_stack_step-step lost s (top_load k) item fits within = ground arith
  cpp_stack_step-step lost s (top_mark i k) item fits within = ground arith
  cpp_stack_step-step lost s (top_read i) item fits within =
      ground (arith, same_offset s i (sharing-false s.capacity s.elem_size item fits) within)
  cpp_stack_step-step lost s (top_restore i v) item fits within = refl
  cpp_stack_step-step lost s pushed item fits within = refl
  cpp_stack_step-step lost s (popped v) item fits within = refl
  cpp_stack_step-step lost s (topped v) item fits within = refl
  cpp_stack_step-step lost s full item fits within = refl
  cpp_stack_step-step lost s empty item fits within = refl
  cpp_stack_step-step lost s top_gave_up item fits within = refl
  cpp_stack_step-step lost s timeout item fits within = refl
