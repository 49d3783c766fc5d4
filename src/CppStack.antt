-- ===== src/CppStack.antt =====
-- cpp/include/zeroipc/stack.h: the stack of C++ on the header and the arrays of stack.c, one shared
-- access at a time.
pub mod Same
pub mod Create
use zeroipc.Base.{
  typed_offset, ℕ, ◌+◌, ◌-◌, ◌^◌, Bool, not, ◌&&◌, ltb, ◌==◌, if◌then◌else◌, update, sub32, ℤ, pos,
  negsuc, pos_part, ◌+ℤ◌, ◌-ℤ◌, leb_ℤ, ltb_ℤ, eq_ℤ,
}
use zeroipc.Stack.{Stack, slot_empty, slot_writing, slot_ready, slot_reading, max_spins}

-- `static_cast<int32_t>(header_->capacity - 1)`, in two's complement.
unfoldable pub cpp_last : ℕ → ℤ
cpp_last capacity =
    let w = sub32 capacity 1 in if ltb w (2 ^ 31) then pos w else negsuc (2 ^ 32 - w - 1)

-- Where a thread stands in push, pop or top, before one access to shared memory. The last four are the
-- returns: true, a value of pop or top, and false or std::nullopt. A slot is `new_top` of a push, and
-- `current_top` of a pop or top; the place before an undo has the current top and the reserved one.
pub data CppStackPc (A : Type 0) : Type 0 where
  cpp_idle : CppStackPc A
  cpp_push_load : (value : A) → CppStackPc A
  cpp_push_reserve : (value : A) (current_top : ℤ) → CppStackPc A
  cpp_push_mark : (value : A) (new_top spins : ℕ) → CppStackPc A
  cpp_push_undo : (new_top : ℕ) → CppStackPc A
  cpp_push_write : (value : A) (new_top : ℕ) → CppStackPc A
  cpp_push_publish : (new_top : ℕ) → CppStackPc A
  cpp_pop_load : CppStackPc A
  cpp_pop_reserve : (current_top : ℤ) → CppStackPc A
  cpp_pop_mark : (current_top spins : ℕ) → CppStackPc A
  cpp_pop_undo : (current_top : ℕ) → CppStackPc A
  cpp_pop_read : (current_top : ℕ) → CppStackPc A
  cpp_pop_release : (current_top : ℕ) (value : A) → CppStackPc A
  cpp_top_load : (spins : ℕ) → CppStackPc A
  cpp_top_mark : (current_top spins : ℕ) → CppStackPc A
  cpp_top_read : (current_top : ℕ) → CppStackPc A
  cpp_top_restore : (current_top : ℕ) (value : A) → CppStackPc A
  cpp_pushed : CppStackPc A
  cpp_popped : (value : A) → CppStackPc A
  cpp_topped : (value : A) → CppStackPc A
  cpp_failed : CppStackPc A

module _ {A : Type 0} where
  -- One access. `lost` says that a weak compare-exchange fails without a reason.
  unfoldable pub cpp_stack_step : Bool → Stack A → CppStackPc A → Stack A × CppStackPc A
  unfolding cpp_last
  cpp_stack_step lost s (cpp_push_load v) =
      (s, if leb_ℤ (cpp_last s.capacity) s.top then cpp_failed else cpp_push_reserve v s.top)
  cpp_stack_step lost s (cpp_push_reserve v current) =
      let new_top = current +ℤ pos 1 in
      if not lost && eq_ℤ s.top current
      then (record s { top = new_top }, cpp_push_mark v (pos_part new_top) 0)
      else (s, cpp_push_load v)
  cpp_stack_step lost s (cpp_push_mark v i spins) =
      if not lost && s.state i == slot_empty
      then (record s { state = update s.state i slot_writing }, cpp_push_write v i)
      else (s, if ltb (spins + 1) max_spins then cpp_push_mark v i (spins + 1) else cpp_push_undo i)
  cpp_stack_step lost s (cpp_push_undo i) =
      (if eq_ℤ s.top (pos i) then record s { top = pos i -ℤ pos 1 } else s, cpp_failed)
  cpp_stack_step lost s (cpp_push_write v i) =
      (record s { buf = update s.buf (typed_offset s.elem_size i) v }, cpp_push_publish i)
  cpp_stack_step lost s (cpp_push_publish i) =
      (record s { state = update s.state i slot_ready }, cpp_pushed)
  cpp_stack_step lost s cpp_pop_load =
      (s, if ltb_ℤ s.top (pos 0) then cpp_failed else cpp_pop_reserve s.top)
  cpp_stack_step lost s (cpp_pop_reserve current) =
      if not lost && eq_ℤ s.top current
      then (record s { top = current -ℤ pos 1 }, cpp_pop_mark (pos_part current) 0)
      else (s, cpp_pop_load)
  cpp_stack_step lost s (cpp_pop_mark i spins) =
      if not lost && s.state i == slot_ready
      then (record s { state = update s.state i slot_reading }, cpp_pop_read i)
      else (s, if ltb (spins + 1) max_spins then cpp_pop_mark i (spins + 1) else cpp_pop_undo i)
  cpp_stack_step lost s (cpp_pop_undo i) =
      (if eq_ℤ s.top (pos i -ℤ pos 1) then record s { top = pos i } else s, cpp_failed)
  cpp_stack_step lost s (cpp_pop_read i) =
      (s, cpp_pop_release i (s.buf (typed_offset s.elem_size i)))
  cpp_stack_step lost s (cpp_pop_release i v) =
      (record s { state = update s.state i slot_empty }, cpp_popped v)
  cpp_stack_step lost s (cpp_top_load spins) =
      (s, if ltb_ℤ s.top (pos 0) then cpp_failed else cpp_top_mark (pos_part s.top) spins)
  cpp_stack_step lost s (cpp_top_mark i spins) =
      if s.state i == slot_ready
      then (record s { state = update s.state i slot_reading }, cpp_top_read i)
      else (s, if ltb (spins + 1) max_spins then cpp_top_load (spins + 1) else cpp_failed)
  cpp_stack_step lost s (cpp_top_read i) =
      (s, cpp_top_restore i (s.buf (typed_offset s.elem_size i)))
  cpp_stack_step lost s (cpp_top_restore i v) =
      (record s { state = update s.state i slot_ready }, cpp_topped v)
  cpp_stack_step lost s p = (s, p)

  -- `empty`, `full` and `size`
  unfoldable pub cpp_stack_empty : Stack A → Bool
  cpp_stack_empty s = ltb_ℤ s.top (pos 0)

  unfoldable pub cpp_stack_full : Stack A → Bool
  unfolding cpp_last
  cpp_stack_full s = leb_ℤ (cpp_last s.capacity) s.top

  unfoldable pub cpp_stack_size : Stack A → ℕ
  cpp_stack_size s = if ltb_ℤ s.top (pos 0) then 0 else pos_part (s.top +ℤ pos 1)
