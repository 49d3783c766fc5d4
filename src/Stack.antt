-- ===== src/Stack.antt =====
-- c/src/stack.c: the bounded stack whose slots go round four states, one shared access at a time.
pub mod System
pub mod Slots
pub mod Lifo
mod Tests
use zeroipc.Base.{
  offset, ℕ, suc, ◌+◌, ◌-◌, ◌^◌, Bool, not, ◌&&◌, ltb, ◌==◌, if◌then◌else◌, update, sub32, ℤ, pos,
  negsuc, pos_part, ◌+ℤ◌, ◌-ℤ◌, leb_ℤ, ltb_ℤ, eq_ℤ,
}

abbrev pub slot_empty : ℕ
slot_empty = 0

abbrev pub slot_writing : ℕ
slot_writing = 1

abbrev pub slot_ready : ℕ
slot_ready = 2

abbrev pub slot_reading : ℕ
slot_reading = 3

abbrev pub max_spins : ℕ
max_spins = 10000

-- `(int32_t)w`, in two's complement.
unfoldable pub to_int32 : ℕ → ℤ
to_int32 w = if ltb w (2 ^ 31) then pos w else negsuc (2 ^ 32 - w - 1)

-- `(int32_t)(capacity - 1)`
unfoldable pub last_index : ℕ → ℤ
unfolding to_int32
last_index capacity = to_int32 (sub32 capacity 1)

module _ (A : Type 0) where
  -- `stack_header_t`, and the arrays behind it; an element is what one memcpy moves.
  pub record Stack : Type 0 where
    pub top : ℤ
    pub capacity : ℕ
    pub elem_size : ℕ
    pub buf : ℕ → A
    pub state : ℕ → ℕ

  -- Where a thread stands in zeroipc_stack_push, zeroipc_stack_pop or zeroipc_stack_top, before one
  -- access to shared memory; the last seven are the returns. `slot` is `new_top` of a push,
  -- `current_top` of a pop and `top` of a peek, which are not negative from there on.
  pub data Pc : Type 0 where
    idle : Pc
    push_load : (value : A) → Pc
    push_reserve : (value : A) (current : ℤ) → Pc
    push_mark : (value : A) (slot spins : ℕ) → Pc
    push_undo : (slot : ℕ) → Pc
    push_write : (value : A) (slot : ℕ) → Pc
    push_publish : (slot : ℕ) → Pc
    pop_load : Pc
    pop_reserve : (current : ℤ) → Pc
    pop_mark : (slot spins : ℕ) → Pc
    pop_undo : (slot : ℕ) → Pc
    pop_read : (slot : ℕ) → Pc
    pop_release : (slot : ℕ) (value : A) → Pc
    top_load : (spins : ℕ) → Pc
    top_mark : (slot spins : ℕ) → Pc
    top_read : (slot : ℕ) → Pc
    top_restore : (slot : ℕ) (value : A) → Pc
    pushed : Pc
    full : Pc
    popped : (value : A) → Pc
    topped : (value : A) → Pc
    empty : Pc
    top_gave_up : Pc
    timeout : Pc

module _ {A : Type 0} where
  -- One access. `lost` says that a weak compare-exchange fails without a reason.
  unfoldable pub step : Bool → Stack A → Pc A → Stack A × Pc A
  step lost s idle = (s, idle)
  step lost s (push_load v) =
      (s, if leb_ℤ (last_index s.capacity) s.top then full else push_reserve v s.top)
  step lost s (push_reserve v current) =
      if not lost && eq_ℤ s.top current
      then (record s { top = current +ℤ pos 1 }, push_mark v (pos_part (current +ℤ pos 1)) 0)
      else (s, push_load v)
  step lost s (push_mark v i spins) =
      if not lost && s.state i == slot_empty
      then (record s { state = update s.state i slot_writing }, push_write v i)
      else (s, if ltb (spins + 1) max_spins then push_mark v i (spins + 1) else push_undo i)
  step lost s (push_undo i) =
      (if eq_ℤ s.top (pos i) then record s { top = pos i -ℤ pos 1 } else s, timeout)
  step lost s (push_write v i) =
      (record s { buf = update s.buf (offset s.elem_size i) v }, push_publish i)
  step lost s (push_publish i) = (record s { state = update s.state i slot_ready }, pushed)
  step lost s pop_load = (s, if ltb_ℤ s.top (pos 0) then empty else pop_reserve s.top)
  step lost s (pop_reserve current) =
      if not lost && eq_ℤ s.top current
      then (record s { top = current -ℤ pos 1 }, pop_mark (pos_part current) 0)
      else (s, pop_load)
  step lost s (pop_mark i spins) =
      if not lost && s.state i == slot_ready
      then (record s { state = update s.state i slot_reading }, pop_read i)
      else (s, if ltb (spins + 1) max_spins then pop_mark i (spins + 1) else pop_undo i)
  step lost s (pop_undo i) =
      (if eq_ℤ s.top (pos i -ℤ pos 1) then record s { top = pos i } else s, timeout)
  step lost s (pop_read i) = (s, pop_release i (s.buf (offset s.elem_size i)))
  step lost s (pop_release i v) = (record s { state = update s.state i slot_empty }, popped v)
  step lost s (top_load spins) =
      (s, if ltb_ℤ s.top (pos 0) then empty else top_mark (pos_part s.top) spins)
  step lost s (top_mark i spins) =
      if s.state i == slot_ready
      then (record s { state = update s.state i slot_reading }, top_read i)
      else (s, if ltb (spins + 1) max_spins then top_load (spins + 1) else top_gave_up)
  step lost s (top_read i) = (s, top_restore i (s.buf (offset s.elem_size i)))
  step lost s (top_restore i v) = (record s { state = update s.state i slot_ready }, topped v)
  step lost s p = (s, p)

  -- zeroipc_stack_empty, zeroipc_stack_full and zeroipc_stack_size on a handle that is not NULL.
  unfoldable pub is_empty : Stack A → Bool
  is_empty s = ltb_ℤ s.top (pos 0)

  unfoldable pub is_full : Stack A → Bool
  is_full s = leb_ℤ (last_index s.capacity) s.top

  unfoldable pub size : Stack A → ℕ
  size s = if ltb_ℤ s.top (pos 0) then 0 else pos_part (s.top +ℤ pos 1)
