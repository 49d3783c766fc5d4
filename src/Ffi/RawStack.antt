-- ===== src/Ffi/RawStack.antt =====
-- c/src/ffi.c: the stack functions for callers from other languages, on a raw header.
use zeroipc.Base.{
  offset, ℕ, ◌+◌, Bool, not, ◌&&◌, ◌||◌, ◌==◌, ltb, if◌then◌else◌, update, ℤ, pos, negsuc, pos_part,
  ◌+ℤ◌, ◌-ℤ◌, leb_ℤ, ltb_ℤ, eq_ℤ,
}
use zeroipc.Stack.{Stack, last_index}
use zeroipc.Ffi.{ffi_ok, ffi_empty, ffi_full, ffi_mismatch, ffi_invalid}

abbrev pub ffi_max_spins : ℕ
ffi_max_spins = 10000

abbrev pub raw_slot_empty : ℕ
raw_slot_empty = 0

abbrev pub raw_slot_writing : ℕ
raw_slot_writing = 1

abbrev pub raw_slot_ready : ℕ
raw_slot_ready = 2

abbrev pub raw_slot_reading : ℕ
raw_slot_reading = 3

-- Where a thread stands in zeroipc_raw_stack_push, _pop or _top; `code` is the return value, and a
-- pop or a peek has what it has read beside it.
pub data RawStackPc (A : Type 0) : Type 0 where
  raw_idle : RawStackPc A
  raw_push_load : (value : A) → RawStackPc A
  raw_push_reserve : (value : A) (current_top : ℤ) → RawStackPc A
  raw_push_mark : (value : A) (new_top spins : ℕ) → RawStackPc A
  raw_push_undo : (new_top : ℕ) → RawStackPc A
  raw_push_write : (value : A) (new_top : ℕ) → RawStackPc A
  raw_push_publish : (new_top : ℕ) → RawStackPc A
  raw_pop_load : RawStackPc A
  raw_pop_reserve : (current_top : ℤ) → RawStackPc A
  raw_pop_mark : (current_top spins : ℕ) → RawStackPc A
  raw_pop_undo : (current_top : ℕ) → RawStackPc A
  raw_pop_read : (current_top : ℕ) → RawStackPc A
  raw_pop_release : (current_top : ℕ) (value : A) → RawStackPc A
  raw_top_load : (spins : ℕ) → RawStackPc A
  raw_top_mark : (top spins : ℕ) → RawStackPc A
  raw_top_read : (top : ℕ) → RawStackPc A
  raw_top_restore : (top : ℕ) (value : A) → RawStackPc A
  raw_done : (code : ℤ) → RawStackPc A
  raw_read : (code : ℤ) (value : A) → RawStackPc A

module _ {A : Type 0} where
  unfoldable pub s_validate : Stack A → ℕ → ℤ
  s_validate h elem_size =
      if h.capacity == 0 || h.elem_size == 0
      then ffi_invalid
      else if not (h.elem_size == elem_size)
      then ffi_mismatch
      else ffi_ok

  -- What each of the three calls does first.
  unfoldable pub enter : Stack A → ℕ → RawStackPc A → RawStackPc A
  unfolding s_validate
  enter h elem_size p = elim (s_validate h elem_size) [ pos k ↦ p | negsuc k ↦ raw_done (negsuc k) ]

  -- One access. `lost` says that a weak compare-exchange fails without a reason.
  unfoldable pub raw_stack_step : Bool → Stack A → RawStackPc A → Stack A × RawStackPc A
  raw_stack_step lost h (raw_push_load v) = (
    h,
    if leb_ℤ (last_index h.capacity) h.top then raw_done ffi_full else raw_push_reserve v h.top,
  )
  raw_stack_step lost h (raw_push_reserve v current_top) =
      let new_top = current_top +ℤ pos 1 in
      if not lost && eq_ℤ h.top current_top
      then (record h { top = new_top }, raw_push_mark v (pos_part new_top) 0)
      else (h, raw_push_load v)
  raw_stack_step lost h (raw_push_mark v new_top spins) =
      if not lost && h.state new_top == raw_slot_empty
      then (record h { state = update h.state new_top raw_slot_writing }, raw_push_write v new_top)
      else (
        h,
        if ltb (spins + 1) ffi_max_spins
            then raw_push_mark v new_top (spins + 1)
            else raw_push_undo new_top,
      )
  raw_stack_step lost h (raw_push_undo new_top) = (
    if eq_ℤ h.top (pos new_top) then record h { top = pos new_top -ℤ pos 1 } else h,
    raw_done ffi_full,
  )
  raw_stack_step lost h (raw_push_write v new_top) =
      (record h { buf = update h.buf (offset h.elem_size new_top) v }, raw_push_publish new_top)
  raw_stack_step lost h (raw_push_publish new_top) =
      (record h { state = update h.state new_top raw_slot_ready }, raw_done ffi_ok)
  raw_stack_step lost h raw_pop_load =
      (h, if ltb_ℤ h.top (pos 0) then raw_done ffi_empty else raw_pop_reserve h.top)
  raw_stack_step lost h (raw_pop_reserve current_top) =
      if not lost && eq_ℤ h.top current_top
      then (record h { top = current_top -ℤ pos 1 }, raw_pop_mark (pos_part current_top) 0)
      else (h, raw_pop_load)
  raw_stack_step lost h (raw_pop_mark current_top spins) =
      if not lost && h.state current_top == raw_slot_ready
      then (
        record h { state = update h.state current_top raw_slot_reading },
        raw_pop_read current_top,
      )
      else (
        h,
        if ltb (spins + 1) ffi_max_spins
            then raw_pop_mark current_top (spins + 1)
            else raw_pop_undo current_top,
      )
  raw_stack_step lost h (raw_pop_undo current_top) = (
    if eq_ℤ h.top (pos current_top -ℤ pos 1) then record h { top = pos current_top } else h,
    raw_done ffi_empty,
  )
  raw_stack_step lost h (raw_pop_read current_top) =
      (h, raw_pop_release current_top (h.buf (offset h.elem_size current_top)))
  raw_stack_step lost h (raw_pop_release current_top v) =
      (record h { state = update h.state current_top raw_slot_empty }, raw_read ffi_ok v)
  raw_stack_step lost h (raw_top_load spins) =
      (h, if ltb_ℤ h.top (pos 0) then raw_done ffi_empty else raw_top_mark (pos_part h.top) spins)
  raw_stack_step lost h (raw_top_mark top spins) =
      if h.state top == raw_slot_ready
      then (record h { state = update h.state top raw_slot_reading }, raw_top_read top)
      else (
        h,
        if ltb (spins + 1) ffi_max_spins then raw_top_load (spins + 1) else raw_done ffi_empty,
      )
  raw_stack_step lost h (raw_top_read top) =
      (h, raw_top_restore top (h.buf (offset h.elem_size top)))
  raw_stack_step lost h (raw_top_restore top v) =
      (record h { state = update h.state top raw_slot_ready }, raw_read ffi_ok v)
  raw_stack_step lost h p = (h, p)

  -- zeroipc_raw_stack_size, zeroipc_raw_stack_empty and zeroipc_raw_stack_full.
  unfoldable pub raw_stack_size : Stack A → ℕ
  raw_stack_size h = if ltb_ℤ h.top (pos 0) then 0 else pos_part (h.top +ℤ pos 1)

  unfoldable pub raw_stack_empty : Stack A → Bool
  unfolding raw_stack_size
  raw_stack_empty h = raw_stack_size h == 0

  unfoldable pub raw_stack_full : Stack A → Bool
  raw_stack_full h = leb_ℤ (last_index h.capacity) h.top
