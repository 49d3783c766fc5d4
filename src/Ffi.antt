-- ===== src/Ffi.antt =====
-- c/src/ffi.c: the queue functions for callers from other languages, on a raw header.
pub mod Same
pub mod RawStack
pub mod SameStack
mod Tests
use zeroipc.Base.{
  offset, ℕ, ◌+◌, ◌-◌, ◌^◌, Bool, not, ◌&&◌, ◌||◌, ◌==◌, ltb, leb, if◌then◌else◌, update, u32,
  sub32, ℤ, pos, negsuc,
}
use zeroipc.Queue.{Queue, slot}
use zeroipc.Queue.Open.{bit_and}

abbrev pub ffi_ok : ℤ
ffi_ok = pos 0

abbrev pub ffi_empty : ℤ
ffi_empty = negsuc 0

abbrev pub ffi_full : ℤ
ffi_full = negsuc 0

abbrev pub ffi_mismatch : ℤ
ffi_mismatch = negsuc 1

abbrev pub ffi_invalid : ℤ
ffi_invalid = negsuc 2

module _ {A : Type 0} where
  unfoldable pub q_validate : Queue A → ℕ → ℤ
  q_validate h elem_size =
      if h.capacity == 0 || h.elem_size == 0
      then ffi_invalid
      else if not (bit_and 32 h.capacity (h.capacity - 1) == 0)
      then ffi_invalid
      else if not (h.elem_size == elem_size)
      then ffi_mismatch
      else ffi_ok

-- Where a thread stands in zeroipc_raw_queue_push or zeroipc_raw_queue_pop; `code` is the return
-- value, and a pop has what it has read beside it.
pub data RawPc (A : Type 0) : Type 0 where
  raw_idle : RawPc A
  raw_push_load : (value : A) → RawPc A
  raw_push_check : (value : A) (tail : ℕ) → RawPc A
  raw_push_claim : (value : A) (tail : ℕ) → RawPc A
  raw_push_write : (value : A) (tail : ℕ) → RawPc A
  raw_push_publish : (tail : ℕ) → RawPc A
  raw_pop_load : RawPc A
  raw_pop_check : (head : ℕ) → RawPc A
  raw_pop_claim : (head : ℕ) → RawPc A
  raw_pop_read : (head : ℕ) → RawPc A
  raw_pop_recycle : (head : ℕ) (value : A) → RawPc A
  raw_pushed : (code : ℤ) → RawPc A
  raw_popped : (code : ℤ) (value : A) → RawPc A
  raw_failed : (code : ℤ) → RawPc A

module _ {A : Type 0} where
  -- The entries of the calls.
  unfoldable pub enter_push : Queue A → A → ℕ → RawPc A
  unfolding q_validate
  enter_push h v elem_size = elim (q_validate h elem_size) [
    | pos k ↦ raw_push_load v
    | negsuc k ↦ raw_failed (negsuc k)
  ]

  unfoldable pub enter_pop : Queue A → ℕ → RawPc A
  unfolding q_validate
  enter_pop h elem_size = elim (q_validate h elem_size) [
    | pos k ↦ raw_pop_load
    | negsuc k ↦ raw_failed (negsuc k)
  ]

  -- One access, as in queue.c; here the difference of the counters is taken before its conversion to
  -- int32_t.
  unfoldable pub raw_step : Bool → Queue A → RawPc A → Queue A × RawPc A
  raw_step lost h (raw_push_load v) = (h, raw_push_check v h.tail)
  raw_step lost h (raw_push_check v t) =
      let diff = sub32 (h.seq (slot h.capacity t)) t in
      (
        h,
        if diff == 0
            then raw_push_claim v t
            else if leb (2 ^ 31) diff
            then raw_failed ffi_full
            else raw_push_load v,
      )
  raw_step lost h (raw_push_claim v t) =
      if not lost && h.tail == t
      then (record h { tail = u32 (t + 1) }, raw_push_write v t)
      else (h, raw_push_load v)
  raw_step lost h (raw_push_write v t) = (
    record h { buf = update h.buf (offset h.elem_size (slot h.capacity t)) v },
    raw_push_publish t,
  )
  raw_step lost h (raw_push_publish t) =
      (record h { seq = update h.seq (slot h.capacity t) (u32 (t + 1)) }, raw_pushed ffi_ok)
  raw_step lost h raw_pop_load = (h, raw_pop_check h.head)
  raw_step lost h (raw_pop_check k) =
      let diff = sub32 (h.seq (slot h.capacity k)) (u32 (k + 1)) in
      (
        h,
        if diff == 0
            then raw_pop_claim k
            else if leb (2 ^ 31) diff
            then raw_failed ffi_empty
            else raw_pop_load,
      )
  raw_step lost h (raw_pop_claim k) =
      if not lost && h.head == k
      then (record h { head = u32 (k + 1) }, raw_pop_read k)
      else (h, raw_pop_load)
  raw_step lost h (raw_pop_read k) =
      (h, raw_pop_recycle k (h.buf (offset h.elem_size (slot h.capacity k))))
  raw_step lost h (raw_pop_recycle k v) = (
    record h { seq = update h.seq (slot h.capacity k) (u32 (k + h.capacity)) },
    raw_popped ffi_ok v,
  )
  raw_step lost h p = (h, p)

-- What zeroipc_raw_queue_size, _empty and _full make of their two loads, the tail and then the head.
unfoldable pub raw_size : (tail head : ℕ) → ℕ
raw_size tail head = sub32 tail head

unfoldable pub raw_empty : (tail head : ℕ) → Bool
unfolding raw_size
raw_empty tail head = raw_size tail head == 0

unfoldable pub raw_full : (tail head capacity : ℕ) → Bool
raw_full tail head capacity = leb capacity (sub32 tail head)
