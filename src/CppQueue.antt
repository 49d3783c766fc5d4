-- ===== src/CppQueue.antt =====
-- cpp/include/zeroipc/queue.h: the queue of C++ on the header and the arrays of queue.c, one shared
-- access at a time.
pub mod Same
pub mod Create
mod Tests
use zeroipc.Base.{
  typed_offset, ℕ, ◌+◌, ◌%◌, ◌^◌, Bool, true, false, not, ◌&&◌, leb, ◌==◌, if◌then◌else◌, update,
  u32, sub32, ℤ, pos, negsuc, ltb, ltb_ℤ, eq_ℤ, ◌-◌,
}
use zeroipc.Queue.{Queue}

-- `static_cast<int32_t>(a) - static_cast<int32_t>(b)`, in two's complement.
unfoldable pub difference : ℕ → ℕ → ℤ
difference a b = let d = sub32 a b in if ltb d (2 ^ 31) then pos d else negsuc (2 ^ 32 - d - 1)

-- Where a thread stands in push or pop, before one access to shared memory. The last three are the
-- returns: true, a value, and false or std::nullopt.
pub data CppPc (A : Type 0) : Type 0 where
  cpp_idle : CppPc A
  cpp_push_load : (value : A) → CppPc A
  cpp_push_check : (value : A) (tail : ℕ) → CppPc A
  cpp_push_claim : (value : A) (tail : ℕ) → CppPc A
  cpp_push_write : (value : A) (tail : ℕ) → CppPc A
  cpp_push_publish : (tail : ℕ) → CppPc A
  cpp_pop_load : CppPc A
  cpp_pop_check : (head : ℕ) → CppPc A
  cpp_pop_claim : (head : ℕ) → CppPc A
  cpp_pop_read : (head : ℕ) → CppPc A
  cpp_pop_release : (head : ℕ) (value : A) → CppPc A
  cpp_pushed : CppPc A
  cpp_popped : (value : A) → CppPc A
  cpp_failed : CppPc A

module _ {A : Type 0} where
  -- One access. `lost` says that a weak compare-exchange fails without a reason.
  unfoldable pub cpp_step : Bool → Queue A → CppPc A → Queue A × CppPc A
  unfolding difference
  cpp_step lost q cpp_idle = (q, cpp_idle)
  cpp_step lost q (cpp_push_load v) = (q, cpp_push_check v q.tail)
  cpp_step lost q (cpp_push_check v t) =
      let diff = difference (q.seq (t % q.capacity)) t in
      (
        q,
        if eq_ℤ diff (pos 0)
            then cpp_push_claim v t
            else if ltb_ℤ diff (pos 0)
            then cpp_failed
            else cpp_push_load v,
      )
  cpp_step lost q (cpp_push_claim v t) =
      if not lost && q.tail == t
      then (record q { tail = u32 (t + 1) }, cpp_push_write v t)
      else (q, cpp_push_load v)
  cpp_step lost q (cpp_push_write v t) = (
    record q { buf = update q.buf (typed_offset q.elem_size (t % q.capacity)) v },
    cpp_push_publish t,
  )
  cpp_step lost q (cpp_push_publish t) =
      (record q { seq = update q.seq (t % q.capacity) (u32 (t + 1)) }, cpp_pushed)
  cpp_step lost q cpp_pop_load = (q, cpp_pop_check q.head)
  cpp_step lost q (cpp_pop_check h) =
      let diff = difference (q.seq (h % q.capacity)) (u32 (h + 1)) in
      (
        q,
        if eq_ℤ diff (pos 0)
            then cpp_pop_claim h
            else if ltb_ℤ diff (pos 0)
            then cpp_failed
            else cpp_pop_load,
      )
  cpp_step lost q (cpp_pop_claim h) =
      if not lost && q.head == h
      then (record q { head = u32 (h + 1) }, cpp_pop_read h)
      else (q, cpp_pop_load)
  cpp_step lost q (cpp_pop_read h) =
      (q, cpp_pop_release h (q.buf (typed_offset q.elem_size (h % q.capacity))))
  cpp_step lost q (cpp_pop_release h v) =
      (record q { seq = update q.seq (h % q.capacity) (u32 (h + q.capacity)) }, cpp_popped v)
  cpp_step lost q cpp_pushed = (q, cpp_pushed)
  cpp_step lost q (cpp_popped v) = (q, cpp_popped v)
  cpp_step lost q cpp_failed = (q, cpp_failed)

-- What `empty`, `full` and `size` make of their two loads, the head and then the tail.
unfoldable pub cpp_empty : (head tail : ℕ) → Bool
cpp_empty head tail = head == tail

unfoldable pub cpp_full : (capacity head tail : ℕ) → Bool
cpp_full capacity head tail = leb capacity (sub32 tail head)

unfoldable pub cpp_size : (head tail : ℕ) → ℕ
cpp_size head tail = sub32 tail head
