-- ===== src/Queue.antt =====
-- c/src/queue.c: the bounded queue for many producers and consumers, one shared access at a time.
pub mod Slots
pub mod System
pub mod Tickets
pub mod Safety
pub mod Alone
pub mod Create
pub mod Open
mod Tests
use zeroipc.Base.{
  offset, ℕ, ◌+◌, ◌-◌, ◌%◌, ◌^◌, Bool, true, false, not, ◌&&◌, ltb, leb, ◌==◌, if◌then◌else◌,
  update, u32, sub32,
}

-- The index of a counter's slot, `counter % cap`. It stays shut in the proofs about slots.
unfoldable pub slot : ℕ → ℕ → ℕ
slot cap counter = counter % cap

-- The three ways in which push and pop read the difference of two counters.
pub data Sign : Type 0 where
  negative zero positive : Sign

-- The sign of `(int32_t)a - (int32_t)b`, in two's complement.
unfoldable pub sign_of_diff : ℕ → ℕ → Sign
sign_of_diff a b =
    let d = sub32 a b in if d == 0 then zero else if leb (2 ^ 31) d then negative else positive

module _ (A : Type 0) where
  -- `queue_header_t`, and the arrays behind it; an element is what one memcpy moves.
  pub record Queue : Type 0 where
    pub head : ℕ
    pub tail : ℕ
    pub capacity : ℕ
    pub elem_size : ℕ
    pub buf : ℕ → A
    pub seq : ℕ → ℕ

  -- Where a thread stands in zeroipc_queue_push or zeroipc_queue_pop, with the locals that are live.
  -- Each place is before one access to shared memory; the last four are the returns.
  pub data Pc : Type 0 where
    idle : Pc
    push_load : (value : A) → Pc
    push_check : (value : A) (tail : ℕ) → Pc
    push_claim : (value : A) (tail : ℕ) → Pc
    push_write : (value : A) (tail : ℕ) → Pc
    push_publish : (tail : ℕ) → Pc
    pop_load : Pc
    pop_check : (head : ℕ) → Pc
    pop_claim : (head : ℕ) → Pc
    pop_read : (head : ℕ) → Pc
    pop_recycle : (head : ℕ) (value : A) → Pc
    pushed : Pc
    full : Pc
    popped : (value : A) → Pc
    empty : Pc

module _ {A : Type 0} where
  -- The tests of `diff`: claim the slot, give up, or load the counter again.
  abbrev pub push_branch : A → ℕ → Sign → Pc A
  push_branch v t zero = push_claim v t
  push_branch v t negative = full
  push_branch v t positive = push_load v

  abbrev pub pop_branch : ℕ → Sign → Pc A
  pop_branch h zero = pop_claim h
  pop_branch h negative = empty
  pop_branch h positive = pop_load

  -- One access. `lost` says that a weak compare-exchange fails without a reason.
  unfoldable pub step : Bool → Queue A → Pc A → Queue A × Pc A
  step lost q idle = (q, idle)
  step lost q (push_load v) = (q, push_check v q.tail)
  step lost q (push_check v t) = (q, push_branch v t (sign_of_diff (q.seq (slot q.capacity t)) t))
  step lost q (push_claim v t) =
      if not lost && q.tail == t
      then (record q { tail = u32 (t + 1) }, push_write v t)
      else (q, push_load v)
  step lost q (push_write v t) =
      (record q { buf = update q.buf (offset q.elem_size (slot q.capacity t)) v }, push_publish t)
  step lost q (push_publish t) =
      (record q { seq = update q.seq (slot q.capacity t) (u32 (t + 1)) }, pushed)
  step lost q pop_load = (q, pop_check q.head)
  step lost q (pop_check h) =
      (q, pop_branch h (sign_of_diff (q.seq (slot q.capacity h)) (u32 (h + 1))))
  step lost q (pop_claim h) =
      if not lost && q.head == h
      then (record q { head = u32 (h + 1) }, pop_read h)
      else (q, pop_load)
  step lost q (pop_read h) = (q, pop_recycle h (q.buf (offset q.elem_size (slot q.capacity h))))
  step lost q (pop_recycle h v) =
      (record q { seq = update q.seq (slot q.capacity h) (u32 (h + q.capacity)) }, popped v)
  step lost q pushed = (q, pushed)
  step lost q full = (q, full)
  step lost q (popped v) = (q, popped v)
  step lost q empty = (q, empty)

-- What zeroipc_queue_empty, zeroipc_queue_full and zeroipc_queue_size make of their two loads, the head
-- and then the tail, on a handle that is not NULL. Other threads may run between the loads.
unfoldable pub is_empty : (head tail : ℕ) → Bool
is_empty head tail = head == tail

unfoldable pub is_full : (capacity head tail : ℕ) → Bool
is_full capacity head tail = leb capacity (sub32 tail head)

unfoldable pub size : (head tail : ℕ) → ℕ
size head tail = sub32 tail head
