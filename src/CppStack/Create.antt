-- ===== src/CppStack/Create.antt =====
-- cpp/include/zeroipc/stack.h: the constructors of a stack.
use zeroipc.Base.{
  ℕ, ◌+◌, ◌*◌, ◌^◌, ◌≤◌, ◌<◌, ◌≡◌, none, some, Name, ltb, ◌==◌, if◌then◌else◌, u32, u64, arith,
  mul-le, negsuc,
}
use zeroipc.Table.Valid.{IsValid}
use zeroipc.CppTable.{Table, Outcome, returned, align8, size_mismatch}
use zeroipc.CppTable.Allocate.{IsOver}
use zeroipc.Structures.{Shared, construct, attach}
use zeroipc.Structures.Reopen.{attach-construct}
use zeroipc.Stack.{Stack, slot_empty}

-- `sizeof(Header)`
abbrev pub stack_header_bytes : ℕ
stack_header_bytes = 16

-- `state_off`, where the state array starts behind the header.
unfoldable pub state_off : ℕ → ℕ → ℕ
unfolding align8
state_off capacity elem_size = align8 (u64 (elem_size * capacity))

-- `total_size`; nothing is checked.
unfoldable pub stack_bytes : ℕ → ℕ → ℕ
unfolding state_off
stack_bytes capacity elem_size =
    u64 (u64 (stack_header_bytes + state_off capacity elem_size) + u64 (4 * capacity))

module _ {A : Type 0} where
  -- What the constructor writes; `items` and `states` are what the memory holds.
  unfoldable pub init_stack : ℕ → ℕ → (ℕ → A) → (ℕ → ℕ) → Stack A
  init_stack capacity elem_size items states = record {
    top = negsuc 0;
    capacity = u32 capacity;
    elem_size = u32 elem_size;
    buf = items;
    state = λ i. if ltb i capacity then slot_empty else states i;
  }

  -- The constructor that creates.
  unfoldable pub create_stack :
      Table → Name → ℕ → ℕ → (ℕ → A) → (ℕ → ℕ) → Shared (Stack A) → Shared (Stack A) × Outcome ℕ
  unfolding stack_bytes init_stack
  create_stack t name capacity elem_size items states s =
      construct t name stack_header_bytes (stack_bytes capacity elem_size)
        (init_stack capacity elem_size items states) s

  -- The constructor that opens.
  unfoldable pub open_stack : Name → ℕ → Shared (Stack A) → Outcome (ℕ × Stack A)
  open_stack name elem_size s =
      attach name stack_header_bytes
        (λ h. if h.elem_size == elem_size then none else some size_mismatch) s

stack_bytes-fits :
    (capacity elem_size : ℕ)
    → capacity ≤ 2 ^ 31
    → elem_size < 2 ^ 32
    → (stack_bytes capacity elem_size
        ≡ stack_header_bytes + state_off capacity elem_size + 4 * capacity)
      × (elem_size * capacity ≤ state_off capacity elem_size)
      × (0 < stack_bytes capacity elem_size)
      × (stack_bytes capacity elem_size < 2 ^ 64)
unfolding stack_bytes state_off
stack_bytes-fits capacity elem_size small item =
    let bound : elem_size * capacity ≤ 2 ^ 32 * 2 ^ 31 =
      mul-le elem_size (2 ^ 32) capacity (2 ^ 31) (omega arith) small in
    ground (arith, bound)

module _ {A : Type 0} where
  -- A stack that has been created is opened, with its two arrays inside the segment, when its capacity
  -- is at most 2 ^ 31.
  pub open-create_stack :
      {t : Table} (s : Shared (Stack A)) (name : Name) (capacity elem_size offset : ℕ)
      (items : ℕ → A) (states : ℕ → ℕ) {s' : Shared (Stack A)}
      → IsValid s.memory
      → IsOver t s.memory
      → capacity ≤ 2 ^ 31
      → elem_size < 2 ^ 32
      → create_stack t name capacity elem_size items states s ≡ (s', returned offset)
      → (open_stack name elem_size s'
          ≡ returned (offset, init_stack capacity elem_size items states))
        × (elem_size * capacity ≤ state_off capacity elem_size)
        × (offset + stack_header_bytes + state_off capacity elem_size + 4 * capacity
            ≤ s'.memory.size)
  unfolding create_stack open_stack init_stack
  open-create_stack s name capacity elem_size offset items states v over small item e =
      let (size, room, positive, bounded) = stack_bytes-fits capacity elem_size small item in
      let (opened, aligned, inside) =
        attach-construct s v over name stack_header_bytes (stack_bytes capacity elem_size) offset
          (init_stack capacity elem_size items states)
          (λ h. if h.elem_size == elem_size then none else some size_mismatch) positive bounded
          (ground arith) e in
      (opened, room, omega (arith, size, inside))
