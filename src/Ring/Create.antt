-- ===== src/Ring/Create.antt =====
-- cpp/include/zeroipc/ring.h: the constructors of a ring.
use zeroipc.Base.{
  ℕ, ◌+◌, ◌-◌, ◌*◌, ◌/◌, ◌^◌, ◌≤◌, ◌<◌, ◌≡◌, none, some, Name, ltb, ◌==◌, if◌then◌else◌, u32, u64,
  arith,
}
use zeroipc.Table.Valid.{IsValid}
use zeroipc.CppTable.{
  Table, Outcome, returned, thrown, zero_capacity, capacity_overflow, size_mismatch,
}
use zeroipc.CppTable.Allocate.{IsOver}
use zeroipc.Structures.{Shared, construct_sized, attach}
use zeroipc.Structures.Reopen.{attach-construct_sized}
use zeroipc.Ring.{Ring}

-- `sizeof(Header)`
abbrev pub ring_header_bytes : ℕ
ring_header_bytes = 24

-- The capacity in bytes: a multiple of the element size, and room for one element at least.
unfoldable pub ring_capacity : ℕ → ℕ → ℕ
ring_capacity capacity elem_size =
    let rounded = capacity / elem_size * elem_size in if rounded == 0 then elem_size else rounded

-- The checks of the capacity, and `total_size`.
unfoldable pub ring_bytes : ℕ → ℕ → Outcome ℕ
unfolding ring_capacity
ring_bytes capacity elem_size =
    if capacity == 0
    then thrown zero_capacity
    else if ltb (2 ^ 64 - 1 - ring_header_bytes) (ring_capacity capacity elem_size)
    then thrown capacity_overflow
    else returned (u64 (ring_header_bytes + ring_capacity capacity elem_size))

-- The header of a new ring, and the bytes that stand behind it.
unfoldable pub init_ring : {A : Type 0} → ℕ → ℕ → (ℕ → A) → Ring A
unfolding ring_capacity
init_ring capacity elem_size buffer = record {
  write_pos = 0;
  read_pos = 0;
  capacity = u32 (ring_capacity capacity elem_size);
  elem_size = u32 elem_size;
  buffer = buffer;
}

ring_bytes-returned :
    (capacity elem_size : ℕ) {total : ℕ}
    → ring_bytes capacity elem_size ≡ returned total
    → (total ≡ ring_header_bytes + ring_capacity capacity elem_size)
      × (0 < total)
      × (total < 2 ^ 64)
unfolding ring_bytes
ring_bytes-returned capacity elem_size e = ground arith

module _ {A : Type 0} where
  -- The constructor that creates.
  unfoldable pub create_ring :
      Table → Name → ℕ → ℕ → (ℕ → A) → Shared (Ring A) → Shared (Ring A) × Outcome ℕ
  unfolding ring_bytes init_ring
  create_ring t name capacity elem_size buffer s =
      construct_sized (ring_bytes capacity elem_size) t name ring_header_bytes
        (init_ring capacity elem_size buffer) s

  -- The constructor that opens.
  unfoldable pub open_ring : Name → ℕ → Shared (Ring A) → Outcome (ℕ × Ring A)
  open_ring name elem_size s =
      attach name ring_header_bytes
        (λ r. if r.elem_size == elem_size then none else some size_mismatch) s

  -- A ring that has been created is opened, with its buffer inside the segment.
  pub open-create_ring :
      {t : Table} (s : Shared (Ring A)) (name : Name) (capacity elem_size offset : ℕ)
      (buffer : ℕ → A) {s' : Shared (Ring A)}
      → IsValid s.memory
      → IsOver t s.memory
      → elem_size < 2 ^ 32
      → create_ring t name capacity elem_size buffer s ≡ (s', returned offset)
      → (open_ring name elem_size s' ≡ returned (offset, init_ring capacity elem_size buffer))
        × (offset + ring_header_bytes + ring_capacity capacity elem_size ≤ s'.memory.size)
  unfolding create_ring open_ring
  open-create_ring s name capacity elem_size offset buffer v over small e =
      let (total, made, opened, inside) =
        attach-construct_sized s v over (ring_bytes capacity elem_size) name ring_header_bytes
          offset (init_ring capacity elem_size buffer)
          (λ r. if r.elem_size == elem_size then none else some size_mismatch)
          (λ n q. let (b, c, d) = ring_bytes-returned capacity elem_size q in (c, d)) (ground arith)
          e in
      let (b, c, d) = ring_bytes-returned capacity elem_size made in
      (opened, omega (arith, b, inside))
