-- ===== src/Set/Create.antt =====
-- cpp/include/zeroipc/set.h: the constructors of a set.
use zeroipc.Base.{
  ℕ, ◌+◌, ◌-◌, ◌*◌, ◌/◌, ◌^◌, ◌≤◌, ◌<◌, ◌≡◌, none, some, Name, ltb, ◌==◌, if◌then◌else◌, u32, u64,
  arith, mul_div-le,
}
use zeroipc.Table.Valid.{IsValid}
use zeroipc.CppTable.{
  Table, Outcome, returned, thrown, zero_capacity, capacity_overflow, size_mismatch,
}
use zeroipc.CppTable.Allocate.{IsOver}
use zeroipc.Structures.{Shared, construct_sized, attach}
use zeroipc.Structures.Reopen.{attach-construct_sized}
use zeroipc.Map.{slot_empty}
use zeroipc.Set.{Set}

-- `Set::Header`, without its padding, with the entries.
pub record SetRegion : Type 0 where
  pub elem_size : ℕ
  pub table : Set

-- `sizeof(Header)`
abbrev pub set_header_bytes : ℕ
set_header_bytes = 16

-- The checks of the capacity, and `total_size`, for entries of `entry_bytes` bytes.
unfoldable pub set_bytes : ℕ → ℕ → Outcome ℕ
set_bytes capacity entry_bytes =
    if capacity == 0
    then thrown zero_capacity
    else if ltb ((2 ^ 64 - 1 - set_header_bytes) / entry_bytes) capacity
    then thrown capacity_overflow
    else returned (u64 (set_header_bytes + u64 (entry_bytes * capacity)))

-- The header of a new set, and its entries, whose values are what the memory holds.
unfoldable pub init_set : ℕ → ℕ → (ℕ → ℕ) → (ℕ → ℕ) → SetRegion
init_set capacity elem_size states values = record {
  elem_size = u32 elem_size;
  table = record {
    size = 0;
    capacity = u32 capacity;
    state = λ i. if ltb i capacity then slot_empty else states i;
    key = values;
    value = λ i. tt;
  };
}

-- The constructor that creates.
unfoldable pub create_set :
    Table → Name → ℕ → ℕ → ℕ → (ℕ → ℕ) → (ℕ → ℕ) → Shared SetRegion → Shared SetRegion × Outcome ℕ
unfolding set_bytes init_set
create_set t name capacity entry_bytes elem_size states values s =
    construct_sized (set_bytes capacity entry_bytes) t name set_header_bytes
      (init_set capacity elem_size states values) s

-- The constructor that opens.
unfoldable pub open_set : Name → ℕ → Shared SetRegion → Outcome (ℕ × SetRegion)
open_set name elem_size s =
    attach name set_header_bytes
      (λ r. if r.elem_size == elem_size then none else some size_mismatch) s

set_bytes-returned :
    (capacity entry_bytes : ℕ) {total : ℕ}
    → 0 < entry_bytes
    → set_bytes capacity entry_bytes ≡ returned total
    → (total ≡ set_header_bytes + entry_bytes * capacity) × (0 < total) × (total < 2 ^ 64)
unfolding set_bytes
set_bytes-returned capacity entry_bytes pos e =
    ground (arith, mul_div-le capacity (2 ^ 64 - 1 - set_header_bytes) entry_bytes)

-- What a constructor that creates has made, one that opens finds, inside the segment.
pub open-create_set :
    {t : Table} (s : Shared SetRegion) (name : Name) (capacity entry_bytes elem_size offset : ℕ)
    (states values : ℕ → ℕ) {s' : Shared SetRegion}
    → IsValid s.memory
    → IsOver t s.memory
    → 0 < entry_bytes
    → elem_size < 2 ^ 32
    → create_set t name capacity entry_bytes elem_size states values s ≡ (s', returned offset)
    → (open_set name elem_size s' ≡ returned (offset, init_set capacity elem_size states values))
      × (offset + set_header_bytes + entry_bytes * capacity ≤ s'.memory.size)
unfolding create_set open_set
open-create_set s name capacity entry_bytes elem_size offset states values v over pos small e =
    let (total, made, opened, inside) =
      attach-construct_sized s v over (set_bytes capacity entry_bytes) name set_header_bytes offset
        (init_set capacity elem_size states values)
        (λ r. if r.elem_size == elem_size then none else some size_mismatch)
        (λ n q. let (b, c, d) = set_bytes-returned capacity entry_bytes pos q in (c, d))
        (ground arith) e in
    let (b, c, d) = set_bytes-returned capacity entry_bytes pos made in
    (opened, omega (arith, b, inside))
