-- ===== src/Pool/Create.antt =====
-- cpp/include/zeroipc/pool.h: the constructors of a pool.
use zeroipc.Base.{
  ℕ, ◌+◌, ◌-◌, ◌*◌, ◌/◌, ◌^◌, ◌≤◌, ◌<◌, ◌≡◌, none, some, Name, ltb, ◌==◌, if◌then◌else◌, u64, arith,
  mul_div-le,
}
use zeroipc.Table.Valid.{IsValid}
use zeroipc.CppTable.{
  Table, Outcome, returned, thrown, zero_capacity, capacity_overflow, size_mismatch,
}
use zeroipc.CppTable.Allocate.{IsOver}
use zeroipc.Structures.{Shared, construct_sized, attach}
use zeroipc.Structures.Reopen.{attach-construct_sized}
use zeroipc.Pool.{Pool, init}

-- `sizeof(Header)`
abbrev pub pool_header_bytes : ℕ
pool_header_bytes = 24

-- The checks of the capacity, and `total_size`; `node_bytes` is sizeof(Node).
unfoldable pub pool_bytes : ℕ → ℕ → Outcome ℕ
pool_bytes capacity node_bytes =
    if capacity == 0
    then thrown zero_capacity
    else if ltb ((2 ^ 64 - 1 - pool_header_bytes) / node_bytes) capacity
    then thrown capacity_overflow
    else returned (u64 (pool_header_bytes + u64 (node_bytes * capacity)))

-- The constructor that creates; `links` is what the memory of the nodes holds.
unfoldable pub create_pool :
    Table → Name → ℕ → ℕ → ℕ → (ℕ → ℕ) → Shared Pool → Shared Pool × Outcome ℕ
unfolding pool_bytes
create_pool t name capacity elem_size node_bytes links s =
    construct_sized (pool_bytes capacity node_bytes) t name pool_header_bytes
      (init capacity elem_size links) s

-- The constructor that opens.
unfoldable pub open_pool : Name → ℕ → Shared Pool → Outcome (ℕ × Pool)
open_pool name elem_size s =
    attach name pool_header_bytes
      (λ p. if p.elem_size == elem_size then none else some size_mismatch) s

pool_bytes-returned :
    (capacity node_bytes : ℕ) {total : ℕ}
    → pool_bytes capacity node_bytes ≡ returned total
    → (0 < capacity)
      × (total ≡ pool_header_bytes + node_bytes * capacity)
      × (0 < total)
      × (total < 2 ^ 64)
unfolding pool_bytes
pool_bytes-returned capacity node_bytes e =
    ground (arith, mul_div-le capacity (2 ^ 64 - 1 - pool_header_bytes) node_bytes)

-- A pool that has been created is opened, with the nodes of its free list inside the segment.
pub open-create_pool :
    {t : Table} (s : Shared Pool) (name : Name) (capacity elem_size node_bytes offset : ℕ)
    (links : ℕ → ℕ) {s' : Shared Pool}
    → IsValid s.memory
    → IsOver t s.memory
    → elem_size < 2 ^ 32
    → create_pool t name capacity elem_size node_bytes links s ≡ (s', returned offset)
    → (open_pool name elem_size s' ≡ returned (offset, init capacity elem_size links))
      × (offset + pool_header_bytes + node_bytes * capacity ≤ s'.memory.size)
unfolding create_pool open_pool
open-create_pool s name capacity elem_size node_bytes offset links v over small e =
    let (total, made, opened, inside) =
      attach-construct_sized s v over (pool_bytes capacity node_bytes) name pool_header_bytes offset
        (init capacity elem_size links)
        (λ p. if p.elem_size == elem_size then none else some size_mismatch)
        (λ n q. let (a, b, c, d) = pool_bytes-returned capacity node_bytes q in (c, d))
        (fine capacity elem_size links small) e in
    let (a, b, c, d) = pool_bytes-returned capacity node_bytes made in
    (opened, omega (arith, b, inside))
  where
    fine :
        (capacity elem_size : ℕ) (links : ℕ → ℕ)
        → elem_size < 2 ^ 32
        → (if (init capacity elem_size links).elem_size == elem_size
            then none
            else some size_mismatch)
          ≡ none
    fine capacity elem_size links small = unfold init in ground arith
