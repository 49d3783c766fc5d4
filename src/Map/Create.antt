-- ===== src/Map/Create.antt =====
-- cpp/include/zeroipc/map.h: the constructors of a map.
use zeroipc.Base.{
  ℕ, ◌+◌, ◌-◌, ◌*◌, ◌/◌, ◌^◌, ◌≤◌, ◌<◌, ◌≡◌, none, some, Name, ltb, ◌==◌, ◌&&◌, if◌then◌else◌, u32,
  u64, arith, mul_div-le,
}
use zeroipc.Table.Valid.{IsValid as IsValidTable}
use zeroipc.CppTable.{
  Table, Outcome, returned, thrown, zero_capacity, capacity_overflow, size_mismatch,
}
use zeroipc.CppTable.Allocate.{IsOver}
use zeroipc.Structures.{Shared, construct_sized, attach}
use zeroipc.Structures.Reopen.{attach-construct_sized}
use zeroipc.Map.{Map, slot_empty}
use zeroipc.Map.Valid.{IsValid}

-- `Map::Header` with the entries.
pub record MapRegion (V : Type 0) : Type 0 where
  pub key_size : ℕ
  pub value_size : ℕ
  pub table : Map V

-- `sizeof(Header)`
abbrev pub map_header_bytes : ℕ
map_header_bytes = 16

-- The checks of the capacity, and `total_size`, for entries of `entry_bytes` bytes.
unfoldable pub map_bytes : ℕ → ℕ → Outcome ℕ
map_bytes capacity entry_bytes =
    if capacity == 0
    then thrown zero_capacity
    else if ltb ((2 ^ 64 - 1 - map_header_bytes) / entry_bytes) capacity
    then thrown capacity_overflow
    else returned (u64 (map_header_bytes + u64 (entry_bytes * capacity)))

map_bytes-returned :
    (capacity entry_bytes : ℕ) {total : ℕ}
    → 0 < entry_bytes
    → map_bytes capacity entry_bytes ≡ returned total
    → (total ≡ map_header_bytes + entry_bytes * capacity) × (0 < total) × (total < 2 ^ 64)
unfolding map_bytes
map_bytes-returned capacity entry_bytes pos e =
    ground (arith, mul_div-le capacity (2 ^ 64 - 1 - map_header_bytes) entry_bytes)

module _ {V : Type 0} where
  -- The header of a new map, and its entries, whose keys and values are what the memory holds.
  unfoldable pub init_map : ℕ → ℕ → ℕ → (ℕ → ℕ) → (ℕ → ℕ) → (ℕ → V) → MapRegion V
  init_map capacity key_size value_size states keys values = record {
    key_size = u32 key_size;
    value_size = u32 value_size;
    table = record {
      size = 0;
      capacity = u32 capacity;
      state = λ i. if ltb i capacity then slot_empty else states i;
      key = keys;
      value = values;
    };
  }

  -- The constructor that creates.
  unfoldable pub create_map :
      Table
      → Name
      → ℕ
      → ℕ
      → ℕ
      → ℕ
      → (ℕ → ℕ)
      → (ℕ → ℕ)
      → (ℕ → V)
      → Shared (MapRegion V)
      → Shared (MapRegion V) × Outcome ℕ
  unfolding map_bytes init_map
  create_map t name capacity entry_bytes key_size value_size states keys values s =
      construct_sized (map_bytes capacity entry_bytes) t name map_header_bytes
        (init_map capacity key_size value_size states keys values) s

  -- The constructor that opens.
  unfoldable pub open_map : Name → ℕ → ℕ → Shared (MapRegion V) → Outcome (ℕ × MapRegion V)
  open_map name key_size value_size s =
      attach name map_header_bytes
        (λ r.
          if r.key_size == key_size && r.value_size == value_size then none else some size_mismatch)
        s

  -- A new map has no entry.
  pub init_map-IsValid :
      (capacity key_size value_size : ℕ) (states keys : ℕ → ℕ) (values : ℕ → V)
      → IsValid (init_map capacity key_size value_size states keys values).table
  unfolding init_map
  init_map-IsValid capacity key_size value_size states keys values = record {
    known = λ i lt. ground arith;
    unique = λ key a b ea eb. absurd (ground (arith, ea.within, ea.occupied));
    reached = λ key index e. absurd (ground (arith, e.within, e.occupied));
  }

  -- What a constructor that creates has made, one that opens finds, inside the segment.
  pub open-create_map :
      {t : Table} (s : Shared (MapRegion V)) (name : Name)
      (capacity entry_bytes key_size value_size offset : ℕ) (states keys : ℕ → ℕ) (values : ℕ → V)
      {s' : Shared (MapRegion V)}
      → IsValidTable s.memory
      → IsOver t s.memory
      → 0 < entry_bytes
      → key_size < 2 ^ 32
      → value_size < 2 ^ 32
      → create_map t name capacity entry_bytes key_size value_size states keys values s
        ≡ (s', returned offset)
      → (open_map name key_size value_size s'
          ≡ returned (offset, init_map capacity key_size value_size states keys values))
        × (offset + map_header_bytes + entry_bytes * capacity ≤ s'.memory.size)
  unfolding create_map open_map
  open-create_map s name capacity entry_bytes key_size value_size offset states keys values v over
        pos small small' e =
      let (total, made, opened, inside) =
        attach-construct_sized s v over (map_bytes capacity entry_bytes) name map_header_bytes
          offset (init_map capacity key_size value_size states keys values)
          (λ r.
            if r.key_size == key_size && r.value_size == value_size
            then none
            else some size_mismatch)
          (λ n q. let (b, c, d) = map_bytes-returned capacity entry_bytes pos q in (c, d))
          (ground arith) e in
      let (b, c, d) = map_bytes-returned capacity entry_bytes pos made in
      (opened, omega (arith, b, inside))
