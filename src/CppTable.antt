-- ===== src/CppTable.antt =====
-- cpp/include/zeroipc/table.h, and the allocation of cpp/include/zeroipc/memory.h: the table of C++ in
-- the same bytes as that of C.
pub mod Allocate
pub mod Interop
mod Tests
use zeroipc.Base.{
  ℕ, ◌+◌, ◌-◌, ◌*◌, ◌%◌, Bool, true, false, not, Option, none, some, ltb, leb, ◌==◌, if◌then◌else◌,
  Name, [], update, length, u32, u64,
}
use zeroipc.Table.{
  Memory, Entry, Region, region_of, header_bytes, entry_bytes, max_name_size, index_of,
}
use zeroipc.Table.Init.{magic_word, format_version}

-- The members of a `Table` object that are not in shared memory.
pub record Table : Type 0 where
  pub max_entries : ℕ
  pub memory_size : ℕ

-- The exceptions of table.h and memory.h, and those of the constructors that use them.
pub data Error : Type 0 where
  zero_capacity capacity_overflow not_found size_mismatch not_power_of_two negative_count
        invalid_size :
      Error
  bad_magic bad_version bad_count : Error
  size_overflow out_of_memory name_too_long name_exists not_added out_of_range : Error

-- A call that returns, or throws.
pub data Outcome {ℓ} (A : Type ℓ) : Type ℓ where
  returned : A → Outcome A
  thrown : Error → Outcome A

-- `(next_offset + alignment - 1) & ~(alignment - 1)` for the alignment 8, which every caller has.
unfoldable pub align8 : ℕ → ℕ
align8 n = let sum = u64 (n + 7) in sum - sum % 8

-- `Table::allocate`
unfoldable pub allocate_space : Table → Memory → ℕ → Memory × Outcome ℕ
unfolding align8
allocate_space t m size =
    let aligned = align8 m.header.next_offset in
    if ltb (u64 (aligned + size)) aligned
    then (m, thrown size_overflow)
    else if ltb t.memory_size (u64 (aligned + size))
    then (m, thrown out_of_memory)
    else (
      record m { header = record (m.header) { next_offset = u64 (aligned + size) } },
      returned aligned,
    )

-- `Table::find`
unfoldable pub find_entry : Memory → Name → Option Entry
find_entry m name = elim (index_of m name) [ none ↦ none | some i ↦ some (m.entries i) ]

-- The entry that `Table::add` writes.
unfoldable pub write_entry : Memory → Name → ℕ → ℕ → Memory
write_entry m name offset size = record m {
  entries =
      update m.entries m.header.entry_count (record { name = name; offset = offset; size = size });
  header = record (m.header) { entry_count = u32 (m.header.entry_count + 1) };
}

-- `Table::add`
unfoldable pub add_entry : Table → Memory → Name → ℕ → ℕ → Memory × Outcome Bool
unfolding find_entry write_entry
add_entry t m name offset size =
    if leb 32 (length name)
    then (m, thrown name_too_long)
    else if leb t.max_entries m.header.entry_count
    then (m, returned false)
    else elim (find_entry m name) [
      | some e ↦ (m, thrown name_exists)
      | none ↦ (write_entry m name offset size, returned true)
    ]

-- What `Memory::allocate` does with the answer of `Table::add`.
unfoldable pub check_added : ℕ → Memory × Outcome Bool → Memory × Outcome ℕ
check_added offset (m, returned true) = (m, returned offset)
check_added offset (m, returned false) = (m, thrown not_added)
check_added offset (m, thrown e) = (m, thrown e)

unfoldable pub add_allocated : Table → Name → ℕ → Memory × Outcome ℕ → Memory × Outcome ℕ
unfolding check_added add_entry
add_allocated t name size (m, thrown e) = (m, thrown e)
add_allocated t name size (m, returned offset) = check_added offset (add_entry t m name offset size)

-- `Memory::allocate`
unfoldable pub allocate : Table → Memory → Name → ℕ → Memory × Outcome ℕ
unfolding add_allocated allocate_space
allocate t m name size = add_allocated t name size (allocate_space t m size)

-- `Memory::find`
unfoldable pub find_region : Memory → Name → Option Region
unfolding find_entry
find_region m name = elim (find_entry m name) [ none ↦ none | some e ↦ some (region_of e) ]

-- `Table::initialize`, `calculate_size`
unfoldable pub initialize : Table → Memory → Memory
initialize t m = record m {
  header = record {
    magic = magic_word;
    version = format_version;
    entry_count = 0;
    max_entries = u32 t.max_entries;
    memory_size = t.memory_size;
    next_offset = u64 (header_bytes + u64 (t.max_entries * entry_bytes));
  };
  entries =
      λ i. if ltb i t.max_entries then record { name = []; offset = 0; size = 0 } else m.entries i;
}

-- `Table::validate`; the memory size is taken from the header.
unfoldable pub validate : Table → Memory → Outcome Table
validate t m =
    if not (m.header.magic == magic_word)
    then thrown bad_magic
    else if not (m.header.version == format_version)
    then thrown bad_version
    else if ltb t.max_entries m.header.entry_count
    then thrown bad_count
    else returned (record t { memory_size = m.header.memory_size })

-- `Memory::at` and `Memory::ptr_at`: the offset, for a type of `bytes` bytes.
unfoldable pub at : ℕ → ℕ → Outcome ℕ
at segment_size offset = if leb segment_size offset then thrown out_of_range else returned offset

unfoldable pub ptr_at : ℕ → ℕ → ℕ → Outcome ℕ
ptr_at segment_size bytes offset =
    if ltb segment_size (u64 (offset + bytes)) then thrown out_of_range else returned offset
