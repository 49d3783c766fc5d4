-- ===== src/CppTable/Interop.antt =====
-- The table of C++ and that of C on one segment: what each makes of the header that the other writes.
use zeroipc.Base.{ℕ, ◌≤◌, ◌<◌, ◌≡◌, ◌+◌, ◌*◌, ◌^◌, arith, Name, none, some, length, take-of_le}
use zeroipc.Table.{
  Memory, append_entry, align_up, index_of, add, add_named, header_bytes, entry_bytes,
}
use zeroipc.Table.Errors.{err, error_table_full}
use zeroipc.Table.Init.{init_table, calculate_table_size}
use zeroipc.Table.Valid.{IsValid, table_bytes}
use zeroipc.CppTable.{
  Table, returned, allocate_space, find_entry, write_entry, add_entry, check_added, add_allocated,
  allocate, initialize, validate,
}
use zeroipc.CppTable.Allocate.{space_bounds}

-- A table that either of the two languages has initialized is valid for an object of C++ with any number
-- of entries, and both write the same header.
pub validate-init_table :
    (t u : Table) (m : Memory) (max_entries : ℕ)
    → t.memory_size ≡ m.size
    → ((initialize t m).header ≡ (init_table m t.max_entries).header)
      × (validate u (init_table m max_entries) ≡ returned (record u { memory_size = m.size }))
      × (validate u (initialize t m) ≡ returned (record u { memory_size = m.size }))
unfolding initialize init_table calculate_table_size validate
validate-init_table t u m max_entries e = ground (arith, e)

-- On a valid table that is full, through an object of C++ with more entries than the table has, for a new
-- name of at most 31 characters and a size that fits behind the last region: C refuses, but
-- `Memory::allocate` of C++ returns, and the entries that are then counted end behind the table.
pub allocate_overruns :
    (t : Table) {m : Memory} (name : Name) (size offset : ℕ)
    → IsValid m
    → t.memory_size ≡ m.size
    → m.header.max_entries < t.max_entries
    → m.header.max_entries + 1 < 2 ^ 32
    → m.header.entry_count ≡ m.header.max_entries
    → index_of m name ≡ none
    → length name ≤ 31
    → 0 < size
    → offset ≡ align_up m.header.next_offset 8
    → offset + size ≤ m.size
    → ((add (some m) (some name) size).1 ≡ err error_table_full)
      × (allocate t m name size ≡ (append_entry m name size offset, returned offset))
      × (table_bytes m
          < header_bytes + entry_bytes * (append_entry m name size offset).header.entry_count)
unfolding add add_named allocate add_allocated allocate_space check_added add_entry find_entry
    write_entry append_entry index_of
allocate_overruns t {m} name size offset v sized wide small full absent short positive at fits =
    let (lo, hi, same) = space_bounds v in
    let stored = take-of_le 31 name short in
    (
      ground (arith, absent, short, full, positive),
      ground (arith, same, lo, hi, v.size_in, sized, wide, full, absent, short, at, fits, stored),
      omega (arith, full, small),
    )
