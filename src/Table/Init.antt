-- ===== src/Table/Init.antt =====
-- c/src/memory.c: the table that zeroipc_memory_create writes into a new segment.
use zeroipc.Base.{refl, ℕ, ◌+◌, ◌*◌, ◌^◌, ◌≤◌, ◌<◌, ◌≡◌, arith, u32, u64, some, Name}
use zeroipc.Table.{Memory, header_bytes, entry_bytes, index_of, find, find_named, search_from}
use zeroipc.Table.Errors.{err, error_not_found}
use zeroipc.Table.Valid.{IsValid}

abbrev pub magic_word : ℕ
magic_word = 1514754125

abbrev pub format_version : ℕ
format_version = 2

unfoldable pub calculate_table_size : ℕ → ℕ
calculate_table_size max_entries = u64 (header_bytes + u64 (entry_bytes * max_entries))

-- The header's `max_entries` has 32 bits, that of the handle has 64.
unfoldable pub init_table : Memory → ℕ → Memory
unfolding calculate_table_size
init_table m max_entries = record m {
  header = record {
    magic = magic_word;
    version = format_version;
    entry_count = 0;
    max_entries = u32 max_entries;
    memory_size = m.size;
    next_offset = calculate_table_size max_entries;
  };
}

-- The table that zeroipc_memory_create writes is valid and no name is found in it, when it has fewer
-- than 2 ^ 32 entries and the segment at most 2 ^ 63 bytes, also where the table is larger than the
-- segment.
pub init_table-IsValid :
    (m : Memory) (max_entries : ℕ) (name : Name)
    → max_entries < 2 ^ 32
    → m.size ≤ 2 ^ 63
    → IsValid (init_table m max_entries)
      × (find (some (init_table m max_entries)) (some name) ≡ err error_not_found)
unfolding init_table calculate_table_size find find_named index_of search_from
init_table-IsValid m max_entries name few size_in = (
  record {
    size_in = size_in;
    next_in = omega arith;
    max_in = omega arith;
    count_in = omega arith;
    table_in = omega arith;
    region = λ i lt. absurd (omega arith);
    ordered = λ i j lt hj. absurd (omega arith);
    unique = λ i j lt hj. absurd (omega arith);
  },
  refl,
)
