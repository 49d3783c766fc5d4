-- ===== src/CppTable/Tests.antt =====
-- The theorems about the table of C++ on segments of 1024 bytes, with four entries and with one.
use zeroipc.Base.{◌<◌, ◌≡◌, ◌+◌, ◌*◌, ◌↔◌, some, arith, refl, Name, name_eq, [], ◌∷◌}
use zeroipc.Table.{
  Memory, add, add_named, append_entry, align_up, index_of, search_from, header_bytes, entry_bytes,
}
use zeroipc.Table.Init.{magic_word, format_version}
use zeroipc.Table.Errors.{ok, err, error_table_full}
use zeroipc.Table.Valid.{IsValid, table_bytes}
use zeroipc.Table.Add.{add_named-IsValid}
use zeroipc.CppTable.{Table, returned, allocate}
use zeroipc.CppTable.Allocate.{allocate-add}
use zeroipc.CppTable.Interop.{allocate_overruns}

-- A table of one entry, with 80 bytes.
abbrev blank : Memory
blank = record {
  size = 1024;
  header = record {
    magic = magic_word;
    version = format_version;
    entry_count = 0;
    max_entries = 1;
    memory_size = 1024;
    next_offset = 80;
  };
  entries = λ i. record { name = []; offset = 0; size = 0 };
}

blank-IsValid : IsValid blank
blank-IsValid = record {
  size_in = omega arith;
  next_in = omega arith;
  max_in = omega arith;
  count_in = omega arith;
  table_in = omega arith;
  region = λ i lt. absurd (omega arith);
  ordered = λ i j lt hj. absurd (omega arith);
  unique = λ i j lt hj. absurd (omega arith);
}

abbrev name : Name
name = 100 ∷ []

abbrev other : Name
other = 101 ∷ []

abbrev full : Memory
full = (add_named blank name 13).0

full-IsValid : IsValid full
full-IsValid = add_named-IsValid name 13 blank-IsValid (omega arith)

-- The object of the process that made the table, and that of one that opens it.
abbrev exact : Table
exact = record { max_entries = 1; memory_size = 1024 }

abbrev wide : Table
wide = record { max_entries = 64; memory_size = 1024 }

allocate-add_example :
    (allocate exact blank name 13 ≡ (full, returned 80))
    ↔ (add (some blank) (some name) 13 ≡ (some full, ok 80))
allocate-add_example =
    allocate-add {t = exact} {m = blank} name 13 80 blank-IsValid (refl, refl) (omega arith)
      (omega arith)

allocate_overruns_example :
    ((add (some full) (some other) 8).1 ≡ err error_table_full)
    × (allocate wide full other 8 ≡ (append_entry full other 8 96, returned 96))
    × (table_bytes full
        < header_bytes + entry_bytes * (append_entry full other 8 96).header.entry_count)
unfolding add_named append_entry align_up index_of search_from name_eq
allocate_overruns_example =
    allocate_overruns wide {m = full} other 8 96 full-IsValid refl (omega arith) (omega arith) refl
      refl (omega arith) (omega arith) refl (omega arith)
