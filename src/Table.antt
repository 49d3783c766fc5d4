-- ===== src/Table.antt =====
-- c/src/table.c and c/src/table_layout.h: the table of named regions at the start of a segment.
pub mod Errors
pub mod Search
pub mod Valid
pub mod Add
pub mod Init
pub mod Lookup
pub mod Remove
mod Tests
use zeroipc.Base.{
  ℕ, zero, suc, ◌+◌, ◌-◌, ◌*◌, ◌%◌, ◌≤◌, ◌<◌, Bool, true, false, ◌||◌, Option, none, some, ltb, leb,
  ◌==◌, if◌then◌else◌, Name, name_eq, update, length, take, u32, u64,
}
use Errors.{Code, error_size, error_name_too_long, error_already_exists, error_table_full}
use Errors.{success, error_not_found, Result, ok, err}

-- `zipc_table_header_t`
pub record Header : Type 0 where
  pub magic : ℕ
  pub version : ℕ
  pub entry_count : ℕ
  pub max_entries : ℕ
  pub memory_size : ℕ
  pub next_offset : ℕ

-- `zipc_table_entry_t`; the name up to its NUL.
pub record Entry : Type 0 where
  pub name : Name
  pub offset : ℕ
  pub size : ℕ

-- What the table functions see of a `zeroipc_memory_t`: `size`, and the header and the entries
-- behind `base`. The entries are the raw array: those from `entry_count` on are not in use.
pub record Memory : Type 0 where
  pub size : ℕ
  pub header : Header
  pub entries : ℕ → Entry

abbrev pub header_bytes : ℕ
header_bytes = 32

abbrev pub entry_bytes : ℕ
entry_bytes = 48

abbrev pub max_name_size : ℕ
max_name_size = 32

unfoldable pub align_up : ℕ → ℕ → ℕ
align_up value alignment =
    if alignment == 0
    then value
    else if value % alignment == 0
    then value
    else u64 (value + (alignment - value % alignment))

-- The loops `for (i = ...; i < entry_count; i++) if (strcmp(...) == 0)`: `n` rounds are left.
unfoldable pub search_from : (ℕ → Entry) → Name → ℕ → ℕ → Option ℕ
search_from entries name i zero = none
search_from entries name i (suc n) =
    let rest = search_from entries name (i + 1) n in
    if name_eq (entries i).name name then some i else rest

unfoldable pub index_of : Memory → Name → Option ℕ
index_of m name = search_from m.entries name 0 m.header.entry_count

-- The entry and the header that `zeroipc_table_add` writes, once it has found room.
unfoldable pub append_entry : Memory → Name → ℕ → ℕ → Memory
append_entry m name size offset = record m {
  entries =
      update m.entries m.header.entry_count
        (record { name = take (max_name_size - 1) name; offset = offset; size = size });
  header = record (m.header) {
    next_offset = u64 (offset + size);
    entry_count = u32 (m.header.entry_count + 1);
  };
}

-- The body behind the checks for NULL. The result is what goes through `offset`.
unfoldable pub add_named : Memory → Name → ℕ → Memory × Result ℕ
unfolding align_up append_entry
add_named m name size =
    let offset = align_up m.header.next_offset 8 in
    if leb max_name_size (length name)
    then (m, err error_name_too_long)
    else elim (index_of m name) [
      | some i ↦ (m, err error_already_exists)
      | none ↦
          if leb m.header.max_entries m.header.entry_count
          then (m, err error_table_full)
          else if ltb m.size offset || ltb (m.size - offset) size
          then (m, err error_size)
          else (append_entry m name size offset, ok offset)
    ]

-- `zeroipc_table_add`; `none` stands for a NULL argument.
unfoldable pub add : Option Memory → Option Name → ℕ → Option Memory × Result ℕ
add none name size = (none, err error_size)
add (some m) none size = (some m, err error_size)
add (some m) (some name) size =
    if size == 0
    then (some m, err error_size)
    else let (m', r) = add_named m name size in (some m', r)

-- What goes through `offset` and `size` of `zeroipc_table_find`.
pub record Region : Type 0 where
  pub offset : ℕ
  pub size : ℕ

abbrev pub region_of : Entry → Region
region_of e = record { offset = e.offset; size = e.size }

unfoldable pub find_named : Memory → Name → Result Region
find_named m name = elim (index_of m name) [
  | some i ↦ ok (region_of (m.entries i))
  | none ↦ err error_not_found
]

-- `zeroipc_table_find`
unfoldable pub find : Option Memory → Option Name → Result Region
find none name = err error_not_found
find (some m) none = err error_not_found
find (some m) (some name) = find_named m name

-- `for (j = i; j < entry_count - 1; j++) entries[j] = entries[j + 1]`, with `n` rounds left.
unfoldable pub shift_from : (ℕ → Entry) → ℕ → ℕ → ℕ → Entry
shift_from entries j zero = entries
shift_from entries j (suc n) = shift_from (update entries j (entries (j + 1))) (j + 1) n

unfoldable pub remove_at : Memory → ℕ → Memory
unfolding shift_from
remove_at m i = record m {
  entries = shift_from m.entries i (m.header.entry_count - 1 - i);
  header = record (m.header) { entry_count = m.header.entry_count - 1 };
}

unfoldable pub remove_named : Memory → Name → Memory × Code
unfolding remove_at
remove_named m name = elim (index_of m name) [
  | some i ↦ (remove_at m i, success)
  | none ↦ (m, error_not_found)
]

-- `zeroipc_table_remove`
unfoldable pub remove : Option Memory → Option Name → Option Memory × Code
remove none name = (none, error_not_found)
remove (some m) none = (some m, error_not_found)
remove (some m) (some name) = let (m', c) = remove_named m name in (some m', c)

-- `zeroipc_table_count`
unfoldable pub count : Option Memory → ℕ
count none = 0
count (some m) = m.header.entry_count
