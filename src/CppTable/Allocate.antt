-- ===== src/CppTable/Allocate.antt =====
-- Memory::allocate of C++ beside zeroipc_table_add of C, on the same table.
use zeroipc.Base.{
  ℕ, ◌≤◌, ◌<◌, ◌≡◌, ◌+◌, ◌^◌, ◌↔◌, arith, Name, some, none, length, take-of_le, u64, true, ap, sym,
  ◌∙◌,
}
use zeroipc.Table.{Memory, append_entry, align_up, index_of, add, add_named}
use zeroipc.Table.Errors.{ok}
use zeroipc.Table.Valid.{IsValid, Room, align_up_bounds}
use zeroipc.Table.Add.{add-ok}
use zeroipc.CppTable.{
  Table, Outcome, returned, thrown, align8, allocate_space, find_entry, write_entry, add_entry,
  check_added, add_allocated, allocate, name_exists,
}

align8-align_up : (n : ℕ) → n ≤ 2 ^ 63 → align8 n ≡ align_up n 8
unfolding align8 align_up
align8-align_up n h = ground arith

-- The object of C++ has the entries and the size of the table.
abbrev pub IsOver : Table → Memory → Type 0
IsOver t m = (t.max_entries ≡ m.header.max_entries) × (t.memory_size ≡ m.size)

pub space_bounds :
    {m : Memory}
    → IsValid m
    → (m.header.next_offset ≤ align_up m.header.next_offset 8)
      × (align_up m.header.next_offset 8 < 2 ^ 63 + 8)
      × (align8 m.header.next_offset ≡ align_up m.header.next_offset 8)
space_bounds {m} v =
    let (lo, hi, al) = align_up_bounds m.header.next_offset v.next_in in
    (lo, omega (arith, hi, v.next_in), align8-align_up m.header.next_offset v.next_in)

-- Behind the allocation of the space.
allocate_space-ok :
    (t : Table) (m : Memory) {m' : Memory} (size : ℕ) {offset : ℕ}
    → IsValid m
    → IsOver t m
    → size < 2 ^ 64
    → allocate_space t m size ≡ (m', returned offset)
    → (offset ≡ align_up m.header.next_offset 8)
      × (offset + size ≤ m.size)
      × (m' ≡ record m { header = record (m.header) { next_offset = u64 (offset + size) } })
unfolding allocate_space
allocate_space-ok t m size v over small h =
    let (lo, hi, same) = space_bounds v in ground (arith, h, same, lo, hi, over, v.size_in)

add_entry-ok :
    (t : Table) (m : Memory) {m' : Memory} (name : Name) (offset size : ℕ)
    → add_entry t m name offset size ≡ (m', returned true)
    → (length name ≤ 31)
      × (index_of m name ≡ none)
      × (m.header.entry_count < t.max_entries)
      × (m' ≡ write_entry m name offset size)
unfolding add_entry find_entry
add_entry-ok t m name offset size h = ground (arith, h)

checked :
    (t : Table) (name : Name) (size : ℕ) (r : Memory × Outcome ℕ) {m' : Memory} {offset : ℕ}
    → add_allocated t name size r ≡ (m', returned offset)
    → (r ≡ (r.0, returned offset)) × (add_entry t r.0 name offset size ≡ (m', returned true))
unfolding add_allocated check_added add_entry
checked t name size (k, returned at) h = ground (arith, h)
checked t name size (k, thrown e) h = ground (arith, h)

allocate-ok :
    {t : Table} {m m' : Memory} (name : Name) (size : ℕ) {offset : ℕ}
    → IsValid m
    → IsOver t m
    → size < 2 ^ 64
    → allocate t m name size ≡ (m', returned offset)
    → Room m name size offset × (m' ≡ append_entry m name size offset)
unfolding allocate write_entry append_entry index_of
allocate-ok {t} {m} name size {offset} v over small h =
    let (space, entry) = checked t name size (allocate_space t m size) h in
    let (at, fits, e) = allocate_space-ok t m size v over small space in
    let (short, absent, free, e') =
      add_entry-ok t (allocate_space t m size).0 name offset size entry in
    (
      record {
        short = short;
        absent = ap (λ k. index_of k name) (sym e) ∙ absent;
        free = ground (arith, free, over, e);
        aligned_next = at;
        fits = fits;
      },
      ground (arith, e, e', take-of_le 31 name short),
    )

allocate-of_Room :
    (t : Table) {m : Memory} (name : Name) (size offset : ℕ)
    → IsValid m
    → IsOver t m
    → Room m name size offset
    → allocate t m name size ≡ (append_entry m name size offset, returned offset)
unfolding allocate add_allocated allocate_space check_added add_entry find_entry write_entry
    append_entry index_of
allocate-of_Room t {m} name size offset v over r =
    let (lo, hi, same) = space_bounds v in
    let stored = take-of_le 31 name r.short in
    ground (
      arith, same, lo, hi, over, v.size_in, r.short, r.absent, r.free, r.aligned_next, r.fits,
      stored,
    )

-- On a valid table, through an object of C++ with its number of entries and its size, for a size from 1
-- to 2 ^ 64 - 1: `Memory::allocate` of C++ returns an offset and leaves a memory exactly when
-- zeroipc_table_add of C is ok with the same offset and leaves the same memory.
pub allocate-add :
    {t : Table} {m m' : Memory} (name : Name) (size offset : ℕ)
    → IsValid m
    → IsOver t m
    → 0 < size
    → size < 2 ^ 64
    → (allocate t m name size ≡ (m', returned offset))
      ↔ (add (some m) (some name) size ≡ (some m', ok offset))
unfolding add add_named
allocate-add {t} {m} {m'} name size offset v over positive small = (
  (λ h.
      let (room, e) = allocate-ok name size v over small h in
      ground
        (arith, room.short, room.absent, room.free, room.aligned_next, room.fits, e, positive)),
  (λ h.
      let (positive, room, e) = add-ok name size offset h in
      rw e (allocate-of_Room t name size offset v over room)),
)

-- An allocation for a name that is in the table already throws, and the space that it has taken is not
-- given back.
pub allocate-duplicate :
    (t : Table) {m : Memory} (name : Name) (size k : ℕ)
    → IsValid m
    → IsOver t m
    → index_of m name ≡ some k
    → length name ≤ 31
    → m.header.entry_count < m.header.max_entries
    → align_up m.header.next_offset 8 + size ≤ m.size
    → allocate t m name size ≡ (
      record m {
        header = record (m.header) { next_offset = align_up m.header.next_offset 8 + size };
      },
      thrown name_exists,
    )
unfolding allocate add_allocated allocate_space check_added add_entry find_entry index_of
allocate-duplicate t {m} name size k v over taken short free fits =
    let (lo, hi, same) = space_bounds v in
    ground (arith, same, lo, hi, over, v.size_in, taken, short, free, fits)
