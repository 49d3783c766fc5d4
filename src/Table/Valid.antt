-- ===== src/Table/Valid.antt =====
-- The invariant of the table, and that zeroipc_table_add keeps it.
use zeroipc.Base.{
  ℕ, ◌+◌, ◌*◌, ◌%◌, ◌^◌, ◌≤◌, ◌<◌, ◌≡◌, ◌≢◌, none, arith, length, take-of_le, ℕ_discrete, Name,
}
use zeroipc.Table.{
  Entry, Memory, header_bytes, entry_bytes, align_up, add_named, append_entry, index_of,
}
use zeroipc.Table.Errors.{ok}
use zeroipc.Table.Search.{search_from-none}

-- Header and entries in bytes.
abbrev pub table_bytes : Memory → ℕ
table_bytes m = header_bytes + entry_bytes * m.header.max_entries

-- The region of an entry: aligned, not empty, behind the table and inside the segment.
pub record IsRegion (m : Memory) (e : Entry) : Type 0 where
  pub aligned : e.offset % 8 ≡ 0
  pub nonempty : 0 < e.size
  pub behind_table : table_bytes m ≤ e.offset
  pub allocated : e.offset + e.size ≤ m.header.next_offset
  pub inside : e.offset + e.size ≤ m.size
  pub named : length e.name ≤ 31

-- The limit on `size` is that of `off_t`, in which ftruncate takes it.
pub record IsValid (m : Memory) : Type 0 where
  pub size_in : m.size ≤ 2 ^ 63
  pub next_in : m.header.next_offset ≤ 2 ^ 63
  pub max_in : m.header.max_entries < 2 ^ 32
  pub count_in : m.header.entry_count ≤ m.header.max_entries
  pub table_in : table_bytes m ≤ m.header.next_offset
  pub region : (i : ℕ) → i < m.header.entry_count → IsRegion m (m.entries i)
  pub ordered :
      (i j : ℕ)
      → i < j
      → j < m.header.entry_count
      → (m.entries i).offset + (m.entries i).size ≤ (m.entries j).offset
  pub unique :
      (i j : ℕ) → i < j → j < m.header.entry_count → (m.entries i).name ≢ (m.entries j).name

pub align_up_bounds :
    (v : ℕ) → v ≤ 2 ^ 63 → (v ≤ align_up v 8) × (align_up v 8 < v + 8) × (align_up v 8 % 8 ≡ 0)
unfolding align_up
align_up_bounds v h = ground arith

-- What a successful `zeroipc_table_add` has checked.
pub record Room (m : Memory) (name : Name) (size offset : ℕ) : Type 0 where
  pub short : length name ≤ 31
  pub absent : index_of m name ≡ none
  pub free : m.header.entry_count < m.header.max_entries
  pub aligned_next : offset ≡ align_up m.header.next_offset 8
  pub fits : offset + size ≤ m.size

pub add_named-ok :
    (m : Memory) (name : Name) (size : ℕ) {offset : ℕ} {m' : Memory}
    → add_named m name size ≡ (m', ok offset)
    → Room m name size offset × (m' ≡ append_entry m name size offset)
unfolding add_named
add_named-ok m name size h = ground arith

module _ {m : Memory} {name : Name} {size offset : ℕ} (v : IsValid m) (pos : 0 < size)
    (r : Room m name size offset) where
  new : Memory
  new = append_entry m name size offset

  offset_bounds : (m.header.next_offset ≤ offset) × (offset % 8 ≡ 0) × (offset + size ≤ 2 ^ 63)
  offset_bounds =
      omega
        (arith, align_up_bounds m.header.next_offset v.next_in, r.aligned_next, r.fits, v.size_in)

  new-IsRegion : (i : ℕ) → i < m.header.entry_count + 1 → IsRegion new (new.entries i)
  unfolding new append_entry
  new-IsRegion i lt = elim (ℕ_discrete m.header.entry_count i) [
    | yes e ↦ ground (arith, offset_bounds, take-of_le 31 name, v.table_in)
    | no ne ↦ ground (arith, offset_bounds, v.region i)
  ]

  new_ordered :
      (i j : ℕ)
      → i < j
      → j < m.header.entry_count + 1
      → (new.entries i).offset + (new.entries i).size ≤ (new.entries j).offset
  unfolding new append_entry
  new_ordered i j lt hj = elim (ℕ_discrete m.header.entry_count j) [
    | yes e ↦ ground (arith, offset_bounds, v.region i)
    | no ne ↦ ground (arith, v.ordered i j)
  ]

  new_unique :
      (i j : ℕ) → i < j → j < m.header.entry_count + 1 → (new.entries i).name ≢ (new.entries j).name
  unfolding new append_entry index_of
  new_unique i j lt hj = elim (ℕ_discrete m.header.entry_count j) [
    | yes e ↦ ground (
      arith,
      take-of_le 31 name r.short,
      search_from-none m.entries name 0 m.header.entry_count i r.absent,
    )
    | no ne ↦ ground (arith, v.unique i j)
  ]

  pub append_entry-IsValid : IsValid (append_entry m name size offset)
  unfolding new append_entry
  append_entry-IsValid = record {
    size_in = v.size_in;
    next_in = omega (arith, offset_bounds);
    max_in = v.max_in;
    count_in = omega (arith, r.free, v.max_in);
    table_in = omega (arith, offset_bounds, v.table_in);
    region = λ i lt. new-IsRegion i (omega (arith, r.free, v.max_in));
    ordered = λ i j lt hj. new_ordered i j lt (omega (arith, r.free, v.max_in));
    unique = λ i j lt hj. new_unique i j lt (omega (arith, r.free, v.max_in));
  }
