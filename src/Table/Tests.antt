-- ===== src/Table/Tests.antt =====
-- The theorems about the table on a small segment: four entries, 1024 bytes.
use zeroipc.Base.{◌<◌, ◌≡◌, ◌≤◌, ◌+◌, ◌↔◌, some, arith, refl, Name, name_eq, if◌then◌else◌, [], ◌∷◌}
use zeroipc.Table.{
  Memory, add, add_named, append_entry, align_up, find, remove, remove_named, index_of, search_from,
}
use zeroipc.Table.Errors.{ok, err, error_not_found}
use zeroipc.Table.Valid.{IsValid}
use zeroipc.Table.Add.{
  add_named-IsValid, add-IsValid, add-ok_iff, IsGranted, add-disjoint, find-add,
}
use zeroipc.Table.Remove.{remove-IsValid, find-remove}

abbrev blank : Memory
blank = record {
  size = 1024;
  header = record {
    magic = 0;
    version = 2;
    entry_count = 0;
    max_entries = 4;
    memory_size = 1024;
    next_offset = 224;
  };
  entries = λ i. record { name = []; offset = 0; size = 0 };
}

abbrev data_name : Name
data_name = 100 ∷ 97 ∷ []

abbrev ring_name : Name
ring_name = 114 ∷ []

blank-IsValid : IsValid blank
blank-IsValid = record {
  size_in = omega arith;
  next_in = omega arith;
  max_in = omega arith;
  count_in = omega arith;
  table_in = omega arith;
  region = λ i lt. absurd (omega arith);
  ordered = λ i j lt hj. absurd (omega arith);
  unique = λ i j lt hj. absurd (omega arith);
}

abbrev one : Memory
one = (add_named blank data_name 13).0

one-IsValid : IsValid one
one-IsValid = add_named-IsValid data_name 13 blank-IsValid (omega arith)

abbrev two : Memory
two = (add_named one ring_name 40).0

two-IsValid : IsValid two
two-IsValid = add_named-IsValid ring_name 40 one-IsValid (omega arith)

adds_ring : add (some one) (some ring_name) 40 ≡ (some two, ok 240)
unfolding add add_named append_entry align_up index_of search_from name_eq
adds_ring = refl

find-add_example : find (some two) (some data_name) ≡ (
    if name_eq ring_name data_name
    then ok (record { offset = 240; size = 40 })
    else find (some one) (some data_name))
find-add_example = find-add {m = one} {m' = two} ring_name data_name 40 240 one-IsValid adds_ring

add-IsValid_example : (m : Memory) × ((add (some one) (some ring_name) 40).0 ≡ some m) × IsValid m
add-IsValid_example = add-IsValid {m = one} (some ring_name) 40 one-IsValid

add-ok_iff_example :
    ((add (some one) (some ring_name) 40).1 ≡ ok 240) ↔ IsGranted one ring_name 40 240
add-ok_iff_example = add-ok_iff {m = one} ring_name 40 240 one-IsValid

one_entry : 0 < one.header.entry_count
unfolding add_named append_entry align_up index_of search_from
one_entry = omega arith

add-disjoint_example :
    ((one.entries 0).offset + (one.entries 0).size ≤ 240) × (two.entries 0 ≡ one.entries 0)
add-disjoint_example =
    add-disjoint {m = one} {m' = two} ring_name 40 240 0 one-IsValid adds_ring one_entry

remove-IsValid_example :
    (m : Memory) × ((remove (some two) (some data_name)).0 ≡ some m) × IsValid m
remove-IsValid_example = remove-IsValid {m = two} (some data_name) two-IsValid

abbrev less : Memory
less = (remove_named two data_name).0

removes_data : (remove (some two) (some data_name)).0 ≡ some less
unfolding remove
removes_data = refl

find-remove_example : find (some less) (some ring_name) ≡ (
    if name_eq data_name ring_name then err error_not_found else find (some two) (some ring_name))
find-remove_example = find-remove {m = two} {m' = less} data_name ring_name two-IsValid removes_data
