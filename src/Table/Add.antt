-- ===== src/Table/Add.antt =====
-- zeroipc_table_add: when it succeeds, what it returns, and what zeroipc_table_find sees afterwards.
use zeroipc.Base.{
  length, ◌≢◌, ℕ, suc, ◌+◌, ◌%◌, ◌≤◌, ◌<◌, ◌≡◌, Option, none, some, inl, inr, arith, ◌↔◌, ◌⊎◌, ◌==◌,
  take, take-of_le, Option-cases, Bool-cases, refl, ap, Name, name_eq, name_eq_iff, if◌then◌else◌,
}
use zeroipc.Table.{Memory, add_named, append_entry, index_of, add, find_named, find}
use zeroipc.Table.Errors.{Result, ok, err, Code}
use zeroipc.Table.Search.{search_from-some, search_from-none, search_from-ext}
use zeroipc.Table.Search.{search_from_last}
use zeroipc.Table.Valid.{
  IsValid, Room, add_named-ok, append_entry-IsValid, align_up_bounds, table_bytes,
}

-- Without an `ok` the memory is as it was.
pub add_named-err :
    (m : Memory) (name : Name) (size : ℕ) {c : Code} {m' : Memory}
    → add_named m name size ≡ (m', err c)
    → m' ≡ m
unfolding add_named
add_named-err m name size h = ground arith

Result-cases : {A : Type 0} (r : Result A) → ((a : A) × (r ≡ ok a)) ⊎ ((c : Code) × (r ≡ err c))
Result-cases (ok a) = inl (a, refl)
Result-cases (err c) = inr (c, refl)

pub add_named-IsValid :
    {m : Memory} (name : Name) (size : ℕ) → IsValid m → 0 < size → IsValid (add_named m name size).0
add_named-IsValid {m} name size v pos = elim (Result-cases (add_named m name size).1) [
  | inl (offset, e) ↦
      let done : add_named m name size ≡ ((add_named m name size).0, ok offset) =
        λ i. ((add_named m name size).0, e i) in
      let (room, e') = add_named-ok m name size done in rw e' (append_entry-IsValid v pos room)
  | inr (c, e) ↦
      let done : add_named m name size ≡ ((add_named m name size).0, err c) =
        λ i. ((add_named m name size).0, e i) in
      rw (add_named-err m name size done) v
]

-- zeroipc_table_add keeps the invariant of the table, whatever it returns, also for a name that is
-- NULL.
pub add-IsValid :
    {m : Memory} (name : Option Name) (size : ℕ)
    → IsValid m
    → (m' : Memory) × ((add (some m) name size).0 ≡ some m') × IsValid m'
unfolding add
add-IsValid {m} none size v = (m, refl, v)
add-IsValid {m} (some name) size v = elim (Bool-cases (size == 0)) [
  | inl e ↦ (m, rw e, v)
  | inr e ↦ ((add_named m name size).0, rw e, add_named-IsValid name size v (ground arith))
]

-- What a caller can say of a request that zeroipc_table_add grants, at the first multiple of 8 that is
-- not allocated.
pub record IsGranted (m : Memory) (name : Name) (size offset : ℕ) : Type 0 where
  pub positive : 0 < size
  pub short : length name ≤ 31
  pub absent : (k : ℕ) → k < m.header.entry_count → (m.entries k).name ≢ name
  pub free : m.header.entry_count < m.header.max_entries
  pub aligned : offset % 8 ≡ 0
  pub unallocated : m.header.next_offset ≤ offset
  pub closest : offset < m.header.next_offset + 8
  pub fits : offset + size ≤ m.size

index_of-none :
    (m : Memory) (name : Name)
    → index_of m name ≡ none
    → (k : ℕ) → k < m.header.entry_count
    → (m.entries k).name ≢ name
unfolding index_of
index_of-none m name e k lt =
    search_from-none m.entries name 0 m.header.entry_count k e (omega arith) (omega arith)

index_of-absent :
    (m : Memory) (name : Name)
    → ((k : ℕ) → k < m.header.entry_count → (m.entries k).name ≢ name)
    → index_of m name ≡ none
unfolding index_of
index_of-absent m name absent = elim (Option-cases (index_of m name)) [
  | inl e ↦ e
  | inr (k, found) ↦
      let (lo, hi, named) = search_from-some m.entries name 0 m.header.entry_count k found in
      absurd (absent k (omega arith) named)
]

Room-iff :
    {m : Memory} (name : Name) (size offset : ℕ)
    → IsValid m
    → (Room m name size offset × (0 < size)) ↔ IsGranted m name size offset
Room-iff {m} name size offset v =
    let (lo, hi, even) = align_up_bounds m.header.next_offset v.next_in in
    (
      (λ r. record {
        positive = r.1;
        short = r.0.short;
        absent = index_of-none m name r.0.absent;
        free = r.0.free;
        aligned = omega (arith, r.0.aligned_next, even);
        unallocated = omega (arith, r.0.aligned_next, lo);
        closest = omega (arith, r.0.aligned_next, hi);
        fits = r.0.fits;
      }),
      (λ g. (
        record {
          short = g.short;
          absent = index_of-absent m name g.absent;
          free = g.free;
          aligned_next = omega (arith, g.aligned, g.unallocated, g.closest, lo, hi, even);
          fits = g.fits;
        },
        g.positive,
      )),
    )

ok_iff-Room :
    {m : Memory} (name : Name) (size offset : ℕ)
    → ((add (some m) (some name) size).1 ≡ ok offset) ↔ (Room m name size offset × (0 < size))
unfolding add add_named
ok_iff-Room name size offset = ground arith

-- On a valid table zeroipc_table_add of a name returns an offset exactly when the size is not 0,
-- the name fits its field and is that of no entry in use, the table has a free entry, the offset is
-- the first multiple of 8 from next_offset on, and the segment has `size` bytes left from there.
pub add-ok_iff :
    {m : Memory} (name : Name) (size offset : ℕ)
    → IsValid m
    → ((add (some m) (some name) size).1 ≡ ok offset) ↔ IsGranted m name size offset
add-ok_iff name size offset v =
    let (to, from) = Room-iff name size offset v in
    let (out, back) = ok_iff-Room name size offset in ((λ e. to (out e)), (λ g. back (from g)))

pub add-ok :
    {m m' : Memory} (name : Name) (size offset : ℕ)
    → add (some m) (some name) size ≡ (some m', ok offset)
    → (0 < size) × Room m name size offset × (m' ≡ append_entry m name size offset)
unfolding add add_named
add-ok name size offset h = ground arith

module _ (m : Memory) (name other : Name) (size offset : ℕ) (v : IsValid m)
    (r : Room m name size offset) where
  entry_count-append :
      (append_entry m name size offset).header.entry_count ≡ suc m.header.entry_count
  unfolding append_entry
  entry_count-append = omega (arith, r.free, v.max_in)

  stored_name : take 31 name ≡ name
  stored_name = take-of_le 31 name r.short

  -- The old entries are searched first, then the new one.
  index_of-append : index_of (append_entry m name size offset) other ≡ (elim (index_of m other) [
    | some k ↦ some k
    | none ↦ if name_eq name other then some m.header.entry_count else none
  ])
  unfolding index_of append_entry
  index_of-append =
      let c = m.header.entry_count in
      let new = (append_entry m name size offset).entries in
      rw
        (
          entry_count-append,
          search_from_last new other 0 c,
          search_from-ext m.entries other new 0 c (λ j p q. ground arith),
        )
        (ground (arith, stored_name))

  find_named-append : find_named (append_entry m name size offset) other ≡ (
      if name_eq name other
      then ok (record { offset = offset; size = size })
      else find_named m other)
  unfolding find_named append_entry index_of
  find_named-append = elim (Option-cases (index_of m other)) [
    | inl e ↦ ground (arith, index_of-append)
    | inr (k, e) ↦
        let (lo, hi, named) = search_from-some m.entries other 0 m.header.entry_count k e in
        ground (
          arith,
          index_of-append,
          r.absent,
          name_eq_iff name other,
          ap (index_of m) {x = name} {y = other},
          entry_count-append,
        )
  ]

-- A region that zeroipc_table_add hands out on a valid table is aligned to 8 bytes, lies behind the
-- table and inside the segment, and its end is the new `next_offset`.
pub add-region :
    {m m' : Memory} (name : Name) (size offset : ℕ)
    → IsValid m
    → add (some m) (some name) size ≡ (some m', ok offset)
    → (offset % 8 ≡ 0)
      × (table_bytes m ≤ offset)
      × (offset + size ≤ m.size)
      × (m'.header.next_offset ≡ offset + size)
unfolding append_entry
add-region {m} {m'} name size offset v h =
    let (pos, r, e) = add-ok name size offset h in
    let (lo, hi, al) = align_up_bounds m.header.next_offset v.next_in in
    (
      omega (arith, r.aligned_next),
      omega (arith, r.aligned_next, v.table_in),
      r.fits,
      rw e (omega (arith, r.fits, v.size_in)),
    )

-- The region that zeroipc_table_add hands out on a valid table lies behind the region of each entry
-- in use, so that it overlaps none, and the entry is as it was.
pub add-disjoint :
    {m m' : Memory} (name : Name) (size offset i : ℕ)
    → IsValid m
    → add (some m) (some name) size ≡ (some m', ok offset)
    → i < m.header.entry_count
    → ((m.entries i).offset + (m.entries i).size ≤ offset) × (m'.entries i ≡ m.entries i)
unfolding append_entry
add-disjoint {m} {m'} name size offset i v h lt =
    let (pos, r, e) = add-ok name size offset h in
    let (lo, hi, al) = align_up_bounds m.header.next_offset v.next_in in
    (omega (arith, r.aligned_next, (v.region i lt).allocated), rw e (ground arith))

-- After a successful zeroipc_table_add on a valid table, zeroipc_table_find gives the new name the
-- offset and the size of its region, and every other name what it gave before.
pub find-add :
    {m m' : Memory} (name other : Name) (size offset : ℕ)
    → IsValid m
    → add (some m) (some name) size ≡ (some m', ok offset)
    → find (some m') (some other) ≡ (
        if name_eq name other
        then ok (record { offset = offset; size = size })
        else find (some m) (some other))
unfolding find
find-add {m} name other size offset v h =
    let (pos, r, e) = add-ok name size offset h in
    rw e (find_named-append m name other size offset v r)
