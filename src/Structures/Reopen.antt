-- ===== src/Structures/Reopen.antt =====
-- A structure that has been created is found again, and the others with it.
use zeroipc.Base.{
  ℕ, ◌+◌, ◌%◌, ◌^◌, ◌≤◌, ◌<◌, ◌≡◌, false, Option, none, some, update, Name, name_eq, name_eq_refl,
  arith, refl, Option-cases, update_self, inl, inr, ap, ◌∙◌,
}
use zeroipc.Table.{Memory, Region, append_entry, add, find, find_named, index_of}
use zeroipc.Table.Errors.{ok}
use zeroipc.Table.Valid.{IsValid}
use zeroipc.Table.Search.{search_from-some}
use zeroipc.Table.Add.{find-add, add-region, add-disjoint, add-ok}
use zeroipc.CppTable.{
  Table, Error, Outcome, returned, thrown, allocate, find_region, find_entry, ptr_at,
}
use zeroipc.CppTable.Allocate.{IsOver, allocate-add}
use zeroipc.Structures.{Shared, construct, construct_sized, put_header, attach, checked_header}

-- Memory::find beside zeroipc_table_find.
find_region-of_find :
    (m : Memory) (name : Name) {r : Region}
    → find (some m) (some name) ≡ ok r
    → find_region m name ≡ some r
unfolding find find_named find_region find_entry
find_region-of_find m name h = ground (arith, h)

find_region-congr :
    (m m' : Memory) (name : Name)
    → find (some m') (some name) ≡ find (some m) (some name)
    → find_region m' name ≡ find_region m name
unfolding find find_named find_region find_entry
find_region-congr m m' name h = ground (arith, h)

size-add :
    (m m' : Memory) (name : Name) (size offset : ℕ)
    → add (some m) (some name) size ≡ (some m', ok offset)
    → m'.size ≡ m.size
unfolding append_entry
size-add m m' name size offset h = let (pos, r, e) = add-ok name size offset h in rw e refl

-- A region that is found lies in front of a new one.
find_region-before :
    {m m' : Memory} (name other : Name) (size offset : ℕ) {r : Region}
    → IsValid m
    → add (some m) (some name) size ≡ (some m', ok offset)
    → find_region m other ≡ some r
    → r.offset < offset
unfolding find_region find_entry index_of
find_region-before {m} {m'} name other size offset v h e = elim (Option-cases (index_of m other)) [
  | inl absent ↦ absurd (ground (arith, absent, e))
  | inr (k, found) ↦
      let (lo, hi, named) = search_from-some m.entries other 0 m.header.entry_count k found in
      let (apart, same) = add-disjoint name size offset k v h (omega arith) in
      ground (arith, found, e, apart, (v.region k (omega arith)).nonempty)
]

module _ {H : Type 0} where
  put_header-returned :
      (header_bytes : ℕ) (h : H) (s : Shared H) (p : Memory × Outcome ℕ) {s' : Shared H}
      {offset : ℕ}
      → put_header header_bytes h s p ≡ (s', returned offset)
      → (p ≡ (s'.memory, returned offset))
        × (s'.headers ≡ update s.headers offset h)
        × (ptr_at s'.memory.size header_bytes offset ≡ returned offset)
  unfolding put_header ptr_at
  put_header-returned header_bytes h s (m, thrown e) q = ground arith
  put_header-returned header_bytes h s (m, returned p) q = ground arith

  attach-of_region :
      (name : Name) (header_bytes : ℕ) (check : H → Option Error) (s : Shared H) (r : Region)
      → find_region s.memory name ≡ some r
      → ptr_at s.memory.size header_bytes r.offset ≡ returned r.offset
      → check (s.headers r.offset) ≡ none
      → attach name header_bytes check s ≡ returned (r.offset, s.headers r.offset)
  unfolding attach checked_header
  attach-of_region name header_bytes check s r e at fine = ground (arith, e, at, fine)

  -- Where the table gives the same region and its header has stayed, opening gives the same.
  attach-congr :
      (name : Name) (header_bytes : ℕ) (check : H → Option Error) (s s' : Shared H)
      → find_region s'.memory name ≡ find_region s.memory name
      → s'.memory.size ≡ s.memory.size
      → ((r : Region)
          → find_region s.memory name ≡ some r
          → s'.headers r.offset ≡ s.headers r.offset)
      → attach name header_bytes check s' ≡ attach name header_bytes check s
  unfolding attach checked_header ptr_at
  attach-congr name header_bytes check s s' e sized kept =
      elim (Option-cases (find_region s.memory name)) [
        | inl none_there ↦ ground (arith, e, none_there)
        | inr (r, there) ↦ ground (arith, e, there, sized, kept r there)
      ]

  module _ {t : Table} (s : Shared H) (v : IsValid s.memory) (over : IsOver t s.memory) where
    -- What a constructor that creates has made, one that opens finds, inside the segment.
    pub attach-construct :
        (name : Name) (header_bytes total offset : ℕ) (h : H) (check : H → Option Error)
        {s' : Shared H}
        → 0 < total
        → total < 2 ^ 64
        → check h ≡ none
        → construct t name header_bytes total h s ≡ (s', returned offset)
        → (attach name header_bytes check s' ≡ returned (offset, h))
          × (offset % 8 ≡ 0)
          × (offset + total ≤ s'.memory.size)
    unfolding construct
    attach-construct name header_bytes total offset h check {s'} positive small fine e =
        let (made, put, at) =
          put_header-returned header_bytes h s (allocate t s.memory name total) e in
        let added = (allocate-add name total offset v over positive small).0 made in
        let found : find (some s'.memory) (some name)
            ≡ ok (record { offset = offset; size = total }) =
          find-add name name total offset v added ∙ rw (name_eq_refl name) refl in
        let stored : s'.headers offset ≡ h =
          ap (λ f. f offset) put ∙ update_self s.headers offset h in
        let (aligned, behind, inside, next) = add-region name total offset v added in
        (
          attach-of_region name header_bytes check s' (record { offset = offset; size = total })
                (find_region-of_find s'.memory name found) at (ap check stored ∙ fine)
              ∙ ap (λ k. returned (offset, k)) stored,
          aligned,
          rw (size-add s.memory s'.memory name total offset added) inside,
        )

    -- A structure with another name is found as before.
    pub attach_others :
        (name other : Name) (header_bytes total offset : ℕ) (h : H) {s' : Shared H}
        (other_bytes : ℕ) (check : H → Option Error)
        → 0 < total
        → total < 2 ^ 64
        → name_eq name other ≡ false
        → construct t name header_bytes total h s ≡ (s', returned offset)
        → attach other other_bytes check s' ≡ attach other other_bytes check s
    unfolding construct
    attach_others name other header_bytes total offset h {s'} other_bytes check positive small ne
          e =
        let (made, put, at) =
          put_header-returned header_bytes h s (allocate t s.memory name total) e in
        let added = (allocate-add name total offset v over positive small).0 made in
        attach-congr other other_bytes check s s'
          (find_region-congr s.memory s'.memory other
            (find-add name other total offset v added ∙ rw ne refl))
          (size-add s.memory s'.memory name total offset added)
          (λ r there.
            let before = find_region-before name other total offset v added there in
            ap (λ f. f r.offset) put ∙ ground arith)

    -- A constructor that returns has a size, and what it has made is found again in a region of that size.
    pub attach-construct_sized :
        (sized : Outcome ℕ) (name : Name) (header_bytes offset : ℕ) (h : H)
        (check : H → Option Error) {s' : Shared H}
        → ((total : ℕ) → sized ≡ returned total → (0 < total) × (total < 2 ^ 64))
        → check h ≡ none
        → construct_sized sized t name header_bytes h s ≡ (s', returned offset)
        → (total : ℕ) × (sized ≡ returned total)
          × (attach name header_bytes check s' ≡ returned (offset, h))
          × (offset + total ≤ s'.memory.size)
    unfolding construct_sized
    attach-construct_sized (thrown x) name header_bytes offset h check fit fine e =
        absurd (ground (arith, e))
    attach-construct_sized (returned total) name header_bytes offset h check fit fine e =
        let (positive, small) = fit total refl in
        let (opened, aligned, inside) =
          attach-construct name header_bytes total offset h check positive small fine e in
        (total, refl, opened, inside)
