-- ===== src/Table/Remove.antt =====
-- zeroipc_table_remove: the entries that it moves, the invariant, and what is found afterwards.
use zeroipc.Base.{
  ℕ, zero, suc, ◌+◌, ◌-◌, ◌<◌, ◌≡◌, ◌≢◌, Option, none, some, inl, inr, arith, Option-cases,
  Bool-cases, refl, sym, ◌∙◌, ap, Name, name_eq, name_eq_iff, if◌then◌else◌, update, ltb, leb, ◌&&◌,
  dec_lt,
}
use zeroipc.Table.{
  Entry, Memory, region_of, index_of, remove_at, remove_named, remove, shift_from, find_named, find,
}
use zeroipc.Table.Errors.{ok, err, success, error_not_found}
use zeroipc.Table.Search.{search_from-some}
use zeroipc.Table.Lookup.{find_named_at, find_named_absent, name-cases}
use zeroipc.Table.Valid.{IsValid}

-- The loop moves each entry in its range one place down, and touches no other.
shift_from_lem :
    (entries : ℕ → Entry) (j n k : ℕ)
    → shift_from entries j n k ≡ (if leb j k && ltb k (j + n) then entries (k + 1) else entries k)
unfolding shift_from
shift_from_lem entries j zero k = ground arith
shift_from_lem entries j (suc n) k =
    ground (arith, shift_from_lem (update entries j (entries (j + 1))) (j + 1) n k)

module _ {m : Memory} (v : IsValid m) (i : ℕ) (lt : i < m.header.entry_count) where
  entry-remove_at :
      (k : ℕ)
      → k < m.header.entry_count - 1
      → (remove_at m i).entries k ≡ (if leb i k then m.entries (k + 1) else m.entries k)
  unfolding remove_at
  entry-remove_at k hk = ground (arith, shift_from_lem m.entries i (m.header.entry_count - 1 - i) k)

  -- The place in the old table of an entry of the new one.
  abbrev origin : ℕ → ℕ
  origin k = if leb i k then k + 1 else k

  entry_origin :
      (k : ℕ) → k < m.header.entry_count - 1 → (remove_at m i).entries k ≡ m.entries (origin k)
  entry_origin k hk = ground (arith, entry-remove_at k hk)

  count-remove_at : (remove_at m i).header.entry_count ≡ m.header.entry_count - 1
  unfolding remove_at
  count-remove_at = refl

  remove_at-IsValid : IsValid (remove_at m i)
  unfolding remove_at
  remove_at-IsValid = record {
    size_in = v.size_in;
    next_in = v.next_in;
    max_in = v.max_in;
    count_in = omega (arith, v.count_in);
    table_in = v.table_in;
    region = λ k hk. ground (arith, entry_origin k, v.region (origin k));
    ordered =
        λ a b h hb. ground (arith, entry_origin a, entry_origin b, v.ordered (origin a) (origin b));
    unique =
        λ a b h hb. ground (arith, entry_origin a, entry_origin b, v.unique (origin a) (origin b));
  }

  origin_in : (k : ℕ) → k < m.header.entry_count - 1 → origin k < m.header.entry_count
  origin_in k hk = ground arith

  entry_name :
      (k : ℕ)
      → k < m.header.entry_count - 1
      → ((remove_at m i).entries k).name ≡ (m.entries (origin k)).name
  entry_name k hk = ap (λ (e : Entry). e.name) (entry_origin k hk)

  origin_ne :
      (k : ℕ) → k < m.header.entry_count - 1 → (m.entries (origin k)).name ≢ (m.entries i).name
  origin_ne k hk = ground (arith, v.unique i (origin k), v.unique (origin k) i)

  find_moved :
      (other : Name) (k k' : ℕ)
      → k' < m.header.entry_count - 1
      → origin k' ≡ k
      → (m.entries k).name ≡ other
      → find_named (remove_at m i) other ≡ ok (region_of (m.entries k))
  unfolding remove_at
  find_moved other k k' hk e named =
      find_named_at remove_at-IsValid other k' hk
        (entry_name k' hk ∙ ap (λ o. (m.entries o).name) e ∙ named)
      ∙ ap (λ (a : Entry). ok (region_of a)) (entry_origin k' hk ∙ ap m.entries e)

  -- The name of the removed entry is not found any more; any other is found as before.
  find_named-remove_at :
      (other : Name)
      → find_named (remove_at m i) other
        ≡ (if name_eq (m.entries i).name other then err error_not_found else find_named m other)
  unfolding remove_at
  find_named-remove_at other = elim (Bool-cases (name_eq (m.entries i).name other)) [
    | inl e ↦
        let named : (m.entries i).name ≡ other = (name_eq_iff _ other).0 e in
        rw e (
          find_named_absent remove_at-IsValid other
            (λ k hk q. origin_ne k hk (sym (entry_name k hk) ∙ q ∙ sym named)))
    | inr e ↦ rw e (elim (name-cases v other) [
      | inl (k, hk, named) ↦
          let ne : k ≢ i = ground (arith, name_eq_iff (m.entries i).name other) in
          rw (find_named_at v other k hk named) (elim (dec_lt k i) [
            | yes below ↦ find_moved other k k (omega arith) (ground arith) named
            | no above ↦ find_moved other k (k - 1) (omega arith) (ground arith) named
          ])
      | inr absent ↦ rw (find_named_absent v other absent) (
          find_named_absent remove_at-IsValid other
            (λ k hk q. absent (origin k) (origin_in k hk) (sym (entry_name k hk) ∙ q)))
    ])
  ]

remove_named-none :
    (m : Memory) (name : Name) → index_of m name ≡ none → remove_named m name ≡ (m, error_not_found)
unfolding remove_named
remove_named-none m name e = rw (e, remove_named)

find_named-none :
    (m : Memory) (name : Name) → index_of m name ≡ none → find_named m name ≡ err error_not_found
unfolding find_named
find_named-none m name e = rw (e, find_named)

remove_named-some :
    (m : Memory) (name : Name) (i : ℕ)
    → index_of m name ≡ some i
    → remove_named m name ≡ (remove_at m i, success)
unfolding remove_named
remove_named-some m name i e = rw (e, remove_named)

index_of-some :
    (m : Memory) (name : Name) (i : ℕ)
    → index_of m name ≡ some i
    → (i < m.header.entry_count) × ((m.entries i).name ≡ name)
unfolding index_of
index_of-some m name i e =
    let (lo, hi, named) = search_from-some m.entries name 0 m.header.entry_count i e in
    (omega arith, named)

find_named-remove_named :
    {m : Memory} (v : IsValid m) (name other : Name)
    → find_named (remove_named m name).0 other
      ≡ (if name_eq name other then err error_not_found else find_named m other)
find_named-remove_named {m} v name other = elim (Option-cases (index_of m name)) [
  | inl e ↦ rw (remove_named-none m name e) (elim (Bool-cases (name_eq name other)) [
    | inl same ↦ rw (same, ← (name_eq_iff name other).0 same) (find_named-none m name e)
    | inr differs ↦ rw differs
  ])
  | inr (i, e) ↦
      let (lt, named) = index_of-some m name i e in
      rw (remove_named-some m name i e, ← named) (find_named-remove_at v i lt other)
]

-- zeroipc_table_remove keeps the invariant of the table, whether or not it finds the name, also
-- for a name that is NULL.
pub remove-IsValid :
    {m : Memory} (name : Option Name)
    → IsValid m
    → (m' : Memory) × ((remove (some m) name).0 ≡ some m') × IsValid m'
unfolding remove
remove-IsValid {m} none v = (m, refl, v)
remove-IsValid {m} (some name) v = elim (Option-cases (index_of m name)) [
  | inl e ↦ (m, ap some (ap (λ r. r.0) (remove_named-none m name e)), v)
  | inr (i, e) ↦
      let (lt, named) = index_of-some m name i e in
      (
        remove_at m i,
        ap some (ap (λ r. r.0) (remove_named-some m name i e)),
        remove_at-IsValid v i lt,
      )
]

-- After zeroipc_table_remove on a valid table, zeroipc_table_find does not find the removed name,
-- and gives every other name what it gave before.
pub find-remove :
    {m m' : Memory} (name other : Name)
    → IsValid m
    → (remove (some m) (some name)).0 ≡ some m'
    → find (some m') (some other)
      ≡ (if name_eq name other then err error_not_found else find (some m) (some other))
unfolding remove find
find-remove {m} {m'} name other v h =
    let removed : (remove_named m name).0 ≡ m' = cc in
    rw (← removed) (find_named-remove_named v name other)
