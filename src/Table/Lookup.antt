-- ===== src/Table/Lookup.antt =====
-- What zeroipc_table_find returns on a table with distinct names, by the entry that bears the name.
use zeroipc.Base.{ℕ, ◌<◌, ◌≡◌, ◌≢◌, none, some, arith, Name, sym, ◌∙◌, ◌⊎◌, inl, inr, Option-cases}
use zeroipc.Table.{Memory, region_of, index_of, find_named}
use zeroipc.Table.Errors.{ok, err, error_not_found}
use zeroipc.Table.Search.{search_from-none, search_from-some, search_from_first, search_from_absent}
use zeroipc.Table.Valid.{IsValid}

module _ {m : Memory} (v : IsValid m) (name : Name) where
  index_of_at :
      (k : ℕ) → k < m.header.entry_count → (m.entries k).name ≡ name → index_of m name ≡ some k
  unfolding index_of
  index_of_at k hk e =
      search_from_first m.entries name 0 m.header.entry_count k (omega arith) (omega arith) e
        (λ j p q e'. v.unique j k q hk (e' ∙ sym e))

  index_of_absent :
      ((k : ℕ) → k < m.header.entry_count → (m.entries k).name ≢ name) → index_of m name ≡ none
  unfolding index_of
  index_of_absent ne =
      search_from_absent m.entries name 0 m.header.entry_count (λ j p q. ne j (omega arith))

  pub find_named_at :
      (k : ℕ)
      → k < m.header.entry_count
      → (m.entries k).name ≡ name
      → find_named m name ≡ ok (region_of (m.entries k))
  unfolding find_named
  find_named_at k hk e = rw (index_of_at k hk e, find_named)

  pub find_named_absent :
      ((k : ℕ) → k < m.header.entry_count → (m.entries k).name ≢ name)
      → find_named m name ≡ err error_not_found
  unfolding find_named
  find_named_absent ne = rw (index_of_absent ne, find_named)

  -- Either some entry in use bears the name, or none does.
  pub name-cases :
      ((k : ℕ) × (k < m.header.entry_count) × ((m.entries k).name ≡ name))
      ⊎ ((k : ℕ) → k < m.header.entry_count → (m.entries k).name ≢ name)
  unfolding index_of
  name-cases = elim (Option-cases (index_of m name)) [
    | inl e ↦ inr (λ k hk.
        search_from-none m.entries name 0 m.header.entry_count k e (omega arith) (omega arith))
    | inr (k, e) ↦
        let (lo, hi, named) = search_from-some m.entries name 0 m.header.entry_count k e in
        inl (k, omega arith, named)
  ]
