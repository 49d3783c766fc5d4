-- ===== src/Map/Lookup.antt =====
-- What `find` of the hash table answers.
use zeroipc.Base.{ℕ, ◌<◌, ◌≡◌, Option, none, some, arith, refl, sym, ap, ◌∙◌}
use zeroipc.Map.{Map, find}
use zeroipc.Map.Valid.{Entry, IsValid}
use zeroipc.Map.Scan.{find_present, find_from-some}

module _ {V : Type 0} (m : Map V) (key : ℕ) where
  -- An entry is found.
  pub find_entry : (index : ℕ) → IsValid m → Entry m key index → find m key ≡ some (m.value index)
  unfolding find
  find_entry index v en =
      let r = v.reached key index en in
      find_present m key index r.0 v en r.1 m.capacity 0 (omega arith) (omega (arith, r.1.short))

  -- What is found is an entry.
  pub find-some :
      {value : V}
      → 0 < m.capacity
      → find m key ≡ some value
      → (index : ℕ) × Entry m key index × (m.value index ≡ value)
  unfolding find
  find-some pos h = find_from-some m key m.capacity 0 pos h

  -- Without an entry nothing is found.
  pub find-none : 0 < m.capacity → ((index : ℕ) → ¬ Entry m key index) → find m key ≡ none
  find-none pos absent = go (find m key) refl
    where
      go : (o : Option V) → find m key ≡ o → find m key ≡ none
      go none h = h
      go (some value) h = let f = find-some pos h in absurd (absent f.0 f.1)

-- Two tables with the same entries of a key answer the same.
pub find_same :
    {V : Type 0} (m n : Map V) (key : ℕ)
    → IsValid m
    → IsValid n
    → 0 < m.capacity
    → 0 < n.capacity
    → ((index : ℕ) → Entry m key index → Entry n key index × (n.value index ≡ m.value index))
    → ((index : ℕ) → Entry n key index → Entry m key index)
    → find n key ≡ find m key
find_same {V} m n key v w pos pos' to from = go (find m key) refl
  where
    go : (o : Option V) → find m key ≡ o → find n key ≡ find m key
    go none h =
        find-none n key pos'
          (λ index en. absurd (none-some (sym h ∙ find_entry m key index v (from index en))))
        ∙ sym h
      where
        none-some : {value : V} → ¬ (none ≡ some value)
        none-some q = absurd (ground (arith, q))
    go (some value) h =
        let f = find-some m key pos h in
        let e = to f.0 f.1 in find_entry n key f.0 w e.0 ∙ ap some (e.1 ∙ f.2) ∙ sym h
