-- ===== src/Map/Calls.antt =====
-- What `insert` and `erase` of the hash table promise.
use zeroipc.Base.{
  ℕ, ◌<◌, ◌≡◌, ◌≢◌, Bool, true, false, Option, none, some, arith, refl, sym, ap, ◌∙◌, subst, update,
  sub32, inl, inr, ◌⊎◌,
}
use zeroipc.Map.{
  Map, Found, present, claim, map_full, trivial_hash, scan, write_found, insert, find, erase_from,
  erase, slot_at, slot_deleted, slot_occupied, slot_inserting,
}
use zeroipc.Map.Valid.{Entry, IsValid}
use zeroipc.Map.Scan.{scan-present, erase_present, erase_from-some}
use zeroipc.Map.Sound.{IsSound, scan-IsSound}
use zeroipc.Map.Lookup.{find-none, find_same}
use zeroipc.Map.Changes.{Written, Erased, write_present, write_claim, reach_on}

module _ {V : Type 0} where
  -- Where the scan does not end at the key, no slot has it.
  pub absent_by_scan :
      (m : Map V) (key : ℕ) {f : Found}
      → IsValid m
      → scan m (trivial_hash key) key none 0 m.capacity ≡ f
      → ((x : ℕ) → f ≢ present x)
      → (i : ℕ) → ¬ Entry m key i
  absent_by_scan m key v e other i en =
      let r = v.reached key i en in
      other i (
        sym e
        ∙ scan-present m key i r.0 v en r.1 m.capacity 0 none (omega arith)
            (omega (arith, r.1.short)))

  pub scan_whole-IsSound :
      (m : Map V) (key : ℕ) {f : Found}
      → IsValid m
      → 0 < m.capacity
      → scan m (trivial_hash key) key none 0 m.capacity ≡ f
      → IsSound m key f
  scan_whole-IsSound m key v pos e =
      subst (λ y. IsSound m key y) e
        (scan-IsSound m key m.capacity 0 none pos v.known (omega arith)
          (λ i lt. absurd (omega arith)) (λ i lt. absurd (omega arith)))

  -- The key with its value, or no room.
  pub insert-Written :
      (m : Map V) (key : ℕ) (value : V)
      → 0 < m.capacity
      → IsValid m
      → (((insert m key value).1 ≡ true) × Written m key value (insert m key value).0
          ⊎ (insert m key value ≡ (m, false)) × (find m key ≡ none) × IsSound m key map_full)
  unfolding insert write_found
  insert-Written m key value pos v = go (scan m (trivial_hash key) key none 0 m.capacity) refl
    where
      Goal : Map V × Bool → Type 0
      Goal o =
          (o.1 ≡ true) × Written m key value o.0
          ⊎ (o ≡ (m, false)) × (find m key ≡ none) × IsSound m key map_full

      go :
          (f : Found)
          → scan m (trivial_hash key) key none 0 m.capacity ≡ f
          → Goal (write_found m key value (scan m (trivial_hash key) key none 0 m.capacity))
      go (present x) e =
          subst (λ y. Goal (write_found m key value y)) (sym e)
            (inl (refl, write_present m key value pos v x (scan_whole-IsSound m key v pos e)))
      go (claim x expected) e =
          let s = scan_whole-IsSound m key v pos e in
          subst (λ y. Goal (write_found m key value y)) (sym e)
            (inl (
              ground (arith, s.0),
              write_claim m key value pos v x expected s.0 s.1 s.2
                  (absent_by_scan m key v e (λ y q. absurd (ground (arith, q)))),
            ))
      go map_full e =
          subst (λ y. Goal (write_found m key value y)) (sym e)
            (inr (
              refl,
              find-none m key pos (absent_by_scan m key v e (λ y q. absurd (ground (arith, q)))),
              scan_whole-IsSound m key v pos e,
            ))

  -- The slot of an entry is given up.
  delete_entry :
      (m : Map V) (key x : ℕ)
      → 0 < m.capacity
      → IsValid m
      → Entry m key x
      → Erased m key (record m { state = update m.state x slot_deleted; size = sub32 m.size 1 })
  delete_entry m key x pos v en = (valid, find-none n key pos gone, others)
    where
      n : Map V
      n = record m { state = update m.state x slot_deleted; size = sub32 m.size 1 }

      back : (k i : ℕ) → Entry n k i → (i ≢ x) × Entry m k i
      back k i e =
          let ne : i ≢ x = λ q. ground (arith, q, e.occupied) in
          (
            ne,
            record {
              within = e.within;
              occupied = ground (arith, ne, e.occupied);
              bears = e.bears;
            },
          )

      gone : (i : ℕ) → ¬ Entry n key i
      gone i e = let b = back key i e in b.0 (v.unique key i x b.1 en)

      valid : IsValid n
      valid = record {
        known = λ i lt. ground (arith, v.known i lt);
        unique = λ k a b ea eb. v.unique k a b (back k a ea).1 (back k b eb).1;
        reached = λ k i e.
            let r = v.reached k i (back k i e).1 in
            (r.0, reach_on m n k i r.0 refl (λ j q. ground (arith, q)) r.1);
      }

      others : (k : ℕ) → k ≢ key → find n k ≡ find m k
      others k ne =
          find_same m n k v valid pos pos
            (λ i e.
              let nx : i ≢ x = λ q. ne (sym e.bears ∙ ap m.key q ∙ en.bears) in
              (
                record {
                  within = e.within;
                  occupied = ground (arith, nx, e.occupied);
                  bears = e.bears;
                },
                refl,
              ))
            (λ i e. (back k i e).1)

  -- The key is gone, or was not there.
  pub erase-Erased :
      (m : Map V) (key : ℕ)
      → 0 < m.capacity
      → IsValid m
      → (((erase m key).1 ≡ true) × Erased m key (erase m key).0
          ⊎ (erase m key ≡ (m, false)) × (find m key ≡ none))
  unfolding erase
  erase-Erased m key pos v = go (erase_from m (trivial_hash key) key 0 m.capacity) refl
    where
      Goal : Map V × Bool → Type 0
      Goal o = (o.1 ≡ true) × Erased m key o.0 ⊎ (o ≡ (m, false)) × (find m key ≡ none)

      go :
          (o : Option ℕ)
          → erase_from m (trivial_hash key) key 0 m.capacity ≡ o
          → Goal (elim (erase_from m (trivial_hash key) key 0 m.capacity) [
            | none ↦ (m, false)
            | some index ↦ (
              record m { state = update m.state index slot_deleted; size = sub32 m.size 1 },
              true,
            )
          ])
      go none e =
          subst
            (λ y. Goal (elim y [
              | none ↦ (m, false)
              | some index ↦ (
                record m { state = update m.state index slot_deleted; size = sub32 m.size 1 },
                true,
              )
            ]))
            (sym e)
            (inr (
              refl,
              find-none m key pos (λ i en.
                  let r = v.reached key i en in
                  absurd (
                    ground (
                      arith,
                      e,
                      erase_present m key i r.0 v en r.1 m.capacity 0 (omega arith)
                          (omega (arith, r.1.short)),
                    ))),
            ))
      go (some x) e =
          subst
            (λ y. Goal (elim y [
              | none ↦ (m, false)
              | some index ↦ (
                record m { state = update m.state index slot_deleted; size = sub32 m.size 1 },
                true,
              )
            ]))
            (sym e)
            (inl (refl, delete_entry m key x pos v (erase_from-some m key m.capacity 0 pos e)))

  -- On a valid table with a capacity, an insert of a key either returns true, and leaves a valid table
  -- in which that key has the new value and any other key what it had; or it returns false, changes
  -- nothing, the key was not in the table, and the slot of any probe of the key is neither empty nor
  -- deleted: it is occupied, or stuck in INSERTING.
  pub find-insert :
      (m : Map V) (key other : ℕ) (value : V) (probe : ℕ)
      → 0 < m.capacity
      → IsValid m
      → other ≢ key
      → probe < m.capacity
      → (((insert m key value).1 ≡ true)
            × IsValid (insert m key value).0
            × (find (insert m key value).0 key ≡ some value)
            × (find (insert m key value).0 other ≡ find m other)
          ⊎ (insert m key value ≡ (m, false))
            × (find m key ≡ none)
            × ((m.state (slot_at m (trivial_hash key) probe) ≡ slot_occupied)
                ⊎ (m.state (slot_at m (trivial_hash key) probe) ≡ slot_inserting)))
  find-insert m key other value probe pos v ne lt = elim (insert-Written m key value pos v) [
    | inl (done, (valid, here, others)) ↦ inl (done, valid, here, others other ne)
    | inr (same, missing, full) ↦ inr (same, missing, full probe lt)
  ]

  -- On a valid table with a capacity, an erase of a key either returns true, and leaves a valid table
  -- without that key and with what it had for any other key; or it returns false, changes nothing, and
  -- the key was not in the table.
  pub find-erase :
      (m : Map V) (key other : ℕ)
      → 0 < m.capacity
      → IsValid m
      → other ≢ key
      → (((erase m key).1 ≡ true)
            × IsValid (erase m key).0
            × (find (erase m key).0 key ≡ none)
            × (find (erase m key).0 other ≡ find m other)
          ⊎ (erase m key ≡ (m, false)) × (find m key ≡ none))
  find-erase m key other pos v ne = elim (erase-Erased m key pos v) [
    | inl (done, (valid, gone, others)) ↦ inl (done, valid, gone, others other ne)
    | inr missing ↦ inr missing
  ]
