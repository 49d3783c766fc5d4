-- ===== src/Map/Scan.antt =====
-- What the loops of the map functions come to.
use zeroipc.Base.{
  ℕ, zero, suc, ◌+◌, ◌≤◌, ◌<◌, ◌≡◌, ◌&&◌, Option, none, some, arith, if◌then◌else◌, ◌==◌,
  ℕ_discrete, sym, ap, ◌∙◌, subst, Bool-cases, inl, inr,
}
use zeroipc.Map.{
  Map, present, slot_at, trivial_hash, scan, target, first_deleted, find_from, erase_from,
  slot_empty, slot_occupied, slot_deleted, slot_inserting,
}
use zeroipc.Map.Valid.{Entry, Reached, IsValid, slot_at-lt, settle_max}

module _ {V : Type 0} (m : Map V) (key : ℕ) where
  abbrev pub at : ℕ → ℕ
  at i = slot_at m (trivial_hash key) i

  pub scan_step :
      (deleted : Option ℕ) (i n : ℕ)
      → scan m (trivial_hash key) key deleted i (suc n) ≡ (
          if m.state (at i) == slot_inserting
          then scan m (trivial_hash key) key deleted (i + 1) n
          else if m.state (at i) == slot_occupied
          then (if m.key (at i) == key
              then present (at i)
              else scan m (trivial_hash key) key deleted (i + 1) n)
          else if m.state (at i) == slot_deleted
          then scan m (trivial_hash key) key (first_deleted deleted (at i)) (i + 1) n
          else target deleted (some (at i)))
  unfolding scan
  scan_step deleted i n = ground (arith, settle_max (m.state (at i)))

  pub find_step :
      (i n : ℕ)
      → find_from m (trivial_hash key) key i (suc n) ≡ (
          if m.state (at i) == slot_empty
          then none
          else if m.state (at i) == slot_occupied && m.key (at i) == key
          then some (m.value (at i))
          else find_from m (trivial_hash key) key (i + 1) n)
  unfolding find_from
  find_step i n = ground (arith, settle_max (m.state (at i)))

  pub erase_step :
      (i n : ℕ)
      → erase_from m (trivial_hash key) key i (suc n) ≡ (
          if m.state (at i) == slot_empty
          then none
          else if m.state (at i) == slot_occupied && m.key (at i) == key
          then some (at i)
          else erase_from m (trivial_hash key) key (i + 1) n)
  unfolding erase_from
  erase_step i n = ground (arith, settle_max (m.state (at i)))

  -- Where the key is, each of the loops comes to it.
  module _ (index d : ℕ) (v : IsValid m) (en : Entry m key index) (r : Reached m key index d) where
    same :
        (i : ℕ)
        → i < m.capacity
        → m.state (at i) ≡ slot_occupied
        → m.key (at i) ≡ key
        → at i ≡ index
    same i lt occ k =
        v.unique key (at i) index
          (record {
            within = slot_at-lt m (trivial_hash key) i (omega arith);
            occupied = occ;
            bears = k;
          })
          en

    pub scan-present :
        (n i : ℕ) (deleted : Option ℕ)
        → i ≤ d
        → d < i + n
        → scan m (trivial_hash key) key deleted i n ≡ present index
    scan-present zero i deleted lo hi = absurd (omega arith)
    scan-present (suc n) i deleted lo hi = scan_step deleted i n ∙ elim (ℕ_discrete i d) [
      | yes e ↦
          let here : at i ≡ index = ap at e ∙ r.probe in
          ground (arith, here, en.occupied, en.bears, ap m.state here, ap m.key here)
      | no ne ↦ ground (
        arith,
        r.passed i (omega arith),
        same i (omega (arith, r.short)),
        v.known (at i) (slot_at-lt m (trivial_hash key) i (omega (arith, r.short))),
        scan-present n (i + 1) deleted (omega arith) (omega arith),
        scan-present n (i + 1) (first_deleted deleted (at i)) (omega arith) (omega arith),
      )
    ]

    pub find_present :
        (n i : ℕ)
        → i ≤ d
        → d < i + n
        → find_from m (trivial_hash key) key i n ≡ some (m.value index)
    find_present zero i lo hi = absurd (omega arith)
    find_present (suc n) i lo hi = find_step i n ∙ elim (ℕ_discrete i d) [
      | yes e ↦
          let here : at i ≡ index = ap at e ∙ r.probe in
          ground
            (arith, here, en.occupied, en.bears, ap m.state here, ap m.key here, ap m.value here)
      | no ne ↦ ground (
        arith,
        r.passed i (omega arith),
        same i (omega (arith, r.short)),
        find_present n (i + 1) (omega arith) (omega arith),
        ap m.value {x = at i} {y = index},
      )
    ]

    pub erase_present :
        (n i : ℕ) → i ≤ d → d < i + n → erase_from m (trivial_hash key) key i n ≡ some index
    erase_present zero i lo hi = absurd (omega arith)
    erase_present (suc n) i lo hi = erase_step i n ∙ elim (ℕ_discrete i d) [
      | yes e ↦
          let here : at i ≡ index = ap at e ∙ r.probe in
          ground (arith, here, en.occupied, en.bears, ap m.state here, ap m.key here)
      | no ne ↦ ground (
        arith,
        r.passed i (omega arith),
        same i (omega (arith, r.short)),
        erase_present n (i + 1) (omega arith) (omega arith),
      )
    ]

  -- What the loops find is there.
  pub find_from-some :
      (n i : ℕ) {value : V}
      → 0 < m.capacity
      → find_from m (trivial_hash key) key i n ≡ some value
      → (index : ℕ) × Entry m key index × (m.value index ≡ value)
  unfolding find_from
  find_from-some zero i pos h = absurd (ground (arith, h))
  find_from-some (suc n) i {value} pos h =
      subst (λ o. o ≡ some value → (index : ℕ) × Entry m key index × (m.value index ≡ value))
        (sym (find_step i n))
        (λ q. elim (Bool-cases (m.state (at i) == slot_occupied && m.key (at i) == key)) [
          | inl hit ↦ (
            at i,
            record {
              within = slot_at-lt m (trivial_hash key) i pos;
              occupied = ground (arith, hit);
              bears = ground (arith, hit);
            },
            ground (arith, hit, q),
          )
          | inr miss ↦ find_from-some n (i + 1) pos (ground (arith, miss, q))
        ])
        h

  pub erase_from-some :
      (n i : ℕ) {index : ℕ}
      → 0 < m.capacity
      → erase_from m (trivial_hash key) key i n ≡ some index
      → Entry m key index
  unfolding erase_from
  erase_from-some zero i pos h = absurd (ground (arith, h))
  erase_from-some (suc n) i {index} pos h =
      subst (λ o. o ≡ some index → Entry m key index) (sym (erase_step i n))
        (λ q. elim (Bool-cases (m.state (at i) == slot_occupied && m.key (at i) == key)) [
          | inl hit ↦
              let here : at i ≡ index = ground (arith, hit, q) in
              subst (λ x. Entry m key x) here
                (record {
                  within = slot_at-lt m (trivial_hash key) i pos;
                  occupied = ground (arith, hit);
                  bears = ground (arith, hit);
                })
          | inr miss ↦ erase_from-some n (i + 1) pos (ground (arith, miss, q))
        ])
        h
