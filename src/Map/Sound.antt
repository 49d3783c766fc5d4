-- ===== src/Map/Sound.antt =====
-- The slot that the scan of `insert` comes to is fit for the key.
use zeroipc.Base.{
  ◌⊎◌, ℕ, zero, suc, ◌+◌, ◌≤◌, ◌<◌, ◌≡◌, ◌≢◌, Bool, true, false, Option, none, some, arith, refl,
  if◌then◌else◌, ◌==◌, ℕ_discrete, sym, ap, ◌∙◌, subst,
}
use zeroipc.Map.{
  Map, Found, present, claim, map_full, trivial_hash, scan, target, first_deleted, slot_empty,
  slot_occupied, slot_deleted, slot_inserting,
}
use zeroipc.Map.Valid.{Entry, Reached, slot_at-lt}
use zeroipc.Map.Scan.{at, scan_step}

if_elim :
    {A : Type 0} (P : A → Type 0) (b : Bool) (x y : A)
    → (b ≡ true → P x)
    → (b ≡ false → P y)
    → P (if b then x else y)
if_elim P true x y f g = f refl
if_elim P false x y f g = g refl

module _ {V : Type 0} (m : Map V) (key : ℕ) where
  -- What the scan of `insert` says of the slot that it gives.
  abbrev pub IsSound : Found → Type 0
  IsSound (present index) = Entry m key index
  IsSound (claim index expected) =
      (m.state index ≡ expected) × (expected ≢ slot_occupied) × ((d : ℕ) × Reached m key index d)
  IsSound map_full =
      (e : ℕ)
      → e < m.capacity
      → (m.state (at m key e) ≡ slot_occupied) ⊎ (m.state (at m key e) ≡ slot_inserting)

  -- What has been seen of deleted slots before probe `i`.
  abbrev IsDeleted : ℕ → Option ℕ → Type 0
  IsDeleted i none = (e : ℕ) → e < i → m.state (at m key e) ≢ slot_deleted
  IsDeleted i (some x) = (m.state x ≡ slot_deleted) × ((d : ℕ) × Reached m key x d)

  target_full :
      (deleted : Option ℕ)
      → 0 < m.capacity
      → ((i : ℕ) → i < m.capacity → m.state i ≤ slot_inserting)
      → ((e : ℕ) → e < m.capacity → m.state (at m key e) ≢ slot_empty)
      → IsDeleted m.capacity deleted
      → IsSound (target deleted none)
  unfolding target
  target_full none pos known passed h = λ e lt.
      ground
        (arith, known (at m key e) (slot_at-lt m (trivial_hash key) e pos), passed e lt, h e lt)
  target_full (some x) pos known passed h = (h.0, omega arith, h.1)

  target_empty :
      (i : ℕ) (deleted : Option ℕ) (x : ℕ)
      → IsDeleted i deleted
      → m.state x ≡ slot_empty
      → ((d : ℕ) × Reached m key x d)
      → IsSound (target deleted (some x))
  unfolding target
  target_empty i none x h e r = (e, omega arith, r)
  target_empty i (some y) x h e r = (h.0, omega arith, h.1)

  passed_next :
      (out : ℕ) (i : ℕ)
      → ((e : ℕ) → e < i → m.state (at m key e) ≢ out)
      → m.state (at m key i) ≢ out
      → (e : ℕ) → e < i + 1
      → m.state (at m key e) ≢ out
  passed_next out i passed this e lt = elim (ℕ_discrete e i) [
    | yes q ↦ λ h. this (sym (ap (λ k. m.state (at m key k)) q) ∙ h)
    | no ne ↦ passed e (omega arith)
  ]

  IsDeleted-next :
      (i : ℕ) (deleted : Option ℕ) (x : ℕ)
      → IsDeleted i deleted
      → m.state x ≡ slot_deleted
      → ((d : ℕ) × Reached m key x d)
      → IsDeleted (i + 1) (first_deleted deleted x)
  unfolding first_deleted
  IsDeleted-next i none x h e r = (e, r)
  IsDeleted-next i (some y) x h e r = h

  -- A probe that is not deleted leaves the first deleted slot.
  IsDeleted-keep :
      (i : ℕ) (deleted : Option ℕ)
      → IsDeleted i deleted
      → m.state (at m key i) ≢ slot_deleted
      → IsDeleted (i + 1) deleted
  IsDeleted-keep i none h ne = passed_next slot_deleted i h ne
  IsDeleted-keep i (some y) h ne = h

  pub scan-IsSound :
      (n i : ℕ) (deleted : Option ℕ)
      → 0 < m.capacity
      → ((i : ℕ) → i < m.capacity → m.state i ≤ slot_inserting)
      → i + n ≡ m.capacity
      → ((e : ℕ) → e < i → m.state (at m key e) ≢ slot_empty)
      → IsDeleted i deleted
      → IsSound (scan m (trivial_hash key) key deleted i n)
  unfolding scan
  scan-IsSound zero i deleted pos known le passed old =
      let all : i ≡ m.capacity = omega (arith, le) in
      target_full deleted pos known (λ e lt. passed e (omega (arith, all, lt)))
        (subst (λ c. IsDeleted c deleted) all old)
  scan-IsSound (suc n) i deleted pos known le passed old =
      let further =
        λ (ne : m.state (at m key i) ≢ slot_empty) (nd : m.state (at m key i) ≢ slot_deleted).
          scan-IsSound n (i + 1) deleted pos known (omega arith)
            (passed_next slot_empty i passed ne) (IsDeleted-keep i deleted old nd) in
      let r : (d : ℕ) × Reached m key (at m key i) d =
        (i, record { short = omega arith; probe = refl; passed = passed }) in
      let rest = scan m (trivial_hash key) key deleted (i + 1) n in
      let past_deleted =
        scan m (trivial_hash key) key (first_deleted deleted (at m key i)) (i + 1) n in
      let claimed = target deleted (some (at m key i)) in
      let on_key = if m.key (at m key i) == key then present (at m key i) else rest in
      let free = if m.state (at m key i) == slot_deleted then past_deleted else claimed in
      let in_range : m.state (at m key i) ≤ slot_inserting =
        known (at m key i) (slot_at-lt m (trivial_hash key) i pos) in
      let by_key : m.state (at m key i) ≡ slot_occupied → IsSound on_key = λ occ.
        if_elim IsSound (m.key (at m key i) == key) (present (at m key i)) rest
          (λ k. record {
            within = slot_at-lt m (trivial_hash key) i pos;
            occupied = occ;
            bears = ground (arith, k);
          })
          (λ k. further (omega arith) (omega arith)) in
      let by_free : m.state (at m key i) ≢ slot_inserting
          → m.state (at m key i) ≢ slot_occupied
          → IsSound free =
        λ q occ.
          if_elim IsSound (m.state (at m key i) == slot_deleted) past_deleted claimed
            (λ del.
              scan-IsSound n (i + 1) (first_deleted deleted (at m key i)) pos known (omega arith)
                (passed_next slot_empty i passed (ground (arith, del)))
                (IsDeleted-next i deleted (at m key i) old (ground (arith, del)) r))
            (λ del.
              target_empty i deleted (at m key i) old (ground (arith, in_range, q, occ, del)) r) in
      subst IsSound (sym (scan_step m key deleted i n)) (
        if_elim IsSound (m.state (at m key i) == slot_inserting) rest
          (if m.state (at m key i) == slot_occupied then on_key else free)
          (λ q. further (ground (arith, q)) (ground (arith, q)))
          (λ q.
            if_elim IsSound (m.state (at m key i) == slot_occupied) on_key free
              (λ occ. by_key (ground (arith, occ)))
              (λ occ. by_free (ground (arith, q)) (ground (arith, occ)))))
