-- ===== src/Map/Changes.antt =====
-- What the calls that change the hash table do to it.
use zeroipc.Base.{
  ℕ, ◌+◌, ◌≤◌, ◌<◌, ◌≡◌, ◌≢◌, none, some, arith, refl, sym, ap, ◌∙◌, subst, update, ℕ_discrete, u32,
  update_self,
}
use zeroipc.Map.{
  Map, present, claim, slot_at, trivial_hash, write_found, find, slot_empty, slot_occupied,
  slot_inserting,
}
use zeroipc.Map.Valid.{Entry, Reached, IsValid, slot_at-lt}
use zeroipc.Map.Lookup.{find_entry, find_same}

module _ {V : Type 0} (m : Map V) (key : ℕ) where
  -- The map `n` is `m` with the key at the value.
  abbrev pub Written : V → Map V → Type 0
  Written value n =
      IsValid n × (find n key ≡ some value) × ((k : ℕ) → k ≢ key → find n k ≡ find m k)

  -- The map `n` is `m` without the key.
  abbrev pub Erased : Map V → Type 0
  Erased n = IsValid n × (find n key ≡ none) × ((k : ℕ) → k ≢ key → find n k ≡ find m k)

-- Probes that reach a slot go on to reach it where no slot becomes empty.
pub reach_on :
    {V : Type 0} (m n : Map V) (key index d : ℕ)
    → n.capacity ≡ m.capacity
    → ((i : ℕ) → n.state i ≡ slot_empty → m.state i ≡ slot_empty)
    → Reached m key index d
    → Reached n key index d
unfolding slot_at
reach_on m n key index d c keep r =
    let same : (e : ℕ) → slot_at n (trivial_hash key) e ≡ slot_at m (trivial_hash key) e =
      λ e. ground (arith, c) in
    record {
      short = omega (arith, c, r.short);
      probe = same d ∙ r.probe;
      passed = λ e lt q.
          r.passed e lt (keep (slot_at m (trivial_hash key) e) (sym (ap n.state (same e)) ∙ q));
    }

-- A table whose entries are the old ones, but for one key, and one slot `x` for that key.
module _ {V : Type 0} (m n : Map V) (key x : ℕ) (value : V) (pos : 0 < m.capacity) (v : IsValid m)
    (c : n.capacity ≡ m.capacity) (range : (i : ℕ) → i < m.capacity → n.state i ≤ slot_inserting)
    (keep : (i : ℕ) → n.state i ≡ slot_empty → m.state i ≡ slot_empty) (here : Entry n key x)
    (new : n.value x ≡ value) (way : (d : ℕ) × Reached m key x d)
    (only : (i : ℕ) → Entry n key i → i ≡ x)
    (back : (k i : ℕ) → k ≢ key → Entry n k i → Entry m k i)
    (on : (k i : ℕ) → k ≢ key → Entry m k i → Entry n k i × (n.value i ≡ m.value i)) where
  written : Written m key value n
  written = (valid, find_entry n key x valid here ∙ ap some new, others)
    where
      valid : IsValid n
      valid = record {
        known = λ i lt. range i (omega (arith, c, lt));
        unique = λ k a b ea eb. elim (ℕ_discrete k key) [
          | yes q ↦
              only a (subst (λ y. Entry n y a) q ea) ∙ sym (only b (subst (λ y. Entry n y b) q eb))
          | no ne ↦ v.unique k a b (back k a ne ea) (back k b ne eb)
        ];
        reached = λ k i e. elim (ℕ_discrete k key) [
          | yes q ↦
              let p : x ≡ i = sym (only i (subst (λ y. Entry n y i) q e)) in
              subst (λ y. (d : ℕ) × Reached n k y d) p
                (
                  way.0,
                  subst (λ y. Reached n y x way.0) (sym q) (reach_on m n key x way.0 c keep way.1),
                )
          | no ne ↦ let r = v.reached k i (back k i ne e) in (r.0, reach_on m n k i r.0 c keep r.1)
        ];
      }

      others : (k : ℕ) → k ≢ key → find n k ≡ find m k
      others k ne =
          find_same m n k v valid pos (omega (arith, c, pos)) (λ i e. on k i ne e)
            (λ i e. back k i ne e)

module _ {V : Type 0} (m : Map V) (key : ℕ) (value : V) (pos : 0 < m.capacity) (v : IsValid m) where
  pub write_present :
      (x : ℕ) → Entry m key x → Written m key value (write_found m key value (present x)).0
  unfolding write_found
  write_present x en =
      let n = (write_found m key value (present x)).0 in
      let state_same : (i : ℕ) → n.state i ≡ m.state i =
        λ i. ground (arith, en.occupied, ap m.state {x = x} {y = i}) in
      let to : (k i : ℕ) → Entry m k i → Entry n k i = λ k i e. record {
        within = e.within;
        occupied = state_same i ∙ e.occupied;
        bears = e.bears;
      } in
      let from : (k i : ℕ) → Entry n k i → Entry m k i = λ k i e. record {
        within = e.within;
        occupied = sym (state_same i) ∙ e.occupied;
        bears = e.bears;
      } in
      written m n key x value pos v refl (λ i lt. omega (arith, state_same i, v.known i lt))
        (λ i q. sym (state_same i) ∙ q) (to key x en) (update_self m.value x value)
        (v.reached key x en) (λ i e. v.unique key i x (from key i e) en) (λ k i ne e. from k i e)
        (λ k i ne e. (to k i e, ground (arith, ne, e.bears, en.bears, ap m.key {x = x} {y = i})))

  pub write_claim :
      (x expected : ℕ)
      → m.state x ≡ expected
      → expected ≢ slot_occupied
      → ((d : ℕ) × Reached m key x d)
      → ((i : ℕ) → ¬ Entry m key i)
      → Written m key value (write_found m key value (claim x expected)).0
  unfolding write_found
  write_claim x expected st free r absent =
      let n = record m {
        key = update m.key x key;
        value = update m.value x value;
        state = update m.state x slot_occupied;
        size = u32 (m.size + 1);
      } in
      let lt : x < m.capacity =
        subst (λ y. y < m.capacity) r.1.probe (slot_at-lt m (trivial_hash key) r.0 pos) in
      let other : (k i : ℕ) → x ≢ i → Entry n k i → Entry m k i = λ k i ne e. record {
        within = e.within;
        occupied = ground (arith, ne, e.occupied);
        bears = ground (arith, ne, e.bears);
      } in
      let chosen : (k i : ℕ) → x ≡ i → Entry n k i → k ≡ key =
        λ k i q e. ground (arith, q, e.bears) in
      subst (λ y. Written m key value y) (ground (arith, st))
        (written m n key x value pos v refl (λ i l. ground (arith, v.known i l))
          (λ i q. ground (arith, q))
          (record {
            within = lt;
            occupied = update_self m.state x slot_occupied;
            bears = update_self m.key x key;
          })
          (update_self m.value x value) r
          (λ i e. elim (ℕ_discrete x i) [
            | yes q ↦ sym q
            | no ne ↦ absurd (absent i (other key i ne e))
          ])
          (λ k i ne e. elim (ℕ_discrete x i) [
            | yes q ↦ absurd (ne (chosen k i q e))
            | no nx ↦ other k i nx e
          ])
          (λ k i ne e. elim (ℕ_discrete x i) [
            | yes q ↦ absurd (ground (arith, st, free, q, ap m.state q, e.occupied))
            | no nx ↦ (
              record {
                within = e.within;
                occupied = ground (arith, nx, e.occupied);
                bears = ground (arith, nx, e.bears);
              },
              ground (arith, nx),
            )
          ]))
