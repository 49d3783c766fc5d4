-- ===== src/Set/Laws.antt =====
-- What the calls of the set promise.
use zeroipc.Base.{
  ℕ, zero, suc, ◌+◌, ◌<◌, ◌≡◌, ◌≢◌, true, false, Option, none, some, arith, refl, sym, ap, ◌∙◌,
  subst, inl, inr, ◌⊎◌, update, sub32,
}
use zeroipc.Map.{
  Found, present, claim, map_full, trivial_hash, scan, erase, erase_from, find, find_from, slot_at,
  slot_occupied, slot_inserting, slot_deleted, contains, write_found,
}
use zeroipc.Map.Valid.{IsValid}
use zeroipc.Map.Sound.{IsSound}
use zeroipc.Map.Scan.{erase_step, find_step}
use zeroipc.Map.Lookup.{find_entry, find-none}
use zeroipc.Map.Changes.{Written, write_claim}
use zeroipc.Map.Calls.{absent_by_scan, scan_whole-IsSound}
use zeroipc.Set.{Set, write_element, set_insert, element_from, set_contains, set_erase}

-- The loop passes over INSERTING where the map's waits in vain.
element_from-erase_from :
    (s : Set) (value i n : ℕ)
    → element_from s (trivial_hash value) value i n ≡ erase_from s (trivial_hash value) value i n
unfolding element_from erase_from
element_from-erase_from s value i zero = refl
element_from-erase_from s value i (suc n) =
    ground (arith, element_from-erase_from s value (i + 1) n) ∙ sym (erase_step s value i n)

find_from-element :
    (s : Set) (value i n : ℕ)
    → find_from s (trivial_hash value) value i n
      ≡ elim (element_from s (trivial_hash value) value i n) [ none ↦ none | some x ↦ some tt ]
unfolding element_from find_from
find_from-element s value i zero = refl
find_from-element s value i (suc n) =
    find_step s value i n ∙ ground (arith, find_from-element s value (i + 1) n)

write_claim-true :
    (s : Set) (value x expected : ℕ)
    → s.state x ≡ expected
    → (write_found s value tt (claim x expected)).1 ≡ true
unfolding write_found
write_claim-true s value x expected e = ground (arith, e)

-- `contains` answers what the one of the map does.
pub set_contains-contains : (s : Set) (value : ℕ) → set_contains s value ≡ contains s value
unfolding set_contains contains find
set_contains-contains s value = ground (arith, find_from-element s value 0 s.capacity)

-- `erase` does what the one of the map does.
pub set_erase-erase : (s : Set) (value : ℕ) → set_erase s value ≡ erase s value
unfolding set_erase erase
set_erase-erase s value =
    ap
      (λ o. elim o [
        | none ↦ (s, false)
        | some index ↦
            (record s { state = update s.state index slot_deleted; size = sub32 s.size 1 }, true)
      ])
      (element_from-erase_from s value 0 s.capacity)

-- The element is new, there already, or has no room.
pub set_insert-Written :
    (s : Set) (value : ℕ)
    → 0 < s.capacity
    → IsValid s
    → (((set_insert s value).1 ≡ true)
          × (set_contains s value ≡ false)
          × Written s value tt (set_insert s value).0
        ⊎ (set_insert s value ≡ (s, false))
          × ((set_contains s value ≡ true)
              ⊎ (set_contains s value ≡ false) × IsSound s value map_full))
unfolding set_insert write_element contains
set_insert-Written s value pos v = go (scan s (trivial_hash value) value none 0 s.capacity) refl
  where
    member :
        (b : Option Unit)
        → find s value ≡ b
        → set_contains s value ≡ elim b [ none ↦ false | some x ↦ true ]
    member b e = set_contains-contains s value ∙ ap (λ o. elim o [ none ↦ false | some x ↦ true ]) e

    Goal : Found → Type 0
    Goal f =
        ((write_element s value f).1 ≡ true)
          × (set_contains s value ≡ false)
          × Written s value tt (write_element s value f).0
        ⊎ (write_element s value f ≡ (s, false))
          × ((set_contains s value ≡ true)
              ⊎ (set_contains s value ≡ false) × IsSound s value map_full)

    go :
        (f : Found)
        → scan s (trivial_hash value) value none 0 s.capacity ≡ f
        → Goal (scan s (trivial_hash value) value none 0 s.capacity)
    go (present x) e = subst Goal (sym e) (
        inr (
          refl,
          inl (member (some tt) (find_entry s value x v (scan_whole-IsSound s value v pos e))),
        ))
    go (claim x expected) e =
        let t = scan_whole-IsSound s value v pos e in
        let absent = absent_by_scan s value v e (λ y q. absurd (ground (arith, q))) in
        subst Goal (sym e) (
          inl (
            write_claim-true s value x expected t.0,
            member none (find-none s value pos absent),
            write_claim s value tt pos v x expected t.0 t.1 t.2 absent,
          ))
    go map_full e =
        let absent = absent_by_scan s value v e (λ y q. absurd (ground (arith, q))) in
        subst Goal (sym e) (
          inr (
            refl,
            inr (member none (find-none s value pos absent), scan_whole-IsSound s value v pos e),
          ))

-- On a valid set with a capacity, an insert of an element either returns true, where the element was not
-- in the set, and leaves a valid set that contains it and of any other element says what it said; or it
-- returns false, changes nothing, and either the element was in the set, or it was not and the slot of
-- any probe of the element is neither empty nor deleted: it is occupied, or stuck in INSERTING.
pub contains-set_insert :
    (s : Set) (value other probe : ℕ)
    → 0 < s.capacity
    → IsValid s
    → other ≢ value
    → probe < s.capacity
    → (((set_insert s value).1 ≡ true)
          × (set_contains s value ≡ false)
          × IsValid (set_insert s value).0
          × (set_contains (set_insert s value).0 value ≡ true)
          × (set_contains (set_insert s value).0 other ≡ set_contains s other)
        ⊎ (set_insert s value ≡ (s, false))
          × ((set_contains s value ≡ true)
              ⊎ (set_contains s value ≡ false)
                × ((s.state (slot_at s (trivial_hash value) probe) ≡ slot_occupied)
                    ⊎ (s.state (slot_at s (trivial_hash value) probe) ≡ slot_inserting))))
unfolding contains
contains-set_insert s value other probe pos v ne lt = elim (set_insert-Written s value pos v) [
  | inl (done, new, (valid, here, others)) ↦ inl (
    done,
    new,
    valid,
    set_contains-contains (set_insert s value).0 value
        ∙ ap (λ o. elim o [ none ↦ false | some x ↦ true ]) here,
    set_contains-contains (set_insert s value).0 other
        ∙ ap (λ o. elim o [ none ↦ false | some x ↦ true ]) (others other ne)
        ∙ sym (set_contains-contains s other),
  )
  | inr (same, inl there) ↦ inr (same, inl there)
  | inr (same, inr full) ↦ inr (same, inr (full.0, full.1 probe lt))
]
