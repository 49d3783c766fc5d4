-- ===== src/Map/Tests.antt =====
-- The theorems about the map and the set on tables of four slots.
use zeroipc.Base.{ℕ, ◌≡◌, ◌⊎◌, true, false, some, none, if◌then◌else◌, ◌==◌, arith}
use zeroipc.Map.{
  Map, insert, erase, find, trivial_hash, slot_at, slot_occupied, slot_empty, slot_inserting,
}
use zeroipc.Set.{set_insert, set_contains}
use zeroipc.Set.Laws.{contains-set_insert}
use zeroipc.Map.Valid.{IsValid}
use zeroipc.Map.Create.{init_map, init_map-IsValid}
use zeroipc.Map.Calls.{find-insert, find-erase}

abbrev zeros : ℕ → ℕ
zeros i = 0

abbrev blank : Map ℕ
unfolding init_map
blank = (init_map 4 8 8 zeros zeros zeros).table

blank-IsValid : IsValid blank
unfolding init_map
blank-IsValid = init_map-IsValid 4 8 8 zeros zeros zeros

find-insert_example :
    ((insert blank 9 70).1 ≡ true)
      × IsValid (insert blank 9 70).0
      × (find (insert blank 9 70).0 9 ≡ some 70)
      × (find (insert blank 9 70).0 5 ≡ find blank 5)
    ⊎ (insert blank 9 70 ≡ (blank, false))
      × (find blank 9 ≡ none)
      × ((blank.state (slot_at blank (trivial_hash 9) 0) ≡ slot_occupied)
          ⊎ (blank.state (slot_at blank (trivial_hash 9) 0) ≡ slot_inserting))
unfolding init_map
find-insert_example =
    find-insert blank 9 5 70 0 (omega arith) blank-IsValid (omega arith) (omega arith)

-- The key 9 with a value, in the slot of its first probe, which is the one of the key 5 too.
abbrev one : {V : Type 0} → V → Map V
one v = record {
  size = 1;
  capacity = 4;
  state = λ i. if i == 1 then slot_occupied else slot_empty;
  key = λ i. 9;
  value = λ i. v;
}

one-IsValid : {V : Type 0} (v : V) → IsValid (one v)
unfolding slot_at trivial_hash
one-IsValid v = record {
  known = λ i lt. ground arith;
  unique = λ key a b ea eb. ground (arith, ea.occupied, eb.occupied);
  reached = λ key index e. (
    0,
    record {
      short = omega arith;
      probe = ground (arith, e.bears, e.occupied);
      passed = λ k lt. absurd (omega arith);
    },
  );
}

abbrev nine : Map ℕ
nine = one 70

find-erase_example :
    ((erase nine 9).1 ≡ true)
      × IsValid (erase nine 9).0
      × (find (erase nine 9).0 9 ≡ none)
      × (find (erase nine 9).0 5 ≡ find nine 5)
    ⊎ (erase nine 9 ≡ (nine, false)) × (find nine 9 ≡ none)
find-erase_example = find-erase nine 9 5 (omega arith) (one-IsValid 70) (omega arith)

contains-set_insert_example :
    ((set_insert (one tt) 5).1 ≡ true)
      × (set_contains (one tt) 5 ≡ false)
      × IsValid (set_insert (one tt) 5).0
      × (set_contains (set_insert (one tt) 5).0 5 ≡ true)
      × (set_contains (set_insert (one tt) 5).0 9 ≡ set_contains (one tt) 9)
    ⊎ (set_insert (one tt) 5 ≡ (one tt, false))
      × ((set_contains (one tt) 5 ≡ true)
          ⊎ (set_contains (one tt) 5 ≡ false)
            × (((one tt).state (slot_at (one tt) (trivial_hash 5) 1) ≡ slot_occupied)
                ⊎ ((one tt).state (slot_at (one tt) (trivial_hash 5) 1) ≡ slot_inserting)))
contains-set_insert_example =
    contains-set_insert (one tt) 5 9 1 (omega arith) (one-IsValid tt) (omega arith) (omega arith)
