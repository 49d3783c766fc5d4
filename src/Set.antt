-- ===== src/Set.antt =====
-- cpp/include/zeroipc/set.h: the set with linear probing, for elements of an unsigned integral type. It
-- is the table of map.h without values: an entry's `value` is the key of that table. The functions are
-- calls that run one after another.
pub mod Laws
pub mod Create
use zeroipc.Base.{
  ℕ, zero, suc, ◌+◌, Bool, true, false, ◌&&◌, Option, none, some, ◌==◌, if◌then◌else◌, update, u32,
  sub32,
}
use zeroipc.Map.{
  Map, Found, present, claim, map_full, slot_at, trivial_hash, scan, write_found, clear_from,
  slot_empty, slot_occupied, slot_deleted,
}

abbrev pub Set : Type 0
Set = Map Unit

-- An element that is there is left alone; else the slot is claimed as in the map.
unfoldable pub write_element : Set → ℕ → Found → Set × Bool
write_element s value (present index) = (s, false)
write_element s value (claim index expected) = write_found s value tt (claim index expected)
write_element s value map_full = (s, false)

-- `insert`, whose scan is the one of the map.
unfoldable pub set_insert : Set → ℕ → Set × Bool
unfolding write_element
set_insert s value = write_element s value (scan s (trivial_hash value) value none 0 s.capacity)

-- The loop of `contains` and of `erase`, with `n` probes left: the slot where it finds the element. A
-- slot that is INSERTING is passed at once.
unfoldable pub element_from : Set → ℕ → ℕ → ℕ → ℕ → Option ℕ
element_from s hash value i zero = none
element_from s hash value i (suc n) =
    let index = slot_at s hash i in
    let further = element_from s hash value (i + 1) n in
    if s.state index == slot_empty
    then none
    else if s.state index == slot_occupied && s.key index == value
    then some index
    else further

-- `contains`
unfoldable pub set_contains : Set → ℕ → Bool
unfolding element_from
set_contains s value = elim (element_from s (trivial_hash value) value 0 s.capacity) [
  | none ↦ false
  | some index ↦ true
]

-- `erase`
unfoldable pub set_erase : Set → ℕ → Set × Bool
unfolding element_from
set_erase s value = elim (element_from s (trivial_hash value) value 0 s.capacity) [
  | none ↦ (s, false)
  | some index ↦
      (record s { state = update s.state index slot_deleted; size = sub32 s.size 1 }, true)
]

-- `empty` and `clear`
unfoldable pub set_empty : Set → Bool
set_empty s = s.size == 0

unfoldable pub set_clear : Set → Set
unfolding clear_from
set_clear s = record s { state = clear_from s.capacity 0 s.state; size = 0 }
