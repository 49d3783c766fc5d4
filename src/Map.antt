-- ===== src/Map.antt =====
-- cpp/include/zeroipc/map.h and detail/hash.h: the hash table with linear probing, for keys of an
-- unsigned integral type. The functions are calls that run one after another: a slot whose state is
-- INSERTING is then one that a crashed process has left so.
pub mod Valid
pub mod Scan
pub mod Sound
pub mod Lookup
pub mod Changes
pub mod Calls
pub mod Create
mod Tests
use zeroipc.Base.{
  ℕ, zero, suc, ◌+◌, ◌*◌, ◌%◌, ◌^◌, Bool, true, false, ◌&&◌, Option, none, some, ◌==◌,
  if◌then◌else◌, update, u32, u64, sub32,
}

abbrev pub slot_empty : ℕ
slot_empty = 0

abbrev pub slot_occupied : ℕ
slot_occupied = 1

abbrev pub slot_deleted : ℕ
slot_deleted = 2

abbrev pub slot_inserting : ℕ
slot_inserting = 3

abbrev pub max_spins : ℕ
max_spins = 10000

-- `detail::trivial_hash` of an integral type.
unfoldable pub trivial_hash : ℕ → ℕ
trivial_hash key = u64 (key * 2654435761)

-- The inner loop on a slot, with the observations of INSERTING that are left: the state that it goes on
-- with, or `none` where it gives the slot up.
unfoldable pub settle : ℕ → ℕ → Option ℕ
settle zero state = none
settle (suc spins) state =
    let rest = settle spins state in if state == slot_inserting then rest else some state

-- Where the scan of `insert` ends: at the key, at a slot to claim with the state that it is expected in,
-- or nowhere.
pub data Found : Type 0 where
  present : (index : ℕ) → Found
  claim : (index expected : ℕ) → Found
  map_full : Found

-- `deleted_target ? deleted_target : empty_target`, and what is expected there.
unfoldable pub target : Option ℕ → Option ℕ → Found
target (some d) e = claim d slot_deleted
target none (some e) = claim e slot_empty
target none none = map_full

-- `if (!deleted_target) deleted_target = &entry`
unfoldable pub first_deleted : Option ℕ → ℕ → Option ℕ
first_deleted none index = some index
first_deleted (some d) index = some d

-- The loop of `clear`, with `n` rounds left.
unfoldable pub clear_from : ℕ → ℕ → (ℕ → ℕ) → ℕ → ℕ
clear_from zero i state = state
clear_from (suc n) i state = clear_from n (i + 1) (update state i slot_empty)

module _ (V : Type 0) where
  -- `Map::Header`, without the sizes of the types, and the entries behind it.
  pub record Map : Type 0 where
    pub size : ℕ
    pub capacity : ℕ
    pub state : ℕ → ℕ
    pub key : ℕ → ℕ
    pub value : ℕ → V

module _ {V : Type 0} where
  -- `(hash + i) % capacity`
  unfoldable pub slot_at : Map V → ℕ → ℕ → ℕ
  slot_at m hash i = u64 (hash + i) % m.capacity

  -- The scan of `insert` from probe `i` on, with `n` probes left.
  unfoldable pub scan : Map V → ℕ → ℕ → Option ℕ → ℕ → ℕ → Found
  scan m hash key deleted i zero = target deleted none
  scan m hash key deleted i (suc n) =
      let index = slot_at m hash i in
      let further = scan m hash key deleted (i + 1) n in
      let past_deleted = scan m hash key (first_deleted deleted index) (i + 1) n in
      elim (settle max_spins (m.state index)) [
        | none ↦ further
        | some state ↦
            if state == slot_occupied
            then (if m.key index == key then present index else further)
            else if state == slot_deleted
            then past_deleted
            else target deleted (some index)
      ]

  -- The update in place, and the write of a slot that has been claimed. Nobody else changes a state
  -- during the call, so that the compare-exchange of the state that has been read wins.
  unfoldable pub write_found : Map V → ℕ → V → Found → Map V × Bool
  write_found m key value (present index) = (
    record m { value = update m.value index value; state = update m.state index slot_occupied },
    true,
  )
  write_found m key value (claim index expected) =
      if m.state index == expected
      then (
        record m {
          key = update m.key index key;
          value = update m.value index value;
          state = update m.state index slot_occupied;
          size = u32 (m.size + 1);
        },
        true,
      )
      else (m, false)
  write_found m key value map_full = (m, false)

  -- `insert`
  unfoldable pub insert : Map V → ℕ → V → Map V × Bool
  unfolding scan write_found
  insert m key value = write_found m key value (scan m (trivial_hash key) key none 0 m.capacity)

  -- The loop of `find`, with `n` probes left.
  unfoldable pub find_from : Map V → ℕ → ℕ → ℕ → ℕ → Option V
  find_from m hash key i zero = none
  find_from m hash key i (suc n) =
      let index = slot_at m hash i in
      let further = find_from m hash key (i + 1) n in
      elim (settle max_spins (m.state index)) [
        | none ↦ further
        | some state ↦
            if state == slot_empty
            then none
            else if state == slot_occupied && m.key index == key
            then some (m.value index)
            else further
      ]

  -- `find`
  unfoldable pub find : Map V → ℕ → Option V
  find m key = find_from m (trivial_hash key) key 0 m.capacity

  -- The loop of `erase`: the slot that it finds.
  unfoldable pub erase_from : Map V → ℕ → ℕ → ℕ → ℕ → Option ℕ
  erase_from m hash key i zero = none
  erase_from m hash key i (suc n) =
      let index = slot_at m hash i in
      let further = erase_from m hash key (i + 1) n in
      elim (settle max_spins (m.state index)) [
        | none ↦ further
        | some state ↦
            if state == slot_empty
            then none
            else if state == slot_occupied && m.key index == key
            then some index
            else further
      ]

  -- `erase`
  unfoldable pub erase : Map V → ℕ → Map V × Bool
  unfolding erase_from
  erase m key = elim (erase_from m (trivial_hash key) key 0 m.capacity) [
    | none ↦ (m, false)
    | some index ↦
        (record m { state = update m.state index slot_deleted; size = sub32 m.size 1 }, true)
  ]

  -- `contains`, `empty` and `clear`
  unfoldable pub contains : Map V → ℕ → Bool
  contains m key = elim (find m key) [ none ↦ false | some v ↦ true ]

  unfoldable pub is_empty : Map V → Bool
  is_empty m = m.size == 0

  unfoldable pub clear : Map V → Map V
  unfolding clear_from
  clear m = record m { state = clear_from m.capacity 0 m.state; size = 0 }
