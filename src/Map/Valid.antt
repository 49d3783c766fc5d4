-- ===== src/Map/Valid.antt =====
-- The invariant of the hash table, and what the table holds.
use zeroipc.Base.{ℕ, zero, suc, ◌≤◌, ◌<◌, ◌≡◌, ◌≢◌, none, some, arith, if◌then◌else◌, ◌==◌}
use zeroipc.Map.{
  Map, slot_at, trivial_hash, settle, max_spins, slot_empty, slot_occupied, slot_inserting,
}

module _ {V : Type 0} where
  -- The entry in a slot: the key with the value.
  pub record Entry (m : Map V) (key index : ℕ) : Type 0 where
    pub within : index < m.capacity
    pub occupied : m.state index ≡ slot_occupied
    pub bears : m.key index ≡ key

  -- The probe `d` of a key is the slot, and no probe before it is an empty slot.
  pub record Reached (m : Map V) (key index d : ℕ) : Type 0 where
    pub short : d < m.capacity
    pub probe : slot_at m (trivial_hash key) d ≡ index
    pub passed : (e : ℕ) → e < d → m.state (slot_at m (trivial_hash key) e) ≢ slot_empty

  -- Each state is one of the four, each key has one slot at most, and its probes come to it.
  pub record IsValid (m : Map V) : Type 0 where
    pub known : (i : ℕ) → i < m.capacity → m.state i ≤ slot_inserting
    pub unique : (key a b : ℕ) → Entry m key a → Entry m key b → a ≡ b
    pub reached : (key index : ℕ) → Entry m key index → (d : ℕ) × Reached m key index d

  pub slot_at-lt : (m : Map V) (hash i : ℕ) → 0 < m.capacity → slot_at m hash i < m.capacity
  unfolding slot_at
  slot_at-lt m hash i pos = omega arith

-- A slot is given up exactly when it is INSERTING.
pub settle_lem :
    (spins state : ℕ)
    → settle (suc spins) state ≡ (if state == slot_inserting then none else some state)
unfolding settle
settle_lem zero state = ground arith
settle_lem (suc spins) state = ground (arith, settle_lem spins state)

pub settle_max :
    (state : ℕ) → settle max_spins state ≡ (if state == slot_inserting then none else some state)
settle_max state = settle_lem 9999 state
