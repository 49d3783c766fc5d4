-- ===== src/Stack/Slots.antt =====
-- The invariant of the interleaved stack: who is inside which slot, and what the slot holds.
pub mod Marks
pub mod Access
pub mod Safety
use zeroipc.Base.{
  offset, sharing, true, ◌⊎◌, ℕ, ◌+◌, ◌≤◌, ◌<◌, ◌≡◌, Bool, Option, none, some, ◌==◌, if◌then◌else◌,
  ℤ, pos, negsuc, ◌+ℤ◌, ltb_ℤ, false, ◌^◌,
}
use zeroipc.Stack.{
  Stack, Pc, push_write, push_publish, push_reserve, push_mark, push_undo, pop_reserve, pop_mark,
  pop_undo, pop_read, pop_release, top_mark, top_read, top_restore, slot_writing, slot_ready,
  slot_reading, slot_empty,
}
use zeroipc.Stack.System.{Ghost}

-- `-1 ≤ t < capacity`
abbrev pub IsTop : ℕ → ℤ → Type 0
IsTop capacity (pos i) = i < capacity
IsTop capacity (negsuc k) = k ≡ 0

module _ {A : Type 0} where
  -- The slot that a push has marked and not yet published.
  abbrev pub write_slot : Pc A → Option ℕ
  write_slot (push_write v i) = some i
  write_slot (push_publish i) = some i
  write_slot p = none

  -- The slot that a pop or a peek has marked and not yet let go.
  abbrev pub read_slot : Pc A → Option ℕ
  read_slot (pop_read i) = some i
  read_slot (pop_release i v) = some i
  read_slot (top_read i) = some i
  read_slot (top_restore i v) = some i
  read_slot p = none

module _ {A : Type 0} (s : Stack A) (g : Ghost A) where
  -- What the locals of a thread say: the slots are in the arrays, and the values are those pushed.
  abbrev pub IsFresh : Pc A → Type 0
  IsFresh (push_reserve v current) =
      IsTop s.capacity current × (IsTop s.capacity (current +ℤ pos 1))
  IsFresh (push_mark v i k) = i < s.capacity
  IsFresh (push_undo i) = i < s.capacity
  IsFresh (push_write v i) = (i < s.capacity) × (g.written i ≡ v)
  IsFresh (push_publish i) =
      (i < s.capacity)
      × ((sharing s.capacity s.elem_size ≡ true) ⊎ (s.buf (offset s.elem_size i) ≡ g.written i))
  IsFresh (pop_reserve current) = IsTop s.capacity current × (ltb_ℤ current (pos 0) ≡ false)
  IsFresh (pop_mark i k) = i < s.capacity
  IsFresh (pop_undo i) = i < s.capacity
  IsFresh (pop_read i) = i < s.capacity
  IsFresh (pop_release i v) =
      (i < s.capacity) × ((sharing s.capacity s.elem_size ≡ true) ⊎ (v ≡ g.written i))
  IsFresh (top_mark i k) = i < s.capacity
  IsFresh (top_read i) = i < s.capacity
  IsFresh (top_restore i v) =
      (i < s.capacity) × ((sharing s.capacity s.elem_size ≡ true) ⊎ (v ≡ g.written i))
  IsFresh p = Unit

  pub record Inv (pc : ℕ → Pc A) : Type 0 where
    pub small : s.capacity ≤ 2 ^ 31
    pub nonzero : 0 < s.capacity
    pub top_in : IsTop s.capacity s.top
    pub writing : (t i : ℕ) → write_slot (pc t) ≡ some i → s.state i ≡ slot_writing
    pub reading : (t i : ℕ) → read_slot (pc t) ≡ some i → s.state i ≡ slot_reading
    pub one_writer : (t u i : ℕ) → write_slot (pc t) ≡ some i → write_slot (pc u) ≡ some i → t ≡ u
    pub one_reader : (t u i : ℕ) → read_slot (pc t) ≡ some i → read_slot (pc u) ≡ some i → t ≡ u
    -- A slot that is ready, or being read, holds the value of the push that marked it last.
    pub holds :
        (i : ℕ)
        → i < s.capacity
        → s.state i ≡ slot_ready
        → (sharing s.capacity s.elem_size ≡ true) ⊎ (s.buf (offset s.elem_size i) ≡ g.written i)
    pub held :
        (i : ℕ)
        → i < s.capacity
        → s.state i ≡ slot_reading
        → (sharing s.capacity s.elem_size ≡ true) ⊎ (s.buf (offset s.elem_size i) ≡ g.written i)
    -- A slot has been released as often as it has been marked, unless it is in use now.
    pub balance : (i : ℕ) → g.marks i ≡ g.releases i + (if s.state i == slot_empty then 0 else 1)
    pub fresh : (t : ℕ) → IsFresh (pc t)
