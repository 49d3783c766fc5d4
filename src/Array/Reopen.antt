-- ===== src/Array/Reopen.antt =====
-- zeroipc_array_open after zeroipc_array_create.
use zeroipc.Base.{
  ℕ, ◌+◌, ◌-◌, ◌*◌, ◌/◌, ◌≤◌, ◌<◌, ◌≡◌, Option, none, some, refl, arith, true, Name, ap, ◌∙◌,
  name_eq_refl,
}
use zeroipc.Table.{Memory, Region, add, find}
use zeroipc.Table.Errors.{Result, ok, err}
use zeroipc.Table.Valid.{IsValid}
use zeroipc.Table.Add.{find-add, add-region}
use zeroipc.Array.{
  Array, Segment, create, create_named, finish_create, reopen, open_region, total_size, write_array,
  size_max, array_header_bytes, array_at,
}
use zeroipc.Array.Bounds.{IsSized}
use native.Mathlib.Nat.{le-div_iff_mul-le}

-- What create has checked and done when it returns a handle.
pub record Created (s s' : Segment) (name : Name) (elem_size capacity : ℕ) (a : Array)
    : Type 0 where
  pub nonempty : 0 < elem_size
  pub filled : 0 < capacity
  pub checked : capacity ≤ (size_max - array_header_bytes) / elem_size
  pub offset : ℕ
  pub memory : Memory
  pub added :
      add (some s.memory) (some name) (total_size elem_size capacity) ≡ (some memory, ok offset)
  pub handle : a ≡ array_at offset elem_size capacity
  pub written : s' ≡ write_array (record s { memory = memory }) offset elem_size capacity

finish_create-some :
    (s : Segment) (name : Name) (elem_size capacity : ℕ) (r : Option Memory × Result ℕ)
    {s' : Segment} {a : Array}
    → finish_create s elem_size capacity r ≡ (s', some a)
    → (m : Memory) × (offset : ℕ) × (r ≡ (some m, ok offset))
      × (a ≡ array_at offset elem_size capacity)
      × (s' ≡ write_array (record s { memory = m }) offset elem_size capacity)
unfolding finish_create
finish_create-some s name elem_size capacity (none, r) h = ground arith
finish_create-some s name elem_size capacity (some m, err c) h = ground arith
finish_create-some s name elem_size capacity (some m, ok offset) h =
    (m, offset, refl, ground arith, ground arith)

create-some :
    (s : Segment) (name : Name) (elem_size capacity : ℕ) {s' : Segment} {a : Array}
    → create true s (some name) elem_size capacity ≡ (s', some a)
    → (0 < elem_size)
      × (0 < capacity)
      × (capacity ≤ (size_max - array_header_bytes) / elem_size)
      × (finish_create s elem_size capacity
            (add (some s.memory) (some name) (total_size elem_size capacity))
          ≡ (s', some a))
unfolding create create_named
create-some s name elem_size capacity h = ground arith

create-Created :
    {s s' : Segment} (name : Name) (elem_size capacity : ℕ) {a : Array}
    → create true s (some name) elem_size capacity ≡ (s', some a)
    → Created s s' name elem_size capacity a
create-Created {s = s} name elem_size capacity h =
    let (nonempty, filled, checked, done) = create-some s name elem_size capacity h in
    let (m, offset, added, handle, written) = finish_create-some s name elem_size capacity _ done in
    record {
      nonempty = nonempty;
      filled = filled;
      checked = checked;
      offset = offset;
      memory = m;
      added = added;
      handle = handle;
      written = written;
    }

reopen-found :
    (s : Segment) (name : Name) {r : Region}
    → find (some s.memory) (some name) ≡ ok r
    → reopen true s (some name) ≡ open_region s r
unfolding reopen
reopen-found s name e = rw (e, reopen)

module _ {s s' : Segment} {name : Name} {elem_size capacity : ℕ} {a : Array} (v : IsValid s.memory)
    (c : Created s s' name elem_size capacity a) where
  payload_small : capacity * elem_size + array_header_bytes ≤ size_max
  payload_small = omega (arith, (le-div_iff_mul-le c.nonempty).0 c.checked)

  total_size_eq : total_size elem_size capacity ≡ array_header_bytes + capacity * elem_size
  unfolding total_size
  total_size_eq = grind (arith, payload_small)

  created-IsSized : IsSized a
  created-IsSized = rw c.handle (record { nonempty = c.nonempty; counted = payload_small })

  found :
      find (some c.memory) (some name)
      ≡ ok (record { offset = c.offset; size = total_size elem_size capacity })
  found =
      rw (find-add name name (total_size elem_size capacity) c.offset v c.added, name_eq_refl name)

  written_memory : s'.memory ≡ c.memory
  unfolding write_array
  written_memory = rw c.written

  opened :
      open_region s' (record { offset = c.offset; size = total_size elem_size capacity }) ≡ some a
  unfolding open_region write_array
  opened = rw (c.written, c.handle) (ground (arith, c.nonempty, c.filled))

  reopens : reopen true s' (some name) ≡ some a
  reopens =
      reopen-found s' name (ap (λ m. find (some m) (some name)) written_memory ∙ found) ∙ opened

-- zeroipc_array_open of a name whose zeroipc_array_create has succeeded on a valid table gives the same
-- data pointer, capacity and element size, when calloc finds memory; and the payload, whose size did
-- not wrap, lies inside the segment.
pub reopen-create :
    (s : Segment) {s' : Segment} (name : Name) (elem_size capacity : ℕ) {a : Array}
    → IsValid s.memory
    → create true s (some name) elem_size capacity ≡ (s', some a)
    → (reopen true s' (some name) ≡ some a)
      × IsSized a
      × (a.payload + a.capacity * a.elem_size ≤ s.memory.size)
reopen-create s {s'} name elem_size capacity v h =
    let c = create-Created {s = s} name elem_size capacity h in
    let (aligned, behind, inside, next) =
      add-region name (total_size elem_size capacity) c.offset v c.added in
    (reopens v c, created-IsSized v c, rw c.handle (omega (arith, inside, total_size_eq v c)))
