-- ===== src/Array.antt =====
-- c/src/array.c: an array of fixed-size elements in one region of the segment.
pub mod Bounds
pub mod Reopen
mod Tests
use zeroipc.Base.{
  ℕ, ◌+◌, ◌-◌, ◌*◌, ◌/◌, ◌^◌, Bool, not, ◌||◌, Option, none, some, ltb, leb, ◌==◌, if◌then◌else◌,
  Name, update, u64, ◌&&◌,
}
use zeroipc.Table.{Memory, Region, add, find}
use zeroipc.Table.Errors.{Code, Result, ok, err, success, error_size}

-- `array_header_t`
pub record ArrayHeader : Type 0 where
  pub capacity : ℕ
  pub elem_size : ℕ

-- What the array functions see of the segment: the table, the array headers by the offsets at which
-- they stand, and the bytes of the payloads.
pub record Segment : Type 0 where
  pub memory : Memory
  pub headers : ℕ → ArrayHeader
  pub bytes : ℕ → ℕ

-- The handle, `zeroipc_array_t`. `payload` is the offset of the data pointer from the segment's base.
pub record Array : Type 0 where
  pub payload : ℕ
  pub capacity : ℕ
  pub elem_size : ℕ

abbrev pub size_max : ℕ
size_max = 2 ^ 64 - 1

abbrev pub array_header_bytes : ℕ
array_header_bytes = 16

-- The bytes from `from` on, `n` of them, taken from `value`: memcpy, and memset for a constant.
abbrev pub write_bytes : (ℕ → ℕ) → ℕ → ℕ → (ℕ → ℕ) → ℕ → ℕ
write_bytes bytes from n value i =
    if leb from i && ltb i (from + n) then value (i - from) else bytes i

-- `sizeof(array_header_t) + elem_size * capacity`, in size_t.
unfoldable pub total_size : ℕ → ℕ → ℕ
total_size elem_size capacity = u64 (array_header_bytes + u64 (elem_size * capacity))

-- The region of an array at `offset`, once it is in the table: its header and its zeroed payload.
unfoldable pub write_array : Segment → ℕ → ℕ → ℕ → Segment
write_array s offset elem_size capacity = record s {
  headers = update s.headers offset (record { capacity = capacity; elem_size = elem_size });
  bytes = write_bytes s.bytes (offset + array_header_bytes) (u64 (elem_size * capacity)) (λ i. 0);
}

abbrev pub array_at : ℕ → ℕ → ℕ → Array
array_at offset elem_size capacity = record {
  payload = offset + array_header_bytes;
  capacity = capacity;
  elem_size = elem_size;
}

-- What create does with the answer of zeroipc_table_add.
unfoldable pub finish_create : Segment → ℕ → ℕ → Option Memory × Result ℕ → Segment × Option Array
unfolding write_array
finish_create s elem_size capacity (none, r) = (s, none)
finish_create s elem_size capacity (some m, err c) = (record s { memory = m }, none)
finish_create s elem_size capacity (some m, ok offset) = (
  write_array (record s { memory = m }) offset elem_size capacity,
  some (array_at offset elem_size capacity),
)

unfoldable pub create_named : Segment → Name → ℕ → ℕ → Segment × Option Array
unfolding total_size finish_create
create_named s name elem_size capacity =
    if ltb ((size_max - array_header_bytes) / elem_size) capacity
    then (s, none)
    else finish_create s elem_size capacity
        (add (some s.memory) (some name) (total_size elem_size capacity))

-- `zeroipc_array_create` on a segment. `allocated` says whether calloc finds memory for the handle, and
-- `none` stands for a NULL name.
unfoldable pub create : Bool → Segment → Option Name → ℕ → ℕ → Segment × Option Array
create allocated s none elem_size capacity = (s, none)
create allocated s (some name) elem_size capacity =
    if elem_size == 0 || capacity == 0 || not allocated
    then (s, none)
    else create_named s name elem_size capacity

-- The checks of an existing region.
unfoldable pub open_region : Segment → Region → Option Array
unfolding total_size
open_region s r =
    let h = s.headers r.offset in
    if h.capacity == 0 || h.elem_size == 0 || ltb r.size (total_size h.elem_size h.capacity)
    then none
    else some (array_at r.offset h.elem_size h.capacity)

-- `zeroipc_array_open` on a segment.
unfoldable pub reopen : Bool → Segment → Option Name → Option Array
unfolding open_region
reopen allocated s none = none
reopen allocated s (some name) = elim (find (some s.memory) (some name)) [
  | err c ↦ none
  | ok r ↦ if not allocated then none else open_region s r
]

-- `zeroipc_array_get`: the offset of the element.
unfoldable pub get : Array → ℕ → Option ℕ
get a index = if leb a.capacity index then none else some (a.payload + u64 (index * a.elem_size))

-- `zeroipc_array_set`; `none` stands for a NULL value.
unfoldable pub set : Array → Segment → ℕ → Option (ℕ → ℕ) → Segment × Code
set a s index none = (s, error_size)
set a s index (some value) = if leb a.capacity index then (s, error_size) else (
  record s {
    bytes = write_bytes s.bytes (a.payload + u64 (index * a.elem_size)) a.elem_size value;
  },
  success,
)
