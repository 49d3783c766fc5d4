-- ===== src/Base/Offsets.antt =====
-- Where an element starts in an array: c/src/queue.c, c/src/stack.c and c/src/ffi.c multiply the index
-- and the element size as two uint32_t, the C++ headers index a typed pointer.
use Prim.Native.Nat.{ℕ, ◌+◌, ◌*◌, ◌^◌, ◌≤◌, ◌<◌}
use mathlib.Core.Path.{◌≡◌}
use mathlib.Core.Bool.{Bool, false, ◌||◌}
use native.Mathlib.Omega.{arith}
use zeroipc.Base.Tests.{◌==◌, ltb}
use zeroipc.Base.Words.{u32, u64, mul-le}

-- `index * elem_size` on uint32_t
unfoldable pub offset : ℕ → ℕ → ℕ
offset elem_size index = u32 (index * elem_size)

-- The offset in bytes of `data_[index]`.
unfoldable pub typed_offset : ℕ → ℕ → ℕ
typed_offset elem_size index = u64 (index * elem_size)

-- Whether two elements of an array can start at one offset.
unfoldable pub sharing : ℕ → ℕ → Bool
sharing capacity elem_size = elem_size == 0 || ltb (2 ^ 32) (capacity * elem_size)

pub sharing-false :
    (capacity elem_size : ℕ)
    → 0 < elem_size
    → capacity * elem_size ≤ 2 ^ 32
    → sharing capacity elem_size ≡ false
unfolding sharing
sharing-false capacity elem_size pos fits = ground arith

-- An element in front of another ends before it, and inside the array.
before :
    (capacity elem_size i j : ℕ)
    → i < j
    → j ≤ capacity
    → (i * elem_size + elem_size ≤ j * elem_size) × (j * elem_size ≤ capacity * elem_size)
before capacity elem_size i j lt le = (
  omega (arith, mul-le (i + 1) j elem_size elem_size (omega arith) (omega arith)),
  mul-le j capacity elem_size elem_size le (omega arith),
)

pub offset_small :
    (capacity elem_size i : ℕ)
    → sharing capacity elem_size ≡ false
    → i < capacity
    → (offset elem_size i ≡ i * elem_size) × (typed_offset elem_size i ≡ i * elem_size)
unfolding sharing offset typed_offset
offset_small capacity elem_size i fits lt =
    let (b, c) = before capacity elem_size i capacity lt (omega arith) in ground (arith, b, fits)

pub offset_inj :
    (capacity elem_size i j : ℕ)
    → sharing capacity elem_size ≡ false
    → i < capacity
    → j < capacity
    → offset elem_size i ≡ offset elem_size j
    → i ≡ j
unfolding sharing
offset_inj capacity elem_size i j fits li lj e = ground (
  arith,
  fits,
  (offset_small capacity elem_size i fits li).0,
  (offset_small capacity elem_size j fits lj).0,
  before capacity elem_size i j,
  before capacity elem_size j i,
)
