-- ===== src/Array/Bounds.antt =====
-- The element addresses of an array, and what zeroipc_array_set does to the elements.
use zeroipc.Base.{ℕ, zero, suc, ◌+◌, ◌*◌, ◌≤◌, ◌<◌, ◌≡◌, ◌⊎◌, some, arith, dec_lt}
use zeroipc.Table.Errors.{success}
use zeroipc.Array.{Array, Segment, get, set, size_max, array_header_bytes}

-- The payload of an array has no more bytes than a size_t counts.
pub record IsSized (a : Array) : Type 0 where
  pub nonempty : 0 < a.elem_size
  pub counted : a.capacity * a.elem_size + array_header_bytes ≤ size_max

pub times_next : (i n e : ℕ) → i < n → i * e + e ≤ n * e
times_next i zero e lt = absurd (omega arith)
times_next i (suc n) e lt = elim (dec_lt i n) [
  | yes below ↦ omega (arith, times_next i n e below, suc_times n e)
  | no last ↦ grind arith
]
  where
    suc_times : (n e : ℕ) → suc n * e ≡ n * e + e
    suc_times n e = grind arith

-- zeroipc_array_get on an array whose payload a size_t counts: it gives an address exactly for an
-- index below the capacity, the element there lies in the payload, and the elements of two different
-- indices have no byte in common.
pub get-in_payload :
    (a : Array) (i j : ℕ) {p q : ℕ}
    → IsSized a
    → get a i ≡ some p
    → get a j ≡ some q
    → i < j
    → (a.payload ≤ p)
      × (p + a.elem_size ≤ q)
      × (q + a.elem_size ≤ a.payload + a.capacity * a.elem_size)
unfolding get
get-in_payload a i j sized e f lt =
    ground (arith, sized, times_next i j a.elem_size, times_next j a.capacity a.elem_size)

-- zeroipc_array_set below the capacity of an array whose payload a size_t counts: the element at the
-- index then has the bytes of the value, and every byte of another element is as it was.
pub get-set :
    (a : Array) (s : Segment) (i j k : ℕ) (value : ℕ → ℕ) {p q : ℕ}
    → IsSized a
    → get a i ≡ some p
    → get a j ≡ some q
    → k < a.elem_size
    → ((set a s i (some value)).1 ≡ success)
      × ((set a s i (some value)).0.bytes (p + k) ≡ value k)
      × ((i ≡ j) ⊎ ((set a s i (some value)).0.bytes (q + k) ≡ s.bytes (q + k)))
unfolding get set
get-set a s i j k value sized e f lt = ground (
  arith,
  sized,
  times_next i j a.elem_size,
  times_next j i a.elem_size,
  times_next i a.capacity a.elem_size,
  times_next j a.capacity a.elem_size,
)
