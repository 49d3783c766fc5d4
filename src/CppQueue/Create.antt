-- ===== src/CppQueue/Create.antt =====
-- cpp/include/zeroipc/queue.h: the constructors of a queue.
use zeroipc.Base.{
  ℕ, zero, suc, ◌+◌, ◌-◌, ◌*◌, ◌/◌, ◌%◌, ◌^◌, ◌≤◌, ◌<◌, ◌≡◌, true, not, Option, none, some, Name,
  ltb, leb, ◌==◌, if◌then◌else◌, u32, u64, arith, mul-le, refl, ap, ◌∙◌, subst, dec_lt, ℕ_discrete,
}
use zeroipc.Table.Valid.{IsValid}
use zeroipc.CppTable.{
  Table, Error, Outcome, returned, thrown, align8, zero_capacity, capacity_overflow, size_mismatch,
  not_power_of_two,
}
use zeroipc.CppTable.Allocate.{IsOver}
use zeroipc.Structures.{Shared, construct_sized, attach}
use zeroipc.Structures.Reopen.{attach-construct_sized}
use zeroipc.Queue.{Queue}
use zeroipc.Queue.Create.{pow_suc, pow_pos, pow_mono}
use zeroipc.Queue.Open.{bit_and, bit_and_pow, accepts, accepts_iff}

-- std::bit_ceil: the least power of two that is not smaller, for a number up to 2 ^ 63.
unfoldable pub bit_ceil_from : ℕ → ℕ → ℕ → ℕ
bit_ceil_from zero power n = power
bit_ceil_from (suc rounds) power n =
    let rest = bit_ceil_from rounds (power * 2) n in if leb n power then power else rest

unfoldable pub bit_ceil : ℕ → ℕ
unfolding bit_ceil_from
bit_ceil n = bit_ceil_from 63 1 n

-- `sizeof(Header)`
abbrev pub queue_header_bytes : ℕ
queue_header_bytes = 16

-- `seq_off`, where the sequence array starts behind the header.
unfoldable pub seq_off : ℕ → ℕ → ℕ
unfolding align8
seq_off capacity elem_size = align8 (u64 (elem_size * capacity))

-- The checks of the rounded capacity, and `total_size`.
unfoldable pub rounded_bytes : ℕ → ℕ → Outcome ℕ
unfolding seq_off
rounded_bytes capacity elem_size =
    let seq_array_size = u64 (4 * capacity) in
    if ltb (u64 (2 ^ 64 - 1 - queue_header_bytes + 2 ^ 64 - seq_array_size) / elem_size) capacity
    then thrown capacity_overflow
    else returned (u64 (u64 (queue_header_bytes + seq_off capacity elem_size) + seq_array_size))

-- The checks of the capacity, and `total_size`.
unfoldable pub queue_bytes : ℕ → ℕ → Outcome ℕ
unfolding rounded_bytes
queue_bytes capacity elem_size =
    if capacity == 0
    then thrown zero_capacity
    else if ltb (2 ^ 63) capacity
    then thrown capacity_overflow
    else rounded_bytes (bit_ceil capacity) elem_size

module _ {A : Type 0} where
  -- What the constructor writes; `items` and `seq` are what the memory holds.
  unfoldable pub init_queue : ℕ → ℕ → (ℕ → A) → (ℕ → ℕ) → Queue A
  init_queue capacity elem_size items seq = record {
    head = 0;
    tail = 0;
    capacity = u32 capacity;
    elem_size = u32 elem_size;
    buf = items;
    seq = λ i. if ltb i capacity then u32 i else seq i;
  }

  -- The constructor that creates.
  unfoldable pub create_queue :
      Table → Name → ℕ → ℕ → (ℕ → A) → (ℕ → ℕ) → Shared (Queue A) → Shared (Queue A) × Outcome ℕ
  unfolding queue_bytes init_queue
  create_queue t name capacity elem_size items seq s =
      construct_sized (queue_bytes capacity elem_size) t name queue_header_bytes
        (init_queue (bit_ceil capacity) elem_size items seq) s

  -- The checks of the constructor that opens.
  unfoldable pub check_queue : ℕ → Queue A → Option Error
  unfolding bit_and
  check_queue elem_size q =
      if not (q.elem_size == elem_size)
      then some size_mismatch
      else if not (bit_and 32 q.capacity ((q.capacity + 2 ^ 32 - 1) % 2 ^ 32) == 0)
      then some not_power_of_two
      else none

  -- The constructor that opens.
  unfoldable pub open_queue : Name → ℕ → Shared (Queue A) → Outcome (ℕ × Queue A)
  unfolding check_queue
  open_queue name elem_size s = attach name queue_header_bytes (check_queue elem_size) s

pow-le : (j : ℕ) → j ≤ 31 → 2 ^ j ≤ 2 ^ 31
pow-le j le =
    let e : j + (31 - j) ≡ 31 = omega arith in subst (λ k. 2 ^ j ≤ 2 ^ k) e (pow_mono j (31 - j))

bit_ceil_from_pow :
    (rounds k n : ℕ)
    → n ≤ 2 ^ 31
    → k ≤ 31
    → 31 ≤ k + rounds
    → (j : ℕ) × (j ≤ 31) × (bit_ceil_from rounds (2 ^ k) n ≡ 2 ^ j) × (n ≤ 2 ^ j)
unfolding bit_ceil_from
bit_ceil_from_pow zero k n small le enough =
    let last : k ≡ 31 = omega arith in (k, le, refl, rw last small)
bit_ceil_from_pow (suc rounds) k n small le enough = elim (dec_lt (2 ^ k) n) [
  | yes below ↦
      let room : k < 31 = not_last k n small le below in
      let (j, j_le, e, fits) = bit_ceil_from_pow rounds (suc k) n small room (omega arith) in
      (j, j_le, ground (arith, e, pow_suc k), fits)
  | no reached ↦ (k, le, ground arith, omega arith)
]
  where
    not_last : (k n : ℕ) → n ≤ 2 ^ 31 → k ≤ 31 → 2 ^ k < n → k < 31
    not_last k n small le below = elim (ℕ_discrete k 31) [
      | yes e ↦ absurd (omega (arith, ap (λ t. 2 ^ t) e))
      | no ne ↦ omega arith
    ]

pub bit_ceil_pow : (n : ℕ) → n ≤ 2 ^ 31 → (j : ℕ) × (j ≤ 31) × (bit_ceil n ≡ 2 ^ j) × (n ≤ 2 ^ j)
unfolding bit_ceil
bit_ceil_pow n small = bit_ceil_from_pow 63 0 n small (omega arith) (omega arith)

-- The sections of a queue whose capacity fits the header have a size that does not wrap.
rounded_bytes-returned :
    (capacity elem_size : ℕ) {total : ℕ}
    → capacity ≤ 2 ^ 31
    → elem_size < 2 ^ 32
    → rounded_bytes capacity elem_size ≡ returned total
    → (total ≡ queue_header_bytes + seq_off capacity elem_size + 4 * capacity)
      × (elem_size * capacity ≤ seq_off capacity elem_size)
      × (0 < total)
      × (total < 2 ^ 64)
unfolding rounded_bytes seq_off
rounded_bytes-returned capacity elem_size small item e =
    let bound : elem_size * capacity ≤ 2 ^ 32 * 2 ^ 31 =
      mul-le elem_size (2 ^ 32) capacity (2 ^ 31) (omega arith) small in
    ground (arith, bound)

queue_bytes-rounded :
    (capacity elem_size : ℕ) {total : ℕ}
    → queue_bytes capacity elem_size ≡ returned total
    → rounded_bytes (bit_ceil capacity) elem_size ≡ returned total
unfolding queue_bytes
queue_bytes-rounded capacity elem_size e = ground (arith, e)

queue_sizes :
    (capacity elem_size j : ℕ) {total : ℕ}
    → capacity ≤ 2 ^ 31
    → elem_size < 2 ^ 32
    → j ≤ 31
    → bit_ceil capacity ≡ 2 ^ j
    → queue_bytes capacity elem_size ≡ returned total
    → (total ≡ queue_header_bytes + seq_off (2 ^ j) elem_size + 4 * 2 ^ j)
      × (elem_size * 2 ^ j ≤ seq_off (2 ^ j) elem_size)
      × (0 < total)
      × (total < 2 ^ 64)
queue_sizes capacity elem_size j {total} small item le power e =
    let (a, b, c, d) = rounded_bytes-returned (2 ^ j) elem_size (pow-le j le) item (
      subst (λ p. rounded_bytes p elem_size ≡ returned total) power
        (queue_bytes-rounded capacity elem_size e)) in
    (a, b, c, d)

module _ {A : Type 0} where
  check_queue-init :
      (j elem_size : ℕ) (items : ℕ → A) (seq : ℕ → ℕ)
      → j ≤ 31
      → 0 < elem_size
      → elem_size < 2 ^ 32
      → (check_queue elem_size (init_queue (2 ^ j) elem_size items seq) ≡ none)
        × ((init_queue (2 ^ j) elem_size items seq).capacity ≡ 2 ^ j)
        × (accepts (2 ^ j) elem_size ≡ true)
  unfolding check_queue init_queue accepts
  check_queue-init j elem_size items seq le pos small =
      let below = pow-le j le in
      let filled = pow_pos j in
      let kept : u32 (2 ^ j) ≡ 2 ^ j = omega (arith, below) in
      let pred : (2 ^ j + 2 ^ 32 - 1) % 2 ^ 32 ≡ 2 ^ j - 1 = omega (arith, below, filled) in
      let bits = bit_and_pow 32 j (omega arith) in
      (
        ground (
          arith,
          kept,
          pred,
          ap (bit_and 32 (2 ^ j)) pred,
          ap (λ c. bit_and 32 c ((c + 2 ^ 32 - 1) % 2 ^ 32)) kept,
          bits,
        ),
        kept,
        (accepts_iff (2 ^ j) elem_size (omega (arith, below))).1 (pos, j, omega arith, refl),
      )

  -- What a constructor that creates has made, one that opens finds, inside the segment.
  pub open-create_queue :
      {t : Table} (s : Shared (Queue A)) (name : Name) (capacity elem_size offset : ℕ)
      (items : ℕ → A) (seq : ℕ → ℕ) {s' : Shared (Queue A)}
      → IsValid s.memory
      → IsOver t s.memory
      → capacity ≤ 2 ^ 31
      → 0 < elem_size
      → elem_size < 2 ^ 32
      → create_queue t name capacity elem_size items seq s ≡ (s', returned offset)
      → (q : Queue A) × (open_queue name elem_size s' ≡ returned (offset, q))
        × (accepts q.capacity q.elem_size ≡ true)
        × (capacity ≤ q.capacity)
        × (elem_size * q.capacity ≤ seq_off q.capacity elem_size)
        × (offset + queue_header_bytes + seq_off q.capacity elem_size + 4 * q.capacity
            ≤ s'.memory.size)
  unfolding create_queue open_queue init_queue
  open-create_queue s name capacity elem_size offset items seq v over small pos item e =
      let (j, le, power, fits) = bit_ceil_pow capacity small in
      let (fine, kept, opened) = check_queue-init j elem_size items seq le pos item in
      let (total, made, found, inside) =
        attach-construct_sized s v over (queue_bytes capacity elem_size) name queue_header_bytes
          offset (init_queue (bit_ceil capacity) elem_size items seq) (check_queue elem_size)
          (λ n q.
            let (f, g, c, d) = queue_sizes capacity elem_size j small item le power q in (c, d))
          (rw power fine) e in
      let (size, room, b, c) = queue_sizes capacity elem_size j small item le power made in
      let cap : u32 (bit_ceil capacity) ≡ 2 ^ j = ap (λ c. u32 c) power ∙ kept in
      let elem : u32 elem_size ≡ elem_size = omega arith in
      (
        init_queue (bit_ceil capacity) elem_size items seq,
        found,
        rw (cap, elem) opened,
        rw cap fits,
        rw cap room,
        rw cap (omega (arith, size, inside)),
      )
