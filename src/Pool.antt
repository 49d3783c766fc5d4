-- ===== src/Pool.antt =====
-- cpp/include/zeroipc/pool.h: a pool of nodes whose free list has a tagged head, one shared access at a
-- time. A pointer to a node's data is the index of the node.
pub mod System
pub mod Chain
pub mod Owners
pub mod Moves
pub mod Changes
pub mod Steps
pub mod Safety
pub mod Create
mod Tests
use zeroipc.Base.{
  ℕ, zero, suc, ◌+◌, ◌-◌, ◌*◌, ◌/◌, ◌%◌, ◌^◌, Bool, not, ◌&&◌, leb, ◌==◌, if◌then◌else◌, Option,
  none, some, update, u32, sub32,
}

-- `NULL_INDEX`
abbrev pub null_index : ℕ
null_index = 0xFFFFFFFF

-- `pack_tagged`, for two numbers below 2 ^ 32, and its inverses.
unfoldable pub pack_tagged : ℕ → ℕ → ℕ
pack_tagged index generation = generation * 2 ^ 32 + index

unfoldable pub unpack_index : ℕ → ℕ
unpack_index tagged = tagged % 2 ^ 32

unfoldable pub unpack_generation : ℕ → ℕ
unpack_generation tagged = u32 (tagged / 2 ^ 32)

-- `Pool::Header`, without its padding, and the links of the nodes behind it.
pub record Pool : Type 0 where
  pub free_head : ℕ
  pub allocated : ℕ
  pub capacity : ℕ
  pub elem_size : ℕ
  pub next : ℕ → ℕ

-- The loop of the constructor, with the rounds that are left.
unfoldable pub link_from : ℕ → ℕ → (ℕ → ℕ) → ℕ → ℕ
link_from zero i next = next
link_from (suc rounds) i next = link_from rounds (i + 1) (update next i (i + 1))

-- What the constructor writes for a capacity from 1 to 2 ^ 32, which has passed its checks.
unfoldable pub init : ℕ → ℕ → (ℕ → ℕ) → Pool
unfolding pack_tagged link_from
init capacity elem_size next = record {
  free_head = pack_tagged 0 0;
  allocated = 0;
  capacity = u32 capacity;
  elem_size = u32 elem_size;
  next = update (link_from (capacity - 1) 0 next) (capacity - 1) null_index;
}

-- Where a thread stands in `allocate` or `deallocate`, before one access to shared memory; the last
-- four are the returns and the exception of `deallocate`. `head` is `old_head`.
pub data Pc : Type 0 where
  idle : Pc
  take_load : Pc
  take_next : (head : ℕ) → Pc
  take_claim : (head next : ℕ) → Pc
  take_count : (index : ℕ) → Pc
  give_load : (index : ℕ) → Pc
  give_link : (index head : ℕ) → Pc
  give_claim : (index head : ℕ) → Pc
  give_count : Pc
  taken : (index : ℕ) → Pc
  exhausted : Pc
  given : Pc
  rejected : Pc

-- The entry of `deallocate`; `none` is a null pointer.
unfoldable pub enter_deallocate : Pool → Option ℕ → Pc
enter_deallocate p none = given
enter_deallocate p (some index) = if leb p.capacity index then rejected else give_load index

-- One access. `lost` says that a weak compare-exchange fails without a reason.
unfoldable pub step : Bool → Pool → Pc → Pool × Pc
unfolding pack_tagged unpack_index unpack_generation
step lost p take_load =
    (p, if unpack_index p.free_head == null_index then exhausted else take_next p.free_head)
step lost p (take_next h) = (p, take_claim h (p.next (unpack_index h)))
step lost p (take_claim h n) =
    if not lost && p.free_head == h
    then (
      record p { free_head = pack_tagged n (u32 (unpack_generation h + 1)) },
      take_count (unpack_index h),
    )
    else (p, take_load)
step lost p (take_count k) = (record p { allocated = u32 (p.allocated + 1) }, taken k)
step lost p (give_load k) = (p, give_link k p.free_head)
step lost p (give_link k h) = (record p { next = update p.next k (unpack_index h) }, give_claim k h)
step lost p (give_claim k h) =
    if not lost && p.free_head == h
    then (record p { free_head = pack_tagged k (u32 (unpack_generation h + 1)) }, give_count)
    else (p, give_load k)
step lost p give_count = (record p { allocated = sub32 p.allocated 1 }, given)
step lost p pc = (p, pc)

-- `available`, `empty` and `full`
unfoldable pub available : Pool → ℕ
available p = (p.capacity + 2 ^ 64 - p.allocated) % 2 ^ 64

unfoldable pub is_empty : Pool → Bool
is_empty p = p.allocated == 0

unfoldable pub is_full : Pool → Bool
is_full p = p.allocated == p.capacity
