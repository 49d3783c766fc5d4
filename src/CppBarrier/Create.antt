-- ===== src/CppBarrier/Create.antt =====
-- cpp/include/zeroipc/barrier.h: the constructors of a barrier.
use zeroipc.Base.{ℕ, Name, ◌==◌, if◌then◌else◌, ℤ, pos, negsuc}
use zeroipc.CppTable.{Table, Outcome, thrown, zero_capacity}
use zeroipc.Structures.{Shared, construct, attach_exact}
use zeroipc.Barrier.{Barrier}

-- `sizeof(Header)`
abbrev pub barrier_header_bytes : ℕ
barrier_header_bytes = 16

-- The header that the constructor writes.
unfoldable pub init_barrier : ℕ → Barrier
init_barrier num_participants = record {
  arrived = pos 0;
  generation = 0;
  num_participants = pos num_participants;
}

-- The constructor that creates.
unfoldable pub create_barrier : Table → Name → ℤ → Shared Barrier → Shared Barrier × Outcome ℕ
unfolding init_barrier
create_barrier t name (negsuc k) s = (s, thrown zero_capacity)
create_barrier t name (pos num) s =
    if num == 0
    then (s, thrown zero_capacity)
    else construct t name barrier_header_bytes barrier_header_bytes (init_barrier num) s

-- The constructor that opens.
unfoldable pub open_barrier : Name → Shared Barrier → Outcome (ℕ × Barrier)
open_barrier name s = attach_exact name barrier_header_bytes s
