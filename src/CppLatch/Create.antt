-- ===== src/CppLatch/Create.antt =====
-- cpp/include/zeroipc/latch.h: the constructors of a latch.
use zeroipc.Base.{ℕ, Name, ℤ, pos, negsuc}
use zeroipc.CppTable.{Table, Outcome, thrown, negative_count}
use zeroipc.Structures.{attach_exact, Shared, construct}
use zeroipc.Latch.{Latch}

-- `sizeof(Header)`
abbrev pub latch_header_bytes : ℕ
latch_header_bytes = 16

-- The header that the constructor writes.
unfoldable pub init_latch : ℕ → Latch
init_latch count = record { count = count; initial_count = count }

-- The constructor that creates.
unfoldable pub create_latch : Table → Name → ℤ → Shared Latch → Shared Latch × Outcome ℕ
unfolding init_latch
create_latch t name (negsuc k) s = (s, thrown negative_count)
create_latch t name (pos count) s =
    construct t name latch_header_bytes latch_header_bytes (init_latch count) s

-- The constructor that opens, with its check of the size in the table.
unfoldable pub open_latch : Name → Shared Latch → Outcome (ℕ × Latch)
open_latch name s = attach_exact name latch_header_bytes s
