-- ===== src/Structures.antt =====
-- What the constructors of the structures in cpp/include/zeroipc do with a segment, written after pool.h:
-- one that creates allocates its region in the table and writes its header, one that opens finds them.
pub mod Reopen
use zeroipc.Base.{ℕ, Option, none, some, update, Name, not, ◌==◌, if◌then◌else◌}
use zeroipc.Table.{Memory}
use zeroipc.CppTable.{
  Table, Error, Outcome, returned, thrown, allocate, find_region, ptr_at, not_found, invalid_size,
}

-- The table of a segment, and the header that stands at each offset.
pub record Shared (H : Type 0) : Type 0 where
  pub memory : Memory
  pub headers : ℕ → H

module _ {H : Type 0} where
  -- `header_ = memory.ptr_at<Header>(offset)`, and the stores behind it.
  unfoldable pub put_header : ℕ → H → Shared H → Memory × Outcome ℕ → Shared H × Outcome ℕ
  put_header header_bytes h s (m, thrown e) = (record s { memory = m }, thrown e)
  put_header header_bytes h s (m, returned offset) = elim (ptr_at m.size header_bytes offset) [
    | thrown e ↦ (record s { memory = m }, thrown e)
    | returned p ↦ (record { memory = m; headers = update s.headers p h }, returned p)
  ]

  -- The end of a constructor that creates, from `memory.allocate(name, total_size)` on.
  unfoldable pub construct : Table → Name → ℕ → ℕ → H → Shared H → Shared H × Outcome ℕ
  unfolding put_header
  construct t name header_bytes total_size h s =
      put_header header_bytes h s (allocate t s.memory name total_size)

  -- A constructor that creates, from the checks of its arguments on, which give the size.
  unfoldable pub construct_sized :
      Outcome ℕ → Table → Name → ℕ → H → Shared H → Shared H × Outcome ℕ
  unfolding construct
  construct_sized (thrown e) t name header_bytes h s = (s, thrown e)
  construct_sized (returned total_size) t name header_bytes h s =
      construct t name header_bytes total_size h s

  unfoldable pub checked_header : (H → Option Error) → Shared H → Outcome ℕ → Outcome (ℕ × H)
  checked_header check s (thrown e) = thrown e
  checked_header check s (returned p) = elim (check (s.headers p)) [
    | some e ↦ thrown e
    | none ↦ returned (p, s.headers p)
  ]

  -- A constructor that opens, with its checks of the header.
  unfoldable pub attach : Name → ℕ → (H → Option Error) → Shared H → Outcome (ℕ × H)
  unfolding checked_header
  attach name header_bytes check s = elim (find_region s.memory name) [
    | none ↦ thrown not_found
    | some r ↦ checked_header check s (ptr_at s.memory.size header_bytes r.offset)
  ]

  -- A constructor that opens, with its check of the size in the table, which is that of the header.
  unfoldable pub attach_exact : Name → ℕ → Shared H → Outcome (ℕ × H)
  unfolding checked_header
  attach_exact name header_bytes s = elim (find_region s.memory name) [
    | none ↦ thrown not_found
    | some r ↦
        if not (r.size == header_bytes)
        then thrown invalid_size
        else checked_header (λ h. none) s (ptr_at s.memory.size header_bytes r.offset)
  ]
