-- ===== src/Segments/Shared.antt =====
-- What one process creates with memory.c, and what another opens.
use zeroipc.Base.{ℕ, ◌<◌, ◌^◌, ◌≡◌, true, some, Name, arith, u32}
use zeroipc.Table.Errors.{success}
use zeroipc.Table.Init.{init_table, magic_word, format_version}
use zeroipc.Segments.{
  Answers, Handle, create, reopen, create_named, create_opened, create_sized, create_mapped,
  open_mapped, open_sized, open_opened, open_named,
}

-- What a handle from create has.
created :
    (a : Answers) (name : Name) (size max_entries : ℕ) {h : Handle}
    → (create a (some name) size max_entries).1 ≡ some h
    → (h.memory.header.magic ≡ magic_word)
      × (h.memory.header.version ≡ format_version)
      × (h.memory.header.max_entries ≡ u32 max_entries)
      × (h.max_entries ≡ max_entries)
      × (h.memory.size ≡ h.size)
      × (h.size ≡ size)
      × (0 < max_entries)
      × (h.last_error ≡ success)
unfolding create create_named create_opened create_sized create_mapped init_table
created a name size max_entries e = ground arith

-- A segment that one process has created, with fewer than 2 ^ 32 entries, another process opens: when
-- its calls of the system succeed, with the size and the memory of the first, it gets a handle that
-- agrees with the first in the size, the number of entries and the memory.
pub open_segment-create :
    (a b : Answers) (name : Name) (size max_entries fd base : ℕ) {h : Handle}
    → (create a (some name) size max_entries).1 ≡ some h
    → max_entries < 2 ^ 32
    → b.allocated ≡ true
    → b.fd ≡ some fd
    → b.file_size ≡ some h.size
    → b.mapping ≡ some base
    → b.contents ≡ h.memory
    → (reopen b (some name)).1 ≡ some (record h { base = base; fd = fd; named = b.named })
unfolding reopen open_named open_opened open_sized open_mapped
open_segment-create a b name size max_entries fd base {h} e few allocated opened sized mapped same =
    let (m, v, n, k, s, z, p, no_error) = created a name size max_entries e in
    ground (arith, allocated, opened, sized, mapped, same, m, v, n, k, s, p, no_error)
