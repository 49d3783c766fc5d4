-- ===== src/Segments.antt =====
-- c/src/memory.c: the segment behind a table, over the answers of the operating system.
pub mod Leaks
pub mod Shared
mod Tests
use zeroipc.Base.{
  ℕ, Bool, true, false, not, ◌&&◌, ◌||◌, ◌==◌, if◌then◌else◌, Option, none, some, List, [], ◌∷◌,
  ◌++◌, Name,
}
use zeroipc.Table.{Memory, Header}
use zeroipc.Table.Errors.{Code, success, error_open}
use zeroipc.Table.Init.{init_table, magic_word, format_version}

-- The effects of the calls of the C library and the operating system, in order. `shm_create` opens with
-- O_CREAT and without O_EXCL, so that it may open a segment that another process has made.
pub data Event : Type 0 where
  shm_create : (existed : Bool) → Event
  calloc strdup shm_open ftruncate fstat mmap munmap close shm_unlink free_name free_handle : Event

-- What the system answers: whether calloc and strdup find memory, whether the name is there before a
-- create, the descriptor of shm_open, whether
-- ftruncate succeeds, the size that fstat gives, the address that mmap gives, and what stands in the
-- mapped memory. `none` is a failure.
pub record Answers : Type 0 where
  pub allocated : Bool
  pub named : Bool
  pub existed : Bool
  pub fd : Option ℕ
  pub resized : Bool
  pub file_size : Option ℕ
  pub mapping : Option ℕ
  pub contents : Memory

-- `zeroipc_memory_t`, and the mapped memory behind it.
pub record Handle : Type 0 where
  pub base : ℕ
  pub size : ℕ
  pub fd : ℕ
  pub named : Bool
  pub max_entries : ℕ
  pub last_error : Code
  pub memory : Memory

-- strdup and the free of its result, which does nothing for NULL.
abbrev pub dup_name : Answers → List Event
dup_name a = if a.named then strdup ∷ [] else []

abbrev pub drop_name : Bool → List Event
drop_name named = if named then free_name ∷ [] else []

-- `free(mem->name); free(mem); return NULL;`
abbrev pub give_up : Answers → List Event → List Event × Option Handle
give_up a events = (events ++ drop_name a.named ++ (free_handle ∷ []), none)

unfoldable pub create_mapped : Answers → ℕ → ℕ → ℕ → ℕ → List Event × Option Handle
create_mapped a size max_entries fd base = (
  mmap ∷ [],
  some (record {
    base = base;
    size = size;
    fd = fd;
    named = a.named;
    max_entries = max_entries;
    last_error = success;
    memory = init_table (record (a.contents) { size = size }) max_entries;
  }),
)

unfoldable pub create_sized : Answers → ℕ → ℕ → ℕ → List Event × Option Handle
unfolding create_mapped
create_sized a size max_entries fd = elim (a.mapping) [
  | none ↦ give_up a (close ∷ shm_unlink ∷ [])
  | some base ↦ create_mapped a size max_entries fd base
]

unfoldable pub create_opened : Answers → ℕ → ℕ → ℕ → List Event × Option Handle
unfolding create_sized
create_opened a size max_entries fd =
    if not a.resized
    then give_up a (close ∷ shm_unlink ∷ [])
    else let (events, h) = create_sized a size max_entries fd in (ftruncate ∷ events, h)

unfoldable pub create_named : Answers → ℕ → ℕ → List Event × Option Handle
unfolding create_opened
create_named a size max_entries = elim (a.fd) [
  | none ↦ give_up a []
  | some fd ↦
      let (events, h) = create_opened a size max_entries fd in (shm_create a.existed ∷ events, h)
]

-- `zeroipc_memory_create`; `none` stands for a NULL name.
unfoldable pub create : Answers → Option Name → ℕ → ℕ → List Event × Option Handle
unfolding create_named
create a none size max_entries = ([], none)
create a (some name) size max_entries =
    if size == 0 || max_entries == 0
    then ([], none)
    else if not a.allocated
    then ([], none)
    else let (events, h) = create_named a size max_entries in ((calloc ∷ dup_name a) ++ events, h)

-- The checks of a mapped segment.
unfoldable pub open_mapped : Answers → ℕ → ℕ → ℕ → List Event × Option Handle
open_mapped a size fd base =
    let header = a.contents.header in
    if not (header.magic == magic_word)
    then give_up a (mmap ∷ munmap ∷ close ∷ [])
    else if not (header.version == format_version)
    then give_up a (mmap ∷ munmap ∷ close ∷ [])
    else (
      mmap ∷ [],
      some (record {
        base = base;
        size = size;
        fd = fd;
        named = a.named;
        max_entries = if header.max_entries == 0 then 64 else header.max_entries;
        last_error = success;
        memory = record (a.contents) { size = size };
      }),
    )

unfoldable pub open_sized : Answers → ℕ → ℕ → List Event × Option Handle
unfolding open_mapped
open_sized a size fd = elim (a.mapping) [
  | none ↦ give_up a (close ∷ [])
  | some base ↦ open_mapped a size fd base
]

unfoldable pub open_opened : Answers → ℕ → List Event × Option Handle
unfolding open_sized
open_opened a fd = elim (a.file_size) [
  | none ↦ give_up a (close ∷ [])
  | some size ↦ let (events, h) = open_sized a size fd in (fstat ∷ events, h)
]

unfoldable pub open_named : Answers → List Event × Option Handle
unfolding open_opened
open_named a = elim (a.fd) [
  | none ↦ give_up a []
  | some fd ↦ let (events, h) = open_opened a fd in (shm_open ∷ events, h)
]

-- `zeroipc_memory_open`
unfoldable pub reopen : Answers → Option Name → List Event × Option Handle
unfolding open_named
reopen a none = ([], none)
reopen a (some name) =
    if not a.allocated
    then ([], none)
    else let (events, h) = open_named a in ((calloc ∷ dup_name a) ++ events, h)

-- `zeroipc_memory_close`; a handle has a mapping and a descriptor.
unfoldable pub shut : Option Handle → List Event
shut none = []
shut (some h) = (munmap ∷ close ∷ []) ++ drop_name h.named ++ (free_handle ∷ [])

-- `zeroipc_memory_error`, `zeroipc_memory_size`
unfoldable pub memory_error : Option Handle → Code
memory_error none = error_open
memory_error (some h) = h.last_error

unfoldable pub memory_size : Option Handle → ℕ
memory_size none = 0
memory_size (some h) = h.size
