-- ===== src/Segments/Tests.antt =====
-- The theorems about segments on answers of the operating system.
use zeroipc.Base.{arith, ◌≡◌, ◌++◌, true, false, some, Name, [], ◌∷◌, refl}
use zeroipc.Table.{Memory}
use zeroipc.Table.Errors.{success}
use zeroipc.Table.Init.{magic_word, format_version, init_table}
use zeroipc.Segments.Shared.{open_segment-create}
use zeroipc.Segments.{
  Answers, Handle, create, reopen, shut, create_named, create_opened, create_sized, create_mapped,
}
use zeroipc.Segments.Leaks.{nothing, left_held, effects, create_balance}

abbrev written : Memory
written = record {
  header = record {
    magic = magic_word;
    version = format_version;
    entry_count = 0;
    max_entries = 0;
    memory_size = 4096;
    next_offset = 3104;
  };
  entries = λ i. record { name = []; offset = 0; size = 0 };
  size = 4096;
}

abbrev name : Name
name = 47 ∷ 115 ∷ []

-- Everything succeeds.
abbrev answers : Answers
answers = record {
  allocated = true;
  named = true;
  existed = false;
  fd = some 3;
  resized = true;
  file_size = some 4096;
  mapping = some 65536;
  contents = written;
}

-- The file cannot get its size.
abbrev no_space : Answers
no_space = record answers { resized = false }

create_balance_example :
    (effects nothing (create no_space (some name) 4096 64).0
      ≡ some (left_held true (create no_space (some name) 4096 64).1))
    × (effects nothing
          ((create no_space (some name) 4096 64).0 ++ shut (create no_space (some name) 4096 64).1)
        ≡ some nothing)
unfolding create create_named create_opened
create_balance_example = create_balance no_space (some name) 4096 64 refl

abbrev handle : Handle
handle = record {
  base = 65536;
  size = 4096;
  fd = 3;
  named = true;
  max_entries = 64;
  last_error = success;
  memory = init_table written 64;
}

abbrev later : Answers
later = record answers { mapping = some 131072; contents = init_table written 64 }

open_segment-create_example :
    (reopen later (some name)).1 ≡ some (record handle { base = 131072; fd = 3; named = true })
unfolding create create_named create_opened create_sized create_mapped
open_segment-create_example =
    open_segment-create answers later name 4096 64 3 131072 {h = handle} refl (omega arith) refl
      refl refl refl refl
