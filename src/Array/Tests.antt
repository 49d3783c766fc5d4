-- ===== src/Array/Tests.antt =====
-- The theorems about arrays on an array of three elements of four bytes, in a new segment.
use zeroipc.Base.{ℕ, ◌+◌, ◌*◌, ◌≡◌, ◌≤◌, ◌⊎◌, some, arith, refl, true, [], ◌∷◌, Name}
use zeroipc.Table.{Memory, add, add_named, append_entry, align_up, index_of, search_from}
use zeroipc.Table.Errors.{success}
use zeroipc.Table.Init.{init_table, calculate_table_size, init_table-IsValid}
use zeroipc.Table.Valid.{IsValid}
use zeroipc.Array.{
  Segment, create, create_named, finish_create, total_size, write_array, reopen, get, set, array_at,
}
use zeroipc.Array.Bounds.{IsSized, get-set}
use zeroipc.Array.Reopen.{reopen-create}

abbrev raw : Memory
raw = record {
  size = 1024;
  header = record {
    magic = 0;
    version = 0;
    entry_count = 0;
    max_entries = 0;
    memory_size = 0;
    next_offset = 0;
  };
  entries = λ i. record { name = []; offset = 0; size = 0 };
}

abbrev segment : Segment
segment = record {
  memory = init_table raw 4;
  headers = λ i. record { capacity = 0; elem_size = 0 };
  bytes = λ i. 0;
}

abbrev data_name : Name
data_name = 100 ∷ 97 ∷ []

segment-IsValid : IsValid segment.memory
segment-IsValid = (init_table-IsValid raw 4 data_name (omega arith) (omega arith)).0

abbrev made : Segment
made = (create true segment (some data_name) 4 3).0

creates : create true segment (some data_name) 4 3 ≡ (made, some (array_at 224 4 3))
unfolding create create_named finish_create total_size write_array add add_named append_entry
    align_up index_of search_from init_table calculate_table_size
creates = refl

reopen-create_example :
    (reopen true made (some data_name) ≡ some (array_at 224 4 3))
    × IsSized (array_at 224 4 3)
    × ((array_at 224 4 3).payload + (array_at 224 4 3).capacity * (array_at 224 4 3).elem_size
        ≤ segment.memory.size)
reopen-create_example = reopen-create segment data_name 4 3 segment-IsValid creates

array-IsSized : IsSized (array_at 224 4 3)
array-IsSized = record { nonempty = omega arith; counted = omega arith }

get-set_example :
    ((set (array_at 224 4 3) made 0 (some (λ b. 7))).1 ≡ success)
    × ((set (array_at 224 4 3) made 0 (some (λ b. 7))).0.bytes (240 + 1) ≡ 7)
    × (◌≡◌ {A = ℕ} 0 2
        ⊎ ((set (array_at 224 4 3) made 0 (some (λ b. 7))).0.bytes (248 + 1)
            ≡ made.bytes (248 + 1)))
unfolding get
get-set_example =
    get-set (array_at 224 4 3) made 0 2 1 (λ b. 7) {p = 240} {q = 248} array-IsSized refl refl
      (omega arith)
