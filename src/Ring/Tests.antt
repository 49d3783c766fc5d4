-- ===== src/Ring/Tests.antt =====
-- The theorems about the ring on a run in a buffer of 5 bytes with elements of 2.
use zeroipc.Base.{◌⊎◌, ℕ, zero, suc, ◌+◌, ◌≤◌, ◌<◌, ◌≡◌, ◌↔◌, false, refl, arith}
use zeroipc.Ring.{
  Writer, Reader, write_step, read_step, write_load, read_load, write_check, accepted,
}
use zeroipc.Ring.System.{
  System, Reach, fresh, here, next, write_access, read_access, call_write, call_read, run_writer,
  run_reader, back_writer, back_reader,
}
use zeroipc.Ring.Fifo.{in_order, write_refused}

abbrev noise : ℕ → ℕ
noise i = 0

abbrev start : System ℕ
start = fresh 5 2 noise

record Run : Type 0 where
  last : System ℕ
  reach : Reach start last

abbrev produce : ℕ → Run → Run
produce zero s = s
produce (suc n) s =
    produce n (record { last = write_access s.last.writer s.last; reach = next s.reach run_writer })

abbrev consume : ℕ → Run → Run
consume zero s = s
consume (suc n) s =
    consume n (record { last = read_access s.last.reader s.last; reach = next s.reach run_reader })

abbrev start_write : (value : ℕ → ℕ) (s : Run) → s.last.writer ≡ Writer.idle → Run
start_write value s e = record {
  last = record (s.last) { writer = write_load value };
  reach = next s.reach (call_write value e);
}

abbrev start_read : (s : Run) → s.last.reader ≡ Reader.idle → Run
start_read s e = record {
  last = record (s.last) { reader = read_load noise };
  reach = next s.reach (call_read noise e);
}

-- An element has been written and read, and the next one too.
abbrev one : Run
unfolding fresh write_access read_access write_step read_step
one = consume 4 (
    start_read (produce 4 (start_write (λ i. 10 + i) (record { last = start; reach = here }) refl))
      refl)

abbrev rested : Run
unfolding fresh write_access read_access write_step read_step
rested = record {
  last = record (one.last) { writer = Writer.idle; reader = Reader.idle };
  reach = next (next one.reach (back_writer tt)) (back_reader tt);
}

-- The third element goes round the end of the buffer.
abbrev wrapped : Run
unfolding fresh write_access read_access write_step read_step
wrapped =
    let two : Run = produce 4 (start_write (λ i. 20 + i) rested refl) in
    let three : Run = produce 5 (
      start_write (λ i. 30 + i)
        (record {
          last = record (two.last) { writer = Writer.idle };
          reach = next two.reach (back_writer tt);
        })
        refl) in
    let again : Run = consume 4 (start_read three refl) in
    consume 5 (
      start_read
        (record {
          last = record (again.last) { reader = Reader.idle };
          reach = next again.reach (back_reader tt);
        })
        refl)

-- Two elements are in the ring, and a third is checked.
abbrev filled : Run
unfolding fresh write_access read_access write_step read_step
filled =
    let two : Run = produce 4 (start_write (λ i. 20 + i) rested refl) in
    let three : Run = produce 5 (
      start_write (λ i. 30 + i)
        (record {
          last = record (two.last) { writer = Writer.idle };
          reach = next two.reach (back_writer tt);
        })
        refl) in
    produce 1 (
      start_write (λ i. 40 + i)
        (record {
          last = record (three.last) { writer = Writer.idle };
          reach = next three.reach (back_writer tt);
        })
        refl)

in_order_example :
    (wrapped.last.ring.read_pos ≤ wrapped.last.total)
    × (wrapped.last.total ≤ wrapped.last.ring.read_pos + wrapped.last.ring.capacity)
    × ((wrapped.last.ring.read_pos ≤ 5) ⊎ (31 ≡ wrapped.last.sent 5))
unfolding fresh write_access read_access write_step read_step
in_order_example =
    in_order 5 2 noise (omega arith) (omega arith) (omega arith) {s = wrapped.last} wrapped.reach
      (omega arith) 5

write_refused_example :
    ((write_step filled.last.ring (write_check (λ i. 40 + i) 6)).1 ≡ accepted false) ↔ (
      filled.last.ring.read_pos + filled.last.ring.capacity
      < filled.last.total + filled.last.ring.elem_size)
unfolding fresh write_access read_access write_step read_step
write_refused_example =
    write_refused 5 2 noise (omega arith) (omega arith) (omega arith) {s = filled.last} filled.reach
      (omega arith) (λ i. 40 + i) 6 refl
