-- ===== src/Rwlock/Tests.antt =====
-- The theorems about the read-write lock on runs of two threads.
use zeroipc.Base.{ℕ, ◌<◌, ◌≡◌, ◌≢◌, ◌⊎◌, arith, refl, false, true, update, pos, zero, suc, ltb_ℤ}
use zeroipc.Semaphore
use zeroipc.Semaphore.{acquire_enter, try_load, release_load, overflow_error}
use zeroipc.Rwlock.{
  step, after, mutex_step, mutex, reader_enter, writer_enter, reader_done, sub_reader, reading,
  writing,
}
use zeroipc.Rwlock.System.{
  System, Reach, fresh, access, start, next, call_reader_lock, call_writer_lock, call_reader_unlock,
  run,
}
use zeroipc.Rwlock.Safety.{writer_excludes, unlock_safe}

record Seen : Type 0 where
  last : System
  reach : Reach 2 last

abbrev go : (i : ℕ) → i < 2 → Seen → Seen
go i lt s = record {
  last = access false i (s.last.pc i) s.last;
  reach = next s.reach (run false i lt);
}

abbrev go_on : (i : ℕ) → i < 2 → ℕ → Seen → Seen
go_on i lt zero s = s
go_on i lt (suc n) s = go_on i lt n (go i lt s)

-- Thread 0 reads, and thread 1 is before its first access in writer_lock.
abbrev one_reads : Seen
unfolding fresh access step mutex_step after Semaphore.step
one_reads =
    let first : Seen = go_on 0 (omega arith) 8 (record {
      last = record fresh { pc = update fresh.pc 0 (mutex reader_enter (acquire_enter false)) };
      reach = next start (call_reader_lock 0 (omega arith) refl);
    }) in
    record {
      last = record (first.last) {
        pc = update first.last.pc 1 (mutex writer_enter (acquire_enter false));
      };
      reach = next first.reach (call_writer_lock 1 (omega arith) refl);
    }

-- Thread 0 is about to leave, and thread 1 waits for it.
abbrev leaving : Seen
unfolding fresh access step mutex_step after Semaphore.step
leaving =
    let ahead : Seen = go_on 1 (omega arith) 11 one_reads in
    record {
      last = record (ahead.last) { pc = update ahead.last.pc 0 sub_reader };
      reach = next ahead.reach (call_reader_unlock 0 (omega arith) refl);
    }

-- Thread 0 has left, and thread 1 writes.
abbrev one_writes : Seen
unfolding fresh access step mutex_step after Semaphore.step
one_writes = go 1 (omega arith) (go 0 (omega arith) leaving)

writer_excludes_example :
    (one_writes.last.pc 0 ≢ writing)
    × (one_writes.last.pc 0 ≢ reading)
    × (one_writes.last.lock.readers ≡ pos 0)
unfolding fresh access step mutex_step after Semaphore.step
writer_excludes_example =
    writer_excludes {n = 2} {s = one_writes.last} 1 0 one_writes.reach (omega arith) (omega arith)
      (omega arith) refl

unlock_safe_example :
    (leaving.last.pc 0 ≢ mutex reader_done overflow_error)
    × ((leaving.last.pc 0 ≢ sub_reader) ⊎ (ltb_ℤ (pos 0) leaving.last.lock.readers ≡ true))
unlock_safe_example =
    unlock_safe {n = 2} {s = leaving.last} 0 reader_done leaving.reach (omega arith)
