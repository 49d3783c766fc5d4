-- ===== src/Rwlock/Views.antt =====
-- What the place of a thread in the read-write lock is for each of the two mutexes, and what it knows.
use zeroipc.Base.{ℕ, ◌≡◌, Bool, true, false, pos, total}
use zeroipc.Semaphore
use zeroipc.Semaphore.{
  Semaphore, idle, acquire_enter, acquire_load, acquire_claim, acquire_leave, try_load, try_claim,
  release_load, release_claim, acquired, refused, released, overflow_error,
}
use zeroipc.Semaphore.Lock
use zeroipc.Rwlock.{
  RwLock, Task, Pc, mutex, load_active, add_reader, sub_reader, reading, mark_active, load_readers,
  check_readers, mark_active_trying, clear_active, writing, reader_done, writer_enter,
  writer_freeze, writer_thaw, try_writer_enter, try_writer_freeze, try_writer_thaw, try_writer_fail,
  try_writer_done, writer_exit,
}

-- The place as reader_mutex_ sees it: `acquired` outside its calls, where the thread holds it.
abbrev pub reader_task : Task → Semaphore.Pc → Semaphore.Pc
reader_task writer_enter p = idle
reader_task try_writer_enter p = idle
reader_task try_writer_fail p = idle
reader_task writer_exit p = idle
reader_task t p = p

abbrev pub reader_view : Pc → Semaphore.Pc
reader_view (mutex t p) = reader_task t p
reader_view (load_active trying) = acquired
reader_view add_reader = acquired
reader_view mark_active = acquired
reader_view check_readers = acquired
reader_view mark_active_trying = acquired
reader_view p = idle

-- The place as writer_mutex_ sees it.
abbrev pub writer_task : Task → Semaphore.Pc → Semaphore.Pc
writer_task writer_enter p = p
writer_task try_writer_enter p = p
writer_task try_writer_fail p = p
writer_task writer_exit p = p
writer_task writer_freeze p = acquired
writer_task writer_thaw p = acquired
writer_task try_writer_freeze p = acquired
writer_task try_writer_thaw p = acquired
writer_task try_writer_done p = acquired
writer_task t p = idle

abbrev pub writer_view : Pc → Semaphore.Pc
writer_view (mutex t p) = writer_task t p
writer_view mark_active = acquired
writer_view load_readers = acquired
writer_view check_readers = acquired
writer_view mark_active_trying = acquired
writer_view clear_active = acquired
writer_view writing = acquired
writer_view p = idle

-- 1 for a thread that `readers` counts.
abbrev pub reads : Pc → ℕ
reads (mutex reader_done p) = 1
reads reading = 1
reads sub_reader = 1
reads p = 0

-- A writer that has set `writer_active`.
abbrev pub flags : Pc → Bool
flags (mutex writer_thaw p) = true
flags load_readers = true
flags (mutex try_writer_done p) = true
flags writing = true
flags clear_active = true
flags p = false

-- A writer that has seen that no reader is inside.
abbrev pub excludes : Pc → Bool
excludes mark_active_trying = true
excludes (mutex try_writer_done p) = true
excludes writing = true
excludes clear_active = true
excludes p = false

pub record Inv (n : ℕ) (l : RwLock) (pc : ℕ → Pc) : Type 0 where
  pub reader_lock : Lock.Inv l.reader_mutex (λ i. reader_view (pc i))
  pub writer_lock : Lock.Inv l.writer_mutex (λ i. writer_view (pc i))
  pub readers_eq : l.readers ≡ pos (total n (λ i. reads (pc i)))
  pub active : (i : ℕ) → flags (pc i) ≡ true → l.writer_active ≡ 1
  pub checked : (i : ℕ) → pc i ≡ add_reader → l.writer_active ≡ 0
  pub alone : (i : ℕ) → excludes (pc i) ≡ true → total n (λ j. reads (pc j)) ≡ 0
