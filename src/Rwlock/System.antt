-- ===== src/Rwlock/System.antt =====
-- Any number of threads on one read-write lock, interleaved access by access.
use zeroipc.Base.{ℕ, ◌<◌, ◌≡◌, Bool, false, update, pos}
use zeroipc.Semaphore.{Semaphore, acquire_enter, try_load}
use zeroipc.Rwlock.{
  RwLock, Pc, step, idle, mutex, reader_enter, try_reader_enter, writer_enter, try_writer_enter,
  reading, writing, sub_reader, clear_active, failed,
}

pub record System : Type 0 where
  pub lock : RwLock
  pub pc : ℕ → Pc

unfoldable pub access : Bool → ℕ → Pc → System → System
access lost i p s = let (l, p') = step lost s.lock p in record { lock = l; pc = update s.pc i p' }

-- The threads are those below `n`. Only a thread that holds the lock unlocks it.
pub data Step (n : ℕ) (s : System) : System → Type 0 where
  call_reader_lock :
      (i : ℕ)
      → i < n
      → s.pc i ≡ idle
      → Step n s (record s { pc = update s.pc i (mutex reader_enter (acquire_enter false)) })
  call_try_reader_lock :
      (i : ℕ)
      → i < n
      → s.pc i ≡ idle
      → Step n s (record s { pc = update s.pc i (mutex try_reader_enter try_load) })
  call_reader_unlock :
      (i : ℕ) → i < n → s.pc i ≡ reading → Step n s (record s { pc = update s.pc i sub_reader })
  call_writer_lock :
      (i : ℕ)
      → i < n
      → s.pc i ≡ idle
      → Step n s (record s { pc = update s.pc i (mutex writer_enter (acquire_enter false)) })
  call_try_writer_lock :
      (i : ℕ)
      → i < n
      → s.pc i ≡ idle
      → Step n s (record s { pc = update s.pc i (mutex try_writer_enter try_load) })
  call_writer_unlock :
      (i : ℕ) → i < n → s.pc i ≡ writing → Step n s (record s { pc = update s.pc i clear_active })
  run : (lost : Bool) (i : ℕ) → i < n → Step n s (access lost i (s.pc i) s)
  back : (i : ℕ) → i < n → s.pc i ≡ failed → Step n s (record s { pc = update s.pc i idle })

-- A mutex as the constructor of Mutex makes it: initial count 1, at most 1.
abbrev pub free_mutex : Semaphore
free_mutex = record { count = pos 1; waiting = pos 0; max_count = pos 1 }

-- A lock as its constructor leaves it, and no thread in a call.
unfoldable pub fresh : System
fresh = record {
  lock = record {
    readers = pos 0;
    writer_active = 0;
    reader_mutex = free_mutex;
    writer_mutex = free_mutex;
  };
  pc = λ i. idle;
}

pub data Reach (n : ℕ) : System → Type 0 where
  start : Reach n fresh
  next : {s t : System} → Reach n s → Step n s t → Reach n t
