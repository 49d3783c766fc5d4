-- ===== src/Rwlock.antt =====
-- cpp/include/zeroipc/rwlock.h: the read-write lock, one shared access at a time. Its two mutexes are
-- the binary semaphores of mutex.h, and each of their accesses is a step of Semaphore.
pub mod System
pub mod Views
pub mod After
pub mod Moves
pub mod Stores
pub mod Safety
mod Tests
use zeroipc.Base.{ℕ, Bool, true, false, ◌==◌, if◌then◌else◌, ℤ, pos, ◌+ℤ◌, ◌-ℤ◌, ltb_ℤ}
use zeroipc.Semaphore
use zeroipc.Semaphore.{
  Semaphore, acquire_enter, try_load, release_load, acquired, refused, released,
}

-- `RWLockState`, and the two mutexes.
pub record RwLock : Type 0 where
  pub readers : ℤ
  pub writer_active : ℕ
  pub reader_mutex : Semaphore
  pub writer_mutex : Semaphore

-- The calls of a mutex, each named by the method that makes it and by what it does there.
pub data Task : Type 0 where
  -- reader_lock: the lock before the check; the unlock in the loop; the unlock after the increment,
  -- also of try_reader_lock
  reader_enter reader_retry reader_done : Task
  -- try_reader_lock: the attempt; the unlock after a failed check
  try_reader_enter try_reader_fail : Task
  -- writer_lock: the writers' mutex; the readers' mutex; its unlock
  writer_enter writer_freeze writer_thaw : Task
  -- try_writer_lock: the attempts on both; the unlocks after a failure; the unlock after success
  try_writer_enter try_writer_freeze try_writer_thaw try_writer_fail try_writer_done : Task
  -- writer_unlock
  writer_exit : Task

-- Whether the call is on reader_mutex_ or on writer_mutex_.
abbrev pub on_readers : Task → Bool
on_readers writer_enter = false
on_readers try_writer_enter = false
on_readers try_writer_fail = false
on_readers writer_exit = false
on_readers t = true

-- Where a thread stands, before one access to shared memory; in a call of a mutex, with its place there.
-- A thread stays at `reading` or `writing` until it unlocks.
pub data Pc : Type 0 where
  idle : Pc
  mutex : (task : Task) (p : Semaphore.Pc) → Pc
  load_active : (trying : Bool) → Pc
  add_reader : Pc
  sub_reader : Pc
  reading : Pc
  mark_active : Pc
  load_readers : Pc
  check_readers : Pc
  mark_active_trying : Pc
  clear_active : Pc
  writing : Pc
  failed : Pc

-- The code after a call of a mutex, by what the call has come to.
abbrev pub after_acquired : Task → Pc
after_acquired reader_enter = load_active false
after_acquired try_reader_enter = load_active true
after_acquired writer_enter = mutex writer_freeze (acquire_enter false)
after_acquired writer_freeze = mark_active
after_acquired try_writer_enter = mutex try_writer_freeze try_load
after_acquired try_writer_freeze = check_readers
after_acquired t = mutex t acquired

abbrev pub after_refused : Task → Pc
after_refused try_reader_enter = failed
after_refused try_writer_enter = failed
after_refused try_writer_freeze = mutex try_writer_fail release_load
after_refused t = mutex t refused

abbrev pub after_released : Task → Pc
after_released reader_retry = mutex reader_enter (acquire_enter false)
after_released reader_done = reading
after_released try_reader_fail = failed
after_released writer_thaw = load_readers
after_released try_writer_thaw = mutex try_writer_fail release_load
after_released try_writer_fail = failed
after_released try_writer_done = writing
after_released writer_exit = idle
after_released t = mutex t released

unfoldable pub after : Task → Semaphore.Pc → Pc
after t acquired = after_acquired t
after t refused = after_refused t
after t released = after_released t
after t p = mutex t p

-- An access to one of the two mutexes.
unfoldable pub mutex_step : Bool → RwLock → Task → Semaphore.Pc → RwLock × Pc
unfolding after
mutex_step lost l t p =
    let (sem, p') =
      Semaphore.step lost false (if on_readers t then l.reader_mutex else l.writer_mutex) p in
    (
      if on_readers t then record l { reader_mutex = sem } else record l { writer_mutex = sem },
      after t p',
    )

-- One access. `lost` says that a weak compare-exchange fails without a reason.
unfoldable pub step : Bool → RwLock → Pc → RwLock × Pc
unfolding mutex_step
step lost l (mutex t p) = mutex_step lost l t p
step lost l (load_active trying) = (
  l,
  if l.writer_active == 0
      then add_reader
      else if trying
      then mutex try_reader_fail release_load
      else mutex reader_retry release_load,
)
step lost l add_reader = (record l { readers = l.readers +ℤ pos 1 }, mutex reader_done release_load)
step lost l sub_reader = (record l { readers = l.readers -ℤ pos 1 }, idle)
step lost l mark_active = (record l { writer_active = 1 }, mutex writer_thaw release_load)
step lost l load_readers = (l, if ltb_ℤ (pos 0) l.readers then load_readers else writing)
step lost l check_readers =
    (l, if ltb_ℤ (pos 0) l.readers then mutex try_writer_thaw release_load else mark_active_trying)
step lost l mark_active_trying =
    (record l { writer_active = 1 }, mutex try_writer_done release_load)
step lost l clear_active = (record l { writer_active = 0 }, mutex writer_exit release_load)
step lost l p = (l, p)
