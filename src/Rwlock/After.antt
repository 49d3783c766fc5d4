-- ===== src/Rwlock/After.antt =====
-- A return from a call of a mutex changes neither what the thread holds nor what it knows.
use zeroipc.Base.{◌≡◌, ◌≢◌, Bool, true, false, refl}
use zeroipc.Semaphore
use zeroipc.Semaphore.{acquired, refused, released, idle}
use zeroipc.Semaphore.Lock
use zeroipc.Semaphore.Lock.{holds}
use zeroipc.Rwlock.{
  Task, Pc, mutex, add_reader, on_readers, after, after_acquired, after_refused, after_released,
  reader_enter, writer_enter, try_writer_enter, try_writer_fail, writer_exit,
}
use zeroipc.Rwlock.Views.{reader_view, writer_view, reads, flags, excludes}

after-elim :
    (P : Pc → Type 0) (t : Task) (p : Semaphore.Pc)
    → P (after_acquired t)
    → P (after_refused t)
    → P (after_released t)
    → P (mutex t p)
    → P (after t p)
unfolding after
after-elim P t acquired a b c d = a
after-elim P t refused a b c d = b
after-elim P t released a b c d = c
after-elim P t p a b c d = d

pub reads-after : (t : Task) (p p' : Semaphore.Pc) → reads (after t p') ≡ reads (mutex t p)
reads-after reader_enter p p' =
    after-elim (λ q. reads q ≡ reads (mutex reader_enter p)) reader_enter p' refl refl refl refl
reads-after t p p' = after-elim (λ q. reads q ≡ reads (mutex t p)) t p' refl refl refl refl

pub flags-after : (t : Task) (p p' : Semaphore.Pc) → flags (after t p') ≡ flags (mutex t p)
flags-after reader_enter p p' =
    after-elim (λ q. flags q ≡ flags (mutex reader_enter p)) reader_enter p' refl refl refl refl
flags-after t p p' = after-elim (λ q. flags q ≡ flags (mutex t p)) t p' refl refl refl refl

pub excludes-after : (t : Task) (p p' : Semaphore.Pc) → excludes (after t p') ≡ excludes (mutex t p)
excludes-after reader_enter p p' =
    after-elim (λ q. excludes q ≡ excludes (mutex reader_enter p)) reader_enter p' refl refl refl
      refl
excludes-after t p p' = after-elim (λ q. excludes q ≡ excludes (mutex t p)) t p' refl refl refl refl

abbrev is_add_reader : Pc → Bool
is_add_reader add_reader = true
is_add_reader p = false

after-ne : (t : Task) (p' : Semaphore.Pc) → is_add_reader (after t p') ≡ false
after-ne reader_enter p' =
    after-elim (λ q. is_add_reader q ≡ false) reader_enter p' refl refl refl refl
after-ne t p' = after-elim (λ q. is_add_reader q ≡ false) t p' refl refl refl refl

pub after-ne-add_reader : (t : Task) (p' : Semaphore.Pc) → after t p' ≢ add_reader
after-ne-add_reader t p' e = cc (after-ne t p')

-- The mutex that the call is on, when the call has come to `p`.
holds-rule :
    (view : Pc → Semaphore.Pc) (t : Task) (p : Semaphore.Pc)
    → holds (view (after_acquired t)) ≡ true
    → holds (view (after_refused t)) ≡ false
    → holds (view (after_released t)) ≡ false
    → holds (view (mutex t p)) ≡ holds p
    → holds (view (after t p)) ≡ holds p
unfolding after
holds-rule view t acquired a b c d = a
holds-rule view t refused a b c d = b
holds-rule view t released a b c d = c
holds-rule view t p a b c d = d

module _ (p : Semaphore.Pc) where
  pub holds-reader : (t : Task) → on_readers t ≡ true → holds (reader_view (after t p)) ≡ holds p
  holds-reader writer_enter e = cc
  holds-reader try_writer_enter e = cc
  holds-reader try_writer_fail e = cc
  holds-reader writer_exit e = cc
  holds-reader t e = holds-rule reader_view t p refl refl refl refl

  pub holds-writer : (t : Task) → on_readers t ≡ false → holds (writer_view (after t p)) ≡ holds p
  holds-writer writer_enter e = holds-rule writer_view writer_enter p refl refl refl refl
  holds-writer try_writer_enter e = holds-rule writer_view try_writer_enter p refl refl refl refl
  holds-writer try_writer_fail e = holds-rule writer_view try_writer_fail p refl refl refl refl
  holds-writer writer_exit e = holds-rule writer_view writer_exit p refl refl refl refl
  holds-writer t e = cc

  pub fresh-reader :
      (t : Task) → on_readers t ≡ true → Lock.IsFresh p → Lock.IsFresh (reader_view (after t p))
  fresh-reader writer_enter e f = cc
  fresh-reader try_writer_enter e f = cc
  fresh-reader try_writer_fail e f = cc
  fresh-reader writer_exit e f = cc
  fresh-reader t e f = after-elim (λ q. Lock.IsFresh (reader_view q)) t p tt tt tt f

  pub fresh-writer :
      (t : Task) → on_readers t ≡ false → Lock.IsFresh p → Lock.IsFresh (writer_view (after t p))
  fresh-writer writer_enter e f =
      after-elim (λ q. Lock.IsFresh (writer_view q)) writer_enter p tt tt tt f
  fresh-writer try_writer_enter e f =
      after-elim (λ q. Lock.IsFresh (writer_view q)) try_writer_enter p tt tt tt f
  fresh-writer try_writer_fail e f =
      after-elim (λ q. Lock.IsFresh (writer_view q)) try_writer_fail p tt tt tt f
  fresh-writer writer_exit e f =
      after-elim (λ q. Lock.IsFresh (writer_view q)) writer_exit p tt tt tt f
  fresh-writer t e f = cc

  -- The other mutex.
  pub holds-writer_other :
      (t : Task) (before : Semaphore.Pc)
      → on_readers t ≡ true
      → (holds (writer_view (after t p)) ≡ holds (writer_view (mutex t before)))
        × Lock.IsFresh (writer_view (after t p))
  holds-writer_other writer_enter before e = cc
  holds-writer_other try_writer_enter before e = cc
  holds-writer_other try_writer_fail before e = cc
  holds-writer_other writer_exit before e = cc
  holds-writer_other t before e =
      after-elim
        (λ q.
          (holds (writer_view q) ≡ holds (writer_view (mutex t before)))
          × Lock.IsFresh (writer_view q))
        t p (refl, tt) (refl, tt) (refl, tt) (refl, tt)

  pub holds-reader_other :
      (t : Task) (before : Semaphore.Pc)
      → on_readers t ≡ false
      → (holds (reader_view (after t p)) ≡ holds (reader_view (mutex t before)))
        × Lock.IsFresh (reader_view (after t p))
  holds-reader_other writer_enter before e =
      after-elim (λ q. (holds (reader_view q) ≡ false) × Lock.IsFresh (reader_view q)) writer_enter
        p (refl, tt) (refl, tt) (refl, tt) (refl, tt)
  holds-reader_other try_writer_enter before e =
      after-elim (λ q. (holds (reader_view q) ≡ false) × Lock.IsFresh (reader_view q))
        try_writer_enter p (refl, tt) (refl, tt) (refl, tt) (refl, tt)
  holds-reader_other try_writer_fail before e =
      after-elim (λ q. (holds (reader_view q) ≡ false) × Lock.IsFresh (reader_view q))
        try_writer_fail p (refl, tt) (refl, tt) (refl, tt) (refl, tt)
  holds-reader_other writer_exit before e =
      after-elim (λ q. (holds (reader_view q) ≡ false) × Lock.IsFresh (reader_view q)) writer_exit p
        (refl, tt) (refl, tt) (refl, tt) (refl, tt)
  holds-reader_other t before e = cc
