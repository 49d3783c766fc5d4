-- ===== src/Rwlock/Safety.antt =====
-- Every reachable state of the read-write lock satisfies the invariant, and what that means for readers
-- and writers.
use zeroipc.Base.{
  ℕ, ◌<◌, ◌≡◌, ◌≢◌, ◌⊎◌, Bool, true, false, arith, refl, sym, ◌∙◌, ap, pos, update, ◌==◌, total,
  total-member, total-zero, ℕ_discrete, Bool-cases, inl, inr, ltb_ℤ, subst,
}
use zeroipc.Semaphore
use zeroipc.Semaphore.{acquire_enter, try_load, release_load, overflow_error}
use zeroipc.Semaphore.Lock
use zeroipc.Semaphore.Lock.{holds}
use zeroipc.Rwlock.{
  RwLock, Task, Pc, step, idle, mutex, load_active, add_reader, sub_reader, reading, mark_active,
  load_readers, check_readers, mark_active_trying, clear_active, writing, failed, reader_enter,
  reader_retry, try_reader_enter, try_reader_fail, writer_enter, writer_thaw, try_writer_enter,
  try_writer_thaw, try_writer_done, on_readers,
}
use zeroipc.Rwlock.System.{
  System, Step, Reach, access, fresh, start, next, call_reader_lock, call_try_reader_lock,
  call_reader_unlock, call_writer_lock, call_try_writer_lock, call_writer_unlock, run, back,
}
use zeroipc.Rwlock.Views.{Inv, reader_view, writer_view, reads, flags, excludes}
use zeroipc.Rwlock.Moves.{mutex_step-Inv, reader_at, writer_at}
use zeroipc.Rwlock.Stores.{add-Inv, sub-Inv, mark-Inv, clear-Inv, go-Inv}

abbrev IsSafe : ℕ → System → Type 0
IsSafe n s = Inv n s.lock s.pc

none_inside :
    {n : ℕ} {l : RwLock} {pc : ℕ → Pc}
    → Inv n l pc
    → ltb_ℤ (pos 0) l.readers ≡ false
    → total n (λ j. reads (pc j)) ≡ 0
none_inside inv f = ground (arith, inv.readers_eq)

access-IsSafe :
    {n : ℕ} {s : System} (inv : IsSafe n s) (i : ℕ) (lt : i < n) (lost : Bool) (p : Pc)
    → s.pc i ≡ p
    → IsSafe n (access lost i p s)
unfolding access step
access-IsSafe inv i lt lost (mutex t p) e = mutex_step-Inv inv i lost t p e
access-IsSafe {s = s} inv i lt lost (load_active true) e =
    elim (Bool-cases (s.lock.writer_active == 0)) [
      | inl f ↦ rw f (
          go-Inv inv i lt (load_active true) add_reader e (refl, tt) (refl, tt) refl (λ q. q)
            (λ q. ground arith) (λ q. absurd (cc q)))
      | inr f ↦ rw f (
          go-Inv inv i lt (load_active true) (mutex try_reader_fail release_load) e (refl, tt)
            (refl, tt) refl (λ q. q) (λ q. absurd (cc q)) (λ q. absurd (cc q)))
    ]
access-IsSafe {s = s} inv i lt lost (load_active false) e =
    elim (Bool-cases (s.lock.writer_active == 0)) [
      | inl f ↦ rw f (
          go-Inv inv i lt (load_active false) add_reader e (refl, tt) (refl, tt) refl (λ q. q)
            (λ q. ground arith) (λ q. absurd (cc q)))
      | inr f ↦ rw f (
          go-Inv inv i lt (load_active false) (mutex reader_retry release_load) e (refl, tt)
            (refl, tt) refl (λ q. q) (λ q. absurd (cc q)) (λ q. absurd (cc q)))
    ]
access-IsSafe inv i lt lost add_reader e = add-Inv inv i lt e
access-IsSafe inv i lt lost sub_reader e = sub-Inv inv i lt e
access-IsSafe inv i lt lost mark_active e =
    mark-Inv inv i lt mark_active (mutex writer_thaw release_load) e (refl, tt) (refl, tt) refl refl
      (λ q. cc q) (λ q. q)
access-IsSafe inv i lt lost mark_active_trying e =
    mark-Inv inv i lt mark_active_trying (mutex try_writer_done release_load) e (refl, tt)
      (refl, tt) refl refl (λ q. cc q) (λ q. refl)
access-IsSafe {s = s} inv i lt lost load_readers e =
    elim (Bool-cases (ltb_ℤ (pos 0) s.lock.readers)) [
      | inl f ↦ rw f (
          go-Inv inv i lt load_readers load_readers e (refl, tt) (refl, tt) refl (λ q. q)
            (λ q. absurd (cc q)) (λ q. absurd (cc q)))
      | inr f ↦ rw f (
          go-Inv inv i lt load_readers writing e (refl, tt) (refl, tt) refl (λ q. refl)
            (λ q. absurd (cc q)) (λ q. none_inside inv f))
    ]
access-IsSafe {s = s} inv i lt lost check_readers e =
    elim (Bool-cases (ltb_ℤ (pos 0) s.lock.readers)) [
      | inl f ↦ rw f (
          go-Inv inv i lt check_readers (mutex try_writer_thaw release_load) e (refl, tt) (refl, tt)
            refl (λ q. q) (λ q. absurd (cc q)) (λ q. absurd (cc q)))
      | inr f ↦ rw f (
          go-Inv inv i lt check_readers mark_active_trying e (refl, tt) (refl, tt) refl (λ q. q)
            (λ q. absurd (cc q)) (λ q. none_inside inv f))
    ]
access-IsSafe inv i lt lost clear_active e = clear-Inv inv i lt e
access-IsSafe inv i lt lost idle e =
    go-Inv inv i lt idle idle e (refl, tt) (refl, tt) refl (λ q. q) (λ q. absurd (cc q))
      (λ q. absurd (cc q))
access-IsSafe inv i lt lost reading e =
    go-Inv inv i lt reading reading e (refl, tt) (refl, tt) refl (λ q. q) (λ q. absurd (cc q))
      (λ q. absurd (cc q))
access-IsSafe inv i lt lost writing e =
    go-Inv inv i lt writing writing e (refl, tt) (refl, tt) refl (λ q. q) (λ q. absurd (cc q))
      (λ q. inv.alone i (ap excludes e))
access-IsSafe inv i lt lost failed e =
    go-Inv inv i lt failed failed e (refl, tt) (refl, tt) refl (λ q. q) (λ q. absurd (cc q))
      (λ q. absurd (cc q))

-- A call or a return changes nothing but the place.
call-IsSafe :
    {n : ℕ} {s : System} (inv : IsSafe n s) (i : ℕ) (lt : i < n) (p p' : Pc)
    → s.pc i ≡ p
    → (holds (reader_view p') ≡ holds (reader_view p)) × Lock.IsFresh (reader_view p')
    → (holds (writer_view p') ≡ holds (writer_view p)) × Lock.IsFresh (writer_view p')
    → reads p' ≡ reads p
    → (flags p' ≡ true → flags p ≡ true)
    → p' ≢ add_reader
    → (excludes p' ≡ true → excludes p ≡ true)
    → IsSafe n (record s { pc = update s.pc i p' })
call-IsSafe inv i lt p p' e r w same f ne x =
    go-Inv inv i lt p p' e r w same f (λ q. absurd (ne q)) (λ q. inv.alone i (ap excludes e ∙ x q))

Step-IsSafe : {n : ℕ} {s t : System} → Step n s t → IsSafe n s → IsSafe n t
Step-IsSafe (call_reader_lock i lt e) inv =
    call-IsSafe inv i lt idle (mutex reader_enter (acquire_enter false)) e (refl, tt) (refl, tt)
      refl (λ q. cc q) (λ q. cc q) (λ q. cc q)
Step-IsSafe (call_try_reader_lock i lt e) inv =
    call-IsSafe inv i lt idle (mutex try_reader_enter try_load) e (refl, tt) (refl, tt) refl
      (λ q. cc q) (λ q. cc q) (λ q. cc q)
Step-IsSafe (call_reader_unlock i lt e) inv =
    call-IsSafe inv i lt reading sub_reader e (refl, tt) (refl, tt) refl (λ q. cc q) (λ q. cc q)
      (λ q. cc q)
Step-IsSafe (call_writer_lock i lt e) inv =
    call-IsSafe inv i lt idle (mutex writer_enter (acquire_enter false)) e (refl, tt) (refl, tt)
      refl (λ q. cc q) (λ q. cc q) (λ q. cc q)
Step-IsSafe (call_try_writer_lock i lt e) inv =
    call-IsSafe inv i lt idle (mutex try_writer_enter try_load) e (refl, tt) (refl, tt) refl
      (λ q. cc q) (λ q. cc q) (λ q. cc q)
Step-IsSafe (call_writer_unlock i lt e) inv =
    call-IsSafe inv i lt writing clear_active e (refl, tt) (refl, tt) refl (λ q. refl) (λ q. cc q)
      (λ q. refl)
Step-IsSafe {s = s} (run lost i lt) inv = access-IsSafe inv i lt lost (s.pc i) refl
Step-IsSafe (back i lt e) inv =
    call-IsSafe inv i lt failed idle e (refl, tt) (refl, tt) refl (λ q. cc q) (λ q. cc q)
      (λ q. cc q)

fresh-IsSafe : (n : ℕ) → IsSafe n fresh
unfolding fresh
fresh-IsSafe n = record {
  reader_lock = unlocked;
  writer_lock = unlocked;
  readers_eq = ap pos (sym (total-zero n (λ i. 0) (λ i lt. refl)));
  active = λ i e. cc;
  checked = λ i e. cc;
  alone = λ i e. cc;
}
  where
    unlocked :
        Lock.Inv
          (record { count = pos 1; waiting = pos 0; max_count = pos 1 })
          (λ i. Semaphore.idle)
    unlocked = record {
      max_eq = refl;
      count_eq = refl;
      count-le = omega arith;
      free = λ i e. refl;
      held = λ e. absurd (omega arith);
      one = λ i j e f. cc;
      fresh = λ i. tt;
    }

Reach-IsSafe : {n : ℕ} {s : System} → Reach n s → IsSafe n s
Reach-IsSafe {n} start = fresh-IsSafe n
Reach-IsSafe (next r st) = Step-IsSafe st (Reach-IsSafe r)

-- In every state that any number of threads reach from a new read-write lock, while one thread has
-- the lock for writing, no other thread has it for reading or writing, and the count of readers is
-- 0.
pub writer_excludes :
    {n : ℕ} {s : System} (i j : ℕ)
    → Reach n s
    → i < n
    → j < n
    → i ≢ j
    → s.pc i ≡ writing
    → (s.pc j ≢ writing) × (s.pc j ≢ reading) × (s.lock.readers ≡ pos 0)
writer_excludes {n} {s} i j r hi hj ne e =
    let inv = Reach-IsSafe r in
    let nobody : total n (λ k. reads (s.pc k)) ≡ 0 = inv.alone i (ap excludes e) in
    (
      (λ q. ne (
          inv.writer_lock.one i j (ap (λ p. holds (writer_view p)) e)
            (ap (λ p. holds (writer_view p)) q))),
      (λ q. absurd (omega (arith, nobody, total-member n (λ k. reads (s.pc k)) j hj, ap reads q))),
      inv.readers_eq ∙ ap pos nobody,
    )

-- In every state that any number of threads reach from a new read-write lock, no unlock of one of
-- its two mutexes throws std::overflow_error, and the count of readers is positive whenever a
-- thread is about to decrement it, which is what reader_unlock asserts.
pub unlock_safe :
    {n : ℕ} {s : System} (i : ℕ) (t : Task)
    → Reach n s
    → i < n
    → (s.pc i ≢ mutex t overflow_error)
      × ((s.pc i ≢ sub_reader) ⊎ (ltb_ℤ (pos 0) s.lock.readers ≡ true))
unlock_safe {n} {s} i t r hi =
    let inv = Reach-IsSafe r in
    (
      (λ q. elim (Bool-cases (on_readers t)) [
        | inl on ↦
            subst Lock.IsFresh (ap reader_view q ∙ reader_at t overflow_error on)
              (inv.reader_lock.fresh i)
        | inr off ↦
            subst Lock.IsFresh (ap writer_view q ∙ writer_at t overflow_error off)
              (inv.writer_lock.fresh i)
      ]),
      elim (ℕ_discrete (reads (s.pc i)) 0) [
        | yes e ↦ inl (λ q. absurd (omega (arith, e, ap reads q)))
        | no ne ↦ inr (ground (arith, inv.readers_eq, total-member n (λ k. reads (s.pc k)) i hi))
      ],
    )
