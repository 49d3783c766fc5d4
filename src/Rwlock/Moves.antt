-- ===== src/Rwlock/Moves.antt =====
-- The moves of one thread in the read-write lock, and that they keep the invariant.
use zeroipc.Base.{
  ℕ, ◌≡◌, Bool, true, false, arith, refl, sym, ◌∙◌, ap, pos, update, apply-update, update-update,
  update_self, subst, total, total-ext, ℕ_discrete, Bool-cases, inl, inr,
}
use zeroipc.Semaphore
use zeroipc.Semaphore.{Semaphore}
use zeroipc.Semaphore.Lock
use zeroipc.Semaphore.Lock.{holds}
use zeroipc.Rwlock.{
  writer_enter, try_writer_enter, try_writer_fail, writer_exit, RwLock, Task, Pc, mutex, add_reader,
  on_readers, after, mutex_step,
}
use zeroipc.Rwlock.Views.{Inv, reader_view, writer_view, reads, flags, excludes}
use zeroipc.Rwlock.After.{
  reads-after, flags-after, excludes-after, after-ne-add_reader, holds-reader, holds-writer,
  fresh-reader, fresh-writer, holds-writer_other, holds-reader_other,
}

module _ {n : ℕ} {l : RwLock} {pc : ℕ → Pc} (inv : Inv n l pc) (i : ℕ) where
  open inv use {reader_lock, writer_lock, readers_eq, active, checked, alone}

  abbrev readers_now : ℕ
  readers_now = total n (λ j. reads (pc j))

  -- The lock of one mutex after a move that neither takes nor gives it.
  pub reader_kept :
      (p : Pc)
      → holds (reader_view p) ≡ holds (reader_view (pc i))
      → Lock.IsFresh (reader_view p)
      → Lock.Inv l.reader_mutex (update (λ j. reader_view (pc j)) i (reader_view p))
  reader_kept p h f = Lock.move-Inv reader_lock i (reader_view p) h l.reader_mutex.waiting f

  pub writer_kept :
      (p : Pc)
      → holds (writer_view p) ≡ holds (writer_view (pc i))
      → Lock.IsFresh (writer_view p)
      → Lock.Inv l.writer_mutex (update (λ j. writer_view (pc j)) i (writer_view p))
  writer_kept p h f = Lock.move-Inv writer_lock i (writer_view p) h l.writer_mutex.waiting f

  reads_kept :
      (p : Pc) → reads p ≡ reads (pc i) → total n (λ j. reads (update pc i p j)) ≡ readers_now
  reads_kept p e =
      total-ext n (λ j. reads (update pc i p j)) (λ j. reads (pc j))
        (λ j lt. elim (ℕ_discrete i j) [ yes q ↦ ground (arith, e) | no ne ↦ ground arith ])

  -- A move that changes at most the mutexes.
  pub quiet-Inv :
      (rm wm : Semaphore) (p : Pc)
      → Lock.Inv rm (update (λ j. reader_view (pc j)) i (reader_view p))
      → Lock.Inv wm (update (λ j. writer_view (pc j)) i (writer_view p))
      → reads p ≡ reads (pc i)
      → (flags p ≡ true → l.writer_active ≡ 1)
      → (p ≡ add_reader → l.writer_active ≡ 0)
      → (excludes p ≡ true → readers_now ≡ 0)
      → Inv n (record l { reader_mutex = rm; writer_mutex = wm }) (update pc i p)
  quiet-Inv rm wm p r w same a c x = record {
    reader_lock =
        Lock.Inv-ext (λ j. reader_view (update pc i p j)) (apply-update reader_view pc i p) r;
    writer_lock =
        Lock.Inv-ext (λ j. writer_view (update pc i p j)) (apply-update writer_view pc i p) w;
    readers_eq = readers_eq ∙ ap pos (sym (reads_kept p same));
    active =
        λ j e. elim (ℕ_discrete i j) [ yes q ↦ a (ground arith) | no ne ↦ active j (ground arith) ];
    checked = λ j e. elim (ℕ_discrete i j) [
      | yes q ↦ c (ground arith)
      | no ne ↦ checked j (ground arith)
    ];
    alone = λ j e.
        reads_kept p same
        ∙ elim (ℕ_discrete i j) [ yes q ↦ x (ground arith) | no ne ↦ alone j (ground arith) ];
  }

  -- A move that leaves the mutexes to the thread as they are.
  pub place-Inv :
      (p : Pc)
      → (holds (reader_view p) ≡ holds (reader_view (pc i))) × Lock.IsFresh (reader_view p)
      → (holds (writer_view p) ≡ holds (writer_view (pc i))) × Lock.IsFresh (writer_view p)
      → reads p ≡ reads (pc i)
      → (flags p ≡ true → l.writer_active ≡ 1)
      → (p ≡ add_reader → l.writer_active ≡ 0)
      → (excludes p ≡ true → readers_now ≡ 0)
      → Inv n l (update pc i p)
  place-Inv p r w same a c x =
      quiet-Inv l.reader_mutex l.writer_mutex p (reader_kept p r.0 r.1) (writer_kept p w.0 w.1) same
        a c x

pub reader_at : (t : Task) (p : Semaphore.Pc) → on_readers t ≡ true → reader_view (mutex t p) ≡ p
reader_at writer_enter p e = cc
reader_at try_writer_enter p e = cc
reader_at try_writer_fail p e = cc
reader_at writer_exit p e = cc
reader_at t p e = refl

pub writer_at : (t : Task) (p : Semaphore.Pc) → on_readers t ≡ false → writer_view (mutex t p) ≡ p
writer_at writer_enter p e = refl
writer_at try_writer_enter p e = refl
writer_at try_writer_fail p e = refl
writer_at writer_exit p e = refl
writer_at t p e = cc

-- A step of a thread on a lock, and then a move outside it to a place that holds it as much.
step_out :
    {s : Semaphore} {v : ℕ → Semaphore.Pc} (inv : Lock.Inv s v) (i : ℕ) (lost : Bool)
    (p q : Semaphore.Pc)
    → v i ≡ p
    → holds q ≡ holds (Semaphore.step lost false s p).1
    → (Lock.IsFresh (Semaphore.step lost false s p).1 → Lock.IsFresh q)
    → Lock.Inv (Semaphore.step lost false s p).0 (update v i q)
step_out {s} {v} inv i lost p q e h f =
    let stepped : Lock.Inv (Semaphore.step lost false s p).0
        (update v i (Semaphore.step lost false s p).1) =
      Lock.step-Inv inv i lost false p e in
    let at : update v i (Semaphore.step lost false s p).1 i ≡ (Semaphore.step lost false s p).1 =
      update_self v i (Semaphore.step lost false s p).1 in
    Lock.Inv-ext (update v i q) (update-update v i (Semaphore.step lost false s p).1 q) (
      Lock.move-Inv stepped i q (h ∙ ap holds (sym at)) (Semaphore.step lost false s p).0.waiting
        (f (subst Lock.IsFresh at (stepped.fresh i))))

module _ {n : ℕ} {l : RwLock} {pc : ℕ → Pc} (inv : Inv n l pc) (i : ℕ) (lost : Bool) (t : Task)
    (p : Semaphore.Pc) (e : pc i ≡ mutex t p) where
  open inv use {reader_lock, writer_lock, active, alone}

  -- What a return does not change.
  step_quiet :
      (rm wm : Semaphore) (p' : Semaphore.Pc)
      → Lock.Inv rm (update (λ j. reader_view (pc j)) i (reader_view (after t p')))
      → Lock.Inv wm (update (λ j. writer_view (pc j)) i (writer_view (after t p')))
      → Inv n (record l { reader_mutex = rm; writer_mutex = wm }) (update pc i (after t p'))
  step_quiet rm wm p' r w =
      quiet-Inv inv i rm wm (after t p') r w (reads-after t p p' ∙ ap reads (sym e))
        (λ q. active i (ap flags e ∙ sym (flags-after t p p') ∙ q))
        (λ q. absurd (after-ne-add_reader t p' q))
        (λ q. alone i (ap excludes e ∙ sym (excludes-after t p p') ∙ q))

  pub mutex_step-Inv : Inv n (mutex_step lost l t p).0 (update pc i (mutex_step lost l t p).1)
  unfolding mutex_step
  mutex_step-Inv = elim (Bool-cases (on_readers t)) [
    | inl on ↦
        let p' : Semaphore.Pc = (Semaphore.step lost false l.reader_mutex p).1 in
        let other = holds-writer_other p' t p on in
        rw on (
          step_quiet (Semaphore.step lost false l.reader_mutex p).0 l.writer_mutex p'
            (step_out reader_lock i lost p (reader_view (after t p'))
              (ap reader_view e ∙ reader_at t p on) (holds-reader p' t on) (fresh-reader p' t on))
            (writer_kept inv i (after t p') (other.0 ∙ ap (λ q. holds (writer_view q)) (sym e))
              other.1))
    | inr off ↦
        let p' : Semaphore.Pc = (Semaphore.step lost false l.writer_mutex p).1 in
        let other = holds-reader_other p' t p off in
        rw off (
          step_quiet l.reader_mutex (Semaphore.step lost false l.writer_mutex p).0 p'
            (reader_kept inv i (after t p') (other.0 ∙ ap (λ q. holds (reader_view q)) (sym e))
              other.1)
            (step_out writer_lock i lost p (writer_view (after t p'))
              (ap writer_view e ∙ writer_at t p off) (holds-writer p' t off)
              (fresh-writer p' t off)))
  ]
