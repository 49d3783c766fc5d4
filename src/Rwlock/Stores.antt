-- ===== src/Rwlock/Stores.antt =====
-- The accesses to `readers` and `writer_active` keep the invariant of the read-write lock.
use zeroipc.Base.{
  ℕ, ◌+◌, ◌<◌, ◌≡◌, ◌≢◌, ◌⊎◌, true, arith, refl, sym, ◌∙◌, ap, ℤ, pos, ◌+ℤ◌, ◌-ℤ◌, update, total,
  total_change, ℕ_discrete, inl, inr, apply-update, update_self,
}
use zeroipc.Semaphore.{release_load}
use zeroipc.Semaphore.Lock
use zeroipc.Semaphore.Lock.{holds}
use zeroipc.Rwlock.{
  RwLock, Pc, idle, mutex, add_reader, sub_reader, load_readers, mark_active_trying, clear_active,
  writing, reader_done, writer_thaw, try_writer_done, writer_exit,
}
use zeroipc.Rwlock.Views.{Inv, reader_view, writer_view, reads, flags, excludes}
use zeroipc.Rwlock.Moves.{place-Inv, reader_kept, writer_kept}

pub flags-holds : (p : Pc) → flags p ≡ true → holds (writer_view p) ≡ true
flags-holds (mutex writer_thaw p) e = refl
flags-holds (mutex try_writer_done p) e = refl
flags-holds load_readers e = refl
flags-holds writing e = refl
flags-holds clear_active e = refl
flags-holds p e = cc

pub excludes-cases : (p : Pc) → excludes p ≡ true → (flags p ≡ true) ⊎ (p ≡ mark_active_trying)
excludes-cases mark_active_trying e = inr refl
excludes-cases (mutex try_writer_done p) e = inl refl
excludes-cases writing e = inl refl
excludes-cases clear_active e = inl refl
excludes-cases p e = cc

module _ {n : ℕ} {l : RwLock} {pc : ℕ → Pc} (inv : Inv n l pc) (i : ℕ) (lt : i < n) where
  open inv use {reader_lock, writer_lock, readers_eq, active, checked, alone}

  -- Two threads that hold the readers' mutex are one, and so for the writers'.
  same_reader_holder :
      (j : ℕ) → holds (reader_view (pc i)) ≡ true → holds (reader_view (pc j)) ≡ true → i ≡ j
  same_reader_holder j = reader_lock.one i j

  same_writer_holder :
      (j : ℕ) → holds (writer_view (pc i)) ≡ true → holds (writer_view (pc j)) ≡ true → i ≡ j
  same_writer_holder j = writer_lock.one i j

  -- A move that stores to `readers` or to `writer_active`.
  store-Inv :
      (r : ℤ) (w : ℕ) (p : Pc)
      → (holds (reader_view p) ≡ holds (reader_view (pc i))) × Lock.IsFresh (reader_view p)
      → (holds (writer_view p) ≡ holds (writer_view (pc i))) × Lock.IsFresh (writer_view p)
      → r ≡ pos (total n (λ j. reads (update pc i p j)))
      → ((j : ℕ) → flags (update pc i p j) ≡ true → w ≡ 1)
      → ((j : ℕ) → update pc i p j ≡ add_reader → w ≡ 0)
      → ((j : ℕ) → excludes (update pc i p j) ≡ true → total n (λ k. reads (update pc i p k)) ≡ 0)
      → Inv n (record l { readers = r; writer_active = w }) (update pc i p)
  store-Inv r w p rk wk c a k x = record {
    reader_lock =
        Lock.Inv-ext (λ j. reader_view (update pc i p j)) (apply-update reader_view pc i p)
          (reader_kept inv i p rk.0 rk.1);
    writer_lock =
        Lock.Inv-ext (λ j. writer_view (update pc i p j)) (apply-update writer_view pc i p)
          (writer_kept inv i p wk.0 wk.1);
    readers_eq = c;
    active = a;
    checked = k;
    alone = x;
  }

  -- The count of the readers inside after a move.
  moved :
      (p : Pc)
      → total n (λ j. reads (pc j)) + reads p
        ≡ total n (λ j. reads (update pc i p j)) + reads (pc i)
  moved p = rw⁻¹ (ap reads (update_self pc i p)) (
      total_change n (λ j. reads (pc j)) (λ j. reads (update pc i p j)) i lt (λ j ne. ground arith))

  no_writer : (j : ℕ) → pc i ≡ add_reader → excludes (pc j) ≡ true → ⊥
  no_writer j e x = elim (excludes-cases (pc j) x) [
    | inl f ↦ absurd (omega (arith, active j f, checked i e))
    | inr m ↦
        let same : i ≡ j =
          same_reader_holder j (ap (λ q. holds (reader_view q)) e)
            (ap (λ q. holds (reader_view q)) m) in
        cc
  ]

  reads_same :
      (p : Pc)
      → reads p ≡ reads (pc i)
      → total n (λ j. reads (update pc i p j)) ≡ total n (λ j. reads (pc j))
  reads_same p e = omega (arith, moved p, e)

  pub add-Inv :
      pc i ≡ add_reader
      → Inv n
          (record l { readers = l.readers +ℤ pos 1 })
          (update pc i (mutex reader_done release_load))
  add-Inv e =
      let one_more = moved (mutex reader_done release_load) in
      store-Inv (l.readers +ℤ pos 1) l.writer_active (mutex reader_done release_load)
        (ap (λ q. holds (reader_view q)) (sym e), tt) (ap (λ q. holds (writer_view q)) (sym e), tt)
        (ground (arith, readers_eq, one_more, ap reads e))
        (λ j f. elim (ℕ_discrete i j) [ yes q ↦ ground arith | no ne ↦ active j (ground arith) ])
        (λ j f. checked i e)
        (λ j f. elim (ℕ_discrete i j) [
          | yes q ↦ absurd (ground arith)
          | no ne ↦ absurd (no_writer j e (ground arith))
        ])

  pub sub-Inv :
      pc i ≡ sub_reader → Inv n (record l { readers = l.readers -ℤ pos 1 }) (update pc i idle)
  sub-Inv e =
      let one_less = moved idle in
      store-Inv (l.readers -ℤ pos 1) l.writer_active idle
        (ap (λ q. holds (reader_view q)) (sym e), tt) (ap (λ q. holds (writer_view q)) (sym e), tt)
        (ground (arith, readers_eq, one_less, ap reads e))
        (λ j f. elim (ℕ_discrete i j) [
          | yes q ↦ absurd (ground arith)
          | no ne ↦ active j (ground arith)
        ])
        (λ j f. elim (ℕ_discrete i j) [
          | yes q ↦ absurd (ground arith)
          | no ne ↦ checked j (ground arith)
        ])
        (λ j f. elim (ℕ_discrete i j) [
          | yes q ↦ absurd (ground arith)
          | no ne ↦ absurd (omega (arith, one_less, ap reads e, alone j (ground arith)))
        ])

  -- The two stores of 1 to `writer_active`, by a writer that holds both mutexes.
  pub mark-Inv :
      (p p' : Pc)
      → pc i ≡ p
      → (holds (reader_view p') ≡ holds (reader_view p)) × Lock.IsFresh (reader_view p')
      → (holds (writer_view p') ≡ holds (writer_view p)) × Lock.IsFresh (writer_view p')
      → holds (reader_view p) ≡ true
      → reads p' ≡ reads p
      → p' ≢ add_reader
      → (excludes p' ≡ true → excludes p ≡ true)
      → Inv n (record l { writer_active = 1 }) (update pc i p')
  mark-Inv p p' e rk wk on same ne x =
      let kept = reads_same p' (same ∙ ap reads (sym e)) in
      store-Inv l.readers 1 p' (rk.0 ∙ ap (λ q. holds (reader_view q)) (sym e), rk.1)
        (wk.0 ∙ ap (λ q. holds (writer_view q)) (sym e), wk.1) (readers_eq ∙ ap pos (sym kept))
        (λ j f. refl)
        (λ j f. elim (ℕ_discrete i j) [
          | yes q ↦ absurd (ne (ground arith))
          | no other ↦
              let there : pc j ≡ add_reader = ground arith in
              absurd (
                other (
                  same_reader_holder j (ap (λ q. holds (reader_view q)) e ∙ on)
                    (ap (λ q. holds (reader_view q)) there)))
        ])
        (λ j f. kept ∙ elim (ℕ_discrete i j) [
          | yes q ↦ alone i (ap excludes e ∙ x (ground arith))
          | no other ↦ alone j (ground arith)
        ])

  pub clear-Inv :
      pc i ≡ clear_active
      → Inv n (record l { writer_active = 0 }) (update pc i (mutex writer_exit release_load))
  clear-Inv e =
      let kept = reads_same (mutex writer_exit release_load) (ap reads (sym e)) in
      store-Inv l.readers 0 (mutex writer_exit release_load)
        (ap (λ q. holds (reader_view q)) (sym e), tt) (ap (λ q. holds (writer_view q)) (sym e), tt)
        (readers_eq ∙ ap pos (sym kept))
        (λ j f. elim (ℕ_discrete i j) [
          | yes q ↦ absurd (ground arith)
          | no other ↦
              let there : flags (pc j) ≡ true = ground arith in
              absurd (
                other (
                  same_writer_holder j (ap (λ q. holds (writer_view q)) e)
                    (flags-holds (pc j) there)))
        ])
        (λ j f. refl)
        (λ j f. kept ∙ elim (ℕ_discrete i j) [
          | yes q ↦ absurd (ground arith)
          | no other ↦ alone j (ground arith)
        ])

  -- A move that stores nothing, between two places with the same views.
  pub go-Inv :
      (p p' : Pc)
      → pc i ≡ p
      → (holds (reader_view p') ≡ holds (reader_view p)) × Lock.IsFresh (reader_view p')
      → (holds (writer_view p') ≡ holds (writer_view p)) × Lock.IsFresh (writer_view p')
      → reads p' ≡ reads p
      → (flags p' ≡ true → flags p ≡ true)
      → (p' ≡ add_reader → l.writer_active ≡ 0)
      → (excludes p' ≡ true → total n (λ j. reads (pc j)) ≡ 0)
      → Inv n l (update pc i p')
  go-Inv p p' e rk wk same f c x =
      place-Inv inv i p' (rk.0 ∙ ap (λ q. holds (reader_view q)) (sym e), rk.1)
        (wk.0 ∙ ap (λ q. holds (writer_view q)) (sym e), wk.1) (same ∙ ap reads (sym e))
        (λ q. active i (ap flags e ∙ f q)) c x
