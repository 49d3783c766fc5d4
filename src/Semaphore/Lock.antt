-- ===== src/Semaphore/Lock.antt =====
-- A semaphore of count 1 as a lock (mutex.h): the invariant while only holders release, for any family
-- of threads that make accesses to it.
use zeroipc.Base.{
  ℕ, ◌≤◌, ◌≡◌, Bool, true, false, not, ◌&&◌, arith, refl, ℤ, pos, pos_part, update, Bool-cases, inl,
  inr, eq_ℤ, leb_ℤ, ltb_ℤ, ◌+ℤ◌, ◌-ℤ◌, ℕ_discrete, ◌∙◌, sym, ap, subst, fun_ext,
}
use zeroipc.Semaphore.{
  Semaphore, Pc, step, idle, acquire_enter, acquire_load, acquire_claim, acquire_leave, try_load,
  try_claim, release_load, release_claim, acquired, refused, released, overflow_error,
  acquire_again, try_loop,
}

-- From the winning compare-exchange of an acquire to that of the release.
abbrev pub holds : Pc → Bool
holds (acquire_leave true) = true
holds acquired = true
holds release_load = true
holds (release_claim current) = true
holds p = false

abbrev pub IsFresh : Pc → Type 0
IsFresh (acquire_claim timed current) = current ≡ pos 1
IsFresh (try_claim current) = current ≡ pos 1
IsFresh (release_claim current) = current ≡ pos 0
IsFresh overflow_error = ⊥
IsFresh p = Unit

pub record Inv (s : Semaphore) (pc : ℕ → Pc) : Type 0 where
  pub max_eq : s.max_count ≡ pos 1
  pub count_eq : s.count ≡ pos (pos_part s.count)
  pub count-le : pos_part s.count ≤ 1
  pub free : (i : ℕ) → pos_part s.count ≡ 1 → holds (pc i) ≡ false
  pub held : pos_part s.count ≡ 0 → (k : ℕ) × (holds (pc k) ≡ true)
  pub one : (i j : ℕ) → holds (pc i) ≡ true → holds (pc j) ≡ true → i ≡ j
  pub fresh : (i : ℕ) → IsFresh (pc i)

-- Two families with the same places.
pub Inv-ext :
    {s : Semaphore} {pc : ℕ → Pc} (pc' : ℕ → Pc) → ((j : ℕ) → pc' j ≡ pc j) → Inv s pc → Inv s pc'
Inv-ext {s} pc' same inv = subst (Inv s) (sym (fun_ext same)) inv

module _ {s : Semaphore} {pc : ℕ → Pc} (inv : Inv s pc) (i : ℕ) where
  open inv use {max_eq, count_eq, count-le, free, held, one, fresh}

  module _ (p : Pc) (same : holds p ≡ holds (pc i)) where
    holds-update : (j : ℕ) → holds (update pc i p j) ≡ holds (pc j)
    holds-update j = elim (ℕ_discrete i j) [ yes e ↦ ground (arith, same) | no ne ↦ ground arith ]

    -- A move that leaves the count alone, and whether the thread holds the lock.
    pub move-Inv : (waiting : ℤ) → IsFresh p → Inv (record s { waiting = waiting }) (update pc i p)
    move-Inv waiting f = record {
      max_eq = max_eq;
      count_eq = count_eq;
      count-le = count-le;
      free = λ j e. holds-update j ∙ free j e;
      held = λ e. let (k, h) = held e in (k, holds-update k ∙ h);
      one = λ j k h h'. one j k (sym (holds-update j) ∙ h) (sym (holds-update k) ∙ h');
      fresh = λ j. ground (arith, fresh j);
    }

  take-Inv :
      (p : Pc)
      → pos_part s.count ≡ 1
      → holds p ≡ true
      → IsFresh p
      → Inv (record s { count = pos 0 }) (update pc i p)
  take-Inv p e h f = record {
    max_eq = max_eq;
    count_eq = refl;
    count-le = omega arith;
    free = λ j q. absurd (omega arith);
    held = λ q. (i, ground arith);
    one = λ j k a b. ground (arith, free j e, free k e);
    fresh = λ j. ground (arith, fresh j);
  }

  give-Inv :
      (p : Pc)
      → holds (pc i) ≡ true
      → holds p ≡ false
      → IsFresh p
      → Inv (record s { count = pos 1 }) (update pc i p)
  give-Inv p h n f = record {
    max_eq = max_eq;
    count_eq = refl;
    count-le = omega arith;
    free = λ j q. ground (arith, one i j h);
    held = λ q. absurd (omega arith);
    one = λ j k a b. ground (arith, one i j h, one i k h);
    fresh = λ j. ground (arith, fresh j);
  }

  pub step-Inv :
      (lost late : Bool) (p : Pc)
      → pc i ≡ p
      → Inv (step lost late s p).0 (update pc i (step lost late s p).1)
  unfolding step acquire_again try_loop
  step-Inv lost late (acquire_enter timed) e =
      move-Inv (acquire_load timed) (ap holds (sym e)) (s.waiting +ℤ pos 1) tt
  step-Inv lost late (acquire_load timed) e = elim (Bool-cases (ltb_ℤ (pos 0) s.count)) [
    | inl f ↦ rw f (
        move-Inv (acquire_claim timed s.count) (ap holds (sym e)) s.waiting
          (ground (arith, count_eq, count-le)))
    | inr f ↦ rw f (elim (Bool-cases (timed && late)) [
      | inl g ↦ rw g (move-Inv (acquire_leave false) (ap holds (sym e)) s.waiting tt)
      | inr g ↦ rw g (move-Inv (acquire_load timed) (ap holds (sym e)) s.waiting tt)
    ])
  ]
  step-Inv lost late (acquire_claim timed c) e = elim (Bool-cases (not lost && eq_ℤ s.count c)) [
    | inl f ↦
        let one_left : c ≡ pos 1 = ground (arith, fresh i) in
        rw (f, one_left) (take-Inv (acquire_leave true) (ground arith) refl tt)
    | inr f ↦ rw f (elim (Bool-cases (timed && late)) [
      | inl g ↦ rw g (move-Inv (acquire_leave false) (ap holds (sym e)) s.waiting tt)
      | inr g ↦ rw g (move-Inv (acquire_load timed) (ap holds (sym e)) s.waiting tt)
    ])
  ]
  step-Inv lost late (acquire_leave true) e =
      move-Inv (acquired) (ap holds (sym e)) (s.waiting -ℤ pos 1) tt
  step-Inv lost late (acquire_leave false) e =
      move-Inv (refused) (ap holds (sym e)) (s.waiting -ℤ pos 1) tt
  step-Inv lost late try_load e = elim (Bool-cases (ltb_ℤ (pos 0) s.count)) [
    | inl f ↦ rw f (
        move-Inv (try_claim s.count) (ap holds (sym e)) s.waiting
          (ground (arith, count_eq, count-le)))
    | inr f ↦ rw f (move-Inv (refused) (ap holds (sym e)) s.waiting tt)
  ]
  step-Inv lost late (try_claim c) e = elim (Bool-cases (not lost && eq_ℤ s.count c)) [
    | inl f ↦
        let one_left : c ≡ pos 1 = ground (arith, fresh i) in
        rw (f, one_left) (take-Inv acquired (ground arith) refl tt)
    | inr f ↦ rw f (elim (Bool-cases (ltb_ℤ (pos 0) s.count)) [
      | inl g ↦ rw g (
          move-Inv (try_claim s.count) (ap holds (sym e)) s.waiting
            (ground (arith, count_eq, count-le)))
      | inr g ↦ rw g (move-Inv (refused) (ap holds (sym e)) s.waiting tt)
    ])
  ]
  step-Inv lost late release_load e =
      let none_left : pos_part s.count ≡ 0 = ground (arith, free i, count-le) in
      let checked : (ltb_ℤ (pos 0) s.max_count && leb_ℤ s.max_count s.count) ≡ false =
        ground (arith, max_eq, count_eq) in
      rw checked
        (move-Inv (release_claim s.count) (ap holds (sym e)) s.waiting (ground (arith, count_eq)))
  step-Inv lost late (release_claim c) e = elim (Bool-cases (not lost && eq_ℤ s.count c)) [
    | inl f ↦
        let none_left : c ≡ pos 0 = ground (arith, fresh i) in
        rw (f, none_left) (give-Inv released (ap holds e) refl tt)
    | inr f ↦ rw f (move-Inv (release_load) (ap holds (sym e)) s.waiting tt)
  ]
  step-Inv lost late idle e = move-Inv idle (ap holds (sym e)) s.waiting tt
  step-Inv lost late acquired e = move-Inv acquired (ap holds (sym e)) s.waiting tt
  step-Inv lost late refused e = move-Inv refused (ap holds (sym e)) s.waiting tt
  step-Inv lost late released e = move-Inv released (ap holds (sym e)) s.waiting tt
  step-Inv lost late overflow_error e = absurd (subst IsFresh e (fresh i))
