-- ===== src/Semaphore/Permits.antt =====
-- The permits of a semaphore under any interleaving.
use zeroipc.Base.{
  ◌^◌, ℕ, ◌+◌, ◌≤◌, ◌<◌, ◌≡◌, Bool, true, false, not, ◌&&◌, arith, refl, ℤ, pos, negsuc, update,
  ltb_ℤ, leb_ℤ, eq_ℤ, ◌+ℤ◌, ◌-ℤ◌, ◌-◌, ap, ◌∙◌, ◌⊎◌, Bool-cases, inl, inr, ℕ_discrete,
}
use zeroipc.Semaphore.{
  next_count, Pc, step, idle, acquire_enter, acquire_load, acquire_claim, acquire_leave, try_load,
  try_claim, release_load, release_claim, acquired, refused, released, overflow_error,
  acquire_again, try_loop,
}
use zeroipc.Semaphore.System.{
  System, Step, Reach, access, takes, gives, fresh, here, next, call_acquire, call_try_acquire,
  call_release, run, back,
}

-- What the thread's copy of the count says, whatever the count has become since.
abbrev IsFresh : ℕ → Pc → Type 0
IsFresh max (acquire_claim timed current) = ltb_ℤ (pos 0) current ≡ true
IsFresh max (try_claim current) = ltb_ℤ (pos 0) current ≡ true
IsFresh max (release_claim current) = 0 < max → ltb_ℤ current (pos max) ≡ true
IsFresh max p = Unit

record Inv (initial max : ℕ) (s : System) : Type 0 where
  max_eq : s.sem.max_count ≡ pos max
  left : ℕ
  count_eq : s.sem.count ≡ pos left
  balance : left + s.taken ≡ initial + s.given
  bounded : 0 < max → left ≤ max
  fresh : (i : ℕ) → IsFresh max (s.pc i)

next_count_lem : (n : ℕ) → n + 1 < 2 ^ 31 → next_count (pos n) ≡ pos (n + 1)
unfolding next_count
next_count_lem n lt = ground arith

module _ {initial max : ℕ} {s : System} (inv : Inv initial max s) where
  open inv use {max_eq, left, count_eq, balance, bounded, fresh}

  place-Inv : (i : ℕ) (p : Pc) → IsFresh max p → Inv initial max (record s { pc = update s.pc i p })
  place-Inv i p f = record {
    max_eq = max_eq;
    left = left;
    count_eq = count_eq;
    balance = balance;
    bounded = bounded;
    fresh = λ j. ground (arith, fresh j);
  }

  -- A place and a change of the waiting count.
  quiet-Inv :
      (i : ℕ) (w : ℤ) (p p' : Pc)
      → takes p p' ≡ 0
      → gives p p' ≡ 0
      → IsFresh max p'
      → Inv initial max (record {
        sem = record (s.sem) { waiting = w };
        pc = update s.pc i p';
        taken = s.taken + takes p p';
        given = s.given + gives p p';
      })
  quiet-Inv i w p p' nt ng f = record {
    max_eq = max_eq;
    left = left;
    count_eq = count_eq;
    balance = omega (arith, balance, nt, ng);
    bounded = bounded;
    fresh = λ j. ground (arith, fresh j);
  }

  -- A compare-exchange that sets the count.
  claim-Inv :
      (i count : ℕ) (p p' : Pc)
      → count + takes p p' ≡ left + gives p p'
      → (0 < max → count ≤ max)
      → IsFresh max p'
      → Inv initial max (record {
        sem = record (s.sem) { count = pos count };
        pc = update s.pc i p';
        taken = s.taken + takes p p';
        given = s.given + gives p p';
      })
  claim-Inv i count p p' moved b f = record {
    max_eq = max_eq;
    left = count;
    count_eq = refl;
    balance = omega (arith, balance, moved);
    bounded = b;
    fresh = λ j. ground (arith, fresh j);
  }

  access-Inv :
      (lost late : Bool) (i : ℕ) (p : Pc)
      → s.pc i ≡ p
      → max < 2 ^ 31
      → (0 < max) ⊎ (initial + (access lost late i p s).given < 2 ^ 31)
      → Inv initial max (access lost late i p s)
  unfolding access step acquire_again try_loop takes gives
  access-Inv lost late i (acquire_enter timed) e int room =
      quiet-Inv i (s.sem.waiting +ℤ pos 1) (acquire_enter timed) (acquire_load timed) refl refl tt
  access-Inv lost late i (acquire_load timed) e int room =
      elim (Bool-cases (ltb_ℤ (pos 0) s.sem.count)) [
        | inl f ↦ rw f (
            quiet-Inv i s.sem.waiting (acquire_load timed) (acquire_claim timed s.sem.count) refl
              refl f)
        | inr f ↦ rw f (elim (Bool-cases (timed && late)) [
          | inl g ↦
              rw g
                (quiet-Inv i s.sem.waiting (acquire_load timed) (acquire_leave false) refl refl tt)
          | inr g ↦
              rw g
                (quiet-Inv i s.sem.waiting (acquire_load timed) (acquire_load timed) refl refl tt)
        ])
      ]
  access-Inv lost late i (acquire_claim timed (pos c)) e int room =
      elim (Bool-cases (not lost && eq_ℤ s.sem.count (pos c))) [
        | inl f ↦
            let known : (left ≡ c) × (0 < c) = ground (arith, fresh i, count_eq) in
            let less : pos c -ℤ pos 1 ≡ pos (c - 1) = ground arith in
            rw (f, less)
              (claim-Inv i (c - 1) (acquire_claim timed (pos c)) (acquire_leave true)
                (omega (arith, known)) (λ q. omega (arith, bounded q, known)) tt)
        | inr f ↦ rw f (elim (Bool-cases (timed && late)) [
          | inl g ↦ rw g (
              quiet-Inv i s.sem.waiting (acquire_claim timed (pos c)) (acquire_leave false) refl
                refl tt)
          | inr g ↦ rw g (
              quiet-Inv i s.sem.waiting (acquire_claim timed (pos c)) (acquire_load timed) refl refl
                tt)
        ])
      ]
  access-Inv lost late i (acquire_claim timed (negsuc c)) e int room =
      absurd (ground (arith, fresh i))
  access-Inv lost late i (acquire_leave true) e int room =
      quiet-Inv i (s.sem.waiting -ℤ pos 1) (acquire_leave true) acquired refl refl tt
  access-Inv lost late i (acquire_leave false) e int room =
      quiet-Inv i (s.sem.waiting -ℤ pos 1) (acquire_leave false) refused refl refl tt
  access-Inv lost late i try_load e int room = elim (Bool-cases (ltb_ℤ (pos 0) s.sem.count)) [
    | inl f ↦ rw f (quiet-Inv i s.sem.waiting try_load (try_claim s.sem.count) refl refl f)
    | inr f ↦ rw f (quiet-Inv i s.sem.waiting try_load refused refl refl tt)
  ]
  access-Inv lost late i (try_claim (pos c)) e int room =
      elim (Bool-cases (not lost && eq_ℤ s.sem.count (pos c))) [
        | inl f ↦
            let known : (left ≡ c) × (0 < c) = ground (arith, fresh i, count_eq) in
            let less : pos c -ℤ pos 1 ≡ pos (c - 1) = ground arith in
            rw (f, less)
              (claim-Inv i (c - 1) (try_claim (pos c)) acquired (omega (arith, known))
                (λ q. omega (arith, bounded q, known)) tt)
        | inr f ↦ rw f (elim (Bool-cases (ltb_ℤ (pos 0) s.sem.count)) [
          | inl g ↦
              rw g
                (quiet-Inv i s.sem.waiting (try_claim (pos c)) (try_claim s.sem.count) refl refl g)
          | inr g ↦ rw g (quiet-Inv i s.sem.waiting (try_claim (pos c)) refused refl refl tt)
        ])
      ]
  access-Inv lost late i (try_claim (negsuc c)) e int room = absurd (ground (arith, fresh i))
  access-Inv lost late i release_load e int room =
      elim (Bool-cases (ltb_ℤ (pos 0) s.sem.max_count && leb_ℤ s.sem.max_count s.sem.count)) [
        | inl f ↦ rw f (quiet-Inv i s.sem.waiting release_load overflow_error refl refl tt)
        | inr f ↦ rw f (
            quiet-Inv i s.sem.waiting release_load (release_claim s.sem.count) refl refl
              (λ q. ground (arith, max_eq, count_eq)))
      ]
  access-Inv lost late i (release_claim c) e int room =
      elim (Bool-cases (not lost && eq_ℤ s.sem.count c)) [
        | inl f ↦
            let known : c ≡ pos left = ground (arith, count_eq) in
            let below : 0 < max → left < max = λ q. ground (arith, fresh i, known) in
            let more : next_count (pos left) ≡ pos (left + 1) =
              next_count_lem left (ground (arith, f, room, below, int, balance)) in
            rw (f, known, more)
              (claim-Inv i (left + 1) (release_claim (pos left)) released (omega arith)
                (λ q. omega (arith, below q)) tt)
        | inr f ↦ rw f (quiet-Inv i s.sem.waiting (release_claim c) release_load refl refl tt)
      ]
  access-Inv lost late i idle e int room = quiet-Inv i s.sem.waiting idle idle refl refl tt
  access-Inv lost late i acquired e int room =
      quiet-Inv i s.sem.waiting acquired acquired refl refl tt
  access-Inv lost late i refused e int room = quiet-Inv i s.sem.waiting refused refused refl refl tt
  access-Inv lost late i released e int room =
      quiet-Inv i s.sem.waiting released released refl refl tt
  access-Inv lost late i overflow_error e int room =
      quiet-Inv i s.sem.waiting overflow_error overflow_error refl refl tt

access-given :
    (lost late : Bool) (i : ℕ) (p : Pc) (s : System) → s.given ≤ (access lost late i p s).given
unfolding access
access-given lost late i p s = omega arith

Step-given : {s t : System} → Step s t → s.given ≤ t.given
Step-given {s} (run lost late i) = access-given lost late i (s.pc i) s
Step-given st = omega arith

Step-Inv :
    {initial max : ℕ} {s t : System}
    → Step s t
    → max < 2 ^ 31
    → (0 < max) ⊎ (initial + t.given < 2 ^ 31)
    → Inv initial max s
    → Inv initial max t
Step-Inv (call_acquire i timed o) int room inv = place-Inv inv i (acquire_enter timed) tt
Step-Inv (call_try_acquire i o) int room inv = place-Inv inv i try_load tt
Step-Inv (call_release i o) int room inv = place-Inv inv i release_load tt
Step-Inv {s = s} (run lost late i) int room inv = access-Inv inv lost late i (s.pc i) refl int room
Step-Inv (back i r) int room inv = place-Inv inv i idle tt

Reach-Inv :
    {initial max : ℕ} {s : System}
    → (0 < max → initial ≤ max)
    → max < 2 ^ 31
    → (0 < max) ⊎ (initial + s.given < 2 ^ 31)
    → Reach (fresh initial max) s
    → Inv initial max s
unfolding fresh
Reach-Inv {initial} fits int room here = record {
  max_eq = refl;
  left = initial;
  count_eq = refl;
  balance = refl;
  bounded = fits;
  fresh = λ i. tt;
}
Reach-Inv fits int room (next r st) =
    Step-Inv st int room (Reach-Inv fits int (ground (arith, room, Step-given st)) r)

-- In every state that the threads reach from a new semaphore, whose initial count is at most its maximum
-- and that is below 2 ^ 31, or which has no maximum and whose initial count and permits given are below
-- 2 ^ 31 together: the permits taken are at most the initial count and the permits given, the count is
-- what is left of them, so that it is never negative, and it is at most the maximum where there is one.
pub permits_balance :
    (initial max : ℕ) {s : System}
    → max < 2 ^ 31
    → (max ≡ 0) ⊎ (initial ≤ max)
    → (0 < max) ⊎ (initial + s.given < 2 ^ 31)
    → Reach (fresh initial max) s
    → (s.taken ≤ initial + s.given)
      × (s.sem.count ≡ pos (initial + s.given - s.taken))
      × ((max ≡ 0) ⊎ (initial + s.given - s.taken ≤ max))
permits_balance initial max {s} int fits room r =
    let inv = Reach-Inv (λ q. ground (arith, fits)) int room r in
    let left_eq : inv.left ≡ initial + s.given - s.taken = omega (arith, inv.balance) in
    (
      omega (arith, inv.balance),
      inv.count_eq ∙ ap pos left_eq,
      elim (ℕ_discrete max 0) [
        | yes e ↦ inl e
        | no ne ↦ inr (omega (arith, inv.bounded (omega arith), left_eq))
      ],
    )
