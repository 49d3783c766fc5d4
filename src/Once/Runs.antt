-- ===== src/Once/Runs.antt =====
-- How often the function of a once flag is executed, and what a return of call means.
use zeroipc.Base.{
  ℕ, zero, suc, ◌+◌, ◌≤◌, ◌≡◌, ◌≢◌, ◌⊎◌, Bool, true, false, arith, refl, update, ◌==◌, Bool-cases,
  inl, inr, ℕ_discrete, ap, subst,
}
use zeroipc.Once.{
  Pc, step, idle, load, claim, execute, finish, wait, returned, rethrown, already_called,
}
use zeroipc.Once.System.{
  System, Step, Reach, access, starts, completes, fresh, start, next, call, run, back,
}

-- What a thread at a place knows of the state and of the execution.
abbrev Place : ℕ → ℕ → Pc → Type 0
Place state completed execute = (state ≡ 1) × (completed ≡ 0)
Place state completed (finish thrown) = (state ≡ 1) × (completed ≡ 1)
Place state completed wait = (state ≡ 1) ⊎ (state ≡ 2)
Place state completed returned = state ≡ 2
Place state completed rethrown = state ≡ 2
Place state completed p = Unit

abbrev executes : Pc → Bool
executes execute = true
executes (finish thrown) = true
executes p = false

-- What has happened in each state of the flag.
abbrev History : ℕ → ℕ → ℕ → Type 0
History zero started completed = (started ≡ 0) × (completed ≡ 0)
History (suc zero) started completed = (started ≡ 1) × (completed ≤ 1)
History (suc (suc zero)) started completed = (started ≡ 1) × (completed ≡ 1)
History state started completed = ⊥

record Inv (s : System) : Type 0 where
  history : History s.flag.state s.started s.completed
  place : (i : ℕ) → Place s.flag.state s.completed (s.pc i)
  one : (i j : ℕ) → executes (s.pc i) ≡ true → executes (s.pc j) ≡ true → i ≡ j

executing-state :
    (state completed : ℕ) (p : Pc) → Place state completed p → executes p ≡ true → state ≡ 1
executing-state s c execute f e = f.0
executing-state s c (finish thrown) f e = f.0
executing-state s c p f e = cc

-- A place that does not execute, after a change of the state that leaves it started.
Place-keep :
    (s c s' c' : ℕ) (p : Pc)
    → Place s c p
    → executes p ≡ false
    → (s ≡ 2 → s' ≡ 2)
    → (s ≡ 1 → (s' ≡ 1) ⊎ (s' ≡ 2))
    → Place s' c' p
Place-keep s c s' c' execute f e two one = cc
Place-keep s c s' c' (finish thrown) f e two one = cc
Place-keep s c s' c' wait (inl q) e two one = one q
Place-keep s c s' c' wait (inr q) e two one = inr (two q)
Place-keep s c s' c' returned f e two one = two f
Place-keep s c s' c' rethrown f e two one = two f
Place-keep s c s' c' idle f e two one = tt
Place-keep s c s' c' load f e two one = tt
Place-keep s c s' c' claim f e two one = tt

module _ {s : System} (inv : Inv s) (i : ℕ) where
  open inv use {history, place, one}

  -- A move of thread `i` to `p` with a change of the flag and of the counts.
  move-Inv :
      (state started completed : ℕ) (p : Pc)
      → History state started completed
      → Place state completed p
      → ((j : ℕ) → i ≢ j → Place state completed (s.pc j))
      → (executes p ≡ true → (j : ℕ) → i ≢ j → executes (s.pc j) ≡ false)
      → Inv (record {
        flag = record { state = state };
        pc = update s.pc i p;
        started = started;
        completed = completed;
      })
  move-Inv state started completed p h f others sole = record {
    history = h;
    place = λ j. elim (ℕ_discrete i j) [
      | yes q ↦ ground (arith, f)
      | no ne ↦ ground (arith, others j ne)
    ];
    one = λ j k a b. elim (ℕ_discrete i j) [
      | yes q ↦ elim (ℕ_discrete i k) [
        | yes r ↦ omega arith
        | no r ↦ absurd (ground (arith, sole, sole (ground arith) k r))
      ]
      | no q ↦ elim (ℕ_discrete i k) [
        | yes r ↦ absurd (ground (arith, sole (ground arith) j q))
        | no r ↦ one j k (ground arith) (ground arith)
      ]
    ];
  }

  -- A move that leaves the flag and the counts.
  quiet-Inv :
      (p : Pc)
      → Place s.flag.state s.completed p
      → executes p ≡ false
      → Inv
          (record s { pc = update s.pc i p; started = s.started + 0; completed = s.completed + 0 })
  quiet-Inv p f e =
      let a : s.started + 0 ≡ s.started = omega arith in
      let b : s.completed + 0 ≡ s.completed = omega arith in
      rw (a, b)
        (move-Inv s.flag.state s.started s.completed p history f (λ j ne. place j) (λ q. cc))

  -- No other thread executes while this one does.
  sole : (j : ℕ) → executes (s.pc i) ≡ true → i ≢ j → executes (s.pc j) ≡ false
  sole j e ne = elim (Bool-cases (executes (s.pc j))) [
    | inl t ↦ absurd (ne (one i j e t))
    | inr f ↦ f
  ]

  claim-Inv :
      s.flag.state ≡ 0
      → Inv (record {
        flag = record { state = 1 };
        pc = update s.pc i execute;
        started = s.started + 1;
        completed = s.completed + 0;
      })
  claim-Inv e =
      let known : (s.started ≡ 0) × (s.completed ≡ 0) =
        subst (λ t. History t s.started s.completed) e history in
      let idle_all : (j : ℕ) → executes (s.pc j) ≡ false = λ j. quiet j in
      let a : s.started + 1 ≡ 1 = omega (arith, known) in
      let b : s.completed + 0 ≡ 0 = omega (arith, known) in
      rw (a, b)
        (move-Inv 1 1 0 execute (refl, omega arith) (refl, refl)
          (λ j ne.
            Place-keep s.flag.state s.completed 1 0 (s.pc j) (place j) (idle_all j)
              (λ q. absurd (omega (arith, e))) (λ q. inl refl))
          (λ q j ne. idle_all j))
    where
      quiet : (j : ℕ) → executes (s.pc j) ≡ false
      quiet j = elim (Bool-cases (executes (s.pc j))) [
        | inl t ↦
            absurd (omega (arith, e, executing-state s.flag.state s.completed (s.pc j) (place j) t))
        | inr f ↦ f
      ]

  execute-Inv :
      (throws : Bool)
      → s.pc i ≡ execute
      → Inv (record {
        flag = s.flag;
        pc = update s.pc i (finish throws);
        started = s.started + 0;
        completed = s.completed + 1;
      })
  execute-Inv throws e =
      let now : (s.flag.state ≡ 1) × (s.completed ≡ 0) =
        subst (Place s.flag.state s.completed) e (place i) in
      let past : (s.started ≡ 1) × (s.completed ≤ 1) =
        subst (λ t. History t s.started s.completed) now.0 history in
      let a : s.started + 0 ≡ 1 = omega (arith, past) in
      let b : s.completed + 1 ≡ 1 = omega (arith, now) in
      rw (a, b, now.0)
        (move-Inv 1 1 1 (finish throws) (refl, omega arith) (refl, refl)
          (λ j ne.
            Place-keep s.flag.state s.completed 1 1 (s.pc j) (place j) (sole j (ap executes e) ne)
              (λ q. absurd (omega (arith, now))) (λ q. inl refl))
          (λ q j ne. sole j (ap executes e) ne))

  finish-Inv :
      (thrown : Bool) (p : Pc)
      → s.pc i ≡ finish thrown
      → Place 2 1 p
      → executes p ≡ false
      → Inv (record {
        flag = record { state = 2 };
        pc = update s.pc i p;
        started = s.started + 0;
        completed = s.completed + 0;
      })
  finish-Inv thrown p e f out =
      let now : (s.flag.state ≡ 1) × (s.completed ≡ 1) =
        subst (Place s.flag.state s.completed) e (place i) in
      let past : (s.started ≡ 1) × (s.completed ≤ 1) =
        subst (λ t. History t s.started s.completed) now.0 history in
      let a : s.started + 0 ≡ 1 = omega (arith, past) in
      let b : s.completed + 0 ≡ 1 = omega (arith, now) in
      rw (a, b)
        (move-Inv 2 1 1 p (refl, refl) f
          (λ j ne.
            Place-keep s.flag.state s.completed 2 1 (s.pc j) (place j) (sole j (ap executes e) ne)
              (λ q. refl) (λ q. inr refl))
          (λ q. cc))

  state-cases : (s.flag.state ≡ 0) ⊎ (s.flag.state ≡ 1) ⊎ (s.flag.state ≡ 2)
  state-cases = by_history s.flag.state history
    where
      by_history : (k : ℕ) → History k s.started s.completed → (k ≡ 0) ⊎ (k ≡ 1) ⊎ (k ≡ 2)
      by_history zero h = inl refl
      by_history (suc zero) h = inr (inl refl)
      by_history (suc (suc zero)) h = inr (inr refl)
      by_history (suc (suc (suc k))) h = absurd h

  access-Inv : (throws : Bool) (p : Pc) → s.pc i ≡ p → Inv (access throws i p s)
  unfolding access step starts completes
  access-Inv throws load e = elim (Bool-cases (s.flag.state == 2)) [
    | inl f ↦ rw f (quiet-Inv returned (ground arith) refl)
    | inr f ↦ rw f (quiet-Inv claim tt refl)
  ]
  access-Inv throws claim e = elim (Bool-cases (s.flag.state == 0)) [
    | inl f ↦ rw f (claim-Inv (ground arith))
    | inr f ↦ rw f (quiet-Inv wait (ground (arith, state-cases)) refl)
  ]
  access-Inv throws execute e = execute-Inv throws e
  access-Inv throws (finish true) e = finish-Inv true rethrown e refl refl
  access-Inv throws (finish false) e = finish-Inv false returned e refl refl
  access-Inv throws wait e = elim (Bool-cases (s.flag.state == 1)) [
    | inl f ↦ rw f (quiet-Inv wait (inl (ground arith)) refl)
    | inr f ↦ rw f (
        quiet-Inv returned (ground (arith, subst (Place s.flag.state s.completed) e (place i)))
          refl)
  ]
  access-Inv throws idle e = quiet-Inv idle tt refl
  access-Inv throws returned e =
      quiet-Inv returned (subst (Place s.flag.state s.completed) e (place i)) refl
  access-Inv throws rethrown e =
      quiet-Inv rethrown (subst (Place s.flag.state s.completed) e (place i)) refl

  Place-Inv :
      (p : Pc)
      → Place s.flag.state s.completed p
      → executes p ≡ false
      → Inv (record s { pc = update s.pc i p })
  Place-Inv p f e =
      move-Inv s.flag.state s.started s.completed p history f (λ j ne. place j) (λ q. cc)

Step-Inv : {s t : System} → Step s t → Inv s → Inv t
Step-Inv (call i e) inv = Place-Inv inv i load tt refl
Step-Inv {s = s} (run throws i) inv = access-Inv inv i throws (s.pc i) refl
Step-Inv (back i r) inv = Place-Inv inv i idle tt refl

Reach-Inv : {s : System} → Reach s → Inv s
unfolding fresh
Reach-Inv start = record { history = (refl, refl); place = λ i. tt; one = λ i j e f. cc }
Reach-Inv (next r st) = Step-Inv st (Reach-Inv r)

-- In every state that any number of threads reach from a new once flag, whether or not the
-- function throws, it has been started at most once, and a thread returns from call only after it
-- has been completed, with already_called answering true.
pub executed_once :
    {s : System} (i : ℕ)
    → Reach s
    → (s.started ≤ 1)
      × (s.completed ≤ s.started)
      × ((s.pc i ≢ returned) ⊎ ((s.completed ≡ 1) × (already_called s.flag ≡ true)))
unfolding already_called
executed_once {s} i r = by_state s.flag.state (Reach-Inv r).history (Reach-Inv r).place i
  where
    by_state :
        (k : ℕ)
        → History k s.started s.completed
        → ((j : ℕ) → Place k s.completed (s.pc j))
        → (j : ℕ)
        → (s.started ≤ 1)
          × (s.completed ≤ s.started)
          × ((s.pc j ≢ returned) ⊎ ((s.completed ≡ 1) × ((k == 2) ≡ true)))
    by_state zero h p j = (
      omega arith,
      omega arith,
      inl (λ e. absurd (omega (arith, subst (Place zero s.completed) e (p j)))),
    )
    by_state (suc zero) h p j = (
      omega arith,
      omega arith,
      inl (λ e. absurd (omega (arith, subst (Place 1 s.completed) e (p j)))),
    )
    by_state (suc (suc zero)) h p j = (omega arith, omega arith, inr (h.1, refl))
    by_state (suc (suc (suc k))) h p j = absurd h
