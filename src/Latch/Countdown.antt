-- ===== src/Latch/Countdown.antt =====
-- The count of a latch under any interleaving, and what a waiter may conclude.
use zeroipc.Base.{
  ℕ, ◌-◌, ◌≤◌, ◌<◌, ◌≡◌, Bool, true, false, update, arith, refl, ℕ_discrete, ◌∙◌, ◌⊎◌,
}
use zeroipc.Latch.{
  Latch, Pc, step, idle, down_load, down_claim, wait_load, timed_load, try_load, counted, waited,
  timed_out, tried, enter_count_down, enter_wait_timeout,
}
use zeroipc.Latch.System.{
  System, Step, Reach, access, fresh, call_count_down, call_wait, call_wait_timeout, call_try_wait,
  run, back, here, next,
}

-- What the locals of a thread, or the value that it returns, say about the count.
abbrev pub IsFresh : ℕ → Pc → Type 0
IsFresh count (down_claim n current) = (count ≤ current) × (0 < current)
IsFresh count waited = count ≡ 0
IsFresh count (tried true) = count ≡ 0
IsFresh count p = Unit

pub record Inv (initial : ℕ) (s : System) : Type 0 where
  pub initial_eq : s.latch.initial_count ≡ initial
  pub count_eq : s.latch.count ≡ initial - s.taken
  pub fresh : (i : ℕ) → IsFresh s.latch.count (s.pc i)

IsFresh-mono : (a b : ℕ) (p : Pc) → b ≤ a → IsFresh a p → IsFresh b p
IsFresh-mono a b (down_claim n current) le f = omega arith
IsFresh-mono a b (wait_load c) le f = tt
IsFresh-mono a b (timed_load c) le f = tt
IsFresh-mono a b waited le f = omega arith
IsFresh-mono a b (tried true) le f = omega arith
IsFresh-mono a b (tried false) le f = tt
IsFresh-mono a b idle le f = tt
IsFresh-mono a b (down_load n) le f = tt
IsFresh-mono a b try_load le f = tt
IsFresh-mono a b counted le f = tt
IsFresh-mono a b timed_out le f = tt

-- An access never raises the count.
step-count-le : (lost late : Bool) (l : Latch) (p : Pc) → (step lost late l p).0.count ≤ l.count
unfolding step
step-count-le lost late l (down_claim n current) = ground arith
step-count-le lost late l p = omega arith

step-IsFresh :
    (lost late : Bool) (l : Latch) (p : Pc)
    → IsFresh l.count p
    → IsFresh (step lost late l p).0.count (step lost late l p).1
unfolding step
step-IsFresh lost late l (down_load n) f = ground arith
step-IsFresh lost late l (down_claim n current) f = ground arith
step-IsFresh lost late l (wait_load b) f = ground arith
step-IsFresh lost late l (timed_load b) f = ground arith
step-IsFresh lost late l try_load f = ground arith
step-IsFresh lost late l p f = ground arith

module _ {initial : ℕ} {s : System} (inv : Inv initial s) where
  access-count :
      (lost late : Bool) (i : ℕ) (p : Pc)
      → IsFresh s.latch.count p
      → (access lost late i p s).latch.count ≡ initial - (access lost late i p s).taken
  unfolding access step
  access-count lost late i (down_load n) f = ground (arith, inv.count_eq)
  access-count lost late i (down_claim n current) f = ground (arith, inv.count_eq)
  access-count lost late i p f = ground (arith, inv.count_eq)

  access-IsFresh :
      (lost late : Bool) (i j : ℕ)
      → IsFresh (access lost late i (s.pc i) s).latch.count ((access lost late i (s.pc i) s).pc j)
  unfolding access
  access-IsFresh lost late i j = elim (ℕ_discrete i j) [
    | yes e ↦ ground (arith, step-IsFresh lost late s.latch (s.pc i) (inv.fresh i))
    | no ne ↦ ground (
      arith,
      IsFresh-mono s.latch.count (step lost late s.latch (s.pc i)).0.count (s.pc j)
          (step-count-le lost late s.latch (s.pc i)) (inv.fresh j),
    )
  ]

  initial-access :
      (lost late : Bool) (i : ℕ) (p : Pc)
      → (access lost late i p s).latch.initial_count ≡ s.latch.initial_count
  unfolding access step
  initial-access lost late i (down_claim n current) = ground arith
  initial-access lost late i p = refl

  place-Inv :
      (i : ℕ) (p : Pc) → IsFresh s.latch.count p → Inv initial (record s { pc = update s.pc i p })
  place-Inv i p f = record {
    initial_eq = inv.initial_eq;
    count_eq = inv.count_eq;
    fresh = λ j. ground (arith, inv.fresh j);
  }

  access-Inv : (lost late : Bool) (i : ℕ) → Inv initial (access lost late i (s.pc i) s)
  access-Inv lost late i = record {
    initial_eq = initial-access lost late i (s.pc i) ∙ inv.initial_eq;
    count_eq = access-count lost late i (s.pc i) (inv.fresh i);
    fresh = access-IsFresh lost late i;
  }

Step-Inv : {initial : ℕ} {s t : System} → Step s t → Inv initial s → Inv initial t
unfolding enter_count_down enter_wait_timeout
Step-Inv (call_count_down i n e) inv = place-Inv inv i (enter_count_down n) (ground arith)
Step-Inv (call_wait i e) inv = place-Inv inv i (wait_load 1) tt
Step-Inv (call_wait_timeout i t e) inv = place-Inv inv i (enter_wait_timeout t) (ground arith)
Step-Inv (call_try_wait i e) inv = place-Inv inv i try_load tt
Step-Inv (run lost late i) inv = access-Inv inv lost late i
Step-Inv (back i r) inv = place-Inv inv i idle tt

Reach-Inv : {initial : ℕ} {s : System} → Reach (fresh initial) s → Inv initial s
unfolding fresh
Reach-Inv here = record { initial_eq = refl; count_eq = omega arith; fresh = λ i. tt }
Reach-Inv (next r st) = Step-Inv st (Reach-Inv r)

-- In every state that the threads reach from a new latch, the count is the initial count less the
-- arguments of the zeroipc_latch_count_down calls that have come to their return, or 0 if they add
-- up to more.
pub count-Reach :
    (initial : ℕ) {s : System} → Reach (fresh initial) s → s.latch.count ≡ initial - s.taken
count-Reach initial r = (Reach-Inv r).count_eq

Step-count-le : {s t : System} → Step s t → t.latch.count ≤ s.latch.count
unfolding access
Step-count-le (call_count_down i n e) = omega arith
Step-count-le (call_wait i e) = omega arith
Step-count-le (call_wait_timeout i t e) = omega arith
Step-count-le (call_try_wait i e) = omega arith
Step-count-le {s} (run lost late i) = step-count-le lost late s.latch (s.pc i)
Step-count-le (back i r) = omega arith

later-count-le : {s t : System} → Reach s t → t.latch.count ≤ s.latch.count
later-count-le here = omega arith
later-count-le (next r st) = omega (arith, later-count-le r, Step-count-le st)

-- In every state that the threads reach from a new latch in which a wait has let a thread pass, or
-- zeroipc_latch_try_wait has answered true, the finished zeroipc_latch_count_down calls add up to
-- at least the initial count, and the count is 0 in every later state.
pub open_for_good :
    {initial : ℕ} {s t : System} (i : ℕ)
    → Reach (fresh initial) s
    → (s.pc i ≡ waited) ⊎ (s.pc i ≡ tried true)
    → Reach s t
    → (initial ≤ s.taken) × (t.latch.count ≡ 0)
open_for_good {initial} {s} i r passed later =
    let now : s.latch.count ≡ 0 = ground (arith, (Reach-Inv r).fresh i) in
    (omega (arith, count-Reach initial r), omega (arith, later-count-le later))

-- When the count is 0 no wait blocks: the next load of a thread in zeroipc_latch_wait or
-- zeroipc_latch_wait_timeout lets it pass, and zeroipc_latch_try_wait answers true.
pub zero_releases :
    (lost late : Bool) (l : Latch) (b : ℕ)
    → l.count ≡ 0
    → ((step lost late l (wait_load b)).1 ≡ waited)
      × ((step lost late l (timed_load b)).1 ≡ waited)
      × ((step lost late l try_load).1 ≡ tried true)
unfolding step
zero_releases lost late l b e = ground arith

-- In every state that the threads reach from a new latch, a compare-exchange of
-- zeroipc_latch_count_down that does not fail spuriously and still sends its thread back gives it
-- a strictly smaller copy of the count, which is the current one; so a call is sent back at most
-- as often as there are counts below its first copy.
pub retry-lt :
    (initial : ℕ) {s : System} (late : Bool) (i n current copy : ℕ)
    → Reach (fresh initial) s
    → s.pc i ≡ down_claim n current
    → (step false late s.latch (down_claim n current)).1 ≡ down_claim n copy
    → (copy < current) × (copy ≡ s.latch.count)
unfolding step
retry-lt initial late i n current copy r e f = ground (arith, (Reach-Inv r).fresh i)
