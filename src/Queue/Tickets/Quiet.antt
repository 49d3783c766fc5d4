-- ===== src/Queue/Tickets/Quiet.antt =====
-- An access that changes nothing but the place of its thread keeps the invariant.
use zeroipc.Base.{ℕ, ◌≡◌, some, arith, update}
use zeroipc.Queue.{Queue, Pc}
use zeroipc.Queue.Tickets.{Inv, IsFresh, push_ticket, pop_ticket}

module _ {A : Type 0} {q : Queue A} {log : ℕ → A} {n : ℕ} {pc : ℕ → Pc A} (inv : Inv q log n pc)
    (i : ℕ) where
  open inv use {shared, pushing, popping, one_push, one_pop, fresh}

  -- A change of one thread's place alone.
  pub quiet-Inv :
      (p : Pc A)
      → ((t : ℕ) → push_ticket p ≡ some t → push_ticket (pc i) ≡ some t)
      → ((h : ℕ) → pop_ticket p ≡ some h → pop_ticket (pc i) ≡ some h)
      → IsFresh q log n p
      → Inv q log n (update pc i p)
  quiet-Inv p old_push old_pop f = record {
    shared = shared;
    pushing = λ j t e. ground (arith, old_push t, pushing j t, pushing i t);
    popping = λ j h e. ground (arith, old_pop h, popping j h, popping i h);
    one_push =
        λ j k t e e'. ground (arith, old_push t, one_push j k t, one_push i k t, one_push j i t);
    one_pop = λ j k h e e'. ground (arith, old_pop h, one_pop j k h, one_pop i k h, one_pop j i h);
    fresh = λ j. ground (arith, fresh j);
  }
