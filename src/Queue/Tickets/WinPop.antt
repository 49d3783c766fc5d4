-- ===== src/Queue/Tickets/WinPop.antt =====
-- The compare-exchange that a pop wins keeps the invariant.
use zeroipc.Base.{ℕ, ◌+◌, ◌^◌, ◌<◌, ◌≡◌, ◌≢◌, some, refl, arith, update, u32}
use zeroipc.Queue.{Queue, Pc, pop_claim, pop_read}
use zeroipc.Queue.Slots.{slot_round}
use zeroipc.Queue.Tickets.{Inv, Shared, Pushing, Popping, IsFresh, push_ticket, pop_ticket}

module _ {A : Type 0} {q : Queue A} {log : ℕ → A} {n : ℕ} {pc : ℕ → Pc A} (inv : Inv q log n pc)
    (small : n + q.capacity + 1 < 2 ^ 32) (i : ℕ) (e : pc i ≡ pop_claim q.head) where
  open inv use {shared, pushing, popping, one_push, one_pop, fresh}
  open shared use {cap_in, tail_eq, head_in, room, stored, awaited}

  q₁ : Queue A
  q₁ = record q { head = u32 (q.head + 1) }

  Shared_lem : Shared q₁ log n
  unfolding q₁
  Shared_lem = record {
    cap_in = cap_in;
    tail_eq = tail_eq;
    head_in = ground (arith, fresh i);
    room = omega arith;
    stored = λ u lo hi. ground (arith, fresh i, stored u);
    awaited = λ u lo hi. ground (arith, fresh i, awaited u, slot_round q.capacity q.head);
  }

  Pushing_lem :
      (j u : ℕ) → push_ticket (update pc i (pop_read q.head) j) ≡ some u → Pushing q₁ log n u
  unfolding q₁
  Pushing_lem j u f = ground (arith, fresh i, pushing j u)

  Popping_lem :
      (j h : ℕ) → pop_ticket (update pc i (pop_read q.head) j) ≡ some h → Popping q₁ log n h
  unfolding q₁
  Popping_lem j h f = ground (arith, fresh i, popping j h, stored q.head)

  IsFresh_lem : (j : ℕ) (p : Pc A) → pc j ≡ p → j ≢ i → IsFresh q₁ log n p
  unfolding q₁
  IsFresh_lem j p f ne = ground (arith, fresh j, fresh i)

  pub win_pop-Inv : Inv (record q { head = u32 (q.head + 1) }) log n (update pc i (pop_read q.head))
  unfolding q₁
  win_pop-Inv = record {
    shared = Shared_lem;
    pushing = Pushing_lem;
    popping = Popping_lem;
    one_push = λ j k u f g. ground (arith, one_push j k u);
    one_pop = λ j k h f g. ground (arith, one_pop j k h, popping j h, popping k h);
    fresh = λ j. ground (arith, fresh i, IsFresh_lem j (pc j) refl);
  }
