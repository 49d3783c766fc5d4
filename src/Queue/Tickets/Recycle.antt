-- ===== src/Queue/Tickets/Recycle.antt =====
-- The store with which a pop recycles its slot keeps the invariant.
use zeroipc.Base.{ℕ, ◌+◌, ◌^◌, ◌<◌, ◌≡◌, ◌≢◌, some, refl, arith, update, u32}
use zeroipc.Queue.{Queue, Pc, slot, push_claim, pop_claim, pop_recycle, popped}
use zeroipc.Queue.Slots.{slot_inj, slot_round}
use zeroipc.Queue.Tickets.{Inv, Shared, Pushing, Popping, IsFresh, push_ticket, pop_ticket}

module _ {A : Type 0} {q : Queue A} {log : ℕ → A} {n : ℕ} {pc : ℕ → Pc A} (inv : Inv q log n pc)
    (small : n + q.capacity + 1 < 2 ^ 32) (i : ℕ) (h : ℕ) (v : A) (e : pc i ≡ pop_recycle h v) where
  open inv use {shared, pushing, popping, one_push, one_pop, fresh}
  open shared use {cap_in, tail_eq, head_in, room, stored, awaited}

  q₁ : Queue A
  q₁ = record q { seq = update q.seq (slot q.capacity h) (u32 (h + q.capacity)) }

  Shared_lem : Shared q₁ log n
  unfolding q₁
  Shared_lem = record {
    cap_in = cap_in;
    tail_eq = tail_eq;
    head_in = head_in;
    room = room;
    stored = λ u lo hi. ground (arith, stored u, popping i h, slot_inj q.capacity h u);
    awaited = λ u lo hi. ground (
      arith,
      awaited u,
      popping i h,
      slot_round q.capacity h,
      slot_inj q.capacity u (h + q.capacity),
      slot_inj q.capacity (h + q.capacity) u,
    );
  }

  Pushing_lem : (j u : ℕ) → push_ticket (update pc i (popped v) j) ≡ some u → Pushing q₁ log n u
  unfolding q₁
  Pushing_lem j u f = ground (arith, pushing j u, popping i h, slot_inj q.capacity h u)

  Popping_lem : (j k : ℕ) → pop_ticket (update pc i (popped v) j) ≡ some k → Popping q₁ log n k
  unfolding q₁
  Popping_lem j k f = ground (
    arith,
    popping j k,
    popping i h,
    one_pop i j h,
    slot_inj q.capacity h k,
    slot_inj q.capacity k h,
  )

  IsFresh_lem : (j : ℕ) (p : Pc A) → pc j ≡ p → j ≢ i → IsFresh q₁ log n p
  unfolding q₁
  IsFresh_lem j (push_claim w u) f ne =
      ground (
        arith,
        fresh j,
        popping i h,
        slot_round q.capacity h,
        slot_inj q.capacity u (h + q.capacity),
      )
  IsFresh_lem j (pop_claim k) f ne = ground (arith, fresh j, popping i h, slot_inj q.capacity h k)
  IsFresh_lem j p f ne = ground (arith, fresh j)

  pub recycle-Inv :
      Inv
        (record q { seq = update q.seq (slot q.capacity h) (u32 (h + q.capacity)) })
        log
        n
        (update pc i (popped v))
  unfolding q₁
  recycle-Inv = record {
    shared = Shared_lem;
    pushing = Pushing_lem;
    popping = Popping_lem;
    one_push = λ j k u f g. ground (arith, one_push j k u);
    one_pop = λ j k l f g. ground (arith, one_pop j k l);
    fresh = λ j. ground (arith, fresh i, IsFresh_lem j (pc j) refl);
  }
