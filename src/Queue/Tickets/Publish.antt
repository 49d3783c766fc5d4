-- ===== src/Queue/Tickets/Publish.antt =====
-- The store with which a push publishes its slot keeps the invariant.
use zeroipc.Base.{ℕ, ◌+◌, ◌^◌, ◌<◌, ◌≡◌, ◌≢◌, some, refl, arith, update, u32}
use zeroipc.Queue.{Queue, Pc, slot, push_claim, push_publish, pop_claim, pushed}
use zeroipc.Queue.Slots.{slot_inj}
use zeroipc.Queue.Tickets.{Inv, Shared, Pushing, Popping, IsFresh, push_ticket, pop_ticket}

module _ {A : Type 0} {q : Queue A} {log : ℕ → A} {n : ℕ} {pc : ℕ → Pc A} (inv : Inv q log n pc)
    (small : n + q.capacity + 1 < 2 ^ 32) (i : ℕ) (t : ℕ) (e : pc i ≡ push_publish t) where
  open inv use {shared, pushing, popping, one_push, one_pop, fresh}
  open shared use {cap_in, tail_eq, head_in, room, stored, awaited}

  q₁ : Queue A
  q₁ = record q { seq = update q.seq (slot q.capacity t) (u32 (t + 1)) }

  Shared_lem : Shared q₁ log n
  unfolding q₁
  Shared_lem = record {
    cap_in = cap_in;
    tail_eq = tail_eq;
    head_in = head_in;
    room = room;
    stored = λ u lo hi.
        ground
          (arith, fresh i, stored u, pushing i t, slot_inj q.capacity t u, slot_inj q.capacity u t);
    awaited = λ u lo hi. ground (arith, awaited u, pushing i t, slot_inj q.capacity t u);
  }

  Pushing_lem : (j u : ℕ) → push_ticket (update pc i pushed j) ≡ some u → Pushing q₁ log n u
  unfolding q₁
  Pushing_lem j u f = ground (
    arith,
    pushing j u,
    pushing i t,
    one_push i j t,
    slot_inj q.capacity t u,
    slot_inj q.capacity u t,
  )

  Popping_lem : (j h : ℕ) → pop_ticket (update pc i pushed j) ≡ some h → Popping q₁ log n h
  unfolding q₁
  Popping_lem j h f = ground (arith, popping j h, pushing i t, slot_inj q.capacity h t)

  IsFresh_lem : (j : ℕ) (p : Pc A) → pc j ≡ p → j ≢ i → IsFresh q₁ log n p
  unfolding q₁
  IsFresh_lem j (push_claim v u) f ne =
      ground (arith, fresh j, pushing i t, slot_inj q.capacity t u)
  IsFresh_lem j (pop_claim h) f ne = ground (arith, fresh j, pushing i t, slot_inj q.capacity h t)
  IsFresh_lem j p f ne = ground (arith, fresh j)

  pub publish-Inv :
      Inv
        (record q { seq = update q.seq (slot q.capacity t) (u32 (t + 1)) })
        log
        n
        (update pc i pushed)
  unfolding q₁
  publish-Inv = record {
    shared = Shared_lem;
    pushing = Pushing_lem;
    popping = Popping_lem;
    one_push = λ j k u f g. ground (arith, one_push j k u);
    one_pop = λ j k h f g. ground (arith, one_pop j k h);
    fresh = λ j. ground (arith, fresh i, IsFresh_lem j (pc j) refl);
  }
