-- ===== src/Queue/Tickets/WinPush.antt =====
-- The compare-exchange that a push wins keeps the invariant.
use zeroipc.Base.{ℕ, ◌+◌, ◌^◌, ◌<◌, ◌≡◌, refl, arith, update, u32}
use zeroipc.Queue.{Queue, Pc, push_claim, push_write, push_publish, pop_recycle}
use zeroipc.Queue.Slots.{slot_round}
use zeroipc.Queue.Tickets.{Inv, Shared, Popping, IsFresh}

module _ {A : Type 0} {q : Queue A} {log : ℕ → A} {n : ℕ} {pc : ℕ → Pc A} (inv : Inv q log n pc)
    (small : n + q.capacity + 1 < 2 ^ 32) (i : ℕ) (v : A) (e : pc i ≡ push_claim v n) where
  open inv use {shared, pushing, popping, one_push, one_pop, fresh}
  open shared use {cap_in, tail_eq, head_in, room, stored, awaited}

  q₁ : Queue A
  q₁ = record q { tail = u32 (n + 1) }

  log₁ : ℕ → A
  log₁ = update log n v

  Shared_lem : Shared q₁ log₁ (n + 1)
  unfolding q₁ log₁
  Shared_lem = record {
    cap_in = cap_in;
    tail_eq = omega arith;
    head_in = omega arith;
    room = ground (arith, fresh i);
    stored = λ t lo hi. ground (arith, fresh i, stored t);
    awaited = λ t lo hi. ground (arith, awaited t);
  }

  Popping_lem : (h : ℕ) → Popping q log n h → Popping q₁ log₁ (n + 1) h
  unfolding q₁ log₁
  Popping_lem h p = ground (arith, fresh i, slot_round q.capacity h)

  IsFresh_lem : (j : ℕ) (p : Pc A) → pc j ≡ p → IsFresh q₁ log₁ (n + 1) p
  unfolding q₁ log₁
  IsFresh_lem j (push_write w t) f = ground (arith, fresh j, pushing j t)
  IsFresh_lem j (push_publish t) f = ground (arith, fresh j, pushing j t)
  IsFresh_lem j (pop_recycle h w) f = ground (arith, fresh j, popping j h)
  IsFresh_lem j p f = ground (arith, fresh j)

  pub win_push-Inv :
      Inv (record q { tail = u32 (n + 1) }) (update log n v) (n + 1) (update pc i (push_write v n))
  unfolding q₁ log₁
  win_push-Inv = record {
    shared = Shared_lem;
    pushing = λ j t f. ground (arith, pushing j t, fresh i, head_in);
    popping = λ j h f. Popping_lem h (ground (arith, popping j h));
    one_push = λ j k t f g. ground (arith, one_push j k t, pushing j t, pushing k t);
    one_pop = λ j k h f g. ground (arith, one_pop j k h);
    fresh = λ j. ground (arith, IsFresh_lem j (pc j) refl);
  }
