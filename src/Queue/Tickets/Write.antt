-- ===== src/Queue/Tickets/Write.antt =====
-- The write of a pushed element keeps the invariant.
use zeroipc.Base.{offset, ℕ, ◌+◌, ◌^◌, ◌<◌, ◌≡◌, ◌≢◌, some, refl, arith, update}
use zeroipc.Queue.{Queue, Pc, slot, push_write, push_publish}
use zeroipc.Queue.Slots.{slot_inj, apart}
use zeroipc.Queue.Tickets.{Inv, Shared, Pushing, Popping, IsFresh, push_ticket, pop_ticket}

module _ {A : Type 0} {q : Queue A} {log : ℕ → A} {n : ℕ} {pc : ℕ → Pc A} (inv : Inv q log n pc)
    (small : n + q.capacity + 1 < 2 ^ 32) (i : ℕ) (v : A) (t : ℕ) (e : pc i ≡ push_write v t) where
  open inv use {shared, pushing, popping, one_push, one_pop, fresh}
  open shared use {cap_in, tail_eq, head_in, room, stored, awaited}

  q₁ : Queue A
  q₁ = record q { buf = update q.buf (offset q.elem_size (slot q.capacity t)) v }

  Shared_lem : Shared q₁ log n
  unfolding q₁
  Shared_lem = record {
    cap_in = cap_in;
    tail_eq = tail_eq;
    head_in = head_in;
    room = room;
    stored = λ u lo hi. ground (
      arith,
      stored u,
      pushing i t,
      apart q.capacity q.elem_size t u,
      slot_inj q.capacity t u,
      slot_inj q.capacity u t,
    );
    awaited = λ u lo hi. ground (arith, awaited u);
  }

  Pushing_lem :
      (j u : ℕ) → push_ticket (update pc i (push_publish t) j) ≡ some u → Pushing q₁ log n u
  unfolding q₁
  Pushing_lem j u f = ground (arith, pushing j u, pushing i t)

  Popping_lem :
      (j h : ℕ) → pop_ticket (update pc i (push_publish t) j) ≡ some h → Popping q₁ log n h
  unfolding q₁
  Popping_lem j h f =
      ground
        (arith, popping j h, pushing i t, apart q.capacity q.elem_size t h, slot_inj q.capacity h t)

  IsFresh_lem : (j : ℕ) (p : Pc A) → pc j ≡ p → j ≢ i → IsFresh q₁ log n p
  unfolding q₁
  IsFresh_lem j (push_publish u) f ne = ground (
    arith,
    fresh j,
    pushing i t,
    pushing j u,
    one_push i j t,
    apart q.capacity q.elem_size t u,
    slot_inj q.capacity t u,
    slot_inj q.capacity u t,
  )
  IsFresh_lem j p f ne = ground (arith, fresh j)

  pub write-Inv :
      Inv
        (record q { buf = update q.buf (offset q.elem_size (slot q.capacity t)) v })
        log
        n
        (update pc i (push_publish t))
  unfolding q₁
  write-Inv = record {
    shared = Shared_lem;
    pushing = Pushing_lem;
    popping = Popping_lem;
    one_push = λ j k u f g. ground (arith, one_push j k u, one_push i k u, one_push j i u);
    one_pop = λ j k h f g. ground (arith, one_pop j k h);
    fresh = λ j. ground (arith, fresh i, IsFresh_lem j (pc j) refl);
  }
