-- ===== src/Queue/Alone/Holds.antt =====
-- What it means that a queue at rest holds a list of elements.
use zeroipc.Base.{
  offset, sharing, false, ℕ, suc, ◌+◌, ◌*◌, ◌^◌, ◌≤◌, ◌<◌, ◌≡◌, some, refl, arith, update, u32,
  List, [], ◌∷◌, ◌++◌, length, length-append, get_elem?, dec_lt, ℕ_discrete, get_elem?-append_lt,
  get_elem?-append_last,
}
use zeroipc.Queue.{Queue, slot, pushed, full, popped, empty}
use zeroipc.Queue.Slots.{
  apart, slot_inj, slot_round, slot-u32, sign_of_diff_self, sign_of_diff-behind,
}
use zeroipc.Queue.Alone.{push_alone, pop_alone}

-- No thread is in a call, `h` elements have been popped since the queue was new (a count that does
-- not wrap), and `items` are in the queue, the oldest first.
pub record Holds {A : Type 0} (q : Queue A) (h : ℕ) (items : List A) : Type 0 where
  pub two : 2 ≤ q.capacity
  pub small : q.capacity ≤ 2 ^ 31
  pub own_bytes : sharing q.capacity q.elem_size ≡ false
  pub rounds : ℕ
  pub divides : q.capacity * rounds ≡ 2 ^ 32
  pub head_eq : q.head ≡ u32 h
  pub tail_eq : q.tail ≡ u32 (h + length items)
  pub fits : length items ≤ q.capacity
  pub item :
      (k : ℕ)
      → k < length items
      → (q.seq (slot q.capacity (h + k)) ≡ u32 (h + k + 1))
        × (get_elem? items k ≡ some (q.buf (offset q.elem_size (slot q.capacity (h + k)))))
  pub free :
      (k : ℕ) → length items ≤ k → k < q.capacity → q.seq (slot q.capacity (h + k)) ≡ u32 (h + k)

module _ {A : Type 0} {q : Queue A} {h : ℕ} {items : List A} (holds : Holds q h items) where
  open holds use {two, small, own_bytes, rounds, divides, head_eq, tail_eq, fits, item, free}

  abbrev pub n : ℕ
  n = length items

  -- The queue after a push of `v`.
  pub after_push : A → Queue A
  after_push v = record q {
    tail = u32 (h + n + 1);
    buf = update q.buf (offset q.elem_size (slot q.capacity (h + n))) v;
    seq = update q.seq (slot q.capacity (h + n)) (u32 (h + n + 1));
  }

  pub capacity-after_push : (v : A) → (after_push v).capacity ≡ q.capacity
  unfolding after_push
  capacity-after_push v = refl

  pub push_alone-room : (v : A) → n < q.capacity → push_alone q v ≡ some (after_push v, pushed)
  unfolding push_alone after_push
  push_alone-room v lt = ground (
    arith,
    tail_eq,
    free n,
    slot-u32 q.capacity rounds (h + n) divides,
    sign_of_diff_self (u32 (h + n)),
  )

  pub push_alone-full : (v : A) → n ≡ q.capacity → push_alone q v ≡ some (q, full)
  unfolding push_alone
  push_alone-full v e = ground (
    arith,
    tail_eq,
    item 0,
    slot-u32 q.capacity rounds (h + n) divides,
    slot_round q.capacity h,
    sign_of_diff-behind (h + 1) (h + n),
  )

  pub after_push-Holds : (v : A) → n < q.capacity → Holds (after_push v) h (items ++ (v ∷ []))
  unfolding after_push
  after_push-Holds v lt = record {
    two = two;
    small = small;
    own_bytes = own_bytes;
    rounds = rounds;
    divides = divides;
    head_eq = head_eq;
    tail_eq = omega (arith, length-append items (v ∷ []));
    fits = omega (arith, length-append items (v ∷ []));
    item = λ k hk. elim (dec_lt k n) [
      | yes old ↦ ground (
        arith,
        item k,
        get_elem?-append_lt items (v ∷ []) k,
        slot_inj q.capacity (h + k) (h + n),
        apart q.capacity q.elem_size (h + n) (h + k),
      )
      | no new ↦
          let last : k ≡ n = omega (arith, length-append items (v ∷ [])) in
          rw last (ground (arith, get_elem?-append_last items v))
    ];
    free = λ k lo hi.
        ground (arith, free k, length-append items (v ∷ []), slot_inj q.capacity (h + n) (h + k));
  }

  pub pop_alone-none : items ≡ [] → pop_alone q ≡ some (q, empty)
  unfolding pop_alone
  pop_alone-none e =
      ground (
        arith,
        head_eq,
        free 0,
        slot-u32 q.capacity rounds h divides,
        sign_of_diff-behind h (h + 1),
      )

module _ {A : Type 0} {q : Queue A} {h : ℕ} {x : A} {items : List A}
    (holds : Holds q h (x ∷ items)) where
  open holds use {two, small, own_bytes, rounds, divides, head_eq, tail_eq, fits, item, free}

  pub after_pop : Queue A
  after_pop = record q {
    head = u32 (h + 1);
    seq = update q.seq (slot q.capacity h) (u32 (h + q.capacity));
  }

  pub capacity-after_pop : after_pop.capacity ≡ q.capacity
  unfolding after_pop
  capacity-after_pop = refl

  pub pop_alone-some : pop_alone q ≡ some (after_pop, popped x)
  unfolding pop_alone after_pop
  pop_alone-some = ground (
    arith,
    head_eq,
    item 0,
    slot-u32 q.capacity rounds h divides,
    sign_of_diff_self (u32 (h + 1)),
  )

  pub after_pop-Holds : Holds after_pop (h + 1) items
  unfolding after_pop
  after_pop-Holds = record {
    two = two;
    small = small;
    own_bytes = own_bytes;
    rounds = rounds;
    divides = divides;
    head_eq = refl;
    tail_eq = omega arith;
    fits = omega arith;
    item = λ k hk. ground (arith, item (suc k), slot_inj q.capacity h (h + 1 + k));
    free = λ k lo hi. elim (ℕ_discrete (k + 1) q.capacity) [
      | yes last ↦ ground (arith, slot_round q.capacity h)
      | no other ↦ ground (arith, free (suc k), slot_inj q.capacity h (h + 1 + k))
    ];
  }
