-- ===== src/Stack/Lifo.antt =====
-- A thread that has the stack for itself: its calls return, and the stack is last in, first out.
pub mod Replies
use zeroipc.Base.{
  offset, sharing, ℕ, zero, suc, ◌+◌, ◌-◌, ◌^◌, ◌≤◌, ◌<◌, ◌≡◌, ◌≢◌, ◌↔◌, inl, inr, Option, none,
  some, Bool, true, false, refl, sym, ◌∙◌, ap, arith, update, ◌==◌, if◌then◌else◌, ltb, ℤ, pos,
  negsuc, leb_ℤ, ltb_ℤ, List, [], ◌∷◌, length, Bool-cases, take,
}
use zeroipc.Stack.{
  Stack, Pc, step, last_index, push_load, pop_load, top_load, pushed, full, popped, topped, empty,
  top_gave_up, timeout, slot_ready, slot_empty, max_spins, size, is_empty, is_full,
}
use zeroipc.Stack.Slots.Marks.{apart}
use zeroipc.Stack.Slots.Access.{last_index_lem}

module _ {A : Type 0} where
  unfoldable pub returned : Pc A → Bool
  returned pushed = true
  returned full = true
  returned (popped v) = true
  returned (topped v) = true
  returned empty = true
  returned top_gave_up = true
  returned timeout = true
  returned p = false

  -- The accesses of one thread from `p` to its return; `none` if that takes more than the fuel.
  unfoldable pub run_alone : ℕ → Stack A → Pc A → Option (Stack A × Pc A)
  unfolding returned step
  run_alone zero s p = none
  run_alone (suc fuel) s p = elim (returned p) [
    | true ↦ some (s, p)
    | false ↦ let (s', p') = step false s p in run_alone fuel s' p'
  ]

  -- The slots below the top are ready and hold the items, the newest at the top.
  abbrev pub IsFilled : Stack A → List A → Type 0
  IsFilled s [] = Unit
  IsFilled s (x ∷ xs) =
      (s.state (length xs) ≡ slot_ready)
      × (s.buf (offset s.elem_size (length xs)) ≡ x)
      × IsFilled s xs

  abbrev pub top_of : List A → ℤ
  top_of [] = negsuc 0
  top_of (x ∷ xs) = pos (length xs)

  -- No thread is in a call, and the stack holds `items`, the newest first.
  pub record Holds (s : Stack A) (items : List A) : Type 0 where
    pub nonzero : 0 < s.capacity
    pub small : s.capacity ≤ 2 ^ 31
    pub own_bytes : sharing s.capacity s.elem_size ≡ false
    pub top_eq : s.top ≡ top_of items
    pub fits : length items ≤ s.capacity
    pub filled : IsFilled s items
    pub free : (i : ℕ) → length items ≤ i → i < s.capacity → s.state i ≡ slot_empty

  IsFilled-ext :
      (s s' : Stack A) (items : List A)
      → ((i : ℕ)
          → i < length items
          → (s'.state i ≡ s.state i)
            × (s'.buf (offset s'.elem_size i) ≡ s.buf (offset s.elem_size i)))
      → IsFilled s items
      → IsFilled s' items
  IsFilled-ext s s' [] same f = tt
  IsFilled-ext s s' (x ∷ xs) same f = (
    (same (length xs) (omega arith)).0 ∙ f.0,
    (same (length xs) (omega arith)).1 ∙ f.1,
    IsFilled-ext s s' xs (λ i lt. same i (omega arith)) f.2,
  )

  after_push : Stack A → List A → A → Stack A
  after_push s items v = record s {
    top = pos (length items);
    buf = update s.buf (offset s.elem_size (length items)) v;
    state = update (update s.state (length items) 1) (length items) slot_ready;
  }

  unfoldable pub push_alone : Stack A → A → Option (Stack A × Pc A)
  unfolding run_alone
  push_alone s v = run_alone 6 s (push_load v)

  unfoldable pub pop_alone : Stack A → Option (Stack A × Pc A)
  unfolding run_alone
  pop_alone s = run_alone 6 s pop_load

  unfoldable pub top_alone : Stack A → Option (Stack A × Pc A)
  unfolding run_alone
  top_alone s = run_alone 6 s (top_load 0)

  push_room :
      {s : Stack A} (items : List A) (v : A)
      → Holds s items
      → length items < s.capacity
      → push_alone s v ≡ some (after_push s items v, pushed)
  unfolding push_alone after_push
  push_room {s} [] v h lt = ground (arith, h, h.free 0, last_index_lem s.capacity)
  push_room {s} (x ∷ xs) v h lt =
      ground (arith, h, h.free (suc (length xs)), last_index_lem s.capacity)

  push_full :
      {s : Stack A} (items : List A) (v : A)
      → Holds s items
      → length items ≡ s.capacity
      → push_alone s v ≡ some (s, full)
  unfolding push_alone
  push_full {s} [] v h e = absurd (omega (arith, h))
  push_full {s} (x ∷ xs) v h e = ground (arith, h, last_index_lem s.capacity)

  after_push-Holds :
      {s : Stack A} (items : List A) (v : A)
      → Holds s items
      → length items < s.capacity
      → Holds (after_push s items v) (v ∷ items)
  unfolding after_push
  after_push-Holds {s} items v h lt = record {
    nonzero = h.nonzero;
    small = h.small;
    own_bytes = h.own_bytes;
    top_eq = refl;
    fits = lt;
    filled = (
      ground arith,
      ground arith,
      IsFilled-ext s (after_push s items v) items
          (λ i below. (
            ground arith,
            ground (arith, apart s.capacity s.elem_size (length items) i, h.own_bytes, lt),
          ))
          h.filled,
    );
    free = λ i lo hi. ground (arith, h.free i);
  }

  after_pop : Stack A → List A → Stack A
  after_pop s items = record s {
    top = top_of items;
    state = update (update s.state (length items) 3) (length items) slot_empty;
  }

  pop_some :
      {s : Stack A} (x : A) (items : List A)
      → Holds s (x ∷ items)
      → pop_alone s ≡ some (after_pop s items, popped x)
  unfolding pop_alone after_pop
  pop_some {s} x [] h = ground (arith, h, h.filled)
  pop_some {s} x (y ∷ ys) h = ground (arith, h, h.filled.0, h.filled.1)

  after_pop-Holds :
      {s : Stack A} (x : A) (items : List A) → Holds s (x ∷ items) → Holds (after_pop s items) items
  unfolding after_pop
  after_pop-Holds {s} x items h = record {
    nonzero = h.nonzero;
    small = h.small;
    own_bytes = h.own_bytes;
    top_eq = refl;
    fits = omega (arith, h.fits);
    filled =
        IsFilled-ext s (after_pop s items) items (λ i below. (ground arith, ground arith))
          h.filled.2;
    free = λ i lo hi. ground (arith, h.free i);
  }

  after_top : Stack A → List A → Stack A
  after_top s items = record s {
    state = update (update s.state (length items) 3) (length items) slot_ready;
  }

  top_some :
      {s : Stack A} (x : A) (items : List A)
      → Holds s (x ∷ items)
      → top_alone s ≡ some (after_top s items, topped x)
  unfolding top_alone after_top
  top_some {s} x items h = ground (arith, h, h.filled.0, h.filled.1)

  after_top-Holds :
      {s : Stack A} (x : A) (items : List A)
      → Holds s (x ∷ items)
      → Holds (after_top s items) (x ∷ items)
  unfolding after_top
  after_top-Holds {s} x items h = record {
    nonzero = h.nonzero;
    small = h.small;
    own_bytes = h.own_bytes;
    top_eq = h.top_eq;
    fits = h.fits;
    filled = (
      ground arith,
      h.filled.1,
      IsFilled-ext s (after_top s items) items (λ i below. (ground arith, ground arith)) h.filled.2,
    );
    free = λ i lo hi. ground (arith, h.free i);
  }

  pop_none : {s : Stack A} → Holds s [] → pop_alone s ≡ some (s, empty)
  unfolding pop_alone
  pop_none {s} h = ground (arith, h)

  top_none : {s : Stack A} → Holds s [] → top_alone s ≡ some (s, empty)
  unfolding top_alone
  top_none {s} h = ground (arith, h)
