-- ===== src/Stack/Slots/Marks.antt =====
-- The accesses to a slot keep the invariant of the stack.
use zeroipc.Base.{
  offset, sharing, offset_inj, true, ◌<◌, ◌⊎◌, inl, inr, Bool-cases, ℕ, ℕ_discrete, ◌+◌, ◌≡◌, ◌≢◌,
  some, refl, arith, update, ℤ,
}
use zeroipc.Stack.{
  Stack, Pc, push_write, push_publish, push_reserve, push_mark, push_undo, pop_reserve, pop_mark,
  pop_undo, pop_read, pop_release, top_mark, top_read, top_restore, pushed, popped, topped,
  slot_writing, slot_ready, slot_reading, slot_empty,
}
use zeroipc.Stack.System.{Ghost}
use zeroipc.Stack.Slots.{Inv, IsFresh, IsTop, write_slot, read_slot}

-- Two indices with one offset are one, unless elements share bytes.
pub apart :
    (capacity elem_size i j : ℕ)
    → i < capacity
    → j < capacity
    → offset elem_size i ≡ offset elem_size j
    → (sharing capacity elem_size ≡ true) ⊎ (i ≡ j)
apart capacity elem_size i j li lj e = elim (Bool-cases (sharing capacity elem_size)) [
  | inl shared ↦ inl shared
  | inr own ↦ inr (offset_inj capacity elem_size i j own li lj e)
]

module _ {A : Type 0} {s : Stack A} {g : Ghost A} {pc : ℕ → Pc A} (inv : Inv s g pc) (t : ℕ) where
  open inv use {
    small, nonzero, top_in, writing, reading, one_writer, one_reader, holds, held, balance, fresh,
  }

  -- A thread that keeps the slots that it had, among the others.
  was_writing :
      (p : Pc A) (u i : ℕ)
      → (write_slot p ≡ some i → write_slot (pc t) ≡ some i)
      → write_slot (update pc t p u) ≡ some i
      → write_slot (pc u) ≡ some i
  was_writing p u i old e = elim (ℕ_discrete t u) [
    | yes same ↦ ground (arith, old)
    | no other ↦ ground arith
  ]

  was_reading :
      (p : Pc A) (u i : ℕ)
      → (read_slot p ≡ some i → read_slot (pc t) ≡ some i)
      → read_slot (update pc t p u) ≡ some i
      → read_slot (pc u) ≡ some i
  was_reading p u i old e = elim (ℕ_discrete t u) [
    | yes same ↦ ground (arith, old)
    | no other ↦ ground arith
  ]

  -- A change of `top`, and of one thread's place to one outside the slots.
  pub place-Inv :
      (top : ℤ) (p : Pc A)
      → IsTop s.capacity top
      → IsFresh s g p
      → ((i : ℕ) → write_slot p ≡ some i → write_slot (pc t) ≡ some i)
      → ((i : ℕ) → read_slot p ≡ some i → read_slot (pc t) ≡ some i)
      → Inv (record s { top = top }) g (update pc t p)
  place-Inv top p q f old_write old_read = record {
    small = small;
    nonzero = nonzero;
    top_in = q;
    writing = λ u i e. writing u i (was_writing p u i (old_write i) e);
    reading = λ u i e. reading u i (was_reading p u i (old_read i) e);
    one_writer = λ u w i e e'.
        one_writer u w i (was_writing p u i (old_write i) e) (was_writing p w i (old_write i) e');
    one_reader = λ u w i e e'.
        one_reader u w i (was_reading p u i (old_read i) e) (was_reading p w i (old_read i) e');
    holds = holds;
    held = held;
    balance = balance;
    fresh = λ u. fresh_place u (place-IsFresh (pc u) (fresh u)) (place-IsFresh p f);
  }
    where
      place-IsFresh : (r : Pc A) → IsFresh s g r → IsFresh (record s { top = top }) g r
      place-IsFresh (push_mark v i k) e = e
      place-IsFresh (push_reserve v c) e = e
      place-IsFresh (push_undo i) e = e
      place-IsFresh (push_write v i) e = e
      place-IsFresh (push_publish i) e = e
      place-IsFresh (pop_reserve c) e = e
      place-IsFresh (pop_mark i k) e = e
      place-IsFresh (pop_undo i) e = e
      place-IsFresh (pop_read i) e = e
      place-IsFresh (pop_release i v) e = e
      place-IsFresh (top_mark i k) e = e
      place-IsFresh (top_read i) e = e
      place-IsFresh (top_restore i v) e = e
      place-IsFresh r e = tt

      fresh_place :
          (u : ℕ)
          → IsFresh (record s { top = top }) g (pc u)
          → IsFresh (record s { top = top }) g p
          → IsFresh (record s { top = top }) g (update pc t p u)
      fresh_place u a b = ground arith

  -- A push marks an empty slot.
  module _ (v : A) (i k : ℕ) (e : pc t ≡ push_mark v i k) (z : s.state i ≡ slot_empty) where
    mark-IsFresh :
        (u : ℕ) (p : Pc A)
        → pc u ≡ p
        → u ≢ t
        → IsFresh
            (record s { state = update s.state i slot_writing })
            (record g { written = update g.written i v; marks = update g.marks i (g.marks i + 1) })
            p
    mark-IsFresh u (push_write w j) f ne = ground (arith, fresh u, writing u j)
    mark-IsFresh u (push_publish j) f ne = ground (arith, fresh u, writing u j)
    mark-IsFresh u (pop_release j w) f ne = ground (arith, fresh u, reading u j)
    mark-IsFresh u (top_restore j w) f ne = ground (arith, fresh u, reading u j)
    mark-IsFresh u p f ne = ground (arith, fresh u)

    pub mark-Inv :
        Inv
          (record s { state = update s.state i slot_writing })
          (record g { written = update g.written i v; marks = update g.marks i (g.marks i + 1) })
          (update pc t (push_write v i))
    mark-Inv = record {
      small = small;
      nonzero = nonzero;
      top_in = top_in;
      writing = λ u j f. ground (arith, writing u j, writing t i, one_writer u t i, reading t i);
      reading = λ u j f. ground (arith, reading u j, reading t i, one_reader u t i, writing t i);
      one_writer = λ u w j f f'. ground (arith, one_writer u w j, writing u j, writing w j);
      one_reader = λ u w j f f'. ground (arith, one_reader u w j, reading u j, reading w j);
      holds = λ j below f. ground (arith, holds j, held j, fresh t, writing t i, reading t i);
      held = λ j below f. ground (arith, held j, holds j, fresh t, writing t i, reading t i);
      balance = λ j. ground (arith, balance j, writing t i, reading t i);
      fresh = λ u. ground (arith, fresh t, mark-IsFresh u (pc u) refl);
    }

  -- A push writes its element.
  module _ (v : A) (i : ℕ) (e : pc t ≡ push_write v i) where
    write-IsFresh :
        (u : ℕ) (p : Pc A)
        → pc u ≡ p
        → u ≢ t
        → IsFresh (record s { buf = update s.buf (offset s.elem_size i) v }) (g) p
    write-IsFresh u (push_publish j) f ne =
        ground (arith, fresh u, fresh t, one_writer u t j, apart s.capacity s.elem_size i j)
    write-IsFresh u p f ne = ground (arith, fresh u)

    pub write-Inv :
        Inv
          (record s { buf = update s.buf (offset s.elem_size i) v })
          (g)
          (update pc t (push_publish i))
    write-Inv = record {
      small = small;
      nonzero = nonzero;
      top_in = top_in;
      writing = λ u j f. ground (arith, writing u j, writing t i, one_writer u t i, reading t i);
      reading = λ u j f. ground (arith, reading u j, reading t i, one_reader u t i, writing t i);
      one_writer =
          λ u w j f f'. ground (arith, one_writer u w j, one_writer t w j, one_writer u t j);
      one_reader = λ u w j f f'. ground (arith, one_reader u w j, reading u j, reading w j);
      holds = λ j below f.
          ground (arith, holds j, fresh t, writing t i, apart s.capacity s.elem_size i j);
      held = λ j below f.
          ground (arith, held j, fresh t, writing t i, apart s.capacity s.elem_size i j);
      balance = λ j. ground (arith, balance j, writing t i, reading t i);
      fresh = λ u. ground (arith, fresh t, write-IsFresh u (pc u) refl);
    }

  -- A push publishes its slot.
  module _ (i : ℕ) (e : pc t ≡ push_publish i) where
    publish-IsFresh :
        (u : ℕ) (p : Pc A)
        → pc u ≡ p
        → u ≢ t
        → IsFresh (record s { state = update s.state i slot_ready }) (g) p
    publish-IsFresh u p f ne = ground (arith, fresh u)

    pub publish-Inv :
        Inv (record s { state = update s.state i slot_ready }) (g) (update pc t pushed)
    publish-Inv = record {
      small = small;
      nonzero = nonzero;
      top_in = top_in;
      writing = λ u j f. ground (arith, writing u j, writing t i, one_writer u t i, reading t i);
      reading = λ u j f. ground (arith, reading u j, reading t i, one_reader u t i, writing t i);
      one_writer = λ u w j f f'. ground (arith, one_writer u w j, writing u j, writing w j);
      one_reader = λ u w j f f'. ground (arith, one_reader u w j, reading u j, reading w j);
      holds = λ j below f. ground (arith, holds j, held j, fresh t, writing t i, reading t i);
      held = λ j below f. ground (arith, held j, holds j, fresh t, writing t i, reading t i);
      balance = λ j. ground (arith, balance j, writing t i, reading t i);
      fresh = λ u. ground (arith, fresh t, publish-IsFresh u (pc u) refl);
    }

  -- A pop marks a ready slot.
  module _ (i k : ℕ) (e : pc t ≡ pop_mark i k) (z : s.state i ≡ slot_ready) where
    mark_pop-IsFresh :
        (u : ℕ) (p : Pc A)
        → pc u ≡ p
        → u ≢ t
        → IsFresh (record s { state = update s.state i slot_reading }) (g) p
    mark_pop-IsFresh u p f ne = ground (arith, fresh u)

    pub mark_pop-Inv :
        Inv (record s { state = update s.state i slot_reading }) (g) (update pc t (pop_read i))
    mark_pop-Inv = record {
      small = small;
      nonzero = nonzero;
      top_in = top_in;
      writing = λ u j f. ground (arith, writing u j, writing t i, one_writer u t i, reading t i);
      reading = λ u j f. ground (arith, reading u j, reading t i, one_reader u t i, writing t i);
      one_writer = λ u w j f f'. ground (arith, one_writer u w j, writing u j, writing w j);
      one_reader = λ u w j f f'. ground (arith, one_reader u w j, reading u j, reading w j);
      holds = λ j below f. ground (arith, holds j, held j, fresh t, writing t i, reading t i);
      held = λ j below f. ground (arith, held j, holds j, fresh t, writing t i, reading t i);
      balance = λ j. ground (arith, balance j, writing t i, reading t i);
      fresh = λ u. ground (arith, fresh t, mark_pop-IsFresh u (pc u) refl);
    }

  -- A peek marks a ready slot.
  module _ (i k : ℕ) (e : pc t ≡ top_mark i k) (z : s.state i ≡ slot_ready) where
    mark_top-IsFresh :
        (u : ℕ) (p : Pc A)
        → pc u ≡ p
        → u ≢ t
        → IsFresh (record s { state = update s.state i slot_reading }) (g) p
    mark_top-IsFresh u p f ne = ground (arith, fresh u)

    pub mark_top-Inv :
        Inv (record s { state = update s.state i slot_reading }) (g) (update pc t (top_read i))
    mark_top-Inv = record {
      small = small;
      nonzero = nonzero;
      top_in = top_in;
      writing = λ u j f. ground (arith, writing u j, writing t i, one_writer u t i, reading t i);
      reading = λ u j f. ground (arith, reading u j, reading t i, one_reader u t i, writing t i);
      one_writer = λ u w j f f'. ground (arith, one_writer u w j, writing u j, writing w j);
      one_reader = λ u w j f f'. ground (arith, one_reader u w j, reading u j, reading w j);
      holds = λ j below f. ground (arith, holds j, held j, fresh t, writing t i, reading t i);
      held = λ j below f. ground (arith, held j, holds j, fresh t, writing t i, reading t i);
      balance = λ j. ground (arith, balance j, writing t i, reading t i);
      fresh = λ u. ground (arith, fresh t, mark_top-IsFresh u (pc u) refl);
    }

  -- A pop releases its slot.
  module _ (i : ℕ) (v : A) (e : pc t ≡ pop_release i v) where
    release-IsFresh :
        (u : ℕ) (p : Pc A)
        → pc u ≡ p
        → u ≢ t
        → IsFresh
            (record s { state = update s.state i slot_empty })
            (record g { releases = update g.releases i (g.releases i + 1) })
            p
    release-IsFresh u p f ne = ground (arith, fresh u)

    pub release-Inv :
        Inv
          (record s { state = update s.state i slot_empty })
          (record g { releases = update g.releases i (g.releases i + 1) })
          (update pc t (popped v))
    release-Inv = record {
      small = small;
      nonzero = nonzero;
      top_in = top_in;
      writing = λ u j f. ground (arith, writing u j, writing t i, one_writer u t i, reading t i);
      reading = λ u j f. ground (arith, reading u j, reading t i, one_reader u t i, writing t i);
      one_writer = λ u w j f f'. ground (arith, one_writer u w j, writing u j, writing w j);
      one_reader = λ u w j f f'. ground (arith, one_reader u w j, reading u j, reading w j);
      holds = λ j below f. ground (arith, holds j, held j, fresh t, writing t i, reading t i);
      held = λ j below f. ground (arith, held j, holds j, fresh t, writing t i, reading t i);
      balance = λ j. ground (arith, balance j, writing t i, reading t i);
      fresh = λ u. ground (arith, fresh t, release-IsFresh u (pc u) refl);
    }

  -- A peek restores its slot.
  module _ (i : ℕ) (v : A) (e : pc t ≡ top_restore i v) where
    restore-IsFresh :
        (u : ℕ) (p : Pc A)
        → pc u ≡ p
        → u ≢ t
        → IsFresh (record s { state = update s.state i slot_ready }) (g) p
    restore-IsFresh u p f ne = ground (arith, fresh u)

    pub restore-Inv :
        Inv (record s { state = update s.state i slot_ready }) (g) (update pc t (topped v))
    restore-Inv = record {
      small = small;
      nonzero = nonzero;
      top_in = top_in;
      writing = λ u j f. ground (arith, writing u j, writing t i, one_writer u t i, reading t i);
      reading = λ u j f. ground (arith, reading u j, reading t i, one_reader u t i, writing t i);
      one_writer = λ u w j f f'. ground (arith, one_writer u w j, writing u j, writing w j);
      one_reader = λ u w j f f'. ground (arith, one_reader u w j, reading u j, reading w j);
      holds = λ j below f. ground (arith, holds j, held j, fresh t, writing t i, reading t i);
      held = λ j below f. ground (arith, held j, holds j, fresh t, writing t i, reading t i);
      balance = λ j. ground (arith, balance j, writing t i, reading t i);
      fresh = λ u. ground (arith, fresh t, restore-IsFresh u (pc u) refl);
    }
