-- ===== src/Stack/Slots/Access.antt =====
-- Each access of a thread keeps the invariant of the stack.
use zeroipc.Base.{
  offset, ℕ, ◌+◌, ◌-◌, ◌^◌, ◌≤◌, ◌<◌, ◌≡◌, inl, inr, none, Bool, false, refl, ◌∙◌, ap, arith,
  update, ◌==◌, ℤ, pos, negsuc, pos_part, ◌+ℤ◌, ◌-ℤ◌, ltb_ℤ, eq_ℤ, leb_ℤ, Bool-cases, not, ◌&&◌,
  ltb,
}
use zeroipc.Stack.{
  Pc, step, last_index, idle, push_load, pop_load, top_load, push_write, push_publish, push_reserve,
  push_mark, push_undo, pop_reserve, pop_mark, pop_undo, pop_read, pop_release, top_mark, top_read,
  top_restore, pushed, popped, topped, full, empty, top_gave_up, timeout, slot_ready, slot_empty,
  max_spins,
}
use zeroipc.Stack.System.{System, access}
use zeroipc.Stack.Slots.{Inv, IsFresh, IsTop, write_slot, read_slot}
use zeroipc.Stack.Slots.Marks.{
  place-Inv, mark-Inv, write-Inv, publish-Inv, mark_pop-Inv, mark_top-Inv, release-Inv, restore-Inv,
}

pub last_index_lem : (c : ℕ) → 0 < c → c ≤ 2 ^ 31 → last_index c ≡ pos (c - 1)
unfolding last_index
last_index_lem c lo hi = ground arith

IsTop-up :
    (c : ℕ) (t : ℤ)
    → 0 < c
    → c ≤ 2 ^ 31
    → IsTop c t
    → leb_ℤ (last_index c) t ≡ false
    → IsTop c (t +ℤ pos 1)
IsTop-up c (pos i) lo hi q f = ground (arith, last_index_lem c lo hi)
IsTop-up c (negsuc k) lo hi q f = ground (arith, last_index_lem c lo hi)

IsTop-down : (c : ℕ) (t : ℤ) → IsTop c t → ltb_ℤ t (pos 0) ≡ false → IsTop c (t -ℤ pos 1)
IsTop-down c (pos i) q f = ground arith
IsTop-down c (negsuc k) q f = ground arith

IsTop-slot : (c : ℕ) (t : ℤ) → IsTop c t → ltb_ℤ t (pos 0) ≡ false → pos_part t < c
IsTop-slot c (pos i) q f = q
IsTop-slot c (negsuc k) q f = ground arith

IsTop-next : (c : ℕ) (t : ℤ) → IsTop c t → IsTop c (t +ℤ pos 1) → pos_part (t +ℤ pos 1) < c
IsTop-next c (pos i) p q = ground arith
IsTop-next c (negsuc k) p q = ground arith

abbrev pub IsSafe : {A : Type 0} → System A → Type 0
IsSafe s = Inv s.stack s.ghost s.pc

module _ {A : Type 0} {s : System A} (inv : IsSafe s) (lost : Bool) (t : ℕ) where
  open inv use {small, nonzero, top_in, fresh}

  -- A place outside the slots, with the memory as it was.
  place :
      (p : Pc A)
      → IsFresh s.stack s.ghost p
      → write_slot p ≡ none
      → read_slot p ≡ none
      → Inv s.stack s.ghost (update s.pc t p)
  place p f nw nr = place-Inv inv t s.stack.top p top_in f (λ i e. cc) (λ i e. cc)

  pub access-IsSafe : (p : Pc A) → s.pc t ≡ p → IsSafe (access lost t p s)
  unfolding access step
  access-IsSafe (push_load v) e =
      elim (Bool-cases (leb_ℤ (last_index s.stack.capacity) s.stack.top)) [
        | inl f ↦ rw f (place full tt refl refl)
        | inr f ↦ rw f (
            place (push_reserve v s.stack.top)
              (top_in, IsTop-up s.stack.capacity s.stack.top nonzero small top_in f) refl refl)
      ]
  access-IsSafe (push_reserve v c) e = elim (Bool-cases (not lost && eq_ℤ s.stack.top c)) [
    | inl f ↦ rw f (
        place-Inv inv t (c +ℤ pos 1) (push_mark v (pos_part (c +ℤ pos 1)) 0)
          (ground (arith, fresh t))
          (IsTop-next s.stack.capacity c (ground (arith, fresh t)) (ground (arith, fresh t)))
          (λ i g. cc) (λ i g. cc))
    | inr f ↦ rw f (place (push_load v) tt refl refl)
  ]
  access-IsSafe (push_mark v i k) e =
      elim (Bool-cases (not lost && s.stack.state i == slot_empty)) [
        | inl f ↦ rw f (mark-Inv inv t v i k e (ground arith))
        | inr f ↦ rw f (elim (Bool-cases (ltb (k + 1) max_spins)) [
          | inl g ↦ rw g (place (push_mark v i (k + 1)) (ground (arith, fresh t)) refl refl)
          | inr g ↦ rw g (place (push_undo i) (ground (arith, fresh t)) refl refl)
        ])
      ]
  access-IsSafe (push_undo i) e = elim (Bool-cases (eq_ℤ s.stack.top (pos i))) [
    | inl f ↦ rw f (
        place-Inv inv t (pos i -ℤ pos 1) timeout (ground (arith, fresh t)) tt (λ i e. cc)
          (λ i e. cc))
    | inr f ↦ rw f (place timeout tt refl refl)
  ]
  access-IsSafe (push_write v i) e = write-Inv inv t v i e
  access-IsSafe (push_publish i) e = publish-Inv inv t i e
  access-IsSafe pop_load e = elim (Bool-cases (ltb_ℤ s.stack.top (pos 0))) [
    | inl f ↦ rw f (place empty tt refl refl)
    | inr f ↦ rw f (place (pop_reserve s.stack.top) (top_in, f) refl refl)
  ]
  access-IsSafe (pop_reserve c) e = elim (Bool-cases (not lost && eq_ℤ s.stack.top c)) [
    | inl f ↦
        let known : IsTop s.stack.capacity c × (ltb_ℤ c (pos 0) ≡ false) =
          ground (arith, fresh t) in
        rw f (
          place-Inv inv t (c -ℤ pos 1) (pop_mark (pos_part c) 0)
            (IsTop-down s.stack.capacity c known.0 known.1)
            (IsTop-slot s.stack.capacity c known.0 known.1) (λ i g. cc) (λ i g. cc))
    | inr f ↦ rw f (place pop_load tt refl refl)
  ]
  access-IsSafe (pop_mark i k) e = elim (Bool-cases (not lost && s.stack.state i == slot_ready)) [
    | inl f ↦ rw f (mark_pop-Inv inv t i k e (ground arith))
    | inr f ↦ rw f (elim (Bool-cases (ltb (k + 1) max_spins)) [
      | inl g ↦ rw g (place (pop_mark i (k + 1)) (ground (arith, fresh t)) refl refl)
      | inr g ↦ rw g (place (pop_undo i) (ground (arith, fresh t)) refl refl)
    ])
  ]
  access-IsSafe (pop_undo i) e = elim (Bool-cases (eq_ℤ s.stack.top (pos i -ℤ pos 1))) [
    | inl f ↦
        rw f (place-Inv inv t (pos i) timeout (ground (arith, fresh t)) tt (λ j g. cc) (λ j g. cc))
    | inr f ↦ rw f (place timeout tt refl refl)
  ]
  access-IsSafe (pop_read i) e =
      place-Inv inv t s.stack.top (pop_release i (s.stack.buf (offset s.stack.elem_size i))) top_in
        (ground (arith, fresh t, inv.reading t i, inv.held i)) (λ j g. cc)
        (λ j g. ap read_slot e ∙ g)
  access-IsSafe (pop_release i v) e = release-Inv inv t i v e
  access-IsSafe (top_load k) e = elim (Bool-cases (ltb_ℤ s.stack.top (pos 0))) [
    | inl f ↦ rw f (place empty tt refl refl)
    | inr f ↦ rw f (
        place (top_mark (pos_part s.stack.top) k) (IsTop-slot s.stack.capacity s.stack.top top_in f)
          refl refl)
  ]
  access-IsSafe (top_mark i k) e = elim (Bool-cases (s.stack.state i == slot_ready)) [
    | inl f ↦ rw f (mark_top-Inv inv t i k e (ground arith))
    | inr f ↦ rw f (elim (Bool-cases (ltb (k + 1) max_spins)) [
      | inl g ↦ rw g (place (top_load (k + 1)) tt refl refl)
      | inr g ↦ rw g (place top_gave_up tt refl refl)
    ])
  ]
  access-IsSafe (top_read i) e =
      place-Inv inv t s.stack.top (top_restore i (s.stack.buf (offset s.stack.elem_size i))) top_in
        (ground (arith, fresh t, inv.reading t i, inv.held i)) (λ j g. cc)
        (λ j g. ap read_slot e ∙ g)
  access-IsSafe (top_restore i v) e = restore-Inv inv t i v e
  access-IsSafe idle e = place idle tt refl refl
  access-IsSafe pushed e = place pushed tt refl refl
  access-IsSafe full e = place full tt refl refl
  access-IsSafe (popped v) e = place (popped v) tt refl refl
  access-IsSafe (topped v) e = place (topped v) tt refl refl
  access-IsSafe empty e = place empty tt refl refl
  access-IsSafe top_gave_up e = place top_gave_up tt refl refl
  access-IsSafe timeout e = place timeout tt refl refl

  pub place-IsSafe :
      (p : Pc A)
      → IsFresh s.stack s.ghost p
      → write_slot p ≡ none
      → read_slot p ≡ none
      → IsSafe (record s { pc = update s.pc t p })
  place-IsSafe p f nw nr = place p f nw nr
