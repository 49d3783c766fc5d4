-- ===== src/Stack/Slots/Safety.antt =====
-- Every reachable state of the interleaved stack satisfies the invariant, and what that means for its
-- users: exclusive slots, no element lost or handed out twice.
use zeroipc.Base.{
  sharing-false, ◌*◌, ◌∙◌, Bool, inr, ℕ, ◌+◌, ◌^◌, ◌≤◌, ◌<◌, ◌≡◌, ◌≢◌, ◌⊎◌, some, false, refl,
  arith, ◌==◌, if◌then◌else◌,
}
use zeroipc.Stack.{
  Pc, step, push_reserve, push_mark, push_undo, pop_reserve, pop_mark, pop_undo, top_mark, idle,
  push_load, pop_load, top_load, pop_release, top_restore, slot_empty,
}
use zeroipc.Stack.System.{
  access, System, Step, Reach, call_push, call_pop, call_top, run, back, fresh, here, next,
}
use zeroipc.Stack.Slots.{write_slot, read_slot}
use zeroipc.Stack.Slots.Access.{IsSafe, access-IsSafe, place-IsSafe}

module _ {A : Type 0} where
  -- Every step of the interleaved stack keeps the invariant.
  pub Step-IsSafe : {s t : System A} → Step s t → IsSafe s → IsSafe t
  Step-IsSafe (call_push t v e) inv = place-IsSafe inv false t (push_load v) tt refl refl
  Step-IsSafe (call_pop t e) inv = place-IsSafe inv false t pop_load tt refl refl
  Step-IsSafe (call_top t e) inv = place-IsSafe inv false t (top_load 0) tt refl refl
  Step-IsSafe {s} (run lost t) inv = access-IsSafe inv lost t (s.pc t) refl
  Step-IsSafe (back t r) inv = place-IsSafe inv false t idle tt refl refl

  access-sizes :
      (lost : Bool) (t : ℕ) (p : Pc A) (s : System A)
      → ((access lost t p s).stack.capacity ≡ s.stack.capacity)
        × ((access lost t p s).stack.elem_size ≡ s.stack.elem_size)
  unfolding access step
  access-sizes lost t (push_reserve v c) s = ground arith
  access-sizes lost t (push_mark v i k) s = ground arith
  access-sizes lost t (push_undo i) s = ground arith
  access-sizes lost t (pop_reserve c) s = ground arith
  access-sizes lost t (pop_mark i k) s = ground arith
  access-sizes lost t (pop_undo i) s = ground arith
  access-sizes lost t (top_mark i k) s = ground arith
  access-sizes lost t p s = (refl, refl)

  Step-sizes :
      {s t : System A}
      → Step s t
      → (t.stack.capacity ≡ s.stack.capacity) × (t.stack.elem_size ≡ s.stack.elem_size)
  Step-sizes {s} (run lost t) = access-sizes lost t (s.pc t) s
  Step-sizes st = (refl, refl)

  pub Reach-sizes :
      {a s : System A}
      → Reach a s
      → (s.stack.capacity ≡ a.stack.capacity) × (s.stack.elem_size ≡ a.stack.elem_size)
  Reach-sizes here = (refl, refl)
  Reach-sizes (next r st) =
      let (c, e) = Step-sizes st in let (d, f) = Reach-sizes r in (c ∙ d, e ∙ f)

  fresh-IsSafe :
      (capacity elem_size : ℕ) (buf : ℕ → A)
      → 0 < capacity
      → capacity ≤ 2 ^ 31
      → IsSafe (fresh capacity elem_size buf)
  unfolding fresh
  fresh-IsSafe capacity elem_size buf nz sm = record {
    small = sm;
    nonzero = nz;
    top_in = refl;
    writing = λ t i e. cc;
    reading = λ t i e. cc;
    one_writer = λ t u i e f. cc;
    one_reader = λ t u i e f. cc;
    holds = λ i lt e. inr refl;
    held = λ i lt e. inr refl;
    balance = λ i. refl;
    fresh = λ t. tt;
  }

  Reach-IsSafe : {a s : System A} → IsSafe a → Reach a s → IsSafe s
  Reach-IsSafe inv here = inv
  Reach-IsSafe inv (next r st) = Step-IsSafe st (Reach-IsSafe inv r)

-- In every state that the threads can reach from a new stack.
module _ {A : Type 0} (capacity elem_size : ℕ) (buf : ℕ → A) (nz : 0 < capacity)
    (sm : capacity ≤ 2 ^ 31) {s : System A} (reach : Reach (fresh capacity elem_size buf) s) where
  safe : IsSafe s
  safe = Reach-IsSafe (fresh-IsSafe capacity elem_size buf nz sm) reach

  sizes_eq : (s.stack.capacity ≡ capacity) × (s.stack.elem_size ≡ elem_size)
  unfolding fresh
  sizes_eq = Reach-sizes reach

  -- In every state that the threads reach from a new stack of capacity between 1 and 2 ^ 31, no
  -- two threads are inside one slot: a push between marking and publishing it, a pop between
  -- marking and releasing it, and a peek between marking and restoring it, have the slot for
  -- themselves.
  pub exclusive_access :
      (t u i j : ℕ)
      → t ≢ u
      → (write_slot (s.pc t) ≡ some i) ⊎ (read_slot (s.pc t) ≡ some i)
      → (write_slot (s.pc u) ≡ some j) ⊎ (read_slot (s.pc u) ≡ some j)
      → i ≢ j
  exclusive_access t u i j ne a b = ground (
    arith,
    safe.writing t i,
    safe.writing u j,
    safe.reading t i,
    safe.reading u j,
    safe.one_writer t u i,
    safe.one_reader t u i,
  )

  -- In every state that the threads reach from a new stack of capacity between 1 and 2 ^ 31, whose
  -- elements have at least one byte and all together at most 2 ^ 32, a pop or a peek that has read a
  -- slot of the arrays holds the value of the push that marked this slot
  -- last, and this push is not matched by a release of the slot yet.
  pub reads_pushed :
      (t i : ℕ) (v : A)
      → (s.pc t ≡ pop_release i v) ⊎ (s.pc t ≡ top_restore i v)
      → 0 < elem_size
      → capacity * elem_size ≤ 2 ^ 32
      → (i < s.stack.capacity)
        × (v ≡ s.ghost.written i)
        × (s.ghost.marks i ≡ s.ghost.releases i + 1)
  reads_pushed t i v e item fits = ground (
    arith,
    safe.fresh t,
    safe.reading t i,
    safe.balance i,
    sizes_eq,
    sharing-false s.stack.capacity s.stack.elem_size,
  )

  -- In every state that the threads reach from a new stack of capacity between 1 and 2 ^ 31, each
  -- slot has been released by pops as often as it has been marked by pushes, or once less, namely
  -- while it is not empty.
  pub slots_balance :
      (i : ℕ)
      → s.ghost.marks i ≡ s.ghost.releases i + (if s.stack.state i == slot_empty then 0 else 1)
  slots_balance i = safe.balance i
