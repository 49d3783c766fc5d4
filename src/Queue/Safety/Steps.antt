-- ===== src/Queue/Safety/Steps.antt =====
-- The invariant of Queue/Tickets holds in every state that the threads reach from a new queue, as long
-- as fewer than 2 ^ 32 - capacity - 1 pushes have won.
use zeroipc.Base.{ℕ, ◌≤◌, ◌≡◌, inl, refl, ◌∙◌, arith}
use zeroipc.Queue.{slot, idle, push_load, pop_load}
use zeroipc.Queue.System.{System, Step, Reach, fresh, here, next, call_push, call_pop, run, back}
use zeroipc.Queue.Tickets.Quiet.{quiet-Inv}
use zeroipc.Queue.Safety.Accesses.{
  IsSafe, IsSmall, access-IsSafe, access-claims, access-capacity, access-elem_size,
}

module _ {A : Type 0} where
  Step-capacity : {s t : System A} → Step s t → t.queue.capacity ≡ s.queue.capacity
  Step-capacity (call_push i v e) = refl
  Step-capacity (call_pop i e) = refl
  Step-capacity {s} (run lost i) = access-capacity lost i (s.pc i) s
  Step-capacity (back i r) = refl

  Step-claims : {s t : System A} → Step s t → s.claims ≤ t.claims
  Step-claims (call_push i v e) = omega arith
  Step-claims (call_pop i e) = omega arith
  Step-claims {s} (run lost i) = access-claims lost i (s.pc i) s
  Step-claims (back i r) = omega arith

  -- Every step of the interleaved queue keeps the invariant, as long as no counter wraps.
  pub Step-IsSafe : {s t : System A} → Step s t → IsSmall s → IsSafe s → IsSafe t
  Step-IsSafe (call_push i v e) small inv = quiet-Inv inv i (push_load v) (λ t f. cc) (λ h f. cc) tt
  Step-IsSafe (call_pop i e) small inv = quiet-Inv inv i pop_load (λ t f. cc) (λ h f. cc) tt
  Step-IsSafe {s} (run lost i) small inv = access-IsSafe inv small lost i (s.pc i) refl
  Step-IsSafe (back i r) small inv = quiet-Inv inv i idle (λ t f. cc) (λ h f. cc) tt

  pub fresh-IsSafe :
      (capacity elem_size : ℕ) (buf log : ℕ → A)
      → 2 ≤ capacity
      → IsSafe (fresh capacity elem_size buf log)
  unfolding fresh slot
  fresh-IsSafe capacity elem_size buf log two = record {
    shared = record {
      cap_in = two;
      tail_eq = refl;
      head_in = omega arith;
      room = omega arith;
      stored = λ t lo hi. absurd (omega arith);
      awaited = λ t lo hi. inl (grind arith);
    };
    pushing = λ i t e. cc;
    popping = λ i h e. cc;
    one_push = λ i j t e f. cc;
    one_pop = λ i j h e f. cc;
    fresh = λ i. tt;
  }

  pub Reach-capacity : {a s : System A} → Reach a s → s.queue.capacity ≡ a.queue.capacity
  Reach-capacity here = refl
  Reach-capacity (next r st) = Step-capacity st ∙ Reach-capacity r

  Step-elem_size : {s t : System A} → Step s t → t.queue.elem_size ≡ s.queue.elem_size
  Step-elem_size (call_push i v e) = refl
  Step-elem_size (call_pop i e) = refl
  Step-elem_size {s} (run lost i) = access-elem_size lost i (s.pc i) s
  Step-elem_size (back i r) = refl

  pub Reach-elem_size : {a s : System A} → Reach a s → s.queue.elem_size ≡ a.queue.elem_size
  Reach-elem_size here = refl
  Reach-elem_size (next r st) = Step-elem_size st ∙ Reach-elem_size r

  pub Reach-claims : {a s : System A} → Reach a s → a.claims ≤ s.claims
  Reach-claims here = omega arith
  Reach-claims (next r st) = omega (arith, Reach-claims r, Step-claims st)

  IsSmall-before : {s t : System A} → Step s t → IsSmall t → IsSmall s
  IsSmall-before st small = omega (arith, Step-claims st, Step-capacity st)

  pub Reach-IsSafe : {a s : System A} → IsSafe a → Reach a s → IsSmall s → IsSafe s
  Reach-IsSafe inv here small = inv
  Reach-IsSafe inv (next r st) small =
      Step-IsSafe st (IsSmall-before st small) (Reach-IsSafe inv r (IsSmall-before st small))
