-- ===== src/Queue/Safety/Accesses.antt =====
-- Each access of a thread keeps the invariant.
use zeroipc.Base.{
  offset, ℕ, ◌+◌, ◌^◌, ◌≤◌, ◌<◌, ◌≡◌, inl, inr, Bool, refl, ◌∙◌, ap, arith, update, ◌==◌, u32, not,
  ◌&&◌, Bool-cases,
}
use zeroipc.Queue.{
  Pc, push_branch, pop_branch, slot, step, sign_of_diff, idle, push_load, push_check, push_claim,
  push_write, push_publish, pop_load, pop_check, pop_claim, pop_read, pop_recycle, pushed, full,
  popped, empty, zero, negative, positive, Sign,
}
use zeroipc.Queue.Slots.{slot_round, sign_of_diff-zero}
use zeroipc.Queue.System.{System, access}
use zeroipc.Queue.Tickets.{Inv, pop_ticket}
use zeroipc.Queue.Tickets.Quiet.{quiet-Inv}
use zeroipc.Queue.Tickets.WinPush.{win_push-Inv}
use zeroipc.Queue.Tickets.Write.{write-Inv}
use zeroipc.Queue.Tickets.Publish.{publish-Inv}
use zeroipc.Queue.Tickets.WinPop.{win_pop-Inv}
use zeroipc.Queue.Tickets.Recycle.{recycle-Inv}

module _ {A : Type 0} where
  abbrev pub IsSafe : System A → Type 0
  IsSafe s = Inv s.queue s.log s.claims s.pc

  -- The next access cannot wrap a counter.
  abbrev pub IsSmall : System A → Type 0
  IsSmall s = s.claims + s.queue.capacity + 1 < 2 ^ 32

  pub access-capacity :
      (lost : Bool) (i : ℕ) (p : Pc A) (s : System A)
      → (access lost i p s).queue.capacity ≡ s.queue.capacity
  unfolding access step
  access-capacity lost i (push_claim v t) s = ground arith
  access-capacity lost i (pop_claim h) s = ground arith
  access-capacity lost i p s = refl

  pub access-elem_size :
      (lost : Bool) (i : ℕ) (p : Pc A) (s : System A)
      → (access lost i p s).queue.elem_size ≡ s.queue.elem_size
  unfolding access step
  access-elem_size lost i (push_claim v t) s = ground arith
  access-elem_size lost i (pop_claim h) s = ground arith
  access-elem_size lost i p s = refl

  pub access-claims :
      (lost : Bool) (i : ℕ) (p : Pc A) (s : System A) → s.claims ≤ (access lost i p s).claims
  unfolding access step
  access-claims lost i (push_check v t) s = ground arith
  access-claims lost i (push_claim v t) s = ground arith
  access-claims lost i p s = omega arith

module _ {A : Type 0} {s : System A} (inv : IsSafe s) (small : IsSmall s) where
  open inv use {shared, fresh}
  open shared use {cap_in, tail_eq, head_in, room, stored, awaited}

  abbrev cap : ℕ
  cap = s.queue.capacity

  -- A slot that matches the counter of the next push is free.
  next_push_free :
      sign_of_diff (s.queue.seq (slot cap s.claims)) s.claims ≡ zero
      → (s.queue.seq (slot cap s.claims) ≡ s.claims) × (s.claims < s.queue.head + cap)
  next_push_free h = ground (
    arith,
    awaited s.claims,
    stored s.queue.head,
    slot_round cap s.queue.head,
    sign_of_diff-zero (s.queue.seq (slot cap s.claims)) s.claims,
  )

  -- A slot that matches the counter of the next pop is published.
  next_pop_ready :
      sign_of_diff (s.queue.seq (slot cap s.queue.head)) (u32 (s.queue.head + 1)) ≡ zero
      → (s.queue.seq (slot cap s.queue.head) ≡ s.queue.head + 1) × (s.queue.head < s.claims)
  next_pop_ready h = ground (
    arith,
    awaited s.queue.head,
    stored s.queue.head,
    sign_of_diff-zero (s.queue.seq (slot cap s.queue.head)) (u32 (s.queue.head + 1)),
  )

  push_branch-IsSafe :
      (i : ℕ) (v : A) (t : ℕ)
      → t ≤ s.claims
      → (g : Sign) → sign_of_diff (s.queue.seq (slot cap t)) t ≡ g
      → Inv s.queue s.log s.claims (update s.pc i (push_branch v t g))
  push_branch-IsSafe i v t le zero e =
      quiet-Inv inv i (push_claim v t) (λ u f. cc) (λ h f. cc)
        (le, λ last. ground (arith, next_push_free))
  push_branch-IsSafe i v t le negative e = quiet-Inv inv i full (λ u f. cc) (λ h f. cc) tt
  push_branch-IsSafe i v t le positive e = quiet-Inv inv i (push_load v) (λ u f. cc) (λ h f. cc) tt

  pop_branch-IsSafe :
      (i h : ℕ)
      → h ≤ s.queue.head
      → (g : Sign) → sign_of_diff (s.queue.seq (slot cap h)) (u32 (h + 1)) ≡ g
      → Inv s.queue s.log s.claims (update s.pc i (pop_branch h g))
  pop_branch-IsSafe i h le zero e =
      quiet-Inv inv i (pop_claim h) (λ u f. cc) (λ k f. cc)
        (le, λ last. ground (arith, next_pop_ready))
  pop_branch-IsSafe i h le negative e = quiet-Inv inv i empty (λ u f. cc) (λ k f. cc) tt
  pop_branch-IsSafe i h le positive e = quiet-Inv inv i pop_load (λ u f. cc) (λ k f. cc) tt

  push_claim-IsSafe :
      (lost : Bool) (i : ℕ) (v : A) (t : ℕ)
      → s.pc i ≡ push_claim v t
      → IsSafe (access lost i (push_claim v t) s)
  unfolding access step
  push_claim-IsSafe lost i v t e = elim (Bool-cases (not lost && s.queue.tail == t)) [
    | inl wins ↦
        let now : t ≡ s.claims = ground arith in
        rw (wins, now) (win_push-Inv inv small i v (e ∙ ap (push_claim v) now))
    | inr loses ↦ rw loses (quiet-Inv inv i (push_load v) (λ u f. cc) (λ h f. cc) tt)
  ]

  pop_claim-IsSafe :
      (lost : Bool) (i h : ℕ) → s.pc i ≡ pop_claim h → IsSafe (access lost i (pop_claim h) s)
  unfolding access step
  pop_claim-IsSafe lost i h e = elim (Bool-cases (not lost && s.queue.head == h)) [
    | inl wins ↦
        let now : h ≡ s.queue.head = ground arith in
        rw (wins, now) (win_pop-Inv inv small i (e ∙ ap pop_claim now))
    | inr loses ↦ rw loses (quiet-Inv inv i pop_load (λ u f. cc) (λ k f. cc) tt)
  ]

  pub access-IsSafe : (lost : Bool) (i : ℕ) (p : Pc A) → s.pc i ≡ p → IsSafe (access lost i p s)
  unfolding access step
  access-IsSafe lost i idle e = quiet-Inv inv i idle (λ t f. cc) (λ h f. cc) tt
  access-IsSafe lost i (push_load v) e =
      quiet-Inv inv i (push_check v s.queue.tail) (λ t f. cc) (λ h f. cc) (omega arith)
  access-IsSafe lost i (push_check v t) e =
      push_branch-IsSafe i v t (ground (arith, fresh i)) _ refl
  access-IsSafe lost i (push_claim v t) e = push_claim-IsSafe lost i v t e
  access-IsSafe lost i (push_write v t) e = write-Inv inv small i v t e
  access-IsSafe lost i (push_publish t) e = publish-Inv inv small i t e
  access-IsSafe lost i pop_load e =
      quiet-Inv inv i (pop_check s.queue.head) (λ t f. cc) (λ h f. cc) (omega arith)
  access-IsSafe lost i (pop_check h) e = pop_branch-IsSafe i h (ground (arith, fresh i)) _ refl
  access-IsSafe lost i (pop_claim h) e = pop_claim-IsSafe lost i h e
  access-IsSafe lost i (pop_read h) e =
      quiet-Inv inv i (pop_recycle h (s.queue.buf (offset s.queue.elem_size (slot cap h))))
        (λ t f. cc) (λ k f. ap pop_ticket e ∙ f) (ground (arith, inv.popping i h))
  access-IsSafe lost i (pop_recycle h v) e = recycle-Inv inv small i h v e
  access-IsSafe lost i pushed e = quiet-Inv inv i pushed (λ t f. cc) (λ h f. cc) tt
  access-IsSafe lost i full e = quiet-Inv inv i full (λ t f. cc) (λ h f. cc) tt
  access-IsSafe lost i (popped v) e = quiet-Inv inv i (popped v) (λ t f. cc) (λ h f. cc) tt
  access-IsSafe lost i empty e = quiet-Inv inv i empty (λ t f. cc) (λ h f. cc) tt
