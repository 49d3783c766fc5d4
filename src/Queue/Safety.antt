-- ===== src/Queue/Safety.antt =====
-- c/src/queue.c under any interleaving: what producers and consumers may rely on.
pub mod Accesses
pub mod Steps
use zeroipc.Base.{
  ◌*◌, sharing-false, Bool, u32, ℕ, dec_lt, ℕ_discrete, ◌+◌, ◌^◌, ◌≤◌, ◌<◌, ◌≡◌, ◌≢◌, ◌⊎◌, inl, inr,
  refl, arith, some,
}
use zeroipc.Queue.{
  Sign, zero, negative, positive, push_branch, pop_branch, slot, step, sign_of_diff, size,
  push_check, full, empty, pop_recycle, pop_check,
}
use zeroipc.Queue.System.{System, Reach, fresh}
use zeroipc.Queue.Slots.{slot_inj, slot_at, sign_of_diff_ahead, sign_of_diff_self}
use zeroipc.Queue.Tickets.{push_ticket, pop_ticket}
use Accesses.{IsSafe}
use Steps.{Reach-claims, Reach-elem_size, fresh-IsSafe, Reach-capacity, Reach-IsSafe}

full-negative : {A : Type 0} (v : A) (t : ℕ) (g : Sign) → push_branch v t g ≡ full → g ≡ negative
full-negative v t zero e = cc
full-negative v t negative e = refl
full-negative v t positive e = cc

empty-negative : {A : Type 0} (h : ℕ) (g : Sign) → pop_branch {A = A} h g ≡ empty → g ≡ negative
empty-negative h zero e = cc
empty-negative h negative e = refl
empty-negative h positive e = cc

-- In every state that the threads can reach from a new queue, with too few pushes for a counter to
-- wrap.
module _ {A : Type 0} (capacity elem_size : ℕ) (buf log : ℕ → A) (two : 2 ≤ capacity) {s : System A}
    (reach : Reach (fresh capacity elem_size buf log) s)
    (small : s.claims + capacity + 1 < 2 ^ 32) where
  safe : IsSafe s
  unfolding fresh
  safe =
      Reach-IsSafe (fresh-IsSafe capacity elem_size buf log two) reach
        (omega (arith, Reach-capacity reach))

  capacity_eq : s.queue.capacity ≡ capacity
  unfolding fresh
  capacity_eq = Reach-capacity reach

  elem_size_eq : s.queue.elem_size ≡ elem_size
  unfolding fresh
  elem_size_eq = Reach-elem_size reach

  -- From a new queue of capacity at least 2, with too few pushes for a counter to wrap: when
  -- zeroipc_queue_size loads the head in one state and the tail in a later one, it answers the number of
  -- pushes that have won by then less the number of pops that had won before, and that is more than the
  -- capacity at most by the pops that have won in between.
  pub size-le :
      {r : System A}
      → Reach (fresh capacity elem_size buf log) r
      → Reach r s
      → (size r.queue.head s.queue.tail + r.queue.head ≡ s.claims)
        × (size r.queue.head s.queue.tail + r.queue.head ≤ s.queue.head + capacity)
  unfolding size fresh
  size-le {r} first later =
      let more = Reach-claims later in
      let old =
        Reach-IsSafe (fresh-IsSafe capacity elem_size buf log two) first
          (omega (arith, Reach-capacity first, more)) in
      omega (arith, safe.shared, old.shared, more, capacity_eq)

  -- First in, first out. In every state that the threads reach from a new queue of capacity at least 2,
  -- whose elements have at least one byte and all together at most 2 ^ 32, with too few pushes for a
  -- counter to wrap: a pop that has read its slot, with the ticket `h`, holds the value of the push
  -- whose compare-exchange was number `h` to win, and two such pops are one thread or have different
  -- tickets.
  pub fifo :
      (i j h k : ℕ) (v w : A)
      → s.pc i ≡ pop_recycle h v
      → s.pc j ≡ pop_recycle k w
      → 0 < elem_size
      → capacity * elem_size ≤ 2 ^ 32
      → (v ≡ s.log h) × (h < s.claims) × ((i ≡ j) ⊎ (h ≢ k))
  fifo i j h k v w e f item fits = (
    ground (
      arith,
      safe.fresh i,
      capacity_eq,
      elem_size_eq,
      sharing-false s.queue.capacity s.queue.elem_size,
    ),
    ground (arith, safe.popping i h, safe.shared),
    elim (ℕ_discrete h k) [
      | yes same ↦ inl (ground (arith, safe.one_pop i j h))
      | no differ ↦ inr differ
    ],
  )

  -- In every state that the threads reach from a new queue of capacity at least 2, with too few
  -- pushes for a counter to wrap, no two threads are inside one slot: a push between its
  -- compare-exchange and its publishing store, and a pop between its compare-exchange and its
  -- recycling store, have the slot for themselves.
  pub exclusive_slots :
      (i j t u : ℕ)
      → i ≢ j
      → (push_ticket (s.pc i) ≡ some t) ⊎ (pop_ticket (s.pc i) ≡ some t)
      → (push_ticket (s.pc j) ≡ some u) ⊎ (pop_ticket (s.pc j) ≡ some u)
      → slot capacity t ≢ slot capacity u
  exclusive_slots i j t u ne a b = ground (
    arith,
    capacity_eq,
    safe.pushing i t,
    safe.popping i t,
    safe.pushing j u,
    safe.popping j u,
    safe.one_push i j t,
    safe.one_pop i j t,
    slot_inj capacity t u,
    slot_inj capacity u t,
  )

  -- The slot of a ticket that is taken has a sequence number from the ticket on.
  taken_ahead :
      (t : ℕ)
      → t < s.claims
      → (t ≤ s.queue.seq (slot capacity t)) × (s.queue.seq (slot capacity t) ≤ s.claims + capacity)
  taken_ahead t lt =
      let (u, le, room, e) = slot_at capacity s.queue.head t (omega arith) in
      ground (
        arith,
        capacity_eq,
        safe.shared.stored u,
        safe.shared.awaited u,
        safe.shared.room,
        safe.shared.head_in,
        slot_inj capacity u t,
        slot_inj capacity t u,
      )

  stale_not_full :
      (t : ℕ)
      → s.claims + capacity < 2 ^ 31
      → t < s.claims
      → sign_of_diff (s.queue.seq (slot capacity t)) t ≢ negative
  stale_not_full t few stale =
      let (lo, hi) = taken_ahead t stale in sign_of_diff_ahead _ t lo (omega arith) (omega arith)

  -- In every state that the threads reach from a new queue of capacity at least 2, with fewer than
  -- 2 ^ 31 - capacity pushes won: a push whose next access tells it that the queue is full holds
  -- the current tail, and either `capacity` elements are in the queue or the pop of the oldest one
  -- has not yet recycled the slot.
  pub full_means :
      (lost : Bool) (i t : ℕ) (v : A)
      → s.claims + capacity < 2 ^ 31
      → s.pc i ≡ push_check v t
      → (step lost s.queue (push_check v t)).1 ≡ full
      → (t ≡ s.claims)
        × ((s.claims ≡ s.queue.head + capacity)
            ⊎ (s.queue.seq (slot capacity t) + capacity ≡ t + 1))
  unfolding step
  full_means lost i t v few e f = elim (dec_lt t s.claims) [
    | yes stale ↦ absurd (stale_not_full t few stale fails)
    | no now ↦ ground (
      arith,
      capacity_eq,
      safe.fresh i,
      safe.shared.awaited t,
      safe.shared.room,
      fails,
      sign_of_diff_self t,
    )
  ]
    where
      fails : sign_of_diff (s.queue.seq (slot capacity t)) t ≡ negative
      fails = rw (← capacity_eq) (full-negative v t _ f)

  -- The slot of a ticket that is popped has a sequence number behind the ticket.
  popped_ahead :
      (h : ℕ)
      → h < s.queue.head
      → (h + 1 ≤ s.queue.seq (slot capacity h))
        × (s.queue.seq (slot capacity h) ≤ s.claims + capacity)
  popped_ahead h lt =
      let (u, le, room, e) = slot_at capacity s.queue.head h (omega arith) in
      ground (
        arith,
        capacity_eq,
        safe.shared.stored u,
        safe.shared.awaited u,
        safe.shared.room,
        safe.shared.head_in,
        slot_inj capacity h u,
      )

  stale_not_empty :
      (h : ℕ)
      → s.claims + capacity < 2 ^ 31
      → h < s.queue.head
      → sign_of_diff (s.queue.seq (slot capacity h)) (u32 (h + 1)) ≢ negative
  stale_not_empty h few stale =
      let (lo, hi) = popped_ahead h stale in
      sign_of_diff_ahead _ (u32 (h + 1)) (omega (arith, safe.shared)) (omega (arith, safe.shared))
        (omega arith)

  -- In every state that the threads reach from a new queue of capacity at least 2, with fewer than
  -- 2 ^ 31 - capacity pushes won: a pop whose next access tells it that the queue is empty holds
  -- the current head, and either no element is in the queue or the push of the oldest one has not
  -- yet published the slot.
  pub empty_means :
      (lost : Bool) (i h : ℕ)
      → s.claims + capacity < 2 ^ 31
      → s.pc i ≡ pop_check h
      → (step lost s.queue (pop_check h)).1 ≡ empty
      → (h ≡ s.queue.head) × ((s.claims ≡ s.queue.head) ⊎ (s.queue.seq (slot capacity h) ≡ h))
  unfolding step
  empty_means lost i h few e f = elim (dec_lt h s.queue.head) [
    | yes stale ↦ absurd (stale_not_empty h few stale fails)
    | no now ↦ ground (
      arith,
      capacity_eq,
      safe.fresh i,
      safe.shared.stored h,
      safe.shared.head_in,
      fails,
      sign_of_diff_self (h + 1),
    )
  ]
    where
      fails : sign_of_diff (s.queue.seq (slot capacity h)) (u32 (h + 1)) ≡ negative
      fails = rw (← capacity_eq) (empty-negative h _ f)
