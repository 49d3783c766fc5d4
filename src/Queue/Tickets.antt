-- ===== src/Queue/Tickets.antt =====
-- The invariant of the interleaved queue: who owns which ticket, and what the slots hold. A ticket is
-- the value of `tail` or `head` with which a thread won its compare-exchange.
pub mod Quiet
pub mod WinPush
pub mod Write
pub mod Publish
pub mod WinPop
pub mod Recycle
use zeroipc.Base.{offset, sharing, true, ℕ, ◌+◌, ◌≤◌, ◌<◌, ◌≡◌, ◌⊎◌, Option, none, some}
use zeroipc.Queue.{
  Queue, Pc, slot, push_check, push_claim, push_write, push_publish, pop_check, pop_claim, pop_read,
  pop_recycle,
}

module _ {A : Type 0} where
  -- The ticket of a push that has won and not yet published.
  abbrev pub push_ticket : Pc A → Option ℕ
  push_ticket (push_write v t) = some t
  push_ticket (push_publish t) = some t
  push_ticket p = none

  -- The ticket of a pop that has won and not yet recycled its slot.
  abbrev pub pop_ticket : Pc A → Option ℕ
  pop_ticket (pop_read h) = some h
  pop_ticket (pop_recycle h v) = some h
  pop_ticket p = none

-- `log` and `n` are the ghost record of a `System`: the values of the pushes that have won, and their
-- number.
module _ {A : Type 0} (q : Queue A) (log : ℕ → A) (n : ℕ) where
  -- What the locals of a thread say about shared memory.
  abbrev pub IsFresh : Pc A → Type 0
  IsFresh (push_check v t) = t ≤ n
  IsFresh (push_claim v t) =
      (t ≤ n) × (t ≡ n → (q.seq (slot q.capacity t) ≡ t) × (n < q.head + q.capacity))
  IsFresh (push_write v t) = log t ≡ v
  IsFresh (push_publish t) =
      (sharing q.capacity q.elem_size ≡ true)
      ⊎ (q.buf (offset q.elem_size (slot q.capacity t)) ≡ log t)
  IsFresh (pop_check h) = h ≤ q.head
  IsFresh (pop_claim h) =
      (h ≤ q.head) × (h ≡ q.head → (q.seq (slot q.capacity h) ≡ h + 1) × (h < n))
  IsFresh (pop_recycle h v) = (sharing q.capacity q.elem_size ≡ true) ⊎ (log h ≡ v)
  IsFresh p = Unit

  -- The part that speaks of shared memory alone.
  pub record Shared : Type 0 where
    pub cap_in : 2 ≤ q.capacity
    pub tail_eq : q.tail ≡ n
    pub head_in : q.head ≤ n
    pub room : n ≤ q.head + q.capacity
    -- The tickets not yet popped: being written, or published with their value.
    pub stored :
        (t : ℕ)
        → q.head ≤ t
        → t < n
        → (q.seq (slot q.capacity t) ≡ t)
          ⊎ ((q.seq (slot q.capacity t) ≡ t + 1)
              × ((sharing q.capacity q.elem_size ≡ true)
                  ⊎ (q.buf (offset q.elem_size (slot q.capacity t)) ≡ log t)))
    -- The tickets of the next pushes: their slot is free, or still read by a pop one round before.
    pub awaited :
        (t : ℕ)
        → n ≤ t
        → t < q.head + q.capacity
        → (q.seq (slot q.capacity t) ≡ t) ⊎ (q.seq (slot q.capacity t) + q.capacity ≡ t + 1)

  pub record Pushing (t : ℕ) : Type 0 where
    pub after_head : q.head ≤ t
    pub claimed : t < n
    pub unpublished : q.seq (slot q.capacity t) ≡ t

  pub record Popping (h : ℕ) : Type 0 where
    pub before_head : h < q.head
    pub recent : n ≤ h + q.capacity
    pub unrecycled : q.seq (slot q.capacity h) ≡ h + 1
    pub holds :
        (sharing q.capacity q.elem_size ≡ true)
        ⊎ (q.buf (offset q.elem_size (slot q.capacity h)) ≡ log h)

  pub record Inv (pc : ℕ → Pc A) : Type 0 where
    pub shared : Shared
    pub pushing : (i t : ℕ) → push_ticket (pc i) ≡ some t → Pushing t
    pub popping : (i h : ℕ) → pop_ticket (pc i) ≡ some h → Popping h
    pub one_push : (i j t : ℕ) → push_ticket (pc i) ≡ some t → push_ticket (pc j) ≡ some t → i ≡ j
    pub one_pop : (i j h : ℕ) → pop_ticket (pc i) ≡ some h → pop_ticket (pc j) ≡ some h → i ≡ j
    pub fresh : (i : ℕ) → IsFresh (pc i)
