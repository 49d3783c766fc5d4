-- ===== src/Queue/Alone.antt =====
-- A thread that has the queue for itself: its call runs to its return, and the queue is a bounded FIFO,
-- through any number of wraps of the counters.
pub mod Holds
pub mod Fifo
use zeroipc.Base.{ℕ, zero, suc, Bool, true, false, Option, none, some, List, [], ◌∷◌}
use zeroipc.Queue.{Queue, Pc, step, push_load, pop_load, pushed, full, popped, empty}

-- A call makes at most five accesses before its return is seen.
abbrev pub accesses : ℕ
accesses = 6

module _ {A : Type 0} where
  unfoldable pub returned : Pc A → Bool
  returned pushed = true
  returned full = true
  returned (popped v) = true
  returned empty = true
  returned p = false

  -- The accesses of one thread from `p` to its return; `none` if that takes more than the fuel.
  unfoldable pub run_alone : ℕ → Queue A → Pc A → Option (Queue A × Pc A)
  unfolding returned step
  run_alone zero q p = none
  run_alone (suc fuel) q p = elim (returned p) [
    | true ↦ some (q, p)
    | false ↦ let (q', p') = step false q p in run_alone fuel q' p'
  ]

  unfoldable pub push_alone : Queue A → A → Option (Queue A × Pc A)
  unfolding run_alone
  push_alone q v = run_alone accesses q (push_load v)

  unfoldable pub pop_alone : Queue A → Option (Queue A × Pc A)
  unfolding run_alone
  pop_alone q = run_alone accesses q pop_load
