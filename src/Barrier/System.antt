-- ===== src/Barrier/System.antt =====
-- The participants of one barrier, interleaved access by access.
use zeroipc.Base.{ℕ, ◌+◌, ◌<◌, ◌≡◌, Bool, true, false, update, ℤ, pos, if◌then◌else◌}
use zeroipc.Barrier.{
  Barrier, Pc, step, idle, load_generation, arrive, release, passed, timed_out, enter_wait_timeout,
}

-- `arrivals` and `rounds` are not in the program: how often each participant has arrived, and how
-- often the generation has been incremented, without the wrap.
pub record System : Type 0 where
  pub barrier : Barrier
  pub pc : ℕ → Pc
  pub arrivals : ℕ → ℕ
  pub rounds : ℕ

unfoldable pub arrives : Pc → Bool
arrives (arrive timed my) = true
arrives p = false

unfoldable pub releases : Pc → Bool
releases release = true
releases p = false

unfoldable pub access : Bool → ℕ → Pc → System → System
unfolding arrives releases
access late i p s =
    let (b, p') = step late s.barrier p in
    record {
      barrier = b;
      pc = update s.pc i p';
      arrivals = if arrives p then update s.arrivals i (s.arrivals i + 1) else s.arrivals;
      rounds = if releases p then s.rounds + 1 else s.rounds;
    }

abbrev pub IsReturn : Pc → Type 0
IsReturn passed = Unit
IsReturn timed_out = Unit
IsReturn p = ⊥

-- The participants are the threads below `n`. With `timed` false none of them gives a timeout.
pub data Step (n : ℕ) (timed : Bool) (s : System) : System → Type 0 where
  call_wait :
      (i : ℕ)
      → i < n
      → s.pc i ≡ idle
      → Step n timed s (record s { pc = update s.pc i (load_generation false) })
  call_wait_timeout :
      (i : ℕ) (timeout : ℤ)
      → i < n
      → timed ≡ true
      → s.pc i ≡ idle
      → Step n timed s (record s { pc = update s.pc i (enter_wait_timeout timeout) })
  run : (late : Bool) (i : ℕ) → i < n → Step n timed s (access late i (s.pc i) s)
  back : (i : ℕ) → i < n → IsReturn (s.pc i) → Step n timed s (record s { pc = update s.pc i idle })

-- A barrier as zeroipc_barrier_create leaves it, and no participant in a call.
unfoldable pub fresh : ℕ → System
fresh n = record {
  barrier = record { arrived = pos 0; generation = 0; num_participants = pos n };
  pc = λ i. idle;
  arrivals = λ i. 0;
  rounds = 0;
}

pub data Reach (n : ℕ) (timed : Bool) : System → Type 0 where
  start : Reach n timed (fresh n)
  next : {s t : System} → Reach n timed s → Step n timed s t → Reach n timed t
