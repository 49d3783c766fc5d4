-- ===== src/Latch/System.antt =====
-- Any number of threads on one latch, interleaved access by access.
use zeroipc.Base.{ℕ, ◌+◌, ◌≡◌, Bool, update, ℤ}
use zeroipc.Latch.{
  Latch, Pc, step, idle, down_load, down_claim, wait_load, try_load, counted, waited, timed_out,
  tried, enter_count_down, enter_wait_timeout,
}

-- `taken` is not in the program: it adds up the positive arguments of the zeroipc_latch_count_down calls
-- that have come to their return.
pub record System : Type 0 where
  pub latch : Latch
  pub pc : ℕ → Pc
  pub taken : ℕ

unfoldable pub finished : Pc → Pc → ℕ
finished (down_load n) counted = n
finished (down_claim n current) counted = n
finished p p' = 0

unfoldable pub access : Bool → Bool → ℕ → Pc → System → System
unfolding finished
access lost late i p s =
    let (l, p') = step lost late s.latch p in
    record { latch = l; pc = update s.pc i p'; taken = s.taken + finished p p' }

abbrev pub IsReturn : Pc → Type 0
IsReturn counted = Unit
IsReturn waited = Unit
IsReturn timed_out = Unit
IsReturn (tried b) = Unit
IsReturn p = ⊥

pub data Step (s : System) : System → Type 0 where
  call_count_down :
      (i : ℕ) (n : ℤ)
      → s.pc i ≡ idle
      → Step s (record s { pc = update s.pc i (enter_count_down n) })
  call_wait : (i : ℕ) → s.pc i ≡ idle → Step s (record s { pc = update s.pc i (wait_load 1) })
  call_wait_timeout :
      (i : ℕ) (timeout : ℤ)
      → s.pc i ≡ idle
      → Step s (record s { pc = update s.pc i (enter_wait_timeout timeout) })
  call_try_wait : (i : ℕ) → s.pc i ≡ idle → Step s (record s { pc = update s.pc i try_load })
  run : (lost late : Bool) (i : ℕ) → Step s (access lost late i (s.pc i) s)
  back : (i : ℕ) → IsReturn (s.pc i) → Step s (record s { pc = update s.pc i idle })

pub data Reach (start : System) : System → Type 0 where
  here : Reach start start
  next : {s t : System} → Reach start s → Step s t → Reach start t

-- A latch as zeroipc_latch_create leaves it, and no thread in a call.
unfoldable pub fresh : ℕ → System
fresh count = record {
  latch = record { count = count; initial_count = count };
  pc = λ i. idle;
  taken = 0;
}
