-- ===== src/Semaphore/System.antt =====
-- Any number of threads on one semaphore, interleaved access by access.
use zeroipc.Base.{ℕ, ◌+◌, Bool, true, update, pos}
use zeroipc.Semaphore.{
  Semaphore, Pc, step, idle, acquire_enter, acquire_claim, acquire_leave, try_load, try_claim,
  release_load, release_claim, acquired, refused, released, overflow_error,
}

-- `taken` and `given` are not in the program: how many compare-exchanges of an acquire and of a release
-- have won.
pub record System : Type 0 where
  pub sem : Semaphore
  pub pc : ℕ → Pc
  pub taken : ℕ
  pub given : ℕ

unfoldable pub takes : Pc → Pc → ℕ
takes (acquire_claim timed current) (acquire_leave true) = 1
takes (try_claim current) acquired = 1
takes p p' = 0

unfoldable pub gives : Pc → Pc → ℕ
gives (release_claim current) released = 1
gives p p' = 0

unfoldable pub access : Bool → Bool → ℕ → Pc → System → System
unfolding takes gives
access lost late i p s =
    let (sem, p') = step lost late s.sem p in
    record {
      sem = sem;
      pc = update s.pc i p';
      taken = s.taken + takes p p';
      given = s.given + gives p p';
    }

-- A thread may release without having acquired.
abbrev pub IsOutside : Pc → Type 0
IsOutside idle = Unit
IsOutside acquired = Unit
IsOutside p = ⊥

abbrev pub IsReturn : Pc → Type 0
IsReturn refused = Unit
IsReturn released = Unit
IsReturn overflow_error = Unit
IsReturn p = ⊥

pub data Step (s : System) : System → Type 0 where
  call_acquire :
      (i : ℕ) (timed : Bool)
      → IsOutside (s.pc i)
      → Step s (record s { pc = update s.pc i (acquire_enter timed) })
  call_try_acquire :
      (i : ℕ) → IsOutside (s.pc i) → Step s (record s { pc = update s.pc i try_load })
  call_release :
      (i : ℕ) → IsOutside (s.pc i) → Step s (record s { pc = update s.pc i release_load })
  run : (lost late : Bool) (i : ℕ) → Step s (access lost late i (s.pc i) s)
  back : (i : ℕ) → IsReturn (s.pc i) → Step s (record s { pc = update s.pc i idle })

pub data Reach (start : System) : System → Type 0 where
  here : Reach start start
  next : {s t : System} → Reach start s → Step s t → Reach start t

-- A semaphore as its constructor leaves it, and no thread in a call.
unfoldable pub fresh : ℕ → ℕ → System
fresh initial max = record {
  sem = record { count = pos initial; waiting = pos 0; max_count = pos max };
  pc = λ i. idle;
  taken = 0;
  given = 0;
}
