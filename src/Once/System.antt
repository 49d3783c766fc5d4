-- ===== src/Once/System.antt =====
-- Any number of threads on one once flag, interleaved access by access.
use zeroipc.Base.{ℕ, ◌+◌, ◌≡◌, Bool, update}
use zeroipc.Once.{OnceFlag, Pc, step, idle, load, claim, execute, returned, rethrown}

-- `started` and `completed` are not in the program: how often a thread has come to the call of the
-- function, and how often the function has returned or thrown.
pub record System : Type 0 where
  pub flag : OnceFlag
  pub pc : ℕ → Pc
  pub started : ℕ
  pub completed : ℕ

unfoldable pub starts : Pc → Pc → ℕ
starts claim execute = 1
starts p p' = 0

unfoldable pub completes : Pc → ℕ
completes execute = 1
completes p = 0

unfoldable pub access : Bool → ℕ → Pc → System → System
unfolding starts completes
access throws i p s =
    let (f, p') = step throws s.flag p in
    record {
      flag = f;
      pc = update s.pc i p';
      started = s.started + starts p p';
      completed = s.completed + completes p;
    }

abbrev pub IsReturn : Pc → Type 0
IsReturn returned = Unit
IsReturn rethrown = Unit
IsReturn p = ⊥

pub data Step (s : System) : System → Type 0 where
  call : (i : ℕ) → s.pc i ≡ idle → Step s (record s { pc = update s.pc i load })
  run : (throws : Bool) (i : ℕ) → Step s (access throws i (s.pc i) s)
  back : (i : ℕ) → IsReturn (s.pc i) → Step s (record s { pc = update s.pc i idle })

-- A flag as its constructor leaves it, and no thread in a call.
unfoldable pub fresh : System
fresh = record { flag = record { state = 0 }; pc = λ i. idle; started = 0; completed = 0 }

pub data Reach : System → Type 0 where
  start : Reach fresh
  next : {s t : System} → Reach s → Step s t → Reach t
