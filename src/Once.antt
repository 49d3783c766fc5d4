-- ===== src/Once.antt =====
-- cpp/include/zeroipc/once.h: a function that is executed once across processes, one shared access at a
-- time.
pub mod System
pub mod Runs
mod Tests
use zeroipc.Base.{ℕ, Bool, ◌==◌, if◌then◌else◌}

abbrev pub state_pending : ℕ
state_pending = 0

abbrev pub state_executing : ℕ
state_executing = 1

abbrev pub state_done : ℕ
state_done = 2

-- `OnceFlag`
pub record OnceFlag : Type 0 where
  pub state : ℕ

-- Where a thread stands in call, before one access to shared memory, or before the call of the function;
-- `thrown` says that the function has thrown, and so does the call then.
pub data Pc : Type 0 where
  idle : Pc
  load : Pc
  claim : Pc
  execute : Pc
  finish : (thrown : Bool) → Pc
  wait : Pc
  returned : Pc
  rethrown : Pc

-- One access. `throws` says that the function throws.
unfoldable pub step : Bool → OnceFlag → Pc → OnceFlag × Pc
step throws f load = (f, if f.state == state_done then returned else claim)
step throws f claim =
    if f.state == state_pending then (record { state = state_executing }, execute) else (f, wait)
step throws f execute = (f, finish throws)
step throws f (finish thrown) =
    (record { state = state_done }, if thrown then rethrown else returned)
step throws f wait = (f, if f.state == state_executing then wait else returned)
step throws f p = (f, p)

unfoldable pub already_called : OnceFlag → Bool
already_called f = f.state == state_done
