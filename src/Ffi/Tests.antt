-- ===== src/Ffi/Tests.antt =====
-- The theorem about the raw functions on a queue of four elements.
use zeroipc.Base.{ℕ, ◌≡◌, false, ◌+◌, ◌==◌, if◌then◌else◌}
use zeroipc.Queue.{Queue, step, push_check}
use zeroipc.Ffi.{raw_step}
use zeroipc.Ffi.Same.{raw_of, raw_step-step}

-- Five elements have been pushed and three popped.
abbrev shared : Queue ℕ
shared = record {
  head = 3;
  tail = 5;
  capacity = 4;
  elem_size = 8;
  buf = λ i. i;
  seq = λ i. if i == 0 then 5 else if i == 3 then 4 else i + 4;
}

raw_step-step_example :
    raw_step false shared (raw_of (push_check 9 5))
    ≡ ((step false shared (push_check 9 5)).0, raw_of (step false shared (push_check 9 5)).1)
raw_step-step_example = raw_step-step false shared (push_check 9 5)
