-- ===== src/CppQueue/Tests.antt =====
-- The theorem about the queue of C++ on a queue of two elements.
use zeroipc.Base.{arith, ℕ, ◌≡◌, false}
use zeroipc.Queue.{Queue, step, push_write}
use zeroipc.CppQueue.{cpp_step}
use zeroipc.CppQueue.Same.{cpp_of, cpp_step-step}

-- One element has been pushed, and a push of another has won.
abbrev shared : Queue ℕ
shared = record { head = 0; tail = 2; capacity = 2; elem_size = 8; buf = λ i. 7; seq = λ i. 1 }

cpp_step-step_example :
    cpp_step false shared (cpp_of (push_write 9 1))
    ≡ ((step false shared (push_write 9 1)).0, cpp_of (step false shared (push_write 9 1)).1)
cpp_step-step_example =
    cpp_step-step false shared (push_write 9 1) (omega arith) (omega arith) (omega arith)
