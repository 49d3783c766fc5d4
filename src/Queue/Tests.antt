-- ===== src/Queue/Tests.antt =====
-- The theorems about the queue on runs of a queue of two elements, and on a queue at rest.
use zeroipc.Base.{
  sharing, offset, ◌*◌, ℕ, zero, suc, ◌<◌, ◌≡◌, ◌≢◌, ◌≤◌, ◌+◌, ◌^◌, ◌⊎◌, inl, inr, some, arith,
  refl, [], ◌∷◌, List, false, update,
}
use zeroipc.Queue.{Queue, step, slot, sign_of_diff, idle, push_load, pop_load, size}
use zeroipc.Queue.System.{
  System, Reach, fresh, access, here, next, call_push, call_pop, run, won, record_win,
}
use zeroipc.Queue.Safety.{fifo, exclusive_slots, size-le, full_means, empty_means}
use zeroipc.Queue.Alone.Holds.{Holds}
use zeroipc.Queue.Alone.Fifo.{Call, put, get, replies, fifo_replies, replies-eq-fifo}
use zeroipc.Queue.Create.{round_from, round_from-ends}

abbrev zeros : ℕ → ℕ
zeros i = 0

abbrev start : System ℕ
start = fresh 2 8 zeros zeros

record Seen : Type 0 where
  last : System ℕ
  reach : Reach start last

abbrev go : ℕ → Seen → Seen
go i s = record { last = access false i (s.last.pc i) s.last; reach = next s.reach (run false i) }

abbrev go_on : ℕ → ℕ → Seen → Seen
go_on i zero s = s
go_on i (suc n) s = go_on i n (go i s)

abbrev at_start : Seen
at_start = record { last = start; reach = here }

abbrev start_push : (i v : ℕ) (s : Seen) → s.last.pc i ≡ idle → Seen
start_push i v s e = record {
  last = record (s.last) { pc = update s.last.pc i (push_load v) };
  reach = next s.reach (call_push i v e);
}

abbrev start_pop : (i : ℕ) (s : Seen) → s.last.pc i ≡ idle → Seen
start_pop i s e = record {
  last = record (s.last) { pc = update s.last.pc i pop_load };
  reach = next s.reach (call_pop i e);
}

-- Thread 0 has pushed 7, thread 1 is about to read it, and thread 2 is about to write 9.
abbrev busy : Seen
unfolding fresh access step won record_win slot sign_of_diff
busy =
    go_on 2 3 (
      start_push 2 9 (go_on 1 3 (start_pop 1 (go_on 0 5 (start_push 0 7 at_start refl)) refl)) refl)

-- Thread 1 has read 7, and 9 is in the queue.
abbrev written : Seen
unfolding fresh access step won record_win slot sign_of_diff
written = go_on 2 2 (go 1 busy)

-- Thread 3 has read 9.
abbrev both_read : Seen
unfolding fresh access step won record_win slot sign_of_diff
both_read = go_on 3 4 (start_pop 3 written refl)

-- Thread 3 has loaded the tail for a push.
abbrev no_room : Seen
unfolding fresh access step won record_win slot sign_of_diff
no_room = go 3 (start_push 3 5 written refl)

abbrev nothing : Seen
unfolding fresh access step won record_win slot sign_of_diff
nothing = go 3 (start_pop 3 at_start refl)

fifo_example :
    (7 ≡ both_read.last.log 0) × (0 < both_read.last.claims) × (◌≡◌ {A = ℕ} 1 3 ⊎ ◌≢◌ {A = ℕ} 0 1)
unfolding fresh access step won record_win slot sign_of_diff offset
fifo_example =
    fifo 2 8 zeros zeros (omega arith) {s = both_read.last} both_read.reach (omega arith) 1 3 0 1 7
      9 refl refl (omega arith) (omega arith)

exclusive_slots_example : slot 2 0 ≢ slot 2 1
unfolding fresh access step won record_win sign_of_diff busy
exclusive_slots_example =
    exclusive_slots 2 8 zeros zeros (omega arith) {s = busy.last} busy.reach (omega arith) 1 2 0 1
      (omega arith) (inr refl) (inl refl)

-- The head is loaded at the start, and the tail after two pushes and a pop have won.
size-le_example :
    (size at_start.last.queue.head busy.last.queue.tail + at_start.last.queue.head
      ≡ busy.last.claims)
    × (size at_start.last.queue.head busy.last.queue.tail + at_start.last.queue.head
        ≤ busy.last.queue.head + 2)
unfolding fresh access step won record_win slot sign_of_diff
size-le_example =
    size-le 2 8 zeros zeros (omega arith) {s = busy.last} busy.reach (omega arith) {r = start} here
      busy.reach

full_means_example :
    (2 ≡ no_room.last.claims)
    × ((no_room.last.claims ≡ no_room.last.queue.head + 2)
        ⊎ (no_room.last.queue.seq (slot 2 2) + 2 ≡ 2 + 1))
unfolding fresh access step won record_win slot sign_of_diff
full_means_example =
    full_means 2 8 zeros zeros (omega arith) {s = no_room.last} no_room.reach (omega arith) false 3
      2 5 (omega arith) refl refl

empty_means_example :
    (0 ≡ nothing.last.queue.head)
    × ((nothing.last.claims ≡ nothing.last.queue.head) ⊎ (nothing.last.queue.seq (slot 2 0) ≡ 0))
unfolding fresh access step won record_win slot sign_of_diff
empty_means_example =
    empty_means 2 8 zeros zeros (omega arith) {s = nothing.last} nothing.reach (omega arith) false 3
      0 (omega arith) refl refl

-- A queue of two elements at rest, one of them filled, after 5 pops.
abbrev rest : Queue ℕ
rest = record { head = 5; tail = 6; capacity = 2; elem_size = 8; buf = λ i. 42; seq = λ i. 6 }

rest-Holds : Holds rest 5 (42 ∷ [])
unfolding slot sharing
rest-Holds = record {
  two = omega arith;
  small = omega arith;
  own_bytes = refl;
  rounds = 2 ^ 31;
  divides = refl;
  head_eq = refl;
  tail_eq = refl;
  fits = omega arith;
  item = λ k lt. ground arith;
  free = λ k lo hi. omega arith;
}

abbrev client : List (Call ℕ)
client = put 1 ∷ put 2 ∷ get ∷ get ∷ get ∷ []

replies-eq-fifo_example : replies rest client ≡ some (fifo_replies 2 (42 ∷ []) client)
replies-eq-fifo_example = replies-eq-fifo {q = rest} 5 (42 ∷ []) client rest-Holds

round_from-ends_example :
    (j : ℕ) × (round_from 64 1 100 ≡ some (2 ^ j)) × (100 ≤ 2 ^ j) × (2 ^ j < 2 * 100)
round_from-ends_example = round_from-ends 100 (omega arith) (omega arith)
