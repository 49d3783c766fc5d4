-- ===== src/Stack/Tests.antt =====
-- The theorems about the stack on a run of two threads, and on a stack at rest.
use zeroipc.Base.{
  sharing, offset, ℕ, zero, suc, ◌<◌, ◌≡◌, ◌≢◌, ◌+◌, inl, inr, some, arith, refl, [], ◌∷◌, List,
  ◌==◌, false, update, if◌then◌else◌, pos,
}
use zeroipc.Stack.{
  Stack, step, idle, push_load, pop_load, top_load, last_index, to_int32, slot_empty, slot_ready,
}
use zeroipc.Stack.System.{
  System, Reach, fresh, access, record_access, here, next, call_push, call_pop, call_top, run,
}
use zeroipc.Stack.Slots.Safety.{exclusive_access, reads_pushed}
use zeroipc.Stack.Lifo.{Holds}
use zeroipc.Stack.Lifo.Replies.{Call, put, get, peek, replies, lifo_replies, replies-eq-lifo}

abbrev zeros : ℕ → ℕ
zeros i = 0

abbrev start : System ℕ
start = fresh 2 8 zeros

record Seen : Type 0 where
  last : System ℕ
  reach : Reach start last

abbrev go : ℕ → Seen → Seen
go i s = record { last = access false i (s.last.pc i) s.last; reach = next s.reach (run false i) }

abbrev go_on : ℕ → ℕ → Seen → Seen
go_on i zero s = s
go_on i (suc n) s = go_on i n (go i s)

abbrev at_start : Seen
at_start = record { last = start; reach = here }

abbrev start_push : (i v : ℕ) (s : Seen) → s.last.pc i ≡ idle → Seen
start_push i v s e = record {
  last = record (s.last) { pc = update s.last.pc i (push_load v) };
  reach = next s.reach (call_push i v e);
}

abbrev start_pop : (i : ℕ) (s : Seen) → s.last.pc i ≡ idle → Seen
start_pop i s e = record {
  last = record (s.last) { pc = update s.last.pc i pop_load };
  reach = next s.reach (call_pop i e);
}

abbrev start_peek : (i : ℕ) (s : Seen) → s.last.pc i ≡ idle → Seen
start_peek i s e = record {
  last = record (s.last) { pc = update s.last.pc i (top_load 0) };
  reach = next s.reach (call_top i e);
}

-- Thread 0 has pushed 7, and thread 1 has read it for a pop.
abbrev popping : Seen
unfolding fresh access step record_access last_index to_int32
popping = go_on 1 4 (start_pop 1 (go_on 0 5 (start_push 0 7 at_start refl)) refl)

-- Thread 2 is about to write slot 1 while thread 1 peeks at slot 0.
abbrev busy : Seen
unfolding fresh access step record_access last_index to_int32
busy =
    go_on 2 3 (
      start_push 2 9 (go_on 1 2 (start_peek 1 (go_on 0 5 (start_push 0 7 at_start refl)) refl))
        refl)

reads_pushed_example :
    (0 < popping.last.stack.capacity)
    × (7 ≡ popping.last.ghost.written 0)
    × (popping.last.ghost.marks 0 ≡ popping.last.ghost.releases 0 + 1)
unfolding fresh access step record_access last_index to_int32 offset
reads_pushed_example =
    reads_pushed 2 8 zeros (omega arith) (omega arith) {s = popping.last} popping.reach 1 0 7
      (inl refl) (omega arith) (omega arith)

exclusive_access_example : ◌≢◌ {A = ℕ} 1 0
unfolding fresh access step record_access last_index to_int32
exclusive_access_example =
    exclusive_access 2 8 zeros (omega arith) (omega arith) {s = busy.last} busy.reach 2 1 1 0
      (omega arith) (inl refl) (inr refl)

-- A stack of two elements at rest, one of them filled.
abbrev rest : Stack ℕ
rest = record {
  top = pos 0;
  capacity = 2;
  elem_size = 8;
  buf = λ i. 42;
  state = λ i. if i == 0 then slot_ready else slot_empty;
}

rest-Holds : Holds rest (42 ∷ [])
unfolding sharing
rest-Holds = record {
  nonzero = omega arith;
  small = omega arith;
  own_bytes = refl;
  top_eq = refl;
  fits = omega arith;
  filled = (refl, refl, tt);
  free = λ i lo hi. ground arith;
}

abbrev client : List (Call ℕ)
client = put 1 ∷ put 2 ∷ get ∷ peek ∷ get ∷ get ∷ []

replies-eq-lifo_example : replies rest client ≡ some (lifo_replies 2 (42 ∷ []) client)
replies-eq-lifo_example = replies-eq-lifo rest (42 ∷ []) client rest-Holds
