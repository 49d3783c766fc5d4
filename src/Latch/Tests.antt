-- ===== src/Latch/Tests.antt =====
-- The theorems about the latch on a latch of 3, which one thread counts down by 2 and then by 1.
use zeroipc.Base.{ℕ, zero, suc, ◌-◌, ◌≡◌, ◌≤◌, inl, refl, false, pos, update, ℤ}
use zeroipc.Latch.{step, idle, wait_load, enter_count_down, down_loop, new_count}
use zeroipc.Latch.System.{
  System, Reach, fresh, access, finished, here, next, call_count_down, call_wait, run,
}
use zeroipc.Latch.Countdown.{count-Reach, open_for_good}

record Seen : Type 0 where
  last : System
  reach : Reach (fresh 3) last

abbrev go : ℕ → Seen → Seen
go i s = record {
  last = access false false i (s.last.pc i) s.last;
  reach = next s.reach (run false false i);
}

abbrev go_on : ℕ → ℕ → Seen → Seen
go_on i zero s = s
go_on i (suc n) s = go_on i n (go i s)

abbrev at_start : Seen
at_start = record { last = fresh 3; reach = here }

abbrev start_down : (i : ℕ) (n : ℤ) (s : Seen) → s.last.pc i ≡ idle → Seen
start_down i n s e = record {
  last = record (s.last) { pc = update s.last.pc i (enter_count_down n) };
  reach = next s.reach (call_count_down i n e);
}

abbrev start_wait : (i : ℕ) (s : Seen) → s.last.pc i ≡ idle → Seen
start_wait i s e = record {
  last = record (s.last) { pc = update s.last.pc i (wait_load 1) };
  reach = next s.reach (call_wait i e);
}

-- Thread 0 has taken 2, and thread 1 still holds the copy 3.
abbrev raced : Seen
unfolding fresh access step finished enter_count_down down_loop new_count
raced = go_on 0 2 (start_down 0 (pos 2) (go 1 (start_down 1 (pos 1) at_start refl)) refl)

-- Thread 1 has tried again and taken 1, and thread 2 has passed the latch.
abbrev opened : Seen
unfolding fresh access step finished enter_count_down down_loop new_count
opened = go 2 (start_wait 2 (go_on 1 2 raced) refl)

count-Reach_example : opened.last.latch.count ≡ 3 - opened.last.taken
count-Reach_example = count-Reach 3 {s = opened.last} opened.reach

open_for_good_example : (3 ≤ opened.last.taken) × (opened.last.latch.count ≡ 0)
unfolding fresh access step finished enter_count_down down_loop new_count
open_for_good_example =
    open_for_good {s = opened.last} {t = opened.last} 2 opened.reach (inl refl) here
