-- ===== src/Semaphore/Tests.antt =====
-- The theorem about the semaphore on a run of three threads.
use zeroipc.Base.{inl, ◌-◌, ℕ, ◌+◌, ◌≤◌, ◌≡◌, ◌⊎◌, inr, arith, false, true, update, pos, zero, suc}
use zeroipc.Semaphore.{step, acquire_enter, release_load}
use zeroipc.Semaphore.System.{
  System, Reach, fresh, access, here, next, call_acquire, call_release, run,
}
use zeroipc.Semaphore.Permits.{permits_balance}

abbrev start : System
start = fresh 1 2

record Seen : Type 0 where
  last : System
  reach : Reach start last

abbrev go : ℕ → Seen → Seen
go i s = record {
  last = access false false i (s.last.pc i) s.last;
  reach = next s.reach (run false false i);
}

abbrev go_on : ℕ → ℕ → Seen → Seen
go_on i zero s = s
go_on i (suc n) s = go_on i n (go i s)

abbrev at_start : Seen
at_start = record { last = start; reach = here }

-- Thread 0 has acquired the only permit, thread 1 waits for one.
abbrev waiting : Seen
unfolding fresh access step
waiting =
    let first : Seen = go_on 0 4 (record {
      last = record start { pc = update start.pc 0 (acquire_enter false) };
      reach = next here (call_acquire 0 false tt);
    }) in
    go_on 1 2 (record {
      last = record (first.last) { pc = update first.last.pc 1 (acquire_enter true) };
      reach = next first.reach (call_acquire 1 true tt);
    })

-- Thread 2 has given one.
abbrev given : Seen
unfolding fresh access step
given = go_on 2 2 (record {
  last = record (waiting.last) { pc = update waiting.last.pc 2 release_load };
  reach = next waiting.reach (call_release 2 tt);
})

permits_balance_example :
    (given.last.taken ≤ 1 + given.last.given)
    × (given.last.sem.count ≡ pos (1 + given.last.given - given.last.taken))
    × (◌≡◌ {A = ℕ} 2 0 ⊎ (1 + given.last.given - given.last.taken ≤ 2))
permits_balance_example =
    permits_balance 1 2 {s = given.last} (omega arith) (inr (omega arith)) (inl (omega arith))
      given.reach
