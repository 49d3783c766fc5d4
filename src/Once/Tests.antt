-- ===== src/Once/Tests.antt =====
-- The theorem about the once flag on a run of two threads.
use zeroipc.Base.{ℕ, ◌≤◌, ◌≡◌, ◌≢◌, ◌⊎◌, false, true, update, refl, zero, suc}
use zeroipc.Once.{step, load, returned, already_called}
use zeroipc.Once.System.{System, Reach, fresh, access, start, next, call, run}
use zeroipc.Once.Runs.{executed_once}

record Seen : Type 0 where
  last : System
  reach : Reach last

abbrev go : ℕ → Seen → Seen
go i s = record { last = access false i (s.last.pc i) s.last; reach = next s.reach (run false i) }

abbrev go_on : ℕ → ℕ → Seen → Seen
go_on i zero s = s
go_on i (suc n) s = go_on i n (go i s)

abbrev at_start : Seen
at_start = record { last = fresh; reach = start }

-- Both threads have found the flag pending; thread 0 has run the function, thread 1 has waited.
abbrev over : Seen
unfolding fresh access step
over =
    let first : Seen = go 0 (record {
      last = record fresh { pc = update fresh.pc 0 load };
      reach = next start (call 0 refl);
    }) in
    let both : Seen = go 1 (record {
      last = record (first.last) { pc = update first.last.pc 1 load };
      reach = next first.reach (call 1 refl);
    }) in
    go 1 (go_on 0 2 (go 1 (go 0 both)))

executed_once_example :
    (over.last.started ≤ 1)
    × (over.last.completed ≤ over.last.started)
    × ((over.last.pc 1 ≢ returned)
        ⊎ ((over.last.completed ≡ 1) × (already_called over.last.flag ≡ true)))
executed_once_example = executed_once {s = over.last} 1 over.reach
