-- ===== src/Barrier/Tests.antt =====
-- The theorems about the barrier on runs of two participants.
use zeroipc.Base.{ℕ, zero, suc, ◌+◌, ◌≡◌, ◌≤◌, ◌<◌, arith, refl, Bool, false, update, subst, sym}
use zeroipc.Barrier.{step, idle, load_generation, spin, passed}
use zeroipc.Barrier.System.{
  System, Reach, fresh, access, arrives, releases, start, next, call_wait, run, back, IsReturn,
}
use zeroipc.Barrier.Rounds.Sync.{passes_together, no_deadlock}

record Seen : Type 0 where
  last : System
  reach : Reach 2 false last

abbrev go : (i : ℕ) → i < 2 → Seen → Seen
go i lt s = record {
  last = access false i (s.last.pc i) s.last;
  reach = next s.reach (run false i lt);
}

abbrev go_on : (i : ℕ) → i < 2 → ℕ → Seen → Seen
go_on i lt zero s = s
go_on i lt (suc n) s = go_on i lt n (go i lt s)

abbrev at_start : Seen
at_start = record { last = fresh 2; reach = start }

abbrev start_wait : (i : ℕ) → i < 2 → (s : Seen) → s.last.pc i ≡ idle → Seen
start_wait i lt s e = record {
  last = record (s.last) { pc = update s.last.pc i (load_generation false) };
  reach = next s.reach (call_wait i lt e);
}

abbrev leave_wait : (i : ℕ) → i < 2 → (s : Seen) → s.last.pc i ≡ passed → Seen
leave_wait i lt s e = record {
  last = record (s.last) { pc = update s.last.pc i idle };
  reach = next s.reach (back i lt (subst IsReturn (sym e) tt));
}

-- Participant 0 spins, and participant 1, who came last, has let the two of them go.
abbrev released : Seen
unfolding fresh access step arrives releases
released = go_on 1 (omega arith) 4 (
    start_wait 1 (omega arith) (go_on 0 (omega arith) 2 (start_wait 0 (omega arith) at_start refl))
      refl)

-- Participant 1 is already in its next wait, and spins.
abbrev ahead : Seen
unfolding fresh access step arrives releases
ahead =
    go_on 1 (omega arith) 2
      (start_wait 1 (omega arith) (leave_wait 1 (omega arith) released refl) refl)

passes_together_example :
    (released.last.arrivals 1 ≡ released.last.rounds)
    × (released.last.arrivals 1 ≤ released.last.arrivals 0)
    × (released.last.arrivals 0 ≤ released.last.arrivals 1 + 1)
unfolding fresh access step arrives releases
passes_together_example =
    passes_together {n = 2} {s = released.last} 1 0 (omega arith) released.reach (omega arith)
      (omega arith) refl

ahead_spins : (i : ℕ) → i < 2 → ahead.last.pc i ≡ spin false i
unfolding fresh access step arrives releases
ahead_spins zero lt = refl
ahead_spins (suc zero) lt = refl
ahead_spins (suc (suc i)) lt = absurd (omega arith)

no_deadlock_example :
    (i : ℕ) × (i < 2)
    × ((late : Bool) → (step late ahead.last.barrier (ahead.last.pc i)).1 ≡ passed)
no_deadlock_example =
    no_deadlock {n = 2} {s = ahead.last} (λ i. i) (omega arith) ahead.reach ahead_spins
