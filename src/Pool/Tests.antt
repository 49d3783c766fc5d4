-- ===== src/Pool/Tests.antt =====
-- The theorems about the pool on runs of a pool of two nodes.
use zeroipc.Base.{ℕ, zero, suc, ◌<◌, ◌≡◌, ◌≢◌, ◌↔◌, false, update, refl, arith, some}
use zeroipc.Pool.{step, take_load, exhausted, unpack_index, pack_tagged, idle, enter_deallocate}
use zeroipc.Pool.System.{
  System, Reach, free, lent, fresh, access, here, next, call_allocate, call_deallocate, run, giving,
}
use zeroipc.Pool.Safety.{Holding, hands_out_free, exclusive_nodes, exhausted_means}

abbrev links : ℕ → ℕ
links i = 0

abbrev start : System
start = fresh 2 8 links

record Run : Type 0 where
  last : System
  reach : Reach start last

abbrev go_on : ℕ → ℕ → Run → Run
go_on i zero s = s
go_on i (suc n) s =
    go_on i n
      (record { last = access false i (s.last.pc i) s.last; reach = next s.reach (run false i) })

abbrev start_allocate : (i : ℕ) (s : Run) → s.last.pc i ≡ idle → Run
start_allocate i s e = record {
  last = record (s.last) { pc = update s.last.pc i take_load };
  reach = next s.reach (call_allocate i e);
}

abbrev start_deallocate : (i k : ℕ) (s : Run) → s.last.pc i ≡ idle → s.last.owner k ≡ lent → Run
start_deallocate i k s e l = record {
  last = record (s.last) {
    pc = update s.last.pc i (enter_deallocate s.last.pool (some k));
    owner = update s.last.owner k (giving i);
  };
  reach = next s.reach (call_deallocate i k e l);
}

-- Thread 0 has node 0, and thread 1 is about to take node 1.
abbrev second : Run
unfolding fresh access step
second = go_on 1 2 (
    start_allocate 1 (go_on 0 4 (start_allocate 0 (record { last = start; reach = here }) refl))
      refl)

-- Thread 1 has won node 1, and thread 2 gives node 0 back.
abbrev giving_back : Run
unfolding fresh access step enter_deallocate
giving_back = go_on 2 2 (start_deallocate 2 0 (go_on 1 1 second) refl refl)

hands_out_free_example :
    (unpack_index second.last.pool.free_head < second.last.pool.capacity)
    × (second.last.owner (unpack_index second.last.pool.free_head) ≢ lent)
    × ((j : ℕ) → ¬ (Holding (second.last.pc j) (unpack_index second.last.pool.free_head)))
unfolding fresh access step
hands_out_free_example =
    hands_out_free 2 8 links (omega arith) (omega arith) {s = second.last} second.reach
      (omega arith) 1 (pack_tagged 1 1) 0xFFFFFFFF refl refl

exclusive_nodes_example : (giving_back.last.owner 0 ≢ lent) × (◌≡◌ {A = ℕ} 2 2)
unfolding fresh access step enter_deallocate
exclusive_nodes_example =
    exclusive_nodes 2 8 links (omega arith) (omega arith) {s = giving_back.last} giving_back.reach
      (omega arith) 2 2 0 refl refl

exhausted_means_example :
    ((step false giving_back.last.pool take_load).1 ≡ exhausted)
    ↔ ((k : ℕ) → k < giving_back.last.pool.capacity → giving_back.last.owner k ≢ free)
unfolding fresh access step enter_deallocate
exhausted_means_example =
    exhausted_means 2 8 links (omega arith) (omega arith) {s = giving_back.last} giving_back.reach
      (omega arith) false
