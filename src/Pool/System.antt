-- ===== src/Pool/System.antt =====
-- Any number of threads on one pool, interleaved access by access.
use zeroipc.Base.{ℕ, zero, suc, ◌+◌, ◌≡◌, Bool, List, [], ◌∷◌, none, some, update}
use zeroipc.Pool.{
  Pool, Pc, step, init, enter_deallocate, idle, take_load, take_claim, take_count, give_claim,
  give_count, taken, exhausted, given, rejected,
}

-- Who has a node: the free list, a thread whose `allocate` has won it and has not returned, the callers,
-- or a thread whose `deallocate` has not put it back yet.
pub data Owner : Type 0 where
  free : Owner
  taking : (thread : ℕ) → Owner
  lent : Owner
  giving : (thread : ℕ) → Owner

-- `owner`, `frees` and `bumps` are not in the program: they record who has a node, the nodes of the free
-- list in their order, and how often the head has been replaced.
pub record System : Type 0 where
  pub pool : Pool
  pub pc : ℕ → Pc
  pub owner : ℕ → Owner
  pub frees : List ℕ
  pub bumps : ℕ

unfoldable pub tail : List ℕ → List ℕ
tail [] = []
tail (x ∷ xs) = xs

-- What an access of thread `i` from one place to the next records.
unfoldable pub note : ℕ → Pc → Pc → System → System
unfolding tail
note i (take_claim h n) (take_count k) s = record s {
  owner = update s.owner k (taking i);
  frees = tail s.frees;
  bumps = s.bumps + 1;
}
note i (take_count k) p s = record s { owner = update s.owner k lent }
note i (give_claim k h) give_count s = record s {
  owner = update s.owner k free;
  frees = k ∷ s.frees;
  bumps = s.bumps + 1;
}
note i p p' s = s

unfoldable pub access : Bool → ℕ → Pc → System → System
unfolding note
access lost i p s =
    let (pool, p') = step lost s.pool p in
    note i p p' (record s { pool = pool; pc = update s.pc i p' })

abbrev pub IsReturn : Pc → Type 0
IsReturn (taken k) = Unit
IsReturn exhausted = Unit
IsReturn given = Unit
IsReturn rejected = Unit
IsReturn p = ⊥

-- A caller gives back a node that `allocate` has returned, and forgets the pointer.
pub data Step (s : System) : System → Type 0 where
  call_allocate : (i : ℕ) → s.pc i ≡ idle → Step s (record s { pc = update s.pc i take_load })
  call_deallocate :
      (i k : ℕ)
      → s.pc i ≡ idle
      → s.owner k ≡ lent
      → Step s (record s {
        pc = update s.pc i (enter_deallocate s.pool (some k));
        owner = update s.owner k (giving i);
      })
  call_deallocate_null :
      (i : ℕ)
      → s.pc i ≡ idle
      → Step s (record s { pc = update s.pc i (enter_deallocate s.pool none) })
  run : (lost : Bool) (i : ℕ) → Step s (access lost i (s.pc i) s)
  back : (i : ℕ) → IsReturn (s.pc i) → Step s (record s { pc = update s.pc i idle })

pub data Reach (start : System) : System → Type 0 where
  here : Reach start start
  next : {s t : System} → Reach start s → Step s t → Reach start t

-- `first`, and the numbers after it.
unfoldable pub run_of : ℕ → ℕ → List ℕ
run_of zero first = []
run_of (suc n) first = first ∷ run_of n (first + 1)

-- A pool as its constructor leaves it, and no thread in a call.
unfoldable pub fresh : ℕ → ℕ → (ℕ → ℕ) → System
unfolding init run_of
fresh capacity elem_size links = record {
  pool = init capacity elem_size links;
  pc = λ i. idle;
  owner = λ k. free;
  frees = run_of capacity 0;
  bumps = 0;
}
