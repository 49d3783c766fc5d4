-- ===== src/Queue/System.antt =====
-- Any number of threads on one queue, interleaved access by access.
use zeroipc.Base.{ℕ, ◌+◌, ◌≡◌, Bool, Option, none, some, update}
use zeroipc.Queue.{
  Queue, Pc, step, idle, push_load, push_claim, push_write, pop_load, pushed, full, popped, empty,
}

-- `log` and `claims` are not in the program: they record the value of each push in the order in
-- which the pushes won their compare-exchange, and how many have done so.
pub record System (A : Type 0) : Type 0 where
  pub queue : Queue A
  pub pc : ℕ → Pc A
  pub log : ℕ → A
  pub claims : ℕ

module _ {A : Type 0} where
  -- The value of the push whose compare-exchange won in this access.
  unfoldable pub won : Pc A → Pc A → Option A
  won (push_claim v t) (push_write w u) = some v
  won p p' = none

  unfoldable pub record_win : Option A → System A → System A
  record_win none s = s
  record_win (some v) s = record s { log = update s.log s.claims v; claims = s.claims + 1 }

  -- One access of thread `i`, which stands at `p`.
  unfoldable pub access : Bool → ℕ → Pc A → System A → System A
  unfolding won record_win
  access lost i p s =
      let (q, p') = step lost s.queue p in
      record_win (won p p') (record s { queue = q; pc = update s.pc i p' })

  abbrev pub IsReturn : Pc A → Type 0
  IsReturn pushed = Unit
  IsReturn full = Unit
  IsReturn (popped v) = Unit
  IsReturn empty = Unit
  IsReturn p = ⊥

  pub data Step (s : System A) : System A → Type 0 where
    call_push :
        (i : ℕ) (v : A) → s.pc i ≡ idle → Step s (record s { pc = update s.pc i (push_load v) })
    call_pop : (i : ℕ) → s.pc i ≡ idle → Step s (record s { pc = update s.pc i pop_load })
    run : (lost : Bool) (i : ℕ) → Step s (access lost i (s.pc i) s)
    back : (i : ℕ) → IsReturn (s.pc i) → Step s (record s { pc = update s.pc i idle })

  -- A queue as zeroipc_queue_create leaves it, and no thread in a call.
  unfoldable pub fresh : ℕ → ℕ → (ℕ → A) → (ℕ → A) → System A
  fresh capacity elem_size buf log = record {
    queue = record {
      head = 0;
      tail = 0;
      capacity = capacity;
      elem_size = elem_size;
      buf = buf;
      seq = λ i. i;
    };
    pc = λ i. idle;
    log = log;
    claims = 0;
  }

  pub data Reach (start : System A) : System A → Type 0 where
    here : Reach start start
    next : {s t : System A} → Reach start s → Step s t → Reach start t
