-- ===== src/Stack/System.antt =====
-- Any number of threads on one stack, interleaved access by access.
use zeroipc.Base.{offset, ℕ, ◌+◌, ◌≡◌, Bool, update, negsuc}
use zeroipc.Stack.{
  Stack, Pc, step, idle, push_load, push_mark, push_write, pop_load, pop_release, top_load, pushed,
  full, popped, topped, empty, top_gave_up, timeout,
}

-- Not in the program: of each slot the value of the push that marked it last, how many pushes have
-- marked it, and how many pops have released it.
pub record Ghost (A : Type 0) : Type 0 where
  pub written : ℕ → A
  pub marks : ℕ → ℕ
  pub releases : ℕ → ℕ

pub record System (A : Type 0) : Type 0 where
  pub stack : Stack A
  pub pc : ℕ → Pc A
  pub ghost : Ghost A

module _ {A : Type 0} where
  unfoldable pub record_access : Pc A → Pc A → Ghost A → Ghost A
  record_access (push_mark v i k) (push_write w j) g = record g {
    written = update g.written i v;
    marks = update g.marks i (g.marks i + 1);
  }
  record_access (pop_release i v) p' g = record g {
    releases = update g.releases i (g.releases i + 1);
  }
  record_access p p' g = g

  -- One access of thread `t`, which stands at `p`.
  unfoldable pub access : Bool → ℕ → Pc A → System A → System A
  unfolding record_access
  access lost t p s =
      let (stack, p') = step lost s.stack p in
      record { stack = stack; pc = update s.pc t p'; ghost = record_access p p' s.ghost }

  abbrev pub IsReturn : Pc A → Type 0
  IsReturn pushed = Unit
  IsReturn full = Unit
  IsReturn (popped v) = Unit
  IsReturn (topped v) = Unit
  IsReturn empty = Unit
  IsReturn top_gave_up = Unit
  IsReturn timeout = Unit
  IsReturn p = ⊥

  pub data Step (s : System A) : System A → Type 0 where
    call_push :
        (t : ℕ) (v : A) → s.pc t ≡ idle → Step s (record s { pc = update s.pc t (push_load v) })
    call_pop : (t : ℕ) → s.pc t ≡ idle → Step s (record s { pc = update s.pc t pop_load })
    call_top : (t : ℕ) → s.pc t ≡ idle → Step s (record s { pc = update s.pc t (top_load 0) })
    run : (lost : Bool) (t : ℕ) → Step s (access lost t (s.pc t) s)
    back : (t : ℕ) → IsReturn (s.pc t) → Step s (record s { pc = update s.pc t idle })

  -- A stack as zeroipc_stack_create leaves it, and no thread in a call.
  unfoldable pub fresh : ℕ → ℕ → (ℕ → A) → System A
  fresh capacity elem_size buf = record {
    stack = record {
      top = negsuc 0;
      capacity = capacity;
      elem_size = elem_size;
      buf = buf;
      state = λ i. 0;
    };
    pc = λ t. idle;
    ghost = record { written = λ i. buf (offset elem_size i); marks = λ i. 0; releases = λ i. 0 };
  }

  pub data Reach (start : System A) : System A → Type 0 where
    here : Reach start start
    next : {s t : System A} → Reach start s → Step s t → Reach start t
