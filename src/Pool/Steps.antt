-- ===== src/Pool/Steps.antt =====
-- Each step of the threads on a pool keeps the invariant.
use zeroipc.Base.{
  ℕ, zero, suc, ◌+◌, ◌*◌, ◌%◌, ◌^◌, ◌≤◌, ◌<◌, ◌≡◌, inl, inr, Bool, true, false, not, ◌&&◌, ◌==◌,
  leb, some, arith, refl, update, subst, ap, sym, ◌∙◌, Bool-cases, u32, sub32,
}
use zeroipc.Pool.{
  Pc, step, init, null_index, pack_tagged, unpack_index, unpack_generation, enter_deallocate, idle,
  take_load, take_next, take_claim, take_count, give_load, give_link, give_claim, give_count, taken,
  exhausted, given, rejected,
}
use zeroipc.Pool.System.{
  System, lent, giving, fresh, run_of, access, note, Step, Reach, here, next, call_allocate,
  call_deallocate, call_deallocate_null, run, back,
}
use zeroipc.Pool.Chain.{head_of, mem-run_of, mem-run_of_in, run_of-IsDistinct, init-IsLinked}
use zeroipc.Pool.Owners.{Seen, Inv, head_fits, front_free, head-free}
use zeroipc.Pool.Changes.{here_of, pc-Inv, take-Inv, give-Inv, link-Inv, own-Inv, count-Inv}

-- A compare-exchange that wins has the current head, and puts the next tag in it.
won_head :
    (s : System) (n : ℕ)
    → Inv s
    → s.bumps + 1 < 2 ^ 32
    → pack_tagged n (u32 (unpack_generation s.pool.free_head + 1)) ≡ (s.bumps + 1) * 2 ^ 32 + n
unfolding pack_tagged unpack_generation
won_head s n v small = omega (arith, head_fits v.kept, v.kept.tagged)

claims : (lost : Bool) (a b : ℕ) → (not lost && a == b) ≡ true → a ≡ b
claims lost a b h = ground (arith, h)

take_won :
    (i : ℕ) (s : System) (h n : ℕ)
    → s.pc i ≡ take_claim h n
    → Inv s
    → s.bumps + 1 < 2 ^ 32
    → s.pool.free_head ≡ h
    → Inv (
        note i (take_claim h n) (take_count (unpack_index h)) (record s {
          pool = record (s.pool) { free_head = pack_tagged n (u32 (unpack_generation h + 1)) };
          pc = update s.pc i (take_count (unpack_index h));
        }))
unfolding note unpack_index
take_won i s h n e v b same =
    let (seen, link) = here_of v i e in
    let index : h % 2 ^ 32 ≡ s.pool.free_head % 2 ^ 32 = omega (arith, same) in
    let (xs, q) = front_free v.kept (omega (arith, seen.1, v.kept.small, index)) in
    take-Inv i (pack_tagged n (u32 (unpack_generation h + 1))) (h % 2 ^ 32) xs v
      (ground (arith, q, index))
      (subst (λ g. pack_tagged n (u32 (unpack_generation g + 1)) ≡ (s.bumps + 1) * 2 ^ 32 + n) same
          (won_head s n v b)
        ∙ ap (λ t. (s.bumps + 1) * 2 ^ 32 + t) (link same))

give_won :
    (i : ℕ) (s : System) (k h : ℕ)
    → s.pc i ≡ give_claim k h
    → Inv s
    → s.bumps + 1 < 2 ^ 32
    → s.pool.free_head ≡ h
    → Inv (
        note i (give_claim k h) give_count (record s {
          pool = record (s.pool) { free_head = pack_tagged k (u32 (unpack_generation h + 1)) };
          pc = update s.pc i give_count;
        }))
unfolding note
give_won i s k h e v b same =
    let (own, link) = here_of v i e in
    give-Inv i (pack_tagged k (u32 (unpack_generation h + 1))) k v own
      (link ∙ ap (λ t. t % 2 ^ 32) (sym same) ∙ head_fits v.kept)
      (subst (λ g. pack_tagged k (u32 (unpack_generation g + 1)) ≡ (s.bumps + 1) * 2 ^ 32 + k) same
        (won_head s k v b))

seen_head :
    (s : System)
    → Inv s
    → (unpack_index s.pool.free_head == null_index) ≡ false
    → Seen s.pool.capacity s.bumps s.pool.free_head
unfolding unpack_index
seen_head s v more =
    (omega (arith, head_fits v.kept, v.kept.tagged), (head-free v.kept (ground (arith, more))).1)

pub access-Inv :
    (lost : Bool) (i : ℕ) (s : System) (pc : Pc)
    → s.pc i ≡ pc
    → Inv s
    → s.bumps + 1 < 2 ^ 32
    → Inv (access lost i pc s)
unfolding access step
access-Inv lost i s idle e v b = pc-Inv i idle v tt
access-Inv lost i s take_load e v b =
    elim (Bool-cases (unpack_index s.pool.free_head == null_index)) [
      | inl null ↦ rw null (pc-Inv i exhausted v tt)
      | inr more ↦ rw more (pc-Inv i (take_next s.pool.free_head) v (seen_head s v more))
    ]
access-Inv lost i s (take_next h) e v b =
    pc-Inv i (take_claim h (s.pool.next (unpack_index h))) v (here_of v i e, λ q. refl)
access-Inv lost i s (take_claim h n) e v b = elim (Bool-cases (not lost && s.pool.free_head == h)) [
  | inl won ↦ rw won (take_won i s h n e v b (claims lost s.pool.free_head h won))
  | inr missed ↦ rw missed (pc-Inv i take_load v tt)
]
access-Inv lost i s (take_count k) e v b =
    own-Inv i k lent (taken k) (count-Inv (u32 (s.pool.allocated + 1)) v)
      (ground (arith, here_of v i e)) (ground arith)
      (λ j ne. (ground (arith, here_of v i e), ground (arith, here_of v i e))) tt
access-Inv lost i s (give_load k) e v b = pc-Inv i (give_link k s.pool.free_head) v (here_of v i e)
access-Inv lost i s (give_link k h) e v b = link-Inv i k h v (here_of v i e)
access-Inv lost i s (give_claim k h) e v b = elim (Bool-cases (not lost && s.pool.free_head == h)) [
  | inl won ↦ rw won (give_won i s k h e v b (claims lost s.pool.free_head h won))
  | inr missed ↦ rw missed (pc-Inv i (give_load k) v (here_of v i e).0)
]
access-Inv lost i s give_count e v b = pc-Inv i given (count-Inv (sub32 s.pool.allocated 1) v) tt
access-Inv lost i s (taken k) e v b = pc-Inv i (taken k) v tt
access-Inv lost i s exhausted e v b = pc-Inv i exhausted v tt
access-Inv lost i s given e v b = pc-Inv i given v tt
access-Inv lost i s rejected e v b = pc-Inv i rejected v tt

pub Step-Inv : {s t : System} → Inv s → s.bumps + 1 < 2 ^ 32 → Step s t → Inv t
unfolding enter_deallocate
Step-Inv {s} v b (call_allocate i e) = pc-Inv i take_load v tt
Step-Inv {s} v b (call_deallocate i k e l) =
    own-Inv i k (giving i) (enter_deallocate s.pool (some k)) v (ground (arith, l)) (ground arith)
      (λ j ne. (ground (arith, l), ground (arith, l)))
      (rw (within_lem k (v.kept.within k (ground (arith, l)))) (ground arith))
  where
    within_lem : (k : ℕ) → k < s.pool.capacity → leb s.pool.capacity k ≡ false
    within_lem k h = ground (arith, h)
Step-Inv {s} v b (call_deallocate_null i e) = pc-Inv i given v tt
Step-Inv {s} v b (run lost i) = access-Inv lost i s (s.pc i) refl v b
Step-Inv {s} v b (back i r) = pc-Inv i idle v tt

access_bumps : (lost : Bool) (i : ℕ) (s : System) (pc : Pc) → s.bumps ≤ (access lost i pc s).bumps
unfolding access step note
access_bumps lost i s (take_claim h n) = ground arith
access_bumps lost i s (give_claim k h) = ground arith
access_bumps lost i s take_load = ground arith
access_bumps lost i s pc = omega arith

pub Step-bumps : {s t : System} → Step s t → s.bumps ≤ t.bumps
Step-bumps {s} (run lost i) = access_bumps lost i s (s.pc i)
Step-bumps {s} st = omega arith

front : (n : ℕ) → 0 < n → 0 ≡ head_of (run_of n 0)
unfolding head_of run_of
front zero h = absurd (omega arith)
front (suc n) h = refl

fresh-Inv : (n elem_size : ℕ) (links : ℕ → ℕ) → 0 < n → n < 2 ^ 32 → Inv (fresh n elem_size links)
unfolding fresh init pack_tagged
fresh-Inv n elem_size links pos small = record {
  kept = record {
    small = omega arith;
    tagged = omega (arith, front n pos);
    linked = init-IsLinked n links;
    distinct = run_of-IsDistinct n 0;
    listed = λ k h. (refl, omega (arith, mem-run_of n 0 k h));
    complete = λ k lt e. mem-run_of_in n 0 k (omega arith) (omega arith);
    within = λ k h. absurd (h refl);
  };
  place = λ i. tt;
}

pub Reach-Inv :
    (n elem_size : ℕ) (links : ℕ → ℕ) {s : System}
    → 0 < n
    → n < 2 ^ 32
    → Reach (fresh n elem_size links) s
    → s.bumps + 1 < 2 ^ 32
    → Inv s
Reach-Inv n elem_size links pos small here b = fresh-Inv n elem_size links pos small
Reach-Inv n elem_size links pos small (next r st) b =
    Step-Inv (Reach-Inv n elem_size links pos small r (omega (arith, Step-bumps st)))
      (omega (arith, Step-bumps st)) st
