-- ===== src/Barrier/Rounds/Sync.antt =====
-- What the participants of a barrier may rely on, when none of them gives a timeout.
use zeroipc.Base.{
  ℕ, ◌+◌, ◌-◌, ◌≤◌, ◌<◌, ◌≡◌, inl, inr, Bool, false, total-zero, total_missing, ℕ_discrete, update,
  ◌==◌, arith, refl, Bool-cases,
}
use zeroipc.Barrier.{
  Pc, step, idle, load_generation, arrive, reset, release, spin, leave, passed, timed_out,
}
use zeroipc.Barrier.System.{
  System, Step, Reach, access, call_wait, call_wait_timeout, run, back, fresh, start, next,
  IsReturn,
}
use zeroipc.Barrier.Rounds.{Inv, present}
use zeroipc.Barrier.Rounds.Moves.{
  quiet-Inv, present-le, reset-Inv, release-Inv, arrive-Inv, arrivals_in,
}

abbrev IsSound : ℕ → System → Type 0
IsSound n s = Inv n s.barrier s.pc s.arrivals s.rounds

module _ {n : ℕ} {s : System} (inv : IsSound n s) (i : ℕ) (lt : i < n) where
  spin-IsSound :
      (late timed : Bool) (my : ℕ)
      → s.pc i ≡ spin timed my
      → IsSound n (access late i (spin timed my) s)
  unfolding access step
  spin-IsSound late timed my e = elim (Bool-cases (s.barrier.generation == my)) [
    | inl same ↦
        rw (same, untimed)
          (quiet-Inv inv i (spin false my) lt (ground (arith, inv.place i lt)) refl (ground arith))
    | inr changed ↦ rw changed (
        quiet-Inv inv i passed lt (ground (arith, inv.place i lt, inv.generation_eq)) refl
          (ground arith))
  ]
    where
      untimed : timed ≡ false
      untimed = ground (arith, inv.place i lt)

  access-IsSound : (late : Bool) (p : Pc) → s.pc i ≡ p → IsSound n (access late i p s)
  unfolding access step
  access-IsSound late idle e =
      quiet-Inv inv i idle lt (ground (arith, inv.place i lt)) refl (ground arith)
  access-IsSound late (load_generation t) e =
      quiet-Inv inv i (arrive t s.barrier.generation) lt
        (ground (arith, inv.place i lt, inv.generation_eq)) refl (ground arith)
  access-IsSound late (arrive t my) e = arrive-Inv inv i my t lt e
  access-IsSound late reset e = reset-Inv inv i lt e
  access-IsSound late release e = release-Inv inv i lt e
  access-IsSound late (spin t my) e = spin-IsSound late t my e
  access-IsSound late leave e = absurd (ground (arith, inv.place i lt))
  access-IsSound late passed e =
      quiet-Inv inv i passed lt (ground (arith, inv.place i lt)) refl (ground arith)
  access-IsSound late timed_out e = absurd (ground (arith, inv.place i lt))

back-IsSound :
    {n : ℕ} {s : System} (inv : IsSound n s) (i : ℕ)
    → i < n
    → (p : Pc) → s.pc i ≡ p
    → IsReturn p
    → IsSound n (record s { pc = update s.pc i idle })
back-IsSound inv i lt passed e r =
    quiet-Inv inv i idle lt (ground (arith, inv.place i lt)) refl (ground arith)
back-IsSound inv i lt timed_out e r = absurd (ground (arith, inv.place i lt))
back-IsSound inv i lt p e r = absurd r

Step-IsSound : {n : ℕ} {s t : System} → Step n false s t → IsSound n s → IsSound n t
Step-IsSound (call_wait i lt e) inv =
    quiet-Inv inv i (load_generation false) lt (ground (arith, inv.place i lt)) refl (ground arith)
Step-IsSound (call_wait_timeout i t lt no_timeout e) inv = cc
Step-IsSound {s = s} (run late i lt) inv = access-IsSound inv i lt late (s.pc i) refl
Step-IsSound {s = s} (back i lt r) inv = back-IsSound inv i lt (s.pc i) refl r

fresh-IsSound : (n : ℕ) → 0 < n → IsSound n (fresh n)
unfolding fresh
fresh-IsSound n pos_n = record {
  nonzero = pos_n;
  num_eq = refl;
  generation_eq = refl;
  place = λ i lt. refl;
  counted = λ few. rw none;
  last = λ i lt l. cc;
  one_last = λ i j lt lt' l m. cc;
  some_last = λ e. absurd (omega (arith, none));
  cleared = λ i lt e. cc;
}
  where
    none : present n (λ i. 0) 0 ≡ 0
    none = total-zero n (λ i. 0 - 0) (λ i lt. omega arith)

Reach-IsSound : {n : ℕ} {s : System} → 0 < n → Reach n false s → IsSound n s
Reach-IsSound {n} pos_n start = fresh-IsSound n pos_n
Reach-IsSound pos_n (next r st) = Step-IsSound st (Reach-IsSound pos_n r)

-- In every state that at least one participant reaches from a new barrier without a timeout, when
-- one of them has passed, it has arrived as often as the generation has been incremented, every
-- participant has arrived at least as often, so that none passes early, and at most once more, so
-- that none runs away.
pub passes_together :
    {n : ℕ} {s : System} (i j : ℕ)
    → 0 < n
    → Reach n false s
    → i < n
    → j < n
    → s.pc i ≡ passed
    → (s.arrivals i ≡ s.rounds) × (s.arrivals i ≤ s.arrivals j) × (s.arrivals j ≤ s.arrivals i + 1)
passes_together i j pos_n r hi hj e =
    let inv = Reach-IsSound pos_n r in
    ground (arith, inv.place i hi, arrivals_in inv i hi, arrivals_in inv j hj)

-- In every state that at least one participant reaches from a new barrier without a timeout, if
-- all of them are in the waiting loop, then one of them sees a new generation, and its next access
-- lets it pass.
pub no_deadlock :
    {n : ℕ} {s : System} (my : ℕ → ℕ)
    → 0 < n
    → Reach n false s
    → ((i : ℕ) → i < n → s.pc i ≡ spin false (my i))
    → (i : ℕ) × (i < n) × ((late : Bool) → (step late s.barrier (s.pc i)).1 ≡ passed)
unfolding step
no_deadlock {n} {s} my pos_n r all = elim (ℕ_discrete (present n s.arrivals s.rounds) n) [
  | yes everybody ↦
      let (i, lt, l) = (Reach-IsSound pos_n r).some_last everybody in
      absurd (ground (arith, all i lt))
  | no missing ↦
      let inv = Reach-IsSound pos_n r in
      let (i, lt, e) =
        total_missing n (λ j. s.arrivals j - s.rounds) (omega (arith, present-le inv)) in
      (
        i,
        lt,
        λ late. ground (arith, all i lt, inv.place i lt, inv.generation_eq, arrivals_in inv i lt),
      )
]
