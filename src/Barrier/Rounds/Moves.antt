-- ===== src/Barrier/Rounds/Moves.antt =====
-- Each access of a participant keeps the invariant.
use zeroipc.Base.{
  ℕ, ◌+◌, ◌-◌, ◌≤◌, ◌<◌, ◌≡◌, ◌≢◌, ◌⊎◌, inl, inr, Bool, false, u32, ℤ, pos, ◌+ℤ◌, eq_ℤ,
  total_change, total-le, total_full, total-zero, update, if◌then◌else◌, arith, refl, ℕ_discrete,
}
use zeroipc.Barrier.{
  Barrier, Pc, idle, load_generation, arrive, reset, release, spin, leave, passed, timed_out,
}
use zeroipc.Barrier.Rounds.{Inv, is_last, Place, present}

module _ {n : ℕ} {b : Barrier} {pc : ℕ → Pc} {arrivals : ℕ → ℕ} {round : ℕ}
    (inv : Inv n b pc arrivals round) where
  open inv use {nonzero, num_eq, generation_eq, place, counted, last, one_last, some_last, cleared}

  -- A participant has arrived in the current round at most once, and in the one before.
  pub arrivals_in : (i : ℕ) → i < n → (round ≤ arrivals i) × (arrivals i ≤ round + 1)
  arrivals_in i lt = bounds (pc i) (place i lt)
    where
      bounds :
          (p : Pc) → Place round (arrivals i) p → (round ≤ arrivals i) × (arrivals i ≤ round + 1)
      bounds idle q = omega arith
      bounds (load_generation t) q = omega arith
      bounds (arrive t m) q = omega arith
      bounds reset q = omega arith
      bounds release q = omega arith
      bounds (spin t m) q = omega arith
      bounds leave q = absurd q
      bounds passed q = omega arith
      bounds timed_out q = absurd q

  pub present-le : present n arrivals round ≤ n
  present-le = total-le n (λ i. arrivals i - round) (λ i lt. omega (arith, arrivals_in i lt))

  -- Once all are present, everybody has arrived.
  all_arrived : present n arrivals round ≡ n → (i : ℕ) → i < n → arrivals i ≡ round + 1
  all_arrived e i lt =
      omega (
        arith,
        total_full n (λ j. arrivals j - round) (λ j q. omega (arith, arrivals_in j q)) e i lt,
      )

  -- A move that changes the place of one participant, and neither the arrivals nor the round.
  pub quiet-Inv :
      (i : ℕ) (p : Pc)
      → i < n
      → Place round (arrivals i) p
      → is_last p ≡ false
      → is_last (pc i) ≡ false
      → Inv n b (update pc i p) arrivals round
  quiet-Inv i p lt q new old = record {
    nonzero = nonzero;
    num_eq = num_eq;
    generation_eq = generation_eq;
    place = λ j hj. ground (arith, place j hj);
    counted = counted;
    last = λ j hj l. ground (arith, last j);
    one_last = λ j k hj hk l m. ground (arith, one_last j k);
    some_last = λ e. let (j, hj, l) = some_last e in (j, hj, ground arith);
    cleared = λ j hj e. ground (arith, cleared j);
  }

  -- The last to arrive stores 0.
  pub reset-Inv :
      (i : ℕ)
      → i < n
      → pc i ≡ reset
      → Inv n (record b { arrived = pos 0 }) (update pc i release) arrivals round
  reset-Inv i lt e = record {
    nonzero = nonzero;
    num_eq = num_eq;
    generation_eq = generation_eq;
    place = λ j hj. ground (arith, place j hj, place i lt);
    counted = λ few. absurd (ground (arith, last i));
    last = λ j hj l. ground (arith, last i);
    one_last = λ j k hj hk l m. ground (arith, one_last j k, one_last j i, one_last i k);
    some_last = λ f. (i, lt, ground arith);
    cleared = λ j hj f. refl;
  }

  -- The last to arrive increments the generation.
  pub release-Inv :
      (i : ℕ)
      → i < n
      → pc i ≡ release
      → Inv n
          (record b { generation = u32 (b.generation + 1) })
          (update pc i passed)
          arrivals
          (round + 1)
  release-Inv i lt e = record {
    nonzero = nonzero;
    num_eq = num_eq;
    generation_eq = omega (arith, generation_eq);
    place = λ j hj. elim (ℕ_discrete i j) [
      | yes same ↦ ground (arith, all j)
      | no other ↦ ground (arith, freed j hj (pc j) refl other)
    ];
    counted = λ few. rw (cleared i lt e, none_present);
    last = λ j hj l. absurd (ground (arith, one_last i j));
    one_last = λ j k hj hk l m. absurd (ground (arith, one_last i j, one_last i k));
    some_last = λ f. absurd (omega (arith, none_present));
    cleared = λ j hj f. cleared i lt e;
  }
    where
      everybody : present n arrivals round ≡ n
      everybody = last i lt (ground arith)

      all : (j : ℕ) → j < n → arrivals j ≡ round + 1
      all = all_arrived everybody

      none_present : present n arrivals (round + 1) ≡ 0
      none_present = total-zero n (λ j. arrivals j - (round + 1)) (λ j hj. omega (arith, all j hj))

      freed : (j : ℕ) → j < n → (p : Pc) → pc j ≡ p → i ≢ j → Place (round + 1) (arrivals j) p
      freed j hj idle q other = ground (arith, all j hj)
      freed j hj p q other = ground (arith, all j hj, place j hj, one_last i j)

  -- The arrival of a participant, with the new value of `arrived` and the place that follows.
  arrived-Inv :
      (i my : ℕ) (timed : Bool) (arrived : ℤ) (p : Pc)
      → i < n
      → pc i ≡ arrive timed my
      → arrived ≡ pos (present n arrivals round + 1)
      → ((p ≡ reset) × (present n arrivals round + 1 ≡ n))
        ⊎ ((p ≡ spin timed my) × (present n arrivals round + 1 ≢ n))
      → Inv n
          (record b { arrived = arrived })
          (update pc i p)
          (update arrivals i (arrivals i + 1))
          round
  arrived-Inv i my timed arrived p lt e a cases = record {
    nonzero = nonzero;
    num_eq = num_eq;
    generation_eq = generation_eq;
    place = λ j hj. ground (arith, place j hj, place i lt);
    counted = λ few. rw one_more a;
    last = λ j hj l. ground (arith, one_more, last j, absent);
    one_last = λ j k hj hk l m. ground (arith, last j, last k, absent);
    some_last = λ f. (i, lt, ground (arith, one_more));
    cleared = λ j hj f. ground (arith, last j, absent);
  }
    where
      one_more : present n (update arrivals i (arrivals i + 1)) round ≡ present n arrivals round + 1
      one_more = ground (
        arith,
        place i lt,
        total_change n (λ j. arrivals j - round) (λ j. update arrivals i (arrivals i + 1) j - round)
            i lt (λ j ne. ground arith),
      )

      absent : present n arrivals round ≢ n
      absent f = ground (arith, all_arrived f i lt, place i lt)

  pub arrive-Inv :
      (i my : ℕ) (timed : Bool)
      → i < n
      → pc i ≡ arrive timed my
      → Inv n
          (record b { arrived = b.arrived +ℤ pos 1 })
          (update pc i
            (if eq_ℤ (b.arrived +ℤ pos 1) b.num_participants then reset else spin timed my))
          (update arrivals i (arrivals i + 1))
          round
  arrive-Inv i my timed lt e =
      arrived-Inv i my timed _ _ lt e (ground (arith, before))
        (elim (ℕ_discrete (present n arrivals round + 1) n) [
          | yes all ↦ inl (ground (arith, before, num_eq), all)
          | no some ↦ inr (ground (arith, before, num_eq), some)
        ])
    where
      before : b.arrived ≡ pos (present n arrivals round)
      before = counted (
          ground (
            arith,
            present-le,
            λ (f : present n arrivals round ≡ n). all_arrived f i lt,
            place i lt,
          ))
