-- ===== src/Table/Search.antt =====
-- The search loop of the table functions: what index it finds, and that it finds one.
use zeroipc.Base.{
  ℕ, zero, suc, ◌+◌, ◌≤◌, ◌<◌, ◌≡◌, ◌≢◌, refl, none, some, true, inl, inr, arith, Name, name_eq,
  eq_of_name_eq, Bool-cases, ap, sym, ◌∙◌, ℕ_discrete, name_eq_iff, if◌then◌else◌,
}
use native.Mathlib.Nat.{add-zero}
use mathlib.Core.Bool.{false≢true}
use zeroipc.Table.{Entry, search_from}

module _ (entries : ℕ → Entry) (name : Name) where
  -- An index that the loop returns is in range, bears the name, and is the first to bear it.
  pub search_from-some :
      (i n k : ℕ)
      → search_from entries name i n ≡ some k
      → (i ≤ k) × (k < i + n) × ((entries k).name ≡ name)
  unfolding search_from
  search_from-some i zero k h = ground arith
  search_from-some i (suc n) k h = elim (Bool-cases (name_eq (entries i).name name)) [
    | inl hit ↦ ground (arith, eq_of_name_eq (entries i).name name)
    | inr miss ↦
        let (lo, hi, e) = search_from-some (i + 1) n k (rw miss at h) in
        (omega arith, omega arith, e)
  ]

  -- If the loop finds nothing, no entry in range bears the name.
  pub search_from-none :
      (i n k : ℕ)
      → search_from entries name i n ≡ none
      → i ≤ k
      → k < i + n
      → (entries k).name ≢ name
  unfolding search_from
  search_from-none i zero k h lo hi = absurd (omega arith)
  search_from-none i (suc n) k h lo hi = elim (Bool-cases (name_eq (entries i).name name)) [
    | inl hit ↦ ground arith
    | inr miss ↦ elim (ℕ_discrete i k) [
      | yes here ↦ λ e. false≢true (sym miss ∙ (name_eq_iff (entries i).name name).1 (rw here e))
      | no later ↦ search_from-none (i + 1) n k (rw miss at h) (omega arith) (omega arith)
    ]
  ]

  -- With the name at an index, and at none before it, the loop returns that index.
  pub search_from_first :
      (i n k : ℕ)
      → i ≤ k
      → k < i + n
      → (entries k).name ≡ name
      → ((j : ℕ) → i ≤ j → j < k → (entries j).name ≢ name)
      → search_from entries name i n ≡ some k
  unfolding search_from
  search_from_first i zero k lo hi e first = absurd (omega arith)
  search_from_first i (suc n) k lo hi e first = elim (ℕ_discrete i k) [
    | yes here ↦
        let e' : name_eq (entries i).name name ≡ true =
          (name_eq_iff (entries i).name name).1 (rw here e) in
        rw e' (ap some here)
    | no later ↦ elim (Bool-cases (name_eq (entries i).name name)) [
      | inl hit ↦ absurd (first i (omega arith) (omega arith) (eq_of_name_eq _ _ hit))
      | inr miss ↦ rw miss (
          search_from_first (i + 1) n k (omega arith) (omega arith) e
            (λ j p q. first j (omega arith) q))
    ]
  ]

  -- A change of the entries outside the range changes nothing.
  pub search_from-ext :
      (entries' : ℕ → Entry) (i n : ℕ)
      → ((j : ℕ) → i ≤ j → j < i + n → entries' j ≡ entries j)
      → search_from entries' name i n ≡ search_from entries name i n
  unfolding search_from
  search_from-ext entries' i zero same = refl
  search_from-ext entries' i (suc n) same = rw (
    same i (omega arith) (omega arith),
    search_from-ext entries' (i + 1) n (λ j p q. same j (omega arith) (omega arith)),
  )

  -- Where no entry in range bears the name, the loop finds nothing.
  pub search_from_absent :
      (i n : ℕ)
      → ((j : ℕ) → i ≤ j → j < i + n → (entries j).name ≢ name)
      → search_from entries name i n ≡ none
  unfolding search_from
  search_from_absent i zero ne = refl
  search_from_absent i (suc n) ne = elim (Bool-cases (name_eq (entries i).name name)) [
    | inl hit ↦ absurd (ne i (omega arith) (omega arith) (eq_of_name_eq _ _ hit))
    | inr miss ↦ rw miss (search_from_absent (i + 1) n (λ j p q. ne j (omega arith) (omega arith)))
  ]

  -- The last round of the loop, split off.
  pub search_from_last :
      (i n : ℕ)
      → search_from entries name i (suc n) ≡ (elim (search_from entries name i n) [
        | some k ↦ some k
        | none ↦ if name_eq (entries (i + n)).name name then some (i + n) else none
      ])
  unfolding search_from
  search_from_last i zero = rw add-zero (ground arith)
  search_from_last i (suc n) = ground (arith, search_from_last (i + 1) n)
