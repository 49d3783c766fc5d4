-- ===== src/Pool/Safety.antt =====
-- What holds in every state that the threads on a pool reach.
use zeroipc.Base.{
  ℕ, ◌+◌, ◌%◌, ◌^◌, ◌<◌, ◌≡◌, ◌≢◌, ◌↔◌, ◌⊎◌, inl, inr, Bool, true, arith, ℕ_discrete, subst, sym,
  ◌∙◌, [], ◌∷◌, List,
}
use zeroipc.Pool.{
  Pc, step, take_load, exhausted, null_index, unpack_index, take_claim, take_count, give_load,
  give_link, give_claim,
}
use zeroipc.Pool.System.{System, free, taking, lent, giving, fresh, Reach}
use zeroipc.Pool.Chain.{mem, head_of}
use zeroipc.Pool.Owners.{IsKept, Place, Inv, Seen, head_fits, head-free}
use zeroipc.Pool.Steps.{Reach-Inv}

-- A thread has the node in its hands: its `allocate` has won it and has not returned, or its
-- `deallocate` has not put it back yet.
abbrev pub Holding : Pc → ℕ → Type 0
Holding (take_count j) k = j ≡ k
Holding (give_load j) k = j ≡ k
Holding (give_link j h) k = j ≡ k
Holding (give_claim j h) k = j ≡ k
Holding pc k = ⊥

holder :
    (s : System) (i k : ℕ) (pc : Pc)
    → Place s.pool s.owner s.bumps i pc
    → Holding pc k
    → (s.owner k ≡ taking i) ⊎ (s.owner k ≡ giving i)
holder s i k (take_count j) pl h = inl (subst (λ m. s.owner m ≡ taking i) h pl)
holder s i k (give_load j) pl h = inr (subst (λ m. s.owner m ≡ giving i) h pl)
holder s i k (give_link j q) pl h = inr (subst (λ m. s.owner m ≡ giving i) h pl)
holder s i k (give_claim j q) pl h = inr (subst (λ m. s.owner m ≡ giving i) h pl.0)
holder s i k pc pl h = absurd h

-- The current head that a thread has loaded is a free node.
head_free_of :
    {s : System} {h : ℕ}
    → Inv s
    → s.pool.free_head ≡ h
    → Seen s.pool.capacity s.bumps h
    → (s.owner (unpack_index h) ≡ free) × (unpack_index h < s.pool.capacity)
unfolding unpack_index
head_free_of {s} {h} v same seen =
    let kept = v.kept in
    let e : s.pool.free_head % 2 ^ 32 ≡ h % 2 ^ 32 = omega (arith, same) in
    let (own, lt) = head-free kept (omega (arith, e, seen.1, kept.small)) in
    (ground (arith, own, e), omega (arith, lt, e))

-- A list whose head is null has no member.
empty_list :
    (s : System)
    → IsKept s.pool s.owner s.frees s.bumps
    → s.pool.free_head % 2 ^ 32 ≡ null_index
    → (k : ℕ) → ¬ (mem k s.frees ≡ true)
empty_list s kept null k h = none_in s.frees (kept.listed) (sym (head_fits kept) ∙ null) h
  where
    none_in :
        (xs : List ℕ)
        → ((m : ℕ) → mem m xs ≡ true → (s.owner m ≡ free) × (m < s.pool.capacity))
        → head_of xs ≡ null_index
        → ¬ (mem k xs ≡ true)
    none_in [] listed e h = unfold mem in cc h
    none_in (x ∷ xs) listed e h = unfold mem head_of in ground (arith, listed x, kept.small)

module _ (n elem_size : ℕ) (links : ℕ → ℕ) (positive : 0 < n) (small : n < 2 ^ 32) where
  -- In a pool of n nodes, 0 < n < 2 ^ 32, in every state that threads reach with fewer than 2 ^ 32 - 1
  -- replacements of its head: when an `allocate` is about to take the head that it has loaded, and the
  -- head is still that word, then its index is inside the pool, no caller has that node, and no thread
  -- is in the middle of taking it or of giving it back.
  pub hands_out_free :
      {s : System}
      → Reach (fresh n elem_size links) s
      → s.bumps + 1 < 2 ^ 32
      → (i h next : ℕ) → s.pc i ≡ take_claim h next
      → s.pool.free_head ≡ h
      → (unpack_index h < s.pool.capacity)
        × (s.owner (unpack_index h) ≢ lent)
        × ((j : ℕ) → ¬ (Holding (s.pc j) (unpack_index h)))
  hands_out_free {s} r b i h next at same =
      let v = Reach-Inv n elem_size links positive small r b in
      let seen = (subst (λ q. Place s.pool s.owner s.bumps i q) at (v.place i)).0 in
      let (loose, below) = head_free_of v same seen in
      (
        below,
        ground (arith, loose),
        λ j held. ground (arith, loose, holder s j (unpack_index h) (s.pc j) (v.place j) held),
      )

  -- In a pool of n nodes, 0 < n < 2 ^ 32, in every state that threads reach with fewer than 2 ^ 32 - 1
  -- replacements of its head: a node that a thread has in its hands, in the middle of an `allocate` or
  -- of a `deallocate`, no caller has, and two threads that have it are one.
  pub exclusive_nodes :
      {s : System}
      → Reach (fresh n elem_size links) s
      → s.bumps + 1 < 2 ^ 32
      → (i j k : ℕ) → Holding (s.pc i) k
      → Holding (s.pc j) k
      → (s.owner k ≢ lent) × (i ≡ j)
  exclusive_nodes {s} r b i j k h theirs =
      let v = Reach-Inv n elem_size links positive small r b in
      let mine = holder s i k (s.pc i) (v.place i) h in
      (ground (arith, mine), ground (arith, mine, holder s j k (s.pc j) (v.place j) theirs))

  -- In a pool of n nodes, 0 < n < 2 ^ 32, in every state that threads reach with fewer than 2 ^ 32 - 1
  -- replacements of its head: an `allocate` that loads the head answers that the pool is exhausted
  -- exactly when no node of the pool is free.
  pub exhausted_means :
      {s : System}
      → Reach (fresh n elem_size links) s
      → s.bumps + 1 < 2 ^ 32
      → (lost : Bool)
      → ((step lost s.pool take_load).1 ≡ exhausted)
        ↔ ((k : ℕ) → k < s.pool.capacity → s.owner k ≢ free)
  unfolding step unpack_index
  exhausted_means {s} r b lost =
      let kept = (Reach-Inv n elem_size links positive small r b).kept in
      (
        λ e k lt own. absurd (empty_list s kept (ground (arith, e)) k (kept.complete k lt own)),
        λ none_free. elim (ℕ_discrete (s.pool.free_head % 2 ^ 32) null_index) [
          | yes null ↦ rw null
          | no more ↦
              let (own, lt) = head-free kept more in
              absurd (none_free (s.pool.free_head % 2 ^ 32) lt own)
        ],
      )
