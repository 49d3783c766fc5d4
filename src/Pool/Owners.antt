-- ===== src/Pool/Owners.antt =====
-- The invariant of a pool under any interleaving: who has each node, and what each thread holds.
use zeroipc.Base.{
  ℕ, ◌+◌, ◌*◌, ◌%◌, ◌^◌, ◌<◌, ◌≡◌, ◌≢◌, true, List, [], ◌∷◌, arith, update, ℕ_discrete,
}
use zeroipc.Pool.{
  Pool, Pc, null_index, take_next, take_claim, take_count, give_load, give_link, give_claim,
}
use zeroipc.Pool.System.{System, Owner, free, taking, giving}
use zeroipc.Pool.Chain.{head_of, mem, IsLinked, IsDistinct}

-- A head that has been loaded: not null, and not newer than the current one.
abbrev pub Seen : ℕ → ℕ → ℕ → Type 0
Seen capacity bumps h = (h < (bumps + 1) * 2 ^ 32) × (h % 2 ^ 32 < capacity)

-- What thread `i` has at its place.
abbrev pub Place : Pool → (ℕ → Owner) → ℕ → ℕ → Pc → Type 0
Place p owner bumps i (take_next h) = Seen p.capacity bumps h
Place p owner bumps i (take_claim h n) =
    Seen p.capacity bumps h × (p.free_head ≡ h → n ≡ p.next (h % 2 ^ 32))
Place p owner bumps i (take_count k) = owner k ≡ taking i
Place p owner bumps i (give_load k) = owner k ≡ giving i
Place p owner bumps i (give_link k h) = owner k ≡ giving i
Place p owner bumps i (give_claim k h) = (owner k ≡ giving i) × (p.next k ≡ h % 2 ^ 32)
Place p owner bumps i pc = Unit

-- Who has each node; without the places of the threads.
pub record IsKept (p : Pool) (owner : ℕ → Owner) (frees : List ℕ) (bumps : ℕ) : Type 0 where
  pub small : p.capacity < 2 ^ 32
  pub tagged : p.free_head ≡ bumps * 2 ^ 32 + head_of frees
  pub linked : IsLinked p.next frees
  pub distinct : IsDistinct frees
  pub listed : (k : ℕ) → mem k frees ≡ true → (owner k ≡ free) × (k < p.capacity)
  pub complete : (k : ℕ) → k < p.capacity → owner k ≡ free → mem k frees ≡ true
  pub within : (k : ℕ) → owner k ≢ free → k < p.capacity

pub record Inv (s : System) : Type 0 where
  pub kept : IsKept s.pool s.owner s.frees s.bumps
  pub place : (i : ℕ) → Place s.pool s.owner s.bumps i (s.pc i)

-- The head of the list that the tag carries.
pub head_fits :
    {p : Pool} {owner : ℕ → Owner} {frees : List ℕ} {bumps : ℕ}
    → IsKept p owner frees bumps
    → p.free_head % 2 ^ 32 ≡ head_of frees
unfolding head_of
head_fits {p} {owner} {frees = []} k = omega (arith, k.tagged)
head_fits {p} {owner} {frees = x ∷ xs} k =
    omega (arith, k.tagged, k.small, (k.listed x (in_front x xs)).1)
  where
    in_front : (x : ℕ) (xs : List ℕ) → mem x (x ∷ xs) ≡ true
    in_front x xs = unfold mem in ground arith

-- A head that is not null is that of a list with a free node in front.
pub front_free :
    {p : Pool} {owner : ℕ → Owner} {frees : List ℕ} {bumps : ℕ}
    → IsKept p owner frees bumps
    → p.free_head % 2 ^ 32 ≢ null_index
    → (xs : List ℕ) × (frees ≡ p.free_head % 2 ^ 32 ∷ xs)
unfolding head_of
front_free {p} {owner} {frees = []} k h = absurd (omega (arith, k.tagged))
front_free {p} {owner} {frees = x ∷ xs} k h = (xs, ground (arith, head_fits k))

pub head-free :
    {p : Pool} {owner : ℕ → Owner} {frees : List ℕ} {bumps : ℕ}
    → IsKept p owner frees bumps
    → p.free_head % 2 ^ 32 ≢ null_index
    → (owner (p.free_head % 2 ^ 32) ≡ free) × (p.free_head % 2 ^ 32 < p.capacity)
head-free {p} k h =
    let (xs, e) = front_free k h in
    k.listed (p.free_head % 2 ^ 32) (rw e (unfold mem in ground arith))

-- What the others keep.
module _ (p : Pool) (owner : ℕ → Owner) (bumps : ℕ) where
  -- A node that is not theirs gets an owner.
  pub Place-owner :
      (j : ℕ) (pc : Pc) (k : ℕ) (o : Owner)
      → owner k ≢ taking j
      → owner k ≢ giving j
      → Place p owner bumps j pc
      → Place p (update owner k o) bumps j pc
  Place-owner j (take_next h) k o t g pl = pl
  Place-owner j (take_claim h n) k o t g pl = pl
  Place-owner j (take_count k') k o t g pl = elim (ℕ_discrete k k') [
    | yes e ↦ ground arith
    | no ne ↦ ground arith
  ]
  Place-owner j (give_load k') k o t g pl = elim (ℕ_discrete k k') [
    | yes e ↦ ground arith
    | no ne ↦ ground arith
  ]
  Place-owner j (give_link k' h) k o t g pl = elim (ℕ_discrete k k') [
    | yes e ↦ ground arith
    | no ne ↦ ground arith
  ]
  Place-owner j (give_claim k' h) k o t g pl = elim (ℕ_discrete k k') [
    | yes e ↦ ground arith
    | no ne ↦ ground arith
  ]
  Place-owner j pc k o t g pl = tt

  -- The head is replaced, with the next tag.
  pub Place-head :
      (j : ℕ) (pc : Pc) (index : ℕ)
      → Place p owner bumps j pc
      → Place (record p { free_head = (bumps + 1) * 2 ^ 32 + index }) owner (bumps + 1) j pc
  Place-head j (take_next h) index pl = omega (arith, pl.0, pl.1)
  Place-head j (take_claim h n) index pl =
      (omega (arith, pl.0.0, pl.0.1), λ e. absurd (omega (arith, pl.0.0, e)))
  Place-head j (take_count k) index pl = pl
  Place-head j (give_load k) index pl = pl
  Place-head j (give_link k h) index pl = pl
  Place-head j (give_claim k h) index pl = pl
  Place-head j pc index pl = tt

  -- A node that neither they have nor the head leads to gets another link.
  pub Place-link :
      (j : ℕ) (pc : Pc) (k v : ℕ)
      → owner k ≢ giving j
      → k ≢ p.free_head % 2 ^ 32
      → Place p owner bumps j pc
      → Place (record p { next = update p.next k v }) owner bumps j pc
  Place-link j (take_next h) k v g f pl = pl
  Place-link j (take_claim h n) k v g f pl = (pl.0, λ e. ground (arith, pl.1 e))
  Place-link j (take_count k') k v g f pl = pl
  Place-link j (give_load k') k v g f pl = pl
  Place-link j (give_link k' h) k v g f pl = pl
  Place-link j (give_claim k' h) k v g f pl = elim (ℕ_discrete k k') [
    | yes e ↦ ground arith
    | no ne ↦ ground arith
  ]
  Place-link j pc k v g f pl = tt

  -- The count of the allocated nodes says nothing of who has them.
  pub Place-count :
      (j : ℕ) (pc : Pc) (count : ℕ)
      → Place p owner bumps j pc
      → Place (record p { allocated = count }) owner bumps j pc
  Place-count j (take_next h) count pl = pl
  Place-count j (take_claim h n) count pl = pl
  Place-count j (take_count k) count pl = pl
  Place-count j (give_load k) count pl = pl
  Place-count j (give_link k h) count pl = pl
  Place-count j (give_claim k h) count pl = pl
  Place-count j pc count pl = tt
