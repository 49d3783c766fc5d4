-- ===== src/Pool/Moves.antt =====
-- Each access to a pool keeps the invariant.
use zeroipc.Base.{
  ℕ, ◌+◌, ◌*◌, ◌^◌, ◌≡◌, ◌≢◌, false, List, ◌∷◌, arith, refl, update, ℕ_discrete, subst, update_self,
  ap, sym,
}
use zeroipc.Pool.{Pool, Pc}
use zeroipc.Pool.System.{Owner, free, taking}
use zeroipc.Pool.Chain.{head_of, mem, update-IsLinked}
use zeroipc.Pool.Owners.{IsKept, Place}

not_listed :
    {p : Pool} {owner : ℕ → Owner} {frees : List ℕ} {bumps : ℕ}
    → IsKept p owner frees bumps
    → (k : ℕ) → owner k ≢ free
    → mem k frees ≡ false
not_listed k n h = ground (arith, k.listed n)

-- A node that nobody finds in the list goes from one owner to another.
pub owner-IsKept :
    {p : Pool} {owner : ℕ → Owner} {frees : List ℕ} {bumps : ℕ} (n : ℕ) (o : Owner)
    → owner n ≢ free
    → o ≢ free
    → IsKept p owner frees bumps
    → IsKept p (update owner n o) frees bumps
owner-IsKept n o h g k = record {
  small = k.small;
  tagged = k.tagged;
  linked = k.linked;
  distinct = k.distinct;
  listed = λ m e. ground (arith, k.listed m, k.listed n);
  complete = λ m lt e. ground (arith, k.complete m);
  within = λ m e. ground (arith, k.within m, k.within n);
}

pub link-IsKept :
    {p : Pool} {owner : ℕ → Owner} {frees : List ℕ} {bumps : ℕ} (n v : ℕ)
    → owner n ≢ free
    → IsKept p owner frees bumps
    → IsKept (record p { next = update p.next n v }) owner frees bumps
link-IsKept {p} {owner} {frees} n v h k = record {
  small = k.small;
  tagged = k.tagged;
  linked = update-IsLinked p.next n v frees (not_listed k n h) k.linked;
  distinct = k.distinct;
  listed = k.listed;
  complete = k.complete;
  within = k.within;
}

-- The first node of the list is taken.
pub take-IsKept :
    {p : Pool} {owner : ℕ → Owner} {bumps : ℕ} (n : ℕ) (frees : List ℕ) (i : ℕ)
    → IsKept p owner (n ∷ frees) bumps
    → IsKept
        (record p { free_head = (bumps + 1) * 2 ^ 32 + p.next n })
        (update owner n (taking i))
        frees
        (bumps + 1)
unfolding mem
take-IsKept {p} {owner} {bumps} n frees i k = record {
  small = k.small;
  tagged = ap (λ t. (bumps + 1) * 2 ^ 32 + t) k.linked.0;
  linked = k.linked.1;
  distinct = k.distinct.1;
  listed = λ m e. ground (arith, k.listed m, k.distinct.0);
  complete = λ m lt e. ground (arith, k.complete m);
  within = λ m e. ground (arith, k.within m, k.listed n);
}

-- A node is put in front of the list.
pub give-IsKept :
    {p : Pool} {owner : ℕ → Owner} {frees : List ℕ} {bumps : ℕ} (n : ℕ)
    → owner n ≢ free
    → p.next n ≡ head_of frees
    → IsKept p owner frees bumps
    → IsKept
        (record p { free_head = (bumps + 1) * 2 ^ 32 + n })
        (update owner n free)
        (n ∷ frees)
        (bumps + 1)
unfolding mem head_of
give-IsKept {p} {owner} {frees} {bumps} n h e k = record {
  small = k.small;
  tagged = refl;
  linked = (e, k.linked);
  distinct = (not_listed k n h, k.distinct);
  listed = λ m q. ground (arith, k.listed m, k.within n);
  complete = λ m lt q. ground (arith, k.complete m);
  within = λ m q. ground (arith, k.within m);
}

update_other : {A : Type 0} (g : ℕ → A) (i : ℕ) (v : A) (j : ℕ) → i ≢ j → update g i v j ≡ g j
update_other g i v j ne = ground arith

-- One thread moves, and the others keep what they have.
pub places :
    (p : Pool) (owner : ℕ → Owner) (bumps : ℕ) (pc : ℕ → Pc) (i : ℕ) (pc' : Pc)
    → Place p owner bumps i pc'
    → ((j : ℕ) → i ≢ j → Place p owner bumps j (pc j))
    → (j : ℕ) → Place p owner bumps j (update pc i pc' j)
places p owner bumps pc i pc' here others j = elim (ℕ_discrete i j) [
  | yes e ↦
      subst (λ j. Place p owner bumps j (update pc i pc' j)) e
        (subst (λ q. Place p owner bumps i q) (sym (update_self pc i pc')) here)
  | no ne ↦ subst (λ q. Place p owner bumps j q) (sym (update_other pc i pc' j ne)) (others j ne)
]
