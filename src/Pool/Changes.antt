-- ===== src/Pool/Changes.antt =====
-- What an access changes on a pool keeps the invariant.
use zeroipc.Base.{ℕ, ◌+◌, ◌*◌, ◌%◌, ◌^◌, ◌≡◌, ◌≢◌, List, ◌∷◌, arith, update, ℕ_discrete, subst, sym}
use zeroipc.Pool.{Pc, null_index, take_count, give_claim, give_count}
use zeroipc.Pool.System.{System, Owner, free, taking, giving, tail}
use zeroipc.Pool.Chain.{head_of, mem}
use zeroipc.Pool.Owners.{
  IsKept, Place, Inv, head-free, Place-owner, Place-head, Place-link, Place-count,
}
use zeroipc.Pool.Moves.{owner-IsKept, link-IsKept, take-IsKept, give-IsKept, places}

pub here_of :
    {s : System} → Inv s → (i : ℕ) {pc : Pc} → s.pc i ≡ pc → Place s.pool s.owner s.bumps i pc
here_of {s} v i e = subst (λ q. Place s.pool s.owner s.bumps i q) e (v.place i)

-- A thread goes on without a change of what the invariant speaks of.
pub pc-Inv :
    {s : System} (i : ℕ) (pc' : Pc)
    → Inv s
    → Place s.pool s.owner s.bumps i pc'
    → Inv (record s { pc = update s.pc i pc' })
pc-Inv {s} i pc' v h = record {
  kept = v.kept;
  place = places s.pool s.owner s.bumps s.pc i pc' h (λ j ne. v.place j);
}

pub take-Inv :
    {s : System} (i v x : ℕ) (xs : List ℕ)
    → Inv s
    → s.frees ≡ x ∷ xs
    → v ≡ (s.bumps + 1) * 2 ^ 32 + s.pool.next x
    → Inv (record s {
      pool = record (s.pool) { free_head = v };
      pc = update s.pc i (take_count x);
      owner = update s.owner x (taking i);
      frees = tail s.frees;
      bumps = s.bumps + 1;
    })
unfolding tail
take-Inv {s} i v x xs inv e ev =
    let kept : IsKept s.pool s.owner (x ∷ xs) s.bumps =
      subst (λ l. IsKept s.pool s.owner l s.bumps) e inv.kept in
    let front : s.owner x ≡ free = (kept.listed x (unfold mem in ground arith)).0 in
    subst
      (λ w. Inv (record s {
        pool = record (s.pool) { free_head = w };
        pc = update s.pc i (take_count x);
        owner = update s.owner x (taking i);
        frees = tail s.frees;
        bumps = s.bumps + 1;
      }))
      (sym ev)
      (record {
        kept =
            subst
              (λ l.
                IsKept (record (s.pool) { free_head = (s.bumps + 1) * 2 ^ 32 + s.pool.next x })
                  (update s.owner x (taking i)) (tail l) (s.bumps + 1))
              (sym e) (take-IsKept x xs i kept);
        place =
            places (record (s.pool) { free_head = (s.bumps + 1) * 2 ^ 32 + s.pool.next x })
              (update s.owner x (taking i)) (s.bumps + 1) s.pc i (take_count x) (ground arith)
              (λ j ne.
                Place-head s.pool (update s.owner x (taking i)) s.bumps j (s.pc j) (s.pool.next x) (
                  Place-owner s.pool s.owner s.bumps j (s.pc j) x (taking i) (ground arith)
                    (ground arith) (inv.place j)));
      })

pub give-Inv :
    {s : System} (i v k : ℕ)
    → Inv s
    → s.owner k ≡ giving i
    → s.pool.next k ≡ head_of s.frees
    → v ≡ (s.bumps + 1) * 2 ^ 32 + k
    → Inv (record s {
      pool = record (s.pool) { free_head = v };
      pc = update s.pc i give_count;
      owner = update s.owner k free;
      frees = k ∷ s.frees;
      bumps = s.bumps + 1;
    })
give-Inv {s} i v k inv own e ev =
    subst
      (λ w. Inv (record s {
        pool = record (s.pool) { free_head = w };
        pc = update s.pc i give_count;
        owner = update s.owner k free;
        frees = k ∷ s.frees;
        bumps = s.bumps + 1;
      }))
      (sym ev)
      (record {
        kept = give-IsKept k (ground arith) e inv.kept;
        place =
            places (record (s.pool) { free_head = (s.bumps + 1) * 2 ^ 32 + k })
              (update s.owner k free) (s.bumps + 1) s.pc i give_count tt
              (λ j ne. Place-head s.pool (update s.owner k free) s.bumps j (s.pc j) k (
                Place-owner s.pool s.owner s.bumps j (s.pc j) k free (ground arith) (ground arith)
                  (inv.place j)));
      })

pub link-Inv :
    {s : System} (i k h : ℕ)
    → Inv s
    → s.owner k ≡ giving i
    → Inv (record s {
      pool = record (s.pool) { next = update s.pool.next k (h % 2 ^ 32) };
      pc = update s.pc i (give_claim k h);
    })
link-Inv {s} i k h inv own = record {
  kept = link-IsKept k (h % 2 ^ 32) (ground arith) inv.kept;
  place =
      places (record (s.pool) { next = update s.pool.next k (h % 2 ^ 32) }) s.owner s.bumps s.pc i
        (give_claim k h) (own, ground arith)
        (λ j ne.
          Place-link s.pool s.owner s.bumps j (s.pc j) k (h % 2 ^ 32) (ground arith)
            (not_front inv.kept) (inv.place j));
}
  where
    not_front : IsKept s.pool s.owner s.frees s.bumps → k ≢ s.pool.free_head % 2 ^ 32
    not_front kept e = elim (ℕ_discrete (s.pool.free_head % 2 ^ 32) null_index) [
      | yes n ↦ omega (arith, e, n, kept.small, kept.within k (ground arith))
      | no n ↦ absurd (ground (arith, head-free kept n))
    ]

-- The owner of a node of one's own changes.
pub own-Inv :
    {s : System} (i k : ℕ) (o : Owner) (pc' : Pc)
    → Inv s
    → s.owner k ≢ free
    → o ≢ free
    → ((j : ℕ) → i ≢ j → (s.owner k ≢ taking j) × (s.owner k ≢ giving j))
    → Place s.pool (update s.owner k o) s.bumps i pc'
    → Inv (record s { pc = update s.pc i pc'; owner = update s.owner k o })
own-Inv {s} i k o pc' inv h g apart mine = record {
  kept = owner-IsKept k o h g inv.kept;
  place = places s.pool (update s.owner k o) s.bumps s.pc i pc' mine (λ j ne.
      Place-owner s.pool s.owner s.bumps j (s.pc j) k o (apart j ne).0 (apart j ne).1
        (inv.place j));
}

pub count-Inv :
    {s : System} (count : ℕ)
    → Inv s
    → Inv (record s { pool = record (s.pool) { allocated = count } })
count-Inv {s} count v = record {
  kept = record {
    small = v.kept.small;
    tagged = v.kept.tagged;
    linked = v.kept.linked;
    distinct = v.kept.distinct;
    listed = v.kept.listed;
    complete = v.kept.complete;
    within = v.kept.within;
  };
  place = λ j. Place-count s.pool s.owner s.bumps j (s.pc j) count (v.place j);
}
