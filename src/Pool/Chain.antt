-- ===== src/Pool/Chain.antt =====
-- The free list as a chain of links through distinct nodes.
use zeroipc.Base.{
  ℕ, zero, suc, ◌+◌, ◌-◌, ◌≤◌, ◌<◌, ◌≡◌, Bool, true, false, ◌||◌, List, [], ◌∷◌, arith, refl,
  update, ◌==◌,
}
use zeroipc.Pool.{null_index, link_from}
use zeroipc.Pool.System.{run_of}

unfoldable pub head_of : List ℕ → ℕ
head_of [] = null_index
head_of (x ∷ xs) = x

unfoldable pub mem : ℕ → List ℕ → Bool
mem k [] = false
mem k (x ∷ xs) = x == k || mem k xs

-- Each node's link is the next node, and the last one's is the null index.
abbrev pub IsLinked : (ℕ → ℕ) → List ℕ → Type 0
IsLinked next [] = Unit
IsLinked next (x ∷ xs) = (next x ≡ head_of xs) × IsLinked next xs

abbrev pub IsDistinct : List ℕ → Type 0
IsDistinct [] = Unit
IsDistinct (x ∷ xs) = (mem x xs ≡ false) × IsDistinct xs

pub update-IsLinked :
    (next : ℕ → ℕ) (k v : ℕ) (xs : List ℕ)
    → mem k xs ≡ false
    → IsLinked next xs
    → IsLinked (update next k v) xs
unfolding mem
update-IsLinked next k v [] h l = tt
update-IsLinked next k v (x ∷ xs) h l =
    (ground (arith, h, l), update-IsLinked next k v xs (ground (arith, h)) l.1)

-- What the constructor makes.
pub mem-run_of : (n a k : ℕ) → mem k (run_of n a) ≡ true → (a ≤ k) × (k < a + n)
unfolding mem run_of
mem-run_of zero a k h = ground arith
mem-run_of (suc n) a k h = ground (arith, mem-run_of n (a + 1) k)

pub mem-run_of_in : (n a k : ℕ) → a ≤ k → k < a + n → mem k (run_of n a) ≡ true
unfolding mem run_of
mem-run_of_in zero a k lo hi = absurd (omega arith)
mem-run_of_in (suc n) a k lo hi = ground (arith, mem-run_of_in n (a + 1) k)

pub run_of-IsDistinct : (n a : ℕ) → IsDistinct (run_of n a)
unfolding run_of
run_of-IsDistinct zero a = tt
run_of-IsDistinct (suc n) a = (ground (arith, mem-run_of n (a + 1) a), run_of-IsDistinct n (a + 1))

link_from_lem :
    (n i : ℕ) (next : ℕ → ℕ) (k : ℕ)
    → ((i ≤ k) → (k < i + n) → link_from n i next k ≡ k + 1)
      × (k < i → link_from n i next k ≡ next k)
unfolding link_from
link_from_lem zero i next k = (λ lo hi. absurd (omega arith), λ lt. refl)
link_from_lem (suc n) i next k =
    let (inside, below) = link_from_lem n (i + 1) (update next i (i + 1)) k in
    (λ lo hi. ground (arith, inside, below), λ lt. ground (arith, below))

run_of-IsLinked :
    (next : ℕ → ℕ) (n a : ℕ)
    → ((k : ℕ) → a ≤ k → k + 1 < a + n → next k ≡ k + 1)
    → (0 < n → next (a + n - 1) ≡ null_index)
    → IsLinked next (run_of n a)
unfolding run_of head_of
run_of-IsLinked next zero a inside last = tt
run_of-IsLinked next (suc zero) a inside last = (ground (arith, last), tt)
run_of-IsLinked next (suc (suc n)) a inside last = (
  inside a (omega arith) (omega arith),
  run_of-IsLinked next (suc n) (a + 1) (λ k lo hi. inside k (omega arith) (omega arith))
      (λ h.
        let e : a + 1 + suc n - 1 ≡ a + suc (suc n) - 1 = omega arith in rw e (last (omega arith))),
)

pub init-IsLinked :
    (n : ℕ) (next : ℕ → ℕ)
    → IsLinked (update (link_from (n - 1) 0 next) (n - 1) null_index) (run_of n 0)
init-IsLinked n next =
    run_of-IsLinked (update (link_from (n - 1) 0 next) (n - 1) null_index) n 0
      (λ k lo hi. let (inside, below) = link_from_lem (n - 1) 0 next k in ground (arith, inside))
      (λ h. ground arith)
