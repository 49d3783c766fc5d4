-- ===== src/Base/Tests.antt =====
-- Boolean tests on the native numbers and on C strings, and the conditional.
use Prim.Native.Nat.{ℕ, compare, Ordering}
use mathlib.Core.Path.{◌≡◌, refl}
use mathlib.Core.Logic.{◌↔◌, ◌⊎◌, inl, inr}
use mathlib.Core.Bool.{Bool, true, false, ◌&&◌}
use mathlib.Core.List.{List, [], ◌∷◌}
use mathlib.Core.Option.{Option, none, some}
use native.Mathlib.Omega.{arith}

abbrev pub ltb : ℕ → ℕ → Bool
ltb a b = elim (compare a b) [ Ordering.lt ↦ true | _ ↦ false ]

abbrev pub leb : ℕ → ℕ → Bool
leb a b = elim (compare a b) [ Ordering.gt ↦ false | _ ↦ true ]

infix 50 ◌==◌
abbrev pub ◌==◌ : ℕ → ℕ → Bool
a == b = elim (compare a b) [ Ordering.eq ↦ true | _ ↦ false ]

infix 1 if◌then◌else◌
abbrev pub if◌then◌else◌ {ℓ} : {A : Type ℓ} → Bool → A → A → A
if true then x else y = x
if false then x else y = y

-- To split on a computed value and keep the equation.
pub Bool-cases : (b : Bool) → (b ≡ true) ⊎ (b ≡ false)
Bool-cases true = inl refl
Bool-cases false = inr refl

pub Option-cases {ℓ} : {A : Type ℓ} (o : Option A) → (o ≡ none) ⊎ ((a : A) × (o ≡ some a))
Option-cases none = inl refl
Option-cases (some a) = inr (a, refl)

-- A C string: its bytes before the terminating NUL.
abbrev pub Name : Type 0
Name = List ℕ

-- `strcmp(a, b) == 0`
unfoldable pub name_eq : Name → Name → Bool
name_eq [] [] = true
name_eq [] (y ∷ ys) = false
name_eq (x ∷ xs) [] = false
name_eq (x ∷ xs) (y ∷ ys) = x == y && name_eq xs ys

pub name_eq_refl : (a : Name) → name_eq a a ≡ true
unfolding name_eq
name_eq_refl [] = refl
name_eq_refl (x ∷ xs) = ground (arith, name_eq_refl xs)

pub eq_of_name_eq : (a b : Name) → name_eq a b ≡ true → a ≡ b
unfolding name_eq
eq_of_name_eq [] [] h = refl
eq_of_name_eq [] (y ∷ ys) h = ground arith
eq_of_name_eq (x ∷ xs) [] h = ground arith
eq_of_name_eq (x ∷ xs) (y ∷ ys) h = ground (arith, eq_of_name_eq xs ys)

pub name_eq_iff : (a b : Name) → (name_eq a b ≡ true) ↔ (a ≡ b)
name_eq_iff a b = (eq_of_name_eq a b, λ e. subst_eq e)
  where
    subst_eq : a ≡ b → name_eq a b ≡ true
    subst_eq e = rw e (name_eq_refl b)
