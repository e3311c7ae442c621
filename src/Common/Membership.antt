-- ===== src/Common/Membership.antt =====
-- What holds of all elements of a list, after `find`, `reverse`, `filter`, `take` and `drop`.
use Prim.Native.Nat.{ℕ, zero, suc, ◌+◌}
use mathlib.Core.Path.{◌≡◌, refl, subst}
use mathlib.Core.Bool.{Bool, true}
use mathlib.Core.Option.{none, some}
use mathlib.Core.List.{List, [], ◌∷◌, reverse_aux}
use mathlib.Core.Logic.{inl, inr}
use native.Mathlib.Omega.{arith}
use skillhunt.Common.Tests.{Bool-cases}
use skillhunt.Common.Lists.{All, find, filter, count, length, take, drop}

pub find-All {ℓ} :
    {A : Type 0} (P : A → Type ℓ) (p : A → Bool) (xs : List A) (a : A)
    → All P xs
    → find p xs ≡ some a
    → P a × (p a ≡ true)
find-All P p [] a h e = cc
find-All P p (x ∷ xs) a (b, h) e = elim (Bool-cases (p x)) [
  | inl here ↦
      let same : some x ≡ some a = rw here at e in
      subst (λ o. elim o as (λ _. Type _) [ none ↦ Unit | some y ↦ P y × (p y ≡ true) ]) same
        (b, here)
  | inr there ↦ find-All P p xs a h (rw there at e)
]

pub All-reverse_aux {ℓ} :
    {A : Type 0} (P : A → Type ℓ) (xs ys : List A) → All P xs → All P ys → All P (reverse_aux xs ys)
All-reverse_aux P [] ys h k = k
All-reverse_aux P (x ∷ xs) ys (b, h) k = All-reverse_aux P xs (x ∷ ys) h (b, k)

pub All-imp {ℓ κ} :
    {A : Type 0} (P : A → Type ℓ) (Q : A → Type κ)
    → ((a : A) → P a → Q a)
    → (xs : List A) → All P xs
    → All Q xs
All-imp P Q f [] h = tt
All-imp P Q f (x ∷ xs) (p, h) = (f x p, All-imp P Q f xs h)

pub All-filter {ℓ} :
    {A : Type 0} (P : A → Type ℓ) (p : A → Bool) (xs : List A) → All P xs → All P (filter p xs)
All-filter P p [] h = tt
All-filter P p (x ∷ xs) (b, h) = elim (Bool-cases (p x)) [
  | inl e ↦ simp e (b, All-filter P p xs h)
  | inr e ↦ simp e (All-filter P p xs h)
]

pub All-filter_meets :
    {A : Type 0} (p : A → Bool) (xs : List A) → All (λ x. p x ≡ true) (filter p xs)
All-filter_meets p [] = tt
All-filter_meets p (x ∷ xs) = elim (Bool-cases (p x)) [
  | inl e ↦ simp e (refl, All-filter_meets p xs)
  | inr e ↦ simp e (All-filter_meets p xs)
]

module _ {A : Type 0} (p : A → Bool) where
  pub count-take-drop :
      (n : ℕ) (xs : List A) → count p (take n xs) + count p (drop n xs) ≡ count p xs
  count-take-drop zero xs = omega arith
  count-take-drop (suc n) [] = omega arith
  count-take-drop (suc n) (x ∷ xs) = omega (arith, count-take-drop n xs)

  pub count-reverse_aux : (xs ys : List A) → count p (reverse_aux xs ys) ≡ count p xs + count p ys
  count-reverse_aux [] ys = omega arith
  count-reverse_aux (x ∷ xs) ys = omega (arith, count-reverse_aux xs (x ∷ ys))

pub length-reverse_aux :
    {A : Type 0} (xs ys : List A) → length (reverse_aux xs ys) ≡ length xs + length ys
length-reverse_aux [] ys = omega arith
length-reverse_aux (x ∷ xs) ys = omega (arith, length-reverse_aux xs (x ∷ ys))
