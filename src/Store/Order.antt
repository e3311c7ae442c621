-- ===== src/Store/Order.antt =====
-- Orders given by a test, and lists sorted by one.
use skillhunt.Common.{
  ℕ, zero, suc, ◌≡◌, ◌⊎◌, Bool, true, List, [], ◌∷◌, All, All-take, All-drop, take, drop,
}
use mathlib.Core.List.{reverse_aux}
use skillhunt.Common.Membership.{All-imp}

module _ {E : Type 0} (le : E → E → Bool) where
  abbrev pub IsTotal : Type 0
  IsTotal = (a b : E) → (le a b ≡ true) ⊎ (le b a ≡ true)

  abbrev pub IsTransitive : Type 0
  IsTransitive = (a b c : E) → le a b ≡ true → le b c ≡ true → le a c ≡ true

  abbrev pub IsSorted : List E → Type 0
  IsSorted [] = Unit
  IsSorted (x ∷ xs) = All (λ y. le x y ≡ true) xs × IsSorted xs

  pub IsSorted-take : (n : ℕ) (xs : List E) → IsSorted xs → IsSorted (take n xs)
  IsSorted-take zero xs h = tt
  IsSorted-take (suc n) [] h = tt
  IsSorted-take (suc n) (x ∷ xs) (b, h) = (All-take _ n xs b, IsSorted-take n xs h)

  pub IsSorted-drop : (n : ℕ) (xs : List E) → IsSorted xs → IsSorted (drop n xs)
  IsSorted-drop zero xs h = h
  IsSorted-drop (suc n) [] h = tt
  IsSorted-drop (suc n) (x ∷ xs) (b, h) = IsSorted-drop n xs h

  -- What is taken stands before what is dropped.
  pub IsSorted-split :
      (n : ℕ) (xs : List E)
      → IsSorted xs
      → All (λ x. All (λ y. le x y ≡ true) (drop n xs)) (take n xs)
  IsSorted-split zero xs h = tt
  IsSorted-split (suc n) [] h = tt
  IsSorted-split (suc n) (x ∷ xs) (b, h) = (All-drop _ n xs b, IsSorted-split n xs h)

pub IsSorted-reverse_aux :
    {E : Type 0} (le : E → E → Bool) (xs ys : List E)
    → IsSorted le xs
    → IsSorted (λ a b. le b a) ys
    → All (λ y. All (λ x. le y x ≡ true) xs) ys
    → IsSorted (λ a b. le b a) (reverse_aux xs ys)
IsSorted-reverse_aux le [] ys h k m = k
IsSorted-reverse_aux le (x ∷ xs) ys (b, h) k m =
    IsSorted-reverse_aux le xs (x ∷ ys) h (All-imp _ _ (λ y r. r.0) ys m, k)
      (b, All-imp _ _ (λ y r. r.1) ys m)
