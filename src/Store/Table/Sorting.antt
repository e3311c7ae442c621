-- ===== src/Store/Table/Sorting.antt =====
-- `ORDER BY` as an insertion sort.
use skillhunt.Common.{
  ◌+◌, ◌≡◌, refl, inl, inr, Bool, true, List, [], ◌∷◌, arith, if◌then◌else◌, bit, count, All,
  Bool-cases,
}
use skillhunt.Store.Order.{IsTotal, IsTransitive, IsSorted}

module _ {E : Type 0} (le : E → E → Bool) where
  abbrev insert : E → List E → List E
  insert e [] = e ∷ []
  insert e (x ∷ xs) = if le e x then e ∷ x ∷ xs else x ∷ insert e xs

  abbrev pub sort : List E → List E
  sort [] = []
  sort (x ∷ xs) = insert x (sort xs)

  count-insert :
      (q : E → Bool) (e : E) (xs : List E) → count q (insert e xs) ≡ bit (q e) + count q xs
  count-insert q e [] = refl
  count-insert q e (x ∷ xs) = ground (arith, count-insert q e xs)

  pub count-sort : (q : E → Bool) (xs : List E) → count q (sort xs) ≡ count q xs
  count-sort q [] = refl
  count-sort q (x ∷ xs) = omega (arith, count-insert q x (sort xs), count-sort q xs)

  insert-All : (P : E → Type 0) (e : E) (xs : List E) → P e → All P xs → All P (insert e xs)
  insert-All P e [] p h = (p, tt)
  insert-All P e (x ∷ xs) p h = ground (arith, insert-All P e xs p h.1)

  pub sort-All : (P : E → Type 0) (xs : List E) → All P xs → All P (sort xs)
  sort-All P [] h = tt
  sort-All P (x ∷ xs) h = insert-All P x (sort xs) h.0 (sort-All P xs h.1)

  module _ (total : IsTotal le) (transitive : IsTransitive le) where
    All-le :
        (e x : E) (xs : List E)
        → le e x ≡ true
        → All (λ y. le x y ≡ true) xs
        → All (λ y. le e y ≡ true) xs
    All-le e x [] p h = tt
    All-le e x (y ∷ ys) p h = (transitive e x y p h.0, All-le e x ys p h.1)

    insert-IsSorted : (e : E) (xs : List E) → IsSorted le xs → IsSorted le (insert e xs)
    insert-IsSorted e [] h = (tt, tt)
    insert-IsSorted e (x ∷ xs) h = elim (Bool-cases (le e x)) [
      | inl before ↦ rw before ((before, All-le e x xs before h.0), h)
      | inr after ↦
          let back : le x e ≡ true = ground (arith, total e x) in
          rw after (insert-All (λ y. le x y ≡ true) e xs back h.0, insert-IsSorted e xs h.1)
    ]

    pub sort-IsSorted : (xs : List E) → IsSorted le (sort xs)
    sort-IsSorted [] = tt
    sort-IsSorted (x ∷ xs) = insert-IsSorted x (sort xs) (sort-IsSorted xs)
