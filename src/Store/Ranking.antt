-- ===== src/Store/Ranking.antt =====
-- A list that is sorted by an order without ties is the only one of its elements.
use skillhunt.Common.{
  ◌≡◌, refl, sym, ◌∙◌, ap, Bool, true, not, List, [], ◌∷◌, All, count, arith, inl, inr,
}
use skillhunt.Store.Order.{IsTotal, IsSorted}

module _ {E : Type 0} (le : E → E → Bool) (P : E → Type 0) (total : IsTotal le)
    (apart : (a b : E) → P a → P b → le a b ≡ true → le b a ≡ true → a ≡ b) where
  abbrev SameCounts : List E → List E → Type 0
  SameCounts xs ys = (q : E → Bool) → count q xs ≡ count q ys

  reflexive : (a : E) → le a a ≡ true
  reflexive a = elim (total a a) [ inl h ↦ h | inr h ↦ h ]

  -- None of the elements stands before the least.
  count_before :
      (x : E) (xs : List E) → All (λ y. le x y ≡ true) xs → count (λ y. not (le x y)) xs ≡ 0
  count_before x [] h = refl
  count_before x (y ∷ ys) (h, hs) = rw (h, count_before x ys hs) refl

  least :
      (x y : E) (xs ys : List E)
      → All (λ e. le x e ≡ true) xs
      → SameCounts (x ∷ xs) (y ∷ ys)
      → le x y ≡ true
  least x y xs ys h same =
      let none_before = count_before x (x ∷ xs) (reflexive x, h) in
      let e = sym (same (λ e. not (le x e))) ∙ none_before in ground (arith, e)

  rest : (x y : E) (xs ys : List E) → x ≡ y → SameCounts (x ∷ xs) (y ∷ ys) → SameCounts xs ys
  rest x y xs ys e same q = let h = same q in let k = ap q e in ground (arith, h, k)

  pub sorted_unique :
      (xs ys : List E)
      → All P xs
      → All P ys
      → IsSorted le xs
      → IsSorted le ys
      → SameCounts xs ys
      → xs ≡ ys
  sorted_unique [] [] p r h k same = refl
  sorted_unique [] (y ∷ ys) p r h k same = let e = same (λ e. true) in absurd (ground (arith, e))
  sorted_unique (x ∷ xs) [] p r h k same = let e = same (λ e. true) in absurd (ground (arith, e))
  sorted_unique (x ∷ xs) (y ∷ ys) (p, ps) (r, rs) (h, hs) (k, ks) same =
      let one = apart x y p r (least x y xs ys h same) (least y x ys xs k (λ q. sym (same q))) in
      let others = sorted_unique xs ys ps rs hs ks (rest x y xs ys one same) in
      ap (λ e. e ∷ xs) one ∙ ap (λ es. y ∷ es) others
