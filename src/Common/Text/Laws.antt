-- ===== src/Common/Text/Laws.antt =====
-- The order of texts is total, and `split` undoes `join`.
use Prim.Native.Nat.{ℕ, Ordering, compare as compare_ℕ}
use Prim.Native.Char.{Char, code}
use Prim.Native.String.compare
use Prim.Native.String.append
use Prim.Native.String.{String, [], ◌∷◌, ◌++◌, compare, then as or_else}
use mathlib.Core.Path.{◌≡◌, refl, sym, ◌∙◌, ap, subst}
use mathlib.Core.Bool.{Bool, true, false, not, ◌&&◌}
use mathlib.Core.List.{List}
use native.Mathlib.Omega.{arith}
use text.Mathlib.TextEquality.{path_by_compare}
use skillhunt.Common.Tests.{Bool-cases, nat_beq_iff}
use mathlib.Core.Logic.{inl, inr}
use text.Mathlib.Text.{is_lt}
use skillhunt.Common.Text.{precedes, split_on, is_char}

abbrev swap : Ordering → Ordering
swap Ordering.lt = Ordering.gt
swap Ordering.eq = Ordering.eq
swap Ordering.gt = Ordering.lt

compare_ℕ-swap : (m n : ℕ) → compare_ℕ n m ≡ swap (compare_ℕ m n)
compare_ℕ-swap m n = ground arith

swap-then : (a b : Ordering) → swap (or_else a b) ≡ or_else (swap a) (swap b)
swap-then Ordering.lt b = refl
swap-then Ordering.eq b = refl
swap-then Ordering.gt b = refl

compare-swap : (s t : String) → compare t s ≡ swap (compare s t)
compare-swap [] [] = refl
compare-swap [] (d ∷ t) = compare.cons-nil d t ∙ sym (ap swap (compare.nil-cons d t))
compare-swap (c ∷ s) [] = compare.nil-cons c s ∙ sym (ap swap (compare.cons-nil c s))
compare-swap (c ∷ s) (d ∷ t) =
    compare.cons-cons d c t s
    ∙ rw (compare_ℕ-swap (code c) (code d), compare-swap s t)
        (sym (
          ap swap (compare.cons-cons c d s t)
          ∙ swap-then (compare_ℕ (code c) (code d)) (compare s t)))

only_eq : (o : Ordering) → is_lt o ≡ false → is_lt (swap o) ≡ false → o ≡ Ordering.eq
only_eq Ordering.lt h k = cc
only_eq Ordering.eq h k = refl
only_eq Ordering.gt h k = cc

not_both : (o : Ordering) → is_lt o ≡ true → is_lt (swap o) ≡ false
not_both Ordering.lt h = refl
not_both Ordering.eq h = cc
not_both Ordering.gt h = cc

pub precedes-asym : (s t : String) → precedes s t ≡ true → precedes t s ≡ false
precedes-asym s t h = rw (compare-swap s t) (not_both (compare s t) h)

pub precedes-connex : (s t : String) → precedes s t ≡ false → precedes t s ≡ false → s ≡ t
precedes-connex s t h k =
    path_by_compare s t
      (only_eq (compare s t) h (subst (λ o. is_lt o ≡ false) (compare-swap s t) k))

-- A text without a character.
abbrev pub lacks : Char → String → Bool
lacks separator [] = true
lacks separator (c ∷ s) = not (is_char separator c) && lacks separator s

module _ (separator : Char) where
  lacks_head :
      (c : Char) (s : String) → lacks separator (c ∷ s) ≡ true → is_char separator c ≡ false
  lacks_head c s h = elim (Bool-cases (is_char separator c)) [ inl e ↦ cc | inr e ↦ e ]

  lacks_tail : (c : Char) (s : String) → lacks separator (c ∷ s) ≡ true → lacks separator s ≡ true
  lacks_tail c s h = simp (lacks_head c s h) at h

  separator_itself : is_char separator separator ≡ true
  separator_itself = (nat_beq_iff (code separator) (code separator)).1 refl

  pub split_on-lacks :
      (s : String) → lacks separator s ≡ true → split_on separator s ≡ List.◌∷◌ s List.[]
  split_on-lacks [] h = refl
  split_on-lacks (c ∷ s) h = simp (lacks_head c s h, split_on-lacks s (lacks_tail c s h)) refl

  pub split_on-append :
      (s t : String)
      → lacks separator s ≡ true
      → split_on separator (s ++ ((separator ∷ []) ++ t)) ≡ List.◌∷◌ s (split_on separator t)
  split_on-append [] t h =
      ap (split_on separator) (
        append.nil ((separator ∷ []) ++ t)
        ∙ append.cons separator [] t
        ∙ ap (λ u. separator ∷ u) (append.nil t))
      ∙ simp separator_itself refl
  split_on-append (c ∷ s) t h =
      ap (split_on separator) (append.cons c s ((separator ∷ []) ++ t))
      ∙ simp (lacks_head c s h, split_on-append s t (lacks_tail c s h)) refl
