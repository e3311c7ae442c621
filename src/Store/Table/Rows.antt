-- ===== src/Store/Table/Rows.antt =====
-- Lists of rows with distinct keys: insertion or replacement, lookup and counts.
use skillhunt.Common.{
  ◌+◌, ◌≡◌, ◌≤◌, refl, String, Bool, true, false, ◌&&◌, none, some, List, [], ◌∷◌, arith,
  if◌then◌else◌, bit, ◌==◌, string_eq, eq_iff, beq_self, filter, find, count, All,
}

module _ {E : Type 0} (key : E → String) where
  abbrev pub IsFresh : String → List E → Type 0
  IsFresh k = All (λ e. (key e == k) ≡ false)

  abbrev pub IsDistinct : List E → Type 0
  IsDistinct [] = Unit
  IsDistinct (e ∷ es) = IsFresh (key e) es × IsDistinct es

  abbrev pub upsert : E → List E → List E
  upsert e [] = e ∷ []
  upsert e (x ∷ xs) = if key x == key e then e ∷ xs else x ∷ upsert e xs

  pub find-upsert :
      (e : E) (k : String) (xs : List E)
      → find (λ x. key x == k) (upsert e xs)
        ≡ (if key e == k then some e else find (λ x. key x == k) xs)
  find-upsert e k [] = refl
  find-upsert e k (x ∷ xs) =
      ground (arith, eq_iff (key x) (key e), eq_iff (key x) k, eq_iff (key e) k, find-upsert e k xs)

  upsert-IsFresh :
      (e : E) (k : String) (xs : List E)
      → (key e == k) ≡ false
      → IsFresh k xs
      → IsFresh k (upsert e xs)
  upsert-IsFresh e k [] d h = (d, tt)
  upsert-IsFresh e k (x ∷ xs) d h = ground (arith, upsert-IsFresh e k xs d)

  IsFresh-same : (k j : String) (xs : List E) → k ≡ j → IsFresh k xs → IsFresh j xs
  IsFresh-same k j xs e h = rw (← e) h

  pub upsert-IsDistinct : (e : E) (xs : List E) → IsDistinct xs → IsDistinct (upsert e xs)
  upsert-IsDistinct e [] h = (tt, tt)
  upsert-IsDistinct e (x ∷ xs) h = ground (
    arith,
    eq_iff (key x) (key e),
    eq_iff (key e) (key x),
    IsFresh-same (key x) (key e) xs,
    upsert-IsFresh e (key x) xs,
    upsert-IsDistinct e xs h.1,
  )

  pub find-key : (k : String) (e : E) (xs : List E) → find (λ x. key x == k) xs ≡ some e → key e ≡ k
  find-key k e [] h = cc
  find-key k e (x ∷ xs) h = ground (arith, eq_iff (key x) k, find-key k e xs)

  find-IsFresh :
      (p : E → Bool) (k : String) (e : E) (xs : List E)
      → IsFresh k xs
      → find p xs ≡ some e
      → (key e == k) ≡ false
  find-IsFresh p k e [] f h = cc
  find-IsFresh p k e (x ∷ xs) f h = ground (arith, find-IsFresh p k e xs f.1)

  pub find-row :
      (p : E → Bool) (e : E) (xs : List E)
      → IsDistinct xs
      → find p xs ≡ some e
      → (p e ≡ true) × (find (λ x. key x == key e) xs ≡ some e)
  find-row p e [] d h = cc
  find-row p e (x ∷ xs) d h = ground (
    arith,
    eq_iff (key x) (key e),
    eq_iff (key e) (key x),
    find-IsFresh p (key x) e xs d.0,
    find-row p e xs d.1,
  )

  rows_below :
      (x : E) (xs ys : List E)
      → IsFresh (key x) ys
      → All (λ e. find (λ y. key y == key e) xs ≡ some e) ys
      → All (λ e. find (λ y. key y == key e) (x ∷ xs) ≡ some e) ys
  rows_below x xs [] f h = tt
  rows_below x xs (y ∷ ys) f h =
      (ground (arith, eq_iff (key x) (key y), eq_iff (key y) (key x)), rows_below x xs ys f.1 h.1)

  pub rows_found :
      (xs : List E) → IsDistinct xs → All (λ e. find (λ y. key y == key e) xs ≡ some e) xs
  rows_found [] d = tt
  rows_found (x ∷ xs) d = (rw (beq_self (key x)), rows_below x xs xs d.0 (rows_found xs d.1))

  pub count-upsert_old :
      (p : E → Bool) (e old : E) (xs : List E)
      → find (λ x. key x == key e) xs ≡ some old
      → count p (upsert e xs) + bit (p old) ≡ count p xs + bit (p e)
  count-upsert_old p e old [] h = cc
  count-upsert_old p e old (x ∷ xs) h = ground (arith, count-upsert_old p e old xs)

  pub count-upsert_new :
      (p : E → Bool) (e : E) (xs : List E)
      → find (λ x. key x == key e) xs ≡ none
      → count p (upsert e xs) ≡ count p xs + bit (p e)
  count-upsert_new p e [] h = ground arith
  count-upsert_new p e (x ∷ xs) h = ground (arith, count-upsert_new p e xs)

module _ {E : Type 0} where
  pub find-none :
      (p q : E → Bool) (e : E) (xs : List E) → find p xs ≡ none → find q xs ≡ some e → p e ≡ false
  find-none p q e [] h k = cc
  find-none p q e (x ∷ xs) h k = ground (arith, find-none p q e xs)

  pub count-filter :
      (p q : E → Bool) (xs : List E) → count q (filter p xs) ≡ count (λ e. p e && q e) xs
  count-filter p q [] = refl
  count-filter p q (x ∷ xs) = ground (arith, count-filter p q xs)

  pub filter-All :
      (P : E → Type 0) (p : E → Bool) (xs : List E)
      → All P xs
      → All (λ e. (p e ≡ true) × P e) (filter p xs)
  filter-All P p [] h = tt
  filter-All P p (x ∷ xs) h = ground (arith, filter-All P p xs h.1)

pub find-count :
    {E : Type 0} (p q : E → Bool) (e : E) (xs : List E)
    → find q xs ≡ some e
    → p e ≡ true
    → 1 ≤ count p xs
find-count p q e [] h m = cc
find-count p q e (x ∷ xs) h m = ground (arith, find-count p q e xs)
