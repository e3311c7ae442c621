-- ===== src/Store/Lookup.antt =====
-- What the calls of a repository return, in terms of its rows.
use skillhunt.Common.{
  ℕ, ◌≡◌, refl, String, Bool, true, ◌&&◌, Option, none, some, List, [], ◌∷◌, ◌==◌, string_eq,
  beq_self, arith, inl, inr, Option-cases, if◌then◌else◌, length, take, drop, ap, ◌∙◌, count,
  eq_iff,
}
use mathlib.Core.Path.{fun_ext}
use skillhunt.Store.{Repository}

-- The row, if it meets a condition.
abbrev pub only_if : {E : Type 0} → (E → Bool) → Option E → Option E
only_if p none = none
only_if p (some e) = if p e then some e else none

length-count_all : {E : Type 0} (xs : List E) → length xs ≡ count (λ _. true) xs
length-count_all [] = refl
length-count_all (x ∷ xs) = omega (arith, length-count_all xs)

and-true : (b : Bool) → (b && true) ≡ b
and-true b = ground arith

module _ {E T : Type 0} {key : E → String} (repo : Repository E key T) where
  -- A search by primary key and a condition.
  pub find_one-key_and :
      (t : T) (k : String) (q : E → Bool)
      → repo.find_one (λ e. key e == k && q e) t ≡ only_if q (repo.row t k)
  find_one-key_and t k q = elim (Option-cases (repo.find_one (λ e. key e == k && q e) t)) [
    | inl missing ↦ elim (Option-cases (repo.row t k)) [
      | inl absent ↦ rw (missing, absent)
      | inr (e, stored) ↦
          rw (missing, stored)
            (ground (
              arith,
              repo.find_one_complete t (λ e. key e == k && q e) k e missing stored,
              repo.row-key t k e stored,
              eq_iff (key e) k,
            ))
    ]
    | inr (e, found) ↦
        let (meets, stored) = repo.find_one_sound t (λ e. key e == k && q e) e found in
        let same : key e ≡ k = ground (arith, eq_iff (key e) k) in
        rw (found, ← same, stored) (ground arith)
  ]

  -- A search by primary key.
  pub find_one-key : (t : T) (k : String) → repo.find_one (λ e. key e == k) t ≡ repo.row t k
  find_one-key t k = elim (Option-cases (repo.find_one (λ e. key e == k) t)) [
    | inl missing ↦ elim (Option-cases (repo.row t k)) [
      | inl absent ↦ rw (missing, absent)
      | inr (e, stored) ↦
          rw (missing, stored)
            (ground (
              arith,
              repo.find_one_complete t (λ e. key e == k) k e missing stored,
              repo.row-key t k e stored,
              eq_iff (key e) k,
            ))
    ]
    | inr (e, found) ↦
        let (meets, stored) = repo.find_one_sound t (λ e. key e == k) e found in
        let same : key e ≡ k = ground (arith, eq_iff (key e) k) in rw (found, ← same, stored) refl
  ]

  pub row-save_self : (t : T) (e : E) → repo.row (repo.save e t) (key e) ≡ some e
  row-save_self t e = rw (repo.row-save t e (key e), beq_self (key e))

  pub length-find_where :
      (t : T) (p : E → Bool) (le : E → E → Bool)
      → length (repo.find_where p le t) ≡ repo.count_where p t
  length-find_where t p le =
      length-count_all (repo.find_where p le t)
      ∙ repo.find_complete t p (λ _. true) le
      ∙ ap (λ q. repo.count_where q t) (fun_ext (λ e. and-true (p e)))

  -- A page is a piece of the rows as its query ranks them.
  pub find_and_count-items :
      (t : T) (p : E → Bool) (le : E → E → Bool) (skip limit : ℕ)
      → (repo.find_and_count p le skip limit t).0
        ≡ take limit (drop skip (repo.ranked p le skip limit t))
  find_and_count-items t p le skip limit = rw (repo.find_and_count_lem t p le skip limit)
