-- ===== src/Store.antt =====
-- What the services use of TypeORM and PostgreSQL. The package and the server are not part of the
-- repository, so a `Repository` is a parameter: its calls, a view of the stored rows by primary
-- key, and the documented behaviour of the calls as laws about that view.
pub mod Table
pub mod Order
pub mod Lookup
pub mod Ranking
use skillhunt.Common.{
  ℕ, ◌+◌, ◌≡◌, ◌≤◌, String, Bool, true, false, ◌&&◌, Option, none, some, List, if◌then◌else◌, bit,
  ◌==◌, string_eq, count, take, drop, All,
}
use skillhunt.Store.Order.{IsTotal, IsTransitive, IsSorted}

pub record Repository (E : Type 0) (key : E → String) (T : Type 0) : Type 0 where
  -- The stored row with a primary key.
  pub row : T → String → Option E
  -- How many stored rows meet a condition: `count({ where })`.
  pub count_where : (E → Bool) → T → ℕ
  -- `findOne({ where })`
  pub find_one : (E → Bool) → T → Option E
  -- `find({ where, order })`; the order is a test that the first may stand before the second.
  pub find_where : (E → Bool) → (E → E → Bool) → T → List E
  -- `findAndCount({ where, order, skip, take })`
  pub find_and_count : (E → Bool) → (E → E → Bool) → ℕ → ℕ → T → List E × ℕ
  -- `save(entity)`, an insertion or an update by primary key.
  pub save : E → T → T
  -- `gen_random_uuid()`, the primary key of the next inserted row.
  pub generate : T → String
  pub row-key : (t : T) (k : String) (e : E) → row t k ≡ some e → key e ≡ k
  pub row-save :
      (t : T) (e : E) (k : String) → row (save e t) k ≡ (if key e == k then some e else row t k)
  pub row-generate : (t : T) → row t (generate t) ≡ none
  pub row-count :
      (t : T) (p : E → Bool) (k : String) (e : E)
      → row t k ≡ some e
      → p e ≡ true
      → 1 ≤ count_where p t
  pub find_one_sound :
      (t : T) (p : E → Bool) (e : E)
      → find_one p t ≡ some e
      → (p e ≡ true) × (row t (key e) ≡ some e)
  pub find_one_complete :
      (t : T) (p : E → Bool) (k : String) (e : E)
      → find_one p t ≡ none
      → row t k ≡ some e
      → p e ≡ false
  pub count-save_old :
      (t : T) (p : E → Bool) (e old : E)
      → row t (key e) ≡ some old
      → count_where p (save e t) + bit (p old) ≡ count_where p t + bit (p e)
  pub count-save_new :
      (t : T) (p : E → Bool) (e : E)
      → row t (key e) ≡ none
      → count_where p (save e t) ≡ count_where p t + bit (p e)
  pub find_sound :
      (t : T) (p : E → Bool) (le : E → E → Bool)
      → All (λ e. (p e ≡ true) × (row t (key e) ≡ some e)) (find_where p le t)
  pub find_complete :
      (t : T) (p q : E → Bool) (le : E → E → Bool)
      → count q (find_where p le t) ≡ count_where (λ e. p e && q e) t
  pub find_sorted :
      (t : T) (p : E → Bool) (le : E → E → Bool)
      → IsTotal le
      → IsTransitive le
      → IsSorted le (find_where p le t)
  -- The rows as the query of one page ranks them. Another page may rank rows that the order does not
  -- tell apart in another way.
  pub ranked : (E → Bool) → (E → E → Bool) → ℕ → ℕ → T → List E
  pub ranked_sound :
      (t : T) (p : E → Bool) (le : E → E → Bool) (skip limit : ℕ)
      → All (λ e. (p e ≡ true) × (row t (key e) ≡ some e)) (ranked p le skip limit t)
  pub ranked_complete :
      (t : T) (p q : E → Bool) (le : E → E → Bool) (skip limit : ℕ)
      → count q (ranked p le skip limit t) ≡ count_where (λ e. p e && q e) t
  pub ranked_sorted :
      (t : T) (p : E → Bool) (le : E → E → Bool) (skip limit : ℕ)
      → IsTotal le
      → IsTransitive le
      → IsSorted le (ranked p le skip limit t)
  pub find_and_count_lem :
      (t : T) (p : E → Bool) (le : E → E → Bool) (skip limit : ℕ)
      → find_and_count p le skip limit t
        ≡ (take limit (drop skip (ranked p le skip limit t)), count_where p t)
