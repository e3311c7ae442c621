-- ===== src/Store/Table.antt =====
-- A repository over a list of rows with distinct keys. It shows that the laws can hold, and the
-- tests run the services on it.
mod Rows
mod Sorting
use Prim.Native.String
use Prim.Native.String.{count as text_length}
use text.Mathlib.TextLemmas.{length-append as text_length-append}
use skillhunt.Common.{
  ℕ, ◌+◌, ◌≡◌, refl, ap, ◌≤◌, String, Bool, true, ◌&&◌, Option, none, some, List, [], ◌∷◌, arith,
  ◌==◌, string_eq, eq_iff, filter, find, count, take, drop, ◌∙◌, if◌then◌else◌, bit,
}
use skillhunt.Store.{Repository}
use Rows.{
  IsDistinct, upsert, find-upsert, upsert-IsDistinct, find-key, find-row, find-none, rows_found,
  count-upsert_old, count-upsert_new, count-filter, filter-All, find-count,
}
use Sorting.{sort, count-sort, sort-All, sort-IsSorted}

pub record Table (E : Type 0) (key : E → String) : Type 0 where
  pub rows : List E
  pub distinct : IsDistinct key rows

module _ {E : Type 0} (key : E → String) where
  abbrev pub empty : Table E key
  empty = record { rows = []; distinct = tt }

  abbrev pub row : Table E key → String → Option E
  row t k = find (λ e. key e == k) t.rows

  abbrev pub save : E → Table E key → Table E key
  save e t = record {
    rows = upsert key e t.rows;
    distinct = upsert-IsDistinct key e t.rows t.distinct;
  }

  abbrev pub next_id : List E → String
  next_id [] = "+"
  next_id (e ∷ es) = String.◌++◌ (key e) (next_id es)

  next_id-pos : (es : List E) → 1 ≤ text_length (next_id es)
  next_id-pos [] = omega arith
  next_id-pos (e ∷ es) = omega (arith, text_length-append (key e) (next_id es), next_id-pos es)

  pub next_id-find :
      (k : String) (es : List E)
      → text_length (next_id es) ≤ text_length k
      → find (λ e. key e == k) es ≡ none
  next_id-find k [] h = refl
  next_id-find k (e ∷ es) h =
      let total = text_length-append (key e) (next_id es) in
      let pos = next_id-pos es in
      ground (
        arith,
        eq_iff (key e) k,
        next_id-find k es (omega arith),
        λ (same : key e ≡ k). ap text_length same,
      )

  abbrev pub find_where : (E → Bool) → (E → E → Bool) → Table E key → List E
  find_where p le t = sort le (filter p t.rows)

  pub table_find_complete :
      (t : Table E key) (p q : E → Bool) (le : E → E → Bool)
      → count q (find_where p le t) ≡ count (λ e. p e && q e) t.rows
  table_find_complete t p q le = count-sort le q (filter p t.rows) ∙ count-filter p q t.rows

  pub table_row-save :
      (t : Table E key) (e : E) (k : String)
      → row (save e t) k ≡ (if key e == k then some e else row t k)
  table_row-save t e k = find-upsert key e k t.rows

  pub table_count-save_old :
      (t : Table E key) (p : E → Bool) (e old : E)
      → row t (key e) ≡ some old
      → count p (save e t).rows + bit (p old) ≡ count p t.rows + bit (p e)
  table_count-save_old t p e old h = count-upsert_old key p e old t.rows h

  pub table_count-save_new :
      (t : Table E key) (p : E → Bool) (e : E)
      → row t (key e) ≡ none
      → count p (save e t).rows ≡ count p t.rows + bit (p e)
  table_count-save_new t p e h = count-upsert_new key p e t.rows h

  -- Every law of a repository holds of tables.
  abbrev pub repository : Repository E key (Table E key)
  repository = record {
    row = row;
    count_where = λ p t. count p t.rows;
    find_one = λ p t. find p t.rows;
    find_where = find_where;
    find_and_count =
        λ p le skip limit t. (take limit (drop skip (find_where p le t)), count p t.rows);
    save = save;
    generate = λ t. next_id t.rows;
    row-key = λ t k e h. find-key key k e t.rows h;
    row-save = table_row-save;
    row-generate = λ t. next_id-find (next_id t.rows) t.rows (omega arith);
    row-count = λ t p k e h m. find-count p (λ x. key x == k) e t.rows h m;
    find_one_sound = λ t p e h. find-row key p e t.rows t.distinct h;
    find_one_complete = λ t p k e h r. find-none p (λ x. key x == k) e t.rows h r;
    count-save_old = table_count-save_old;
    count-save_new = table_count-save_new;
    find_sound = λ t p le.
        sort-All le _ (filter p t.rows) (filter-All _ p t.rows (rows_found key t.rows t.distinct));
    find_complete = table_find_complete;
    find_sorted = λ t p le total transitive. sort-IsSorted le total transitive (filter p t.rows);
    ranked = λ p le skip limit t. sort le (filter p t.rows);
    ranked_sound = λ t p le skip limit.
        sort-All le _ (filter p t.rows) (filter-All _ p t.rows (rows_found key t.rows t.distinct));
    ranked_complete = λ t p q le skip limit. table_find_complete t p q le;
    ranked_sorted =
        λ t p le skip limit total transitive. sort-IsSorted le total transitive (filter p t.rows);
    find_and_count_lem = λ t p le skip limit. refl;
  }
