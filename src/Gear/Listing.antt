-- ===== src/Gear/Listing.antt =====
-- The listings of gear.service.ts: what a recruiter sees, and that the pages make up the whole.
use native.Mathlib.Nat.{zero-add, suc-add, add-zero, zero-mul, suc-mul}
use skillhunt.Common.{
  ℕ, zero, suc, ◌+◌, ◌*◌, ◌-◌, ◌≤◌, ◌≡◌, refl, sym, String, Bool, true, ◌&&◌, some, List, [], ◌∷◌,
  ◌++◌, map, ◌==◌, string_eq, eq_iff, arith, subst, ok-injective, err-injective, ◌∙◌, Result, ok,
  err, not_found, HttpError, Option-cases, inl, inr, take, drop, count, length, length-map,
  length-take, All, All-take, All-drop,
}
use skillhunt.Enums.{role_eq, GearStatus, gear_status_eq}
use skillhunt.Entities.{User, Gear, user_id, gear_id}
use skillhunt.Store.{Repository}
use skillhunt.Store.Order.{IsTotal, IsTransitive, IsSorted}
use skillhunt.Store.Ranking.{sorted_unique}
use skillhunt.Store.Lookup.{find_and_count-items, length-find_where}
use skillhunt.Redis.{Redis}
use skillhunt.Gear.{
  Locker, Paginated, QueryGearDto, PublicQueryGearDto, PublicGearView, to_public_gear_view,
  owned_by, category_matches, status_matches, gear_order, paginate, get_freelance_gear,
  get_public_freelance_gear, freelance_only,
}

-- Pinned gear first, then the latest: an order that `findAndCount` can sort by.
pub gear_order-IsTotal : IsTotal gear_order
gear_order-IsTotal a b = ground arith

pub gear_order-IsTransitive : IsTransitive gear_order
gear_order-IsTransitive a b c p q = ground arith

take-append-take {ℓ} :
    {A : Type ℓ} (m n : ℕ) (xs : List A) → take m xs ++ take n (drop m xs) ≡ take (m + n) xs
take-append-take zero n xs = rw zero-add
take-append-take (suc m) zero [] = rw (add-zero (suc m))
take-append-take (suc m) (suc n) [] = rw (suc-add m (suc n))
take-append-take (suc m) n (x ∷ xs) = rw (suc-add, take-append-take m n xs)

take-all {ℓ} : {A : Type ℓ} (n : ℕ) (xs : List A) → length xs ≤ n → take n xs ≡ xs
take-all zero [] h = refl
take-all zero (x ∷ xs) h = absurd (omega arith)
take-all (suc n) [] h = refl
take-all (suc n) (x ∷ xs) h = rw (take-all n xs (omega arith))

All-map {ℓ κ μ ν} :
    {A : Type ℓ} {B : Type κ} (P : A → Type μ) (Q : B → Type ν) (f : A → B)
    → ((a : A) → P a → Q (f a))
    → (xs : List A) → All P xs
    → All Q (map f xs)
All-map P Q f each [] h = tt
All-map P Q f each (x ∷ xs) h = (each x h.0, All-map P Q f each xs h.1)

abbrev pub items_of : {S : Type 0} → Result (Paginated Gear) × S → List Gear
items_of (ok page, s) = page.items
items_of (err e, s) = []

abbrev pub IsRow : {G : Type 0} → Repository Gear gear_id G → G → (Gear → Bool) → Gear → Type 0
IsRow gears t p g = (p g ≡ true) × (gears.row t g.id ≡ some g)

module _ {U G R : Type 0} (users : Repository User user_id U) (gears : Repository Gear gear_id G)
    (redis : Redis R) where
  -- The recruiter's view `v` shows a stored and validated piece of gear of the freelance `f`.
  pub record IsShownRow (f : String) (t : G) (v : PublicGearView) : Type 0 where
    pub gear : Gear
    pub stored : gears.row t gear.id ≡ some gear
    pub owner : gear.freelance_id ≡ f
    pub validated : gear.status ≡ GearStatus.validated
    pub shown : v ≡ to_public_gear_view gear

  abbrev public_test : String → PublicQueryGearDto → Gear → Bool
  public_test f q g =
      owned_by f g && g.status == GearStatus.validated && category_matches q.category g

  abbrev public_rows : String → PublicQueryGearDto → G → List Gear
  public_rows f q t =
      (gears.find_and_count (public_test f q) gear_order ((q.page - 1) * q.limit) q.limit t).0

  public_row :
      (f : String) (q : PublicQueryGearDto) (t : G) (g : Gear)
      → (public_test f q g ≡ true) × (gears.row t g.id ≡ some g)
      → IsShownRow f t (to_public_gear_view g)
  public_row f q t g (meets, stored) = record {
    gear = g;
    stored = stored;
    owner = ground (arith, eq_iff g.freelance_id f);
    validated = ground arith;
    shown = refl;
  }

  public_rows-All :
      (f : String) (q : PublicQueryGearDto) (t : G)
      → All (IsShownRow f t) (map to_public_gear_view (public_rows f q t))
        × (length (map to_public_gear_view (public_rows f q t)) ≤ q.limit)
  public_rows-All f q t =
      let skip = (q.page - 1) * q.limit in
      let sound = gears.ranked_sound t (public_test f q) gear_order skip q.limit in
      rw (find_and_count-items gears t (public_test f q) gear_order skip q.limit) (
        All-map _ (IsShownRow f t) to_public_gear_view (public_row f q t) _
            (All-take _ q.limit _ (All-drop _ skip _ sound)),
        rw (length-map, length-take) (omega arith),
      )

  -- A recruiter's listing changes nothing, is refused in the same words for an unknown account and
  -- for one that is no freelance, and otherwise shows at most `limit` pieces of gear, each of them
  -- a projection of a stored, validated one that belongs to the freelance.
  pub public_listing :
      (f : String) (q : PublicQueryGearDto) (s : Locker U G R)
      → let (r, s') = get_public_freelance_gear users gears redis f q s in
        (s' ≡ s)
        × ((e : HttpError) → r ≡ err e → e ≡ not_found "Profil Freelance introuvable")
        × ((page : Paginated PublicGearView)
            → r ≡ ok page
            → All (IsShownRow f s.gears) page.items × (length page.items ≤ q.limit))
  unfolding get_public_freelance_gear paginate
  public_listing f q s =
      elim (Option-cases (freelance_only (users.find_one (λ u. u.id == f) s.users))) [
        | inl e ↦
            rw (e, get_public_freelance_gear) (refl, λ x h. sym (err-injective h), λ page h. cc)
        | inr (u, e) ↦
            rw (e, get_public_freelance_gear)
              (
                refl,
                λ x h. cc,
                λ page h.
                    subst (λ p. All (IsShownRow f s.gears) p.items × (length p.items ≤ q.limit))
                      (ok-injective h) (public_rows-All f q s.gears),
              )
      ]

  -- The first `n` pages of a freelance's own locker, one after the other.
  abbrev pub pages : String → QueryGearDto → Locker U G R → ℕ → List Gear
  pages f q s zero = []
  pages f q s (suc n) =
      pages f q s n
      ++ items_of (get_freelance_gear users gears redis f (record q { page = suc n }) s)

  abbrev pub locker_test : String → QueryGearDto → Gear → Bool
  locker_test f q g = owned_by f g && category_matches q.category g && status_matches q.status g

  -- The order tells the rows of the listing apart.
  pub record IsUntied (f : String) (q : QueryGearDto) (s : Locker U G R) : Type 0 where
    pub apart :
        (a b : Gear)
        → IsRow gears s.gears (locker_test f q) a
        → IsRow gears s.gears (locker_test f q) b
        → a.is_in_loadout ≡ b.is_in_loadout
        → a.created_at ≡ b.created_at
        → a ≡ b

  -- Then each page is cut from the same list.
  ranked_alike :
      (f : String) (q : QueryGearDto) (s : Locker U G R)
      → IsUntied f q s
      → (skip : ℕ)
      → gears.ranked (locker_test f q) gear_order skip q.limit s.gears
        ≡ gears.find_where (locker_test f q) gear_order s.gears
  ranked_alike f q s untied skip =
      let p = locker_test f q in
      sorted_unique gear_order (IsRow gears s.gears p) gear_order-IsTotal
        (λ a b h k m n. untied.apart a b h k (ground arith) (ground arith))
        (gears.ranked p gear_order skip q.limit s.gears) (gears.find_where p gear_order s.gears)
        (gears.ranked_sound s.gears p gear_order skip q.limit)
        (gears.find_sound s.gears p gear_order)
        (gears.ranked_sorted s.gears p gear_order skip q.limit gear_order-IsTotal
          gear_order-IsTransitive)
        (gears.find_sorted s.gears p gear_order gear_order-IsTotal gear_order-IsTransitive)
        (λ test.
          gears.ranked_complete s.gears p test gear_order skip q.limit
          ∙ sym (gears.find_complete s.gears p test gear_order))

  pages-take :
      (f : String) (q : QueryGearDto) (s : Locker U G R)
      → IsUntied f q s
      → (n : ℕ)
      → pages f q s n ≡ take (n * q.limit) (gears.find_where (locker_test f q) gear_order s.gears)
  unfolding get_freelance_gear paginate
  pages-take f q s untied zero = rw zero-mul
  pages-take f q s untied (suc n) =
      let all = gears.find_where (locker_test f q) gear_order s.gears in
      let start : suc n - 1 ≡ n = omega arith in
      rw (
        pages-take f q s untied n,
        find_and_count-items gears s.gears (locker_test f q) gear_order ((suc n - 1) * q.limit)
            q.limit,
        ranked_alike f q s untied ((suc n - 1) * q.limit),
        start,
        suc-mul,
        take-append-take (n * q.limit) q.limit all,
      )

  -- If no two rows of the locker that meet the filters are pinned alike and of one date, then once the
  -- pages reach the total, they hold each row of the locker that meets the filters exactly
  -- as often as the table does, whatever one counts, and in the order of the listing: pinned gear
  -- first, then the latest.
  pub pages_complete :
      (f : String) (q : QueryGearDto) (s : Locker U G R) (n : ℕ) (test : Gear → Bool)
      → IsUntied f q s
      → gears.count_where (locker_test f q) s.gears ≤ n * q.limit
      → (count test (pages f q s n) ≡ gears.count_where (λ g. locker_test f q g && test g) s.gears)
        × IsSorted gear_order (pages f q s n)
  pages_complete f q s n test untied enough =
      let whole =
        take-all (n * q.limit) (gears.find_where (locker_test f q) gear_order s.gears)
          (rw (length-find_where gears s.gears (locker_test f q) gear_order) enough) in
      rw (pages-take f q s untied n, whole)
        (
          gears.find_complete s.gears (locker_test f q) test gear_order,
          gears.find_sorted s.gears (locker_test f q) gear_order gear_order-IsTotal
              gear_order-IsTransitive,
        )
