-- ===== src/Web/Armurerie.antt =====
-- frontend-web/src/pages/Armurerie.tsx and features/gear/gear-meta.ts: what the page of a locker draws
-- from the loaded gear.
use skillhunt.Common.{
  ℕ, ◌≡◌, ◌≢◌, refl, Bool, true, Option, none, some, List, [], ◌∷◌, filter, any, count, includes,
  ◌==◌, Bool-cases, inl, inr, subst, sym,
}
use skillhunt.Enums.{
  GearCategory, drone, camera_360, robotics, sensor, category_eq, category_beq_iff, GearStatus,
  gear_status_eq,
}
use skillhunt.Entities.{Gear}

abbrev pub gear_categories : List GearCategory
gear_categories = drone ∷ camera_360 ∷ robotics ∷ sensor ∷ GearCategory.other ∷ []

-- The loadout
abbrev pub pinned_items : List Gear → List Gear
pinned_items items = filter (λ g. g.is_in_loadout) items

abbrev pub is_present : List Gear → GearCategory → Bool
is_present items category = any (λ g. g.category == category) items

unfoldable pub present_categories : List Gear → List GearCategory
present_categories items = filter (is_present items) gear_categories

unfoldable pub visible_items : Option GearCategory → List Gear → List Gear
visible_items none items = items
visible_items (some category) items = filter (λ g. g.category == category) items

abbrev pub validated_count : List Gear → ℕ
validated_count items = count (λ g. g.status == GearStatus.validated) items

filter-any : (p : Gear → Bool) (items : List Gear) → any p items ≡ true → filter p items ≢ []
filter-any p [] h = cc
filter-any p (g ∷ items) h = elim (Bool-cases (p g)) [
  | inl e ↦ simp e (λ k. cc)
  | inr e ↦ simp e (filter-any p items (simp e at h))
]

kept :
    (p : GearCategory → Bool) (cs : List GearCategory) (c : GearCategory)
    → includes (filter p cs) c ≡ true
    → p c ≡ true
kept p [] c h = cc
kept p (d ∷ cs) c h = elim (Bool-cases (p d)) [
  | inr e ↦ kept p cs c (simp e at h)
  | inl e ↦ elim (Bool-cases (d == c)) [
    | inl f ↦ subst (λ x. p x ≡ true) ((category_beq_iff d c).0 f) e
    | inr f ↦ kept p cs c (simp (e, f) at h)
  ]
]

-- A category that the page offers as a filter shows at least one item.
pub present_categories_visible :
    (items : List Gear) (category : GearCategory)
    → includes (present_categories items) category ≡ true
    → visible_items (some category) items ≢ []
unfolding present_categories visible_items
present_categories_visible items category h =
    filter-any (λ g. g.category == category) items
      (kept (is_present items) gear_categories category h)

all_categories : (c : GearCategory) → includes gear_categories c ≡ true
all_categories drone = refl
all_categories camera_360 = refl
all_categories robotics = refl
all_categories sensor = refl
all_categories GearCategory.other = refl

keeps :
    (p : GearCategory → Bool) (cs : List GearCategory) (c : GearCategory)
    → includes cs c ≡ true
    → p c ≡ true
    → includes (filter p cs) c ≡ true
keeps p [] c h k = cc
keeps p (d ∷ cs) c h k = elim (Bool-cases (d == c)) [
  | inl f ↦
      let e : p d ≡ true = subst (λ x. p x ≡ true) (sym ((category_beq_iff d c).0 f)) k in
      simp (e, f) refl
  | inr f ↦ elim (Bool-cases (p d)) [
    | inl e ↦ simp (e, f) (keeps p cs c (simp f at h) k)
    | inr e ↦ simp e (keeps p cs c (simp f at h) k)
  ]
]

-- Every item is shown under a filter that the page offers.
pub present_categories_complete :
    (items : List Gear) (category : GearCategory)
    → is_present items category ≡ true
    → includes (present_categories items) category ≡ true
unfolding present_categories
present_categories_complete items category h =
    keeps (is_present items) gear_categories category (all_categories category) h
