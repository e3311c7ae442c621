-- ===== src/Gear/Showcase.antt =====
-- The loadout rules of gear.service.ts as an invariant of the stored lockers.
use skillhunt.Common.{◌≤◌, ◌≡◌, String, true, false, none, some, string_eq, eq_iff, arith}
use skillhunt.Enums.{GearStatus}
use skillhunt.Entities.{Gear, gear_id}
use skillhunt.Store.{Repository}
use skillhunt.Gear.{pinned_by}

module _ {G : Type 0} (gears : Repository Gear gear_id G) where
  -- Only validated gear is pinned, and nobody pins more than four.
  pub record IsShowcase (t : G) : Type 0 where
    pub only_validated :
        (k : String) (g : Gear)
        → gears.row t k ≡ some g
        → g.is_in_loadout ≡ true
        → g.status ≡ GearStatus.validated
    pub at_most_four : (f : String) → gears.count_where (pinned_by f) t ≤ 4

  save_only_validated :
      (t : G) (g : Gear)
      → IsShowcase t
      → (g.is_in_loadout ≡ true → g.status ≡ GearStatus.validated)
      → (k : String) (h : Gear) → gears.row (gears.save g t) k ≡ some h
      → h.is_in_loadout ≡ true
      → h.status ≡ GearStatus.validated
  save_only_validated t g v ok k h e p = ground (arith, gears.row-save t g k, v.only_validated k h)

  -- A row that is replaced by one that is no more pinned.
  pub save_unpinned-IsShowcase :
      (t : G) (g old : Gear)
      → gears.row t g.id ≡ some old
      → (g.is_in_loadout ≡ true → g.status ≡ GearStatus.validated)
      → ((f : String) → pinned_by f g ≡ true → pinned_by f old ≡ true)
      → IsShowcase t
      → IsShowcase (gears.save g t)
  save_unpinned-IsShowcase t g old stored ok fewer v = record {
    only_validated = save_only_validated t g v ok;
    at_most_four = λ f.
        ground
          (arith, gears.count-save_old t (pinned_by f) g old stored, fewer f, v.at_most_four f);
  }

  -- A row that its owner pins while a slot is free.
  pub save_pinned-IsShowcase :
      (t : G) (g old : Gear)
      → gears.row t g.id ≡ some old
      → g.status ≡ GearStatus.validated
      → g.freelance_id ≡ old.freelance_id
      → gears.count_where (pinned_by g.freelance_id) t ≤ 3
      → IsShowcase t
      → IsShowcase (gears.save g t)
  save_pinned-IsShowcase t g old stored validated owner free v = record {
    only_validated = save_only_validated t g v (λ _. validated);
    at_most_four = λ f. ground (
      arith,
      gears.count-save_old t (pinned_by f) g old stored,
      v.at_most_four f,
      eq_iff g.freelance_id f,
      eq_iff old.freelance_id f,
      slots f,
    );
  }
    where
      slots : (f : String) → g.freelance_id ≡ f → gears.count_where (pinned_by f) t ≤ 3
      slots f e = rw (← e) free

  -- A new row is not pinned.
  pub save_new-IsShowcase :
      (t : G) (g : Gear)
      → gears.row t g.id ≡ none
      → g.is_in_loadout ≡ false
      → IsShowcase t
      → IsShowcase (gears.save g t)
  save_new-IsShowcase t g absent plain v = record {
    only_validated = save_only_validated t g v (λ p. cc);
    at_most_four =
        λ f. ground (arith, gears.count-save_new t (pinned_by f) g absent, v.at_most_four f);
  }
