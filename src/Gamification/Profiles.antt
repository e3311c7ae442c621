-- ===== src/Gamification/Profiles.antt =====
-- What the profiles of gamification.service.ts promise to a freelance.
use skillhunt.Common.{
  ◌≤◌, ◌≡◌, true, arith, All, String, Bool, List, [], ◌∷◌, map, any, ◌==◌, ◌&&◌, string_eq,
}
use skillhunt.Gamification.{
  FreelanceStats, experience, profile, badge_catalog, Badge, BadgeView, badge_view,
}
use skillhunt.Gamification.Levels.{IsBracket, bracket, level_monotone}

-- No statistic of `s` is above that of `t`.
pub record IsAtMost (s t : FreelanceStats) : Type 0 where
  pub validated_gear : s.validated_gear ≤ t.validated_gear
  pub covered_categories : s.covered_categories ≤ t.covered_categories
  pub validated_certifications : s.validated_certifications ≤ t.validated_certifications
  pub dgac_certifications : s.dgac_certifications ≤ t.dgac_certifications
  pub loadout_count : s.loadout_count ≤ t.loadout_count

experience_monotone : (s t : FreelanceStats) → IsAtMost s t → experience s ≤ experience t
experience_monotone s t h =
    omega (arith, h.validated_gear, h.covered_categories, h.validated_certifications)

-- The level of a profile is the highest whose threshold the experience reaches, and the next
-- threshold is the least that it does not reach; there is none only when all are reached.
pub profile-IsBracket :
    (s : FreelanceStats) → IsBracket (profile s).xp (profile s).level (profile s).next_level_at
unfolding profile
profile-IsBracket s = bracket (experience s)

-- Does a profile show the badge as earned?
abbrev pub has_badge : String → List BadgeView → Bool
has_badge id badges = any (λ b. b.id == id && b.earned) badges

badges_monotone :
    (s t : FreelanceStats) (id : String) (badges : List Badge)
    → All (λ b. b.earned_when s ≡ true → b.earned_when t ≡ true) badges
    → has_badge id (map (badge_view s) badges) ≡ true
    → has_badge id (map (badge_view t) badges) ≡ true
badges_monotone s t id [] h k = k
badges_monotone s t id (b ∷ badges) (h, hs) k =
    let rest = badges_monotone s t id badges hs in ground (arith, h, rest, k)

-- More evidence never costs a level or a badge.
pub profile_monotone :
    (s t : FreelanceStats)
    → IsAtMost s t
    → ((profile s).level ≤ (profile t).level)
      × ((id : String)
          → has_badge id (profile s).badges ≡ true
          → has_badge id (profile t).badges ≡ true)
unfolding profile
profile_monotone s t h =
    let gear = h.validated_gear in
    let categories = h.covered_categories in
    let certified = h.validated_certifications in
    let dgac = h.dgac_certifications in
    let loadout = h.loadout_count in
    (
      level_monotone (experience s) (experience t) (experience_monotone s t h),
      λ id. badges_monotone s t id badge_catalog (
        ground arith,
        (
          ground arith,
          (ground arith, (ground arith, (ground arith, (ground arith, (ground arith, tt))))),
        ),
      ),
    )
