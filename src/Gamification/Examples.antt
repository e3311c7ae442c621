-- ===== src/Gamification/Examples.antt =====
-- Two profiles.
use skillhunt.Common.{◌≤◌, ◌≡◌, true, arith, String}
use skillhunt.Gamification.{FreelanceStats, profile}
use skillhunt.Gamification.Levels.{IsBracket}
use skillhunt.Gamification.Profiles.{profile-IsBracket, profile_monotone, has_badge}

abbrev stats : FreelanceStats
stats = record {
  validated_gear = 3;
  covered_categories = 2;
  validated_certifications = 1;
  dgac_certifications = 0;
  loadout_count = 2;
}

abbrev more_stats : FreelanceStats
more_stats = record stats { validated_gear = 9; covered_categories = 3 }

profile-IsBracket_example :
    IsBracket (profile stats).xp (profile stats).level (profile stats).next_level_at
profile-IsBracket_example = profile-IsBracket stats

profile_monotone_example :
    ((profile stats).level ≤ (profile more_stats).level)
    × ((id : String)
        → has_badge id (profile stats).badges ≡ true
        → has_badge id (profile more_stats).badges ≡ true)
profile_monotone_example = profile_monotone stats more_stats (record {
  validated_gear = omega arith;
  covered_categories = omega arith;
  validated_certifications = omega arith;
  dgac_certifications = omega arith;
  loadout_count = omega arith;
})
