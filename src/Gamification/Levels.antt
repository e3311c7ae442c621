-- ===== src/Gamification/Levels.antt =====
-- The levels and badges of gamification.service.ts as functions of the statistics.
use skillhunt.Common.{ℕ, ◌≤◌, ◌<◌, ◌≡◌, Option, none, some, arith, All}
use skillhunt.Gamification.{levels, current_level, next_level, threshold_of}

-- The bracket of the thresholds that holds some experience.
pub record IsBracket (xp level : ℕ) (next : Option ℕ) : Type 0 where
  -- Every level whose threshold is reached is at most this one, and the others are above it.
  pub reached : All (λ l. l.threshold ≤ xp → l.level ≤ level) levels
  pub missing : All (λ l. xp < l.threshold → level < l.level) levels
  -- The next threshold is the least that is not reached, and there is none at the last level.
  pub above :
      (n : ℕ) → next ≡ some n → (xp < n) × All (λ l. xp < l.threshold → n ≤ l.threshold) levels
  pub last : next ≡ none → All (λ l. l.threshold ≤ xp) levels

pub bracket : (xp : ℕ) → IsBracket xp (current_level xp).level (threshold_of (next_level xp))
bracket xp = record {
  reached = (
    ground arith,
    (ground arith, (ground arith, (ground arith, (ground arith, (ground arith, tt))))),
  );
  missing = (
    ground arith,
    (ground arith, (ground arith, (ground arith, (ground arith, (ground arith, tt))))),
  );
  above = λ n e. (
    ground arith,
    (
      ground arith,
      (ground arith, (ground arith, (ground arith, (ground arith, (ground arith, tt))))),
    ),
  );
  last = λ e. (
    ground arith,
    (ground arith, (ground arith, (ground arith, (ground arith, (ground arith, tt))))),
  );
}

pub level_monotone : (a b : ℕ) → a ≤ b → (current_level a).level ≤ (current_level b).level
level_monotone a b h = ground arith
