-- ===== src/Auth/Session.antt =====
-- The state that the identity services share: the users' table, Redis, the clock in seconds and the
-- number of random draws made so far.
use skillhunt.Common.{ℕ, suc, Exec, ok}

pub record Session (U R : Type 0) : Type 0 where
  pub users : U
  pub redis : R
  pub now : ℕ
  pub seed : ℕ

-- A method of the token registry, run on the shared state.
abbrev pub on_redis : {U R A : Type 0} → Exec R A → Exec (Session U R) A
on_redis m s = let (r, redis') = m s.redis in (r, record s { redis = redis' })

-- The next random draw.
abbrev pub draw : {U R : Type 0} → Exec (Session U R) ℕ
draw s = (ok s.seed, record s { seed = suc s.seed })
