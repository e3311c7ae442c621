-- ===== src/Auth/TwoFactor/Attempts.antt =====
-- One attempt at a code of two-factor.service.ts: what it answers and what Redis counts then.
use skillhunt.Common.{
  ℕ, ◌+◌, ◌≤◌, ◌<◌, ◌≡◌, refl, String, true, false, Option, none, some, ◌==◌, string_eq, nat_eq,
  arith, ok, err, Option-cases, inl, inr, leb, too_many_requests,
}
use skillhunt.Entities.{User, user_id}
use skillhunt.Store.{Repository}
use skillhunt.Redis.{Redis}
use skillhunt.External.{Argon, Otp, Random, SecretBox}
use skillhunt.Auth.Session.{Session}
use skillhunt.Auth.TwoFactor.{
  verify_code, active_secret, consume, accepts, or_empty, or_false, failures_of, fail_key,
  after_incr, max_failed_attempts,
}

module _ {U R : Type 0} (users : Repository User user_id U) (redis : Redis R) (argon : Argon)
    (otp : Otp) (random : Random) (box : SecretBox) where
  -- The failures that Redis counts for an account.
  abbrev pub failures : String → R → ℕ
  failures id r = failures_of redis (redis.at r (fail_key id))

  -- `code` is neither the TOTP of the moment nor a backup code of the account.
  pub record IsWrong (u : User) (secret : String) (now : ℕ) (code : String) : Type 0 where
    pub not_totp : or_false (otp.verify now code secret) ≡ false
    pub not_backup :
        consume
          (accepts users redis argon otp random box code)
          (or_empty u.two_factor_backup_codes_hashed)
        ≡ none

  pub count-incr :
      (id : String) (r : R) (n : ℕ)
      → (redis.incr (fail_key id) r).0 ≡ some n
      → n ≡ failures id r + 1
  count-incr id r n e = elim (Option-cases (redis.at r (fail_key id))) [
    | inl absent ↦ simp absent (redis.incr_none r (fail_key id) n e absent)
    | inr (v, present) ↦ simp present (redis.incr_some r (fail_key id) v n e present)
  ]

  abbrev pub after_attempt : String → R → R
  after_attempt id r =
      let (n, counted) = redis.incr (fail_key id) (redis.get (fail_key id) r).1 in
      after_incr users redis argon otp random box id n counted

  -- A wrong code while the account is open: the answer is no, and only the counter moves.
  pub verify_wrong :
      (s : Session U R) (id code payload secret : String) (u : User) (v : Option String)
      → users.find_one (λ u. u.id == id) s.users ≡ some u
      → active_secret users redis argon otp random box u ≡ some payload
      → box.decrypt payload ≡ some secret
      → IsWrong u secret s.now code
      → (redis.get (fail_key u.id) s.redis).0 ≡ some v
      → failures u.id s.redis < max_failed_attempts
      → verify_code users redis argon otp random box id code s
        ≡ (ok false, record s { redis = after_attempt u.id s.redis })
  unfolding verify_code
  verify_wrong s id code payload secret u v found active d wrong up open_ =
      let same = redis.get-at s.redis (fail_key u.id) v up in
      let free : leb max_failed_attempts (failures_of redis v) ≡ false = rw same (ground arith) in
      simp (found, active, up, free, d, wrong.not_totp, wrong.not_backup) refl

  -- From five failures on, every code is refused in the same way, the right one too.
  pub verify_locked :
      (s : Session U R) (id code payload : String) (u : User) (v : Option String)
      → users.find_one (λ u. u.id == id) s.users ≡ some u
      → active_secret users redis argon otp random box u ≡ some payload
      → (redis.get (fail_key u.id) s.redis).0 ≡ some v
      → max_failed_attempts ≤ failures u.id s.redis
      → verify_code users redis argon otp random box id code s ≡ (
        err (too_many_requests "Trop de tentatives. Réessaie dans quelques minutes."),
        record s { redis = (redis.get (fail_key u.id) s.redis).1 },
      )
  unfolding verify_code
  verify_locked s id code payload u v found active up closed =
      let same = redis.get-at s.redis (fail_key u.id) v up in
      let full : leb max_failed_attempts (failures_of redis v) ≡ true = rw same (ground arith) in
      simp (found, active, up, full) refl
