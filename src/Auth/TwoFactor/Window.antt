-- ===== src/Auth/TwoFactor/Window.antt =====
-- The failures that Redis counts for an account, and the window in which it does.
use skillhunt.Common.{
  ℕ, ◌+◌, ◌≤◌, ◌<◌, ◌≡◌, refl, String, true, false, Option, none, some, ◌==◌, string_eq, nat_eq,
  arith, Bool-cases, inl, inr, ◌-◌, sym, ◌∙◌, ap, subst,
}
use skillhunt.Entities.{User, user_id}
use skillhunt.Store.{Repository}
use skillhunt.Redis.{Redis, expired}
use skillhunt.External.{Argon, Otp, Random, SecretBox}
use skillhunt.Auth.TwoFactor.{fail_key, after_incr, fail_window_seconds}
use skillhunt.Auth.TwoFactor.Attempts.{failures, count-incr, after_attempt}

-- States in which Redis answers every call of the lockout.
pub record StaysUp {R : Type 0} (redis : Redis R) (IsUp : R → Type 0) : Type 0 where
  pub get_answers :
      (s : R) (k : String) → IsUp s → (v : Option String) × ((redis.get k s).0 ≡ some v)
  pub incr_answers : (s : R) (k : String) → IsUp s → (n : ℕ) × ((redis.incr k s).0 ≡ some n)
  pub get_up : (s : R) (k : String) → IsUp s → IsUp (redis.get k s).1
  pub incr_up : (s : R) (k : String) → IsUp s → IsUp (redis.incr k s).1
  pub expire_answers : (s : R) (k : String) (ttl : ℕ) → IsUp s → (redis.expire_in k ttl s).0 ≡ true
  pub wait_up : (s : R) (d : ℕ) → IsUp s → IsUp (redis.wait d s)
  pub expire_up : (s : R) (k : String) (ttl : ℕ) → IsUp s → IsUp (redis.expire_in k ttl s).1

module _ {U R : Type 0} (users : Repository User user_id U) (redis : Redis R) (argon : Argon)
    (otp : Otp) (random : Random) (box : SecretBox) where
  -- Redis counts `n` failures of an account, for another `w` seconds.
  pub record IsCounting (id : String) (n w : ℕ) (r : R) : Type 0 where
    pub count : failures users redis argon otp random box id r ≡ n
    pub value : String
    pub held : redis.at r (fail_key id) ≡ some value
    pub lives : redis.ttl r (fail_key id) ≡ some w

  pub wait-IsCounting :
      (id : String) (n w d : ℕ) (r : R)
      → d < w
      → IsCounting id n w r
      → IsCounting id n (w - d) (redis.wait d r)
  wait-IsCounting id n w d r h c =
      let live : expired (redis.ttl r (fail_key id)) d ≡ false = rw c.lives (ground arith) in
      let same = redis.at-wait r d (fail_key id) ∙ rw live refl in
      record {
        count = rw same c.count;
        value = c.value;
        held = same ∙ c.held;
        lives = redis.ttl-wait r d (fail_key id) live ∙ rw c.lives refl;
      }

  -- At the end of the window nothing is counted any more.
  pub wait_ends :
      (id : String) (n w d : ℕ) (r : R)
      → w ≤ d
      → IsCounting id n w r
      → failures users redis argon otp random box id (redis.wait d r) ≡ 0
  wait_ends id n w d r h c =
      let over : expired (redis.ttl r (fail_key id)) d ≡ true = rw c.lives (ground arith) in
      rw (redis.at-wait r d (fail_key id), over) refl

  pub get-IsCounting :
      (id : String) (n w : ℕ) (r : R)
      → IsCounting id n w r
      → IsCounting id n w (redis.get (fail_key id) r).1
  get-IsCounting id n w r c =
      let same = redis.at-get r (fail_key id) (fail_key id) in
      record {
        count = rw same c.count;
        value = c.value;
        held = same ∙ c.held;
        lives = redis.ttl-get r (fail_key id) (fail_key id) ∙ c.lives;
      }

  module _ {IsUp : R → Type 0} (up : StaysUp redis IsUp) where
    expiring_up :
        (id : String) (n : ℕ) (r : R)
        → IsUp r
        → IsUp (after_incr users redis argon otp random box id (some n) r)
    expiring_up id n r h = elim (Bool-cases (n == 1)) [
      | inl first ↦ rw first (up.expire_up r (fail_key id) fail_window_seconds h)
      | inr later ↦ rw later h
    ]

    pub after_attempt_up :
        (id : String) (r : R) → IsUp r → IsUp (after_attempt users redis argon otp random box id r)
    after_attempt_up id r h =
        let read = up.get_up r (fail_key id) h in
        let (n, e) = up.incr_answers (redis.get (fail_key id) r).1 (fail_key id) read in
        rw e (expiring_up id n _ (up.incr_up _ (fail_key id) read))

    -- The first failure starts a window of 300 seconds.
    pub first-IsCounting :
        (id : String) (r : R)
        → IsUp r
        → redis.at r (fail_key id) ≡ none
        → IsCounting id 1 300 (after_attempt users redis argon otp random box id r)
    first-IsCounting id r h absent =
        let key = fail_key id in
        let read = (redis.get key r).1 in
        let up_read = up.get_up r key h in
        let (n, e) = up.incr_answers read key up_read in
        let one : n ≡ 1 = redis.incr_none read key n e (redis.at-get r key key ∙ absent) in
        let counted = (redis.incr key read).1 in
        let value = redis.at-incr read key n e in
        let up_counted = up.incr_up read key up_read in
        let step : after_attempt users redis argon otp random box id r
            ≡ (redis.expire_in key 300 counted).1 =
          rw (e, one) refl in
        let same = redis.at-expire_in counted key key 300 (omega arith) ∙ value in
        subst (IsCounting id 1 300) (sym step) (record {
          count = rw (same, redis.number-decimal n) one;
          value = redis.decimal n;
          held = same;
          lives =
              redis.ttl-expire_in counted key (redis.decimal n) 300
                (up.expire_answers counted key 300 up_counted) value (omega arith);
        })

    -- A later failure leaves the end of the window where it was.
    pub next-IsCounting :
        (id : String) (n w : ℕ) (r : R)
        → IsUp r
        → 1 ≤ n
        → IsCounting id n w r
        → IsCounting id (n + 1) w (after_attempt users redis argon otp random box id r)
    next-IsCounting id n w r h some_before c =
        let key = fail_key id in
        let read = (redis.get key r).1 in
        let up_read = up.get_up r key h in
        let (m, e) = up.incr_answers read key up_read in
        let counting = get-IsCounting id n w r c in
        let more : m ≡ n + 1 =
          count-incr users redis argon otp random box id read m e
          ∙ ap (λ x. x + 1) counting.count in
        let counted = (redis.incr key read).1 in
        let later : (m == 1) ≡ false = ground arith in
        let step : after_attempt users redis argon otp random box id r ≡ counted =
          rw (e, later) refl in
        let value = redis.at-incr read key m e in
        subst (IsCounting id (n + 1) w) (sym step) (record {
          count = rw (value, redis.number-decimal m) more;
          value = redis.decimal m;
          held = value;
          lives = redis.ttl-incr read key counting.value m e counting.held ∙ counting.lives;
        })
