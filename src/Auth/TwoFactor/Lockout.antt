-- ===== src/Auth/TwoFactor/Lockout.antt =====
-- The lockout of two-factor.service.ts: five wrong codes close an account's second factor.
use skillhunt.Common.{
  ℕ, ◌+◌, ◌≤◌, ◌<◌, ◌≡◌, refl, String, Bool, false, none, some, List, [], ◌∷◌, ◌==◌, string_eq,
  nat_eq, arith, Result, ok, err, length, All, too_many_requests, suc, ◌-◌, total,
}
use skillhunt.Entities.{User, user_id}
use skillhunt.Store.{Repository}
use skillhunt.Redis.{Redis}
use skillhunt.External.{Argon, Otp, Random, SecretBox}
use skillhunt.Auth.Session.{Session}
use skillhunt.Auth.TwoFactor.{verify_code, active_secret, fail_key, max_failed_attempts}
use skillhunt.Auth.TwoFactor.Attempts.{
  failures, IsWrong, after_attempt, verify_wrong, verify_locked,
}
use skillhunt.Auth.TwoFactor.Window.{
  StaysUp, IsCounting, wait-IsCounting, wait_ends, get-IsCounting, first-IsCounting,
  next-IsCounting, after_attempt_up,
}

module _ {U R : Type 0} (users : Repository User user_id U) (redis : Redis R) (argon : Argon)
    (otp : Otp) (random : Random) (box : SecretBox) where
  -- So many seconds pass, for the clock of the code and for Redis.
  abbrev pub elapse : ℕ → Session U R → Session U R
  elapse d s = record s { now = s.now + d; redis = redis.wait d s.redis }

  -- The answers to codes, each submitted some seconds after the one before, and the state that they
  -- leave.
  pub submit : String → List (ℕ × String) → Session U R → List (Result Bool) × Session U R
  submit id [] s = ([], s)
  submit id ((d, c) ∷ attempts) s =
      let (answer, s') = verify_code users redis argon otp random box id c (elapse d s) in
      let (answers, s'') = submit id attempts s' in (answer ∷ answers, s'')

  -- Each code is wrong when it is submitted.
  abbrev pub AllWrong : User → String → ℕ → List (ℕ × String) → Type 0
  AllWrong u secret now [] = Unit
  AllWrong u secret now ((d, c) ∷ attempts) =
      IsWrong users redis argon otp random box u secret (now + d) c
      × AllWrong u secret (now + d) attempts

  module _ {IsUp : R → Type 0} (up : StaysUp redis IsUp) where
    submit_wrong :
        (attempts : List (ℕ × String)) (s : Session U R) (id payload secret : String) (u : User)
        (n w : ℕ)
        → users.find_one (λ u. u.id == id) s.users ≡ some u
        → active_secret users redis argon otp random box u ≡ some payload
        → box.decrypt payload ≡ some secret
        → IsUp s.redis
        → AllWrong u secret s.now attempts
        → 1 ≤ n
        → n + length attempts ≤ max_failed_attempts
        → total (λ a. a.0) attempts < w
        → IsCounting users redis argon otp random box u.id n w s.redis
        → let (answers, s') = submit id attempts s in
          All (λ a. a ≡ ok false) answers
          × (s'.users ≡ s.users)
          × IsUp s'.redis
          × IsCounting users redis argon otp random box u.id
              (n + length attempts)
              (w - total (λ a. a.0) attempts)
              s'.redis
    unfolding submit
    submit_wrong [] s id payload secret u n w found active d h wrong first room time c =
        (tt, refl, h, counted c)
      where
        counted :
            IsCounting users redis argon otp random box u.id n w s.redis
            → IsCounting users redis argon otp random box u.id (n + 0) (w - 0) s.redis
        counted c =
            let e : n + 0 ≡ n = omega arith in let f : w - 0 ≡ w = omega arith in rw (e, f) c
    submit_wrong ((t, code) ∷ attempts) s id payload secret u n w found active d h wrong first room
          time c =
        let s₁ = elapse t s in
        let h₁ = up.wait_up s.redis t h in
        let c₁ =
          wait-IsCounting users redis argon otp random box u.id n w t s.redis (omega arith) c in
        let (v, got) = up.get_answers s₁.redis (fail_key u.id) h₁ in
        let step =
          verify_wrong users redis argon otp random box s₁ id code payload secret u v found active d
            wrong.0 got (omega (arith, c₁.count)) in
        let s₂ : Session U R = record s₁ {
          redis = after_attempt users redis argon otp random box u.id s₁.redis;
        } in
        let (refused, same, still, counting) =
          submit_wrong attempts s₂ id payload secret u (n + 1) (w - t) found active d
            (after_attempt_up users redis argon otp random box up u.id s₁.redis h₁) wrong.1
            (omega arith) (omega arith) (omega arith)
            (next-IsCounting users redis argon otp random box up u.id n (w - t) s₁.redis h₁ first
              c₁) in
        rw step ((refl, refused), same, still, moved attempts counting)
      where
        moved :
            (attempts : List (ℕ × String)) {r : R}
            → IsCounting users redis argon otp random box u.id
                (n + 1 + length attempts)
                (w - t - total (λ a. a.0) attempts)
                r
            → IsCounting users redis argon otp random box u.id
                (n + suc (length attempts))
                (w - (t + total (λ a. a.0) attempts))
                r
        moved attempts c =
            let e : n + suc (length attempts) ≡ n + 1 + length attempts = omega arith in
            let f : w - (t + total (λ a. a.0) attempts) ≡ w - t - total (λ a. a.0) attempts =
              omega arith in
            rw (e, f) c

    submit_locked :
        (attempts : List (ℕ × String)) (s : Session U R) (id payload : String) (u : User) (n w : ℕ)
        → users.find_one (λ u. u.id == id) s.users ≡ some u
        → active_secret users redis argon otp random box u ≡ some payload
        → IsUp s.redis
        → max_failed_attempts ≤ n
        → total (λ a. a.0) attempts < w
        → IsCounting users redis argon otp random box u.id n w s.redis
        → let (answers, s') = submit id attempts s in
          All
            (λ a. a ≡ err (too_many_requests "Trop de tentatives. Réessaie dans quelques minutes."))
            answers
          × IsCounting users redis argon otp random box u.id n
              (w - total (λ a. a.0) attempts)
              s'.redis
    unfolding submit
    submit_locked [] s id payload u n w found active h full time c =
        let e : w - 0 ≡ w = omega arith in (tt, rw e c)
    submit_locked ((t, code) ∷ attempts) s id payload u n w found active h full time c =
        let s₁ = elapse t s in
        let h₁ = up.wait_up s.redis t h in
        let c₁ =
          wait-IsCounting users redis argon otp random box u.id n w t s.redis (omega arith) c in
        let (v, got) = up.get_answers s₁.redis (fail_key u.id) h₁ in
        let step =
          verify_locked users redis argon otp random box s₁ id code payload u v found active got
            (omega (arith, c₁.count)) in
        let (refused, counting) =
          submit_locked attempts (record s₁ { redis = (redis.get (fail_key u.id) s₁.redis).1 }) id
            payload u n (w - t) found active (up.get_up s₁.redis (fail_key u.id) h₁) full
            (omega arith)
            (get-IsCounting users redis argon otp random box u.id n (w - t) s₁.redis c₁) in
        let e : w - (t + total (λ a. a.0) attempts) ≡ w - t - total (λ a. a.0) attempts =
          omega arith in
        rw step ((refl, refused), rw e counting)

    -- While Redis answers, five wrong codes for an account with active 2FA and no failure on record,
    -- whose last comes less than 300 seconds after the first, are each answered by no; every code that
    -- is submitted until those 300 seconds are over, be it the right one, is refused with 429; and when
    -- they are over, no failure is on record.
    pub five_wrong_codes_lock :
        (code : String) (attempts later : List (ℕ × String)) (s : Session U R)
        (id payload secret : String) (u : User)
        → users.find_one (λ u. u.id == id) s.users ≡ some u
        → active_secret users redis argon otp random box u ≡ some payload
        → box.decrypt payload ≡ some secret
        → IsUp s.redis
        → IsWrong users redis argon otp random box u secret s.now code
        → AllWrong u secret s.now attempts
        → length attempts ≡ 4
        → total (λ a. a.0) attempts + total (λ a. a.0) later < 300
        → redis.at s.redis (fail_key u.id) ≡ none
        → let (answer, s₁) = verify_code users redis argon otp random box id code s in
          let (answers, s₂) = submit id attempts s₁ in
          let (locked, s₃) = submit id later s₂ in
          (answer ≡ ok false)
          × All (λ a. a ≡ ok false) answers
          × All
              (λ a.
                a ≡ err (too_many_requests "Trop de tentatives. Réessaie dans quelques minutes."))
              locked
          × ((d : ℕ)
              → 300 ≤ total (λ a. a.0) attempts + total (λ a. a.0) later + d
              → failures users redis argon otp random box u.id (redis.wait d s₃.redis) ≡ 0)
    five_wrong_codes_lock code attempts later s id payload secret u found active d h wrong wrongs
          four time none_yet =
        let (v, got) = up.get_answers s.redis (fail_key u.id) h in
        let zero_yet : failures users redis argon otp random box u.id s.redis ≡ 0 =
          rw none_yet refl in
        let step =
          verify_wrong users redis argon otp random box s id code payload secret u v found active d
            wrong got (omega (arith, zero_yet)) in
        let s₁ : Session U R = record s {
          redis = after_attempt users redis argon otp random box u.id s.redis;
        } in
        let (refused, same, still, counting) =
          submit_wrong attempts s₁ id payload secret u 1 300 found active d
            (after_attempt_up users redis argon otp random box up u.id s.redis h) wrongs
            (omega arith) (omega arith) (omega arith)
            (first-IsCounting users redis argon otp random box up u.id s.redis h none_yet) in
        let s₂ = (submit id attempts s₁).1 in
        let (locked, counted) =
          submit_locked later s₂ id payload u (1 + length attempts)
            (300 - total (λ a. a.0) attempts) (rw same found) active still (omega arith)
            (omega arith) counting in
        rw step (
          refl,
          refused,
          locked,
          λ d over.
              wait_ends users redis argon otp random box u.id (1 + length attempts)
                (300 - total (λ a. a.0) attempts - total (λ a. a.0) later) d
                (submit id later s₂).1.redis (omega arith) counted,
        )
