-- ===== src/Auth/TwoFactor/Lifecycle.antt =====
-- Enrolment of two-factor.service.ts as a state machine of the stored accounts: an account whose 2FA
-- is active always has a secret and backup codes.
use skillhunt.Common.{
  ◌≡◌, ◌≢◌, String, Bool, true, false, Option, none, some, List, [], ◌∷◌, ◌==◌, string_eq, arith,
  Result, ok, err, Bool-cases, Result-cases, Option-cases, truthy, inl, inr, chain,
}
use skillhunt.Entities.{User, user_id}
use skillhunt.Store.{Repository}
use skillhunt.Redis.{Redis}
use skillhunt.External.{Argon, Otp, Random, SecretBox}
use skillhunt.Auth.Session.{Session}
use skillhunt.Auth.TwoFactor.{
  enroll, confirm, verify_code, disable, disable_after, regenerate_after, regenerate_backup_codes,
  verify_active, active_secret, consume, accepts, or_empty, lock_verdict, fail_key, or_false,
}

-- 2FA is active only with a secret and with backup codes.
abbrev pub IsEnrolled : User → Type 0
IsEnrolled user =
    user.two_factor_enabled ≡ true
    → (user.two_factor_secret_encrypted ≢ none) × (user.two_factor_backup_codes_hashed ≢ none)

-- A call of the service by an account.
pub data Call : Type 0 where
  enrolls : String → Call
  confirms verifies disables regenerates : String → String → Call

module _ {U R : Type 0} (users : Repository User user_id U) (redis : Redis R) (argon : Argon)
    (otp : Otp) (random : Random) (box : SecretBox) where
  abbrev pub EachEnrolled : U → Type 0
  EachEnrolled t = (k : String) (u : User) → users.row t k ≡ some u → IsEnrolled u

  save-EachEnrolled :
      (t : U) (u : User) → IsEnrolled u → EachEnrolled t → EachEnrolled (users.save u t)
  save-EachEnrolled t u h v k w e on = ground (arith, users.row-save t u k, h, v k w)

  found-IsEnrolled :
      (t : U) (p : User → Bool) (u : User)
      → EachEnrolled t
      → users.find_one p t ≡ some u
      → IsEnrolled u
  found-IsEnrolled t p u v e = v u.id u (users.find_one_sound t p u e).1

  enroll-EachEnrolled :
      (id : String) (s : Session U R)
      → EachEnrolled s.users
      → EachEnrolled (enroll users redis argon otp random box id s).1.users
  unfolding enroll
  enroll-EachEnrolled id s v = elim (Option-cases (users.find_one (λ u. u.id == id) s.users)) [
    | inl e ↦ rw (e, enroll) v
    | inr (u, e) ↦ elim (Bool-cases u.two_factor_enabled) [
      | inl on ↦ simp (e, on) v
      | inr off ↦ simp (e, off) (save-EachEnrolled s.users _ (λ on. cc) v)
    ]
  ]

  verify_active_users :
      (P : U → Type 0) (u : User) (code : String) (payload : Option String) (s : Session U R)
      → P s.users
      → ((rest : List String)
          → P (users.save (record u { two_factor_backup_codes_hashed = some rest }) s.users))
      → P (verify_active users redis argon otp random box u code payload s).1.users
  verify_active_users P u code none s same saved = same
  verify_active_users P u code (some payload) s same saved =
      elim (Result-cases
        (lock_verdict users redis argon otp random box (redis.get (fail_key u.id) s.redis).0)) [
          | inr (e, locked) ↦ simp locked same
          | inl (_, open_) ↦ elim (Option-cases (box.decrypt payload)) [
            | inl broken ↦ simp (open_, broken) same
            | inr (secret, d) ↦ elim (Bool-cases (or_false (otp.verify s.now code secret))) [
              | inl good ↦ simp (open_, d, good) same
              | inr bad ↦
                  elim (Option-cases (
                    consume (accepts users redis argon otp random box code)
                      (or_empty u.two_factor_backup_codes_hashed))) [
                        | inl spent ↦ simp (open_, d, bad, spent) same
                        | inr (rest, found) ↦ simp (open_, d, bad, found) (saved rest)
                      ]
            ]
          ]
        ]

  verify_code-EachEnrolled :
      (id code : String) (s : Session U R)
      → EachEnrolled s.users
      → EachEnrolled (verify_code users redis argon otp random box id code s).1.users
  unfolding verify_code
  verify_code-EachEnrolled id code s v =
      elim (Option-cases (users.find_one (λ u. u.id == id) s.users)) [
        | inl e ↦ rw (e, verify_code) v
        | inr (u, e) ↦ simp e (
            verify_active_users EachEnrolled u code
              (active_secret users redis argon otp random box u) s v
              λ rest.
                save-EachEnrolled s.users _ (kept u rest (found-IsEnrolled s.users _ u v e)) v)
      ]
    where
      kept :
          (u : User) (rest : List String)
          → IsEnrolled u
          → IsEnrolled (record u { two_factor_backup_codes_hashed = some rest })
      kept u rest h on = ((h on).0, λ e. cc)

  chain_users :
      {A B : Type 0} (P : U → Type 0) (m : Result A × Session U R)
      (f : A → Session U R → Result B × Session U R)
      → P m.1.users
      → ((a : A) (s : Session U R) → P s.users → P (f a s).1.users)
      → P (chain m f).1.users
  chain_users P (ok a, s) f p next = next a s p
  chain_users P (err e, s) f p next = p

  disable_after-EachEnrolled :
      (id : String) (valid : Bool) (s : Session U R)
      → EachEnrolled s.users
      → EachEnrolled (disable_after users redis argon otp random box id valid s).1.users
  disable_after-EachEnrolled id false s v = v
  disable_after-EachEnrolled id true s v =
      elim (Option-cases (users.find_one (λ u. u.id == id) s.users)) [
        | inl e ↦ simp e v
        | inr (u, e) ↦ simp e (save-EachEnrolled s.users _ (λ on. cc) v)
      ]

  regenerate_after-EachEnrolled :
      (id : String) (valid : Bool) (s : Session U R)
      → EachEnrolled s.users
      → EachEnrolled (regenerate_after users redis argon otp random box id valid s).1.users
  regenerate_after-EachEnrolled id false s v = v
  regenerate_after-EachEnrolled id true s v =
      elim (Option-cases (users.find_one (λ u. u.id == id) s.users)) [
        | inl e ↦ simp e v
        | inr (u, e) ↦ simp e (
            save-EachEnrolled s.users _ (λ on. ((found-IsEnrolled s.users _ u v e on).0, λ x. cc))
              v)
      ]

  confirm-EachEnrolled :
      (id code : String) (s : Session U R)
      → EachEnrolled s.users
      → EachEnrolled (confirm users redis argon otp random box id code s).1.users
  unfolding confirm
  confirm-EachEnrolled id code s v =
      elim (Option-cases (users.find_one (λ u. u.id == id) s.users)) [
        | inl e ↦ rw (e, confirm) v
        | inr (u, e) ↦ elim (Option-cases (truthy u.two_factor_secret_encrypted)) [
          | inl off ↦ simp (e, off) v
          | inr (payload, on) ↦ elim (Option-cases (box.decrypt payload)) [
            | inl broken ↦ simp (e, on, broken) v
            | inr (secret, d) ↦ elim (Bool-cases (or_false (otp.verify s.now code secret))) [
              | inl good ↦
                  simp (e, on, d, good) (save-EachEnrolled s.users _ (λ _. (λ x. cc, λ x. cc)) v)
              | inr bad ↦ simp (e, on, d, bad) v
            ]
          ]
        ]
      ]

  unfoldable pub step : Call → Session U R → Session U R
  step (enrolls id) s = (enroll users redis argon otp random box id s).1
  step (confirms id code) s = (confirm users redis argon otp random box id code s).1
  step (verifies id code) s = (verify_code users redis argon otp random box id code s).1
  step (disables id code) s = (disable users redis argon otp random box id code s).1
  step (regenerates id code) s =
      (regenerate_backup_codes users redis argon otp random box id code s).1

  unfoldable pub run : List Call → Session U R → Session U R
  run [] s = s
  run (c ∷ cs) s = run cs (step c s)

  step-EachEnrolled :
      (c : Call) (s : Session U R) → EachEnrolled s.users → EachEnrolled (step c s).users
  unfolding step disable regenerate_backup_codes
  step-EachEnrolled (enrolls id) s v = enroll-EachEnrolled id s v
  step-EachEnrolled (confirms id code) s v = confirm-EachEnrolled id code s v
  step-EachEnrolled (verifies id code) s v = verify_code-EachEnrolled id code s v
  step-EachEnrolled (disables id code) s v =
      chain_users EachEnrolled (verify_code users redis argon otp random box id code s) _
        (verify_code-EachEnrolled id code s v) (disable_after-EachEnrolled id)
  step-EachEnrolled (regenerates id code) s v =
      chain_users EachEnrolled (verify_code users redis argon otp random box id code s) _
        (verify_code-EachEnrolled id code s v) (regenerate_after-EachEnrolled id)

  run-EachEnrolled :
      (cs : List Call) (s : Session U R) → EachEnrolled s.users → EachEnrolled (run cs s).users
  unfolding run
  run-EachEnrolled [] s v = v
  run-EachEnrolled (c ∷ cs) s v = run-EachEnrolled cs (step c s) (step-EachEnrolled c s v)

  pub record AllEnrolled (t : U) : Type 0 where
    pub each : EachEnrolled t

  -- Whatever calls are made, in any order and with any codes, from accounts whose 2FA is active only
  -- with a secret and with backup codes, the same holds of the accounts that they leave.
  pub run-AllEnrolled :
      (cs : List Call) (s : Session U R) → AllEnrolled s.users → AllEnrolled (run cs s).users
  run-AllEnrolled cs s v = record { each = run-EachEnrolled cs s v.each }
