-- ===== src/Auth/TwoFactor/Examples.antt =====
-- The second factor on a table and a Redis in memory.
use skillhunt.Common.{
  ◌≡◌, ◌≢◌, ◌<◌, refl, String, true, false, Option, none, some, List, [], ◌∷◌, length, includes,
  string_eq, arith, ok, err, unauthorized, too_many_requests, All, Bool, Bool-cases, inl, inr, ◌==◌,
  some-injective, ap, ◌++◌, ℕ, ◌≤◌, ◌+◌,
}
use skillhunt.Enums.{freelance}
use skillhunt.Entities.{User, user_id}
use skillhunt.Store.{Repository}
use skillhunt.Store.Table
use skillhunt.Store.Table.{Table, repository, empty}
use skillhunt.Redis.Memory.{Memory, fresh, redis, bumped}
use skillhunt.External.Plain.{argon, otp, random, box}
use skillhunt.Auth.Session.{Session}
use skillhunt.Auth.TwoFactor.{
  confirm, verify_code, codes_from, fail_key, max_failed_attempts, enroll, disable,
  regenerate_backup_codes,
}
use skillhunt.Auth.TwoFactor.Lifecycle.{
  AllEnrolled, enrolls, confirms, disables, run, run-AllEnrolled, Call, regenerates, step,
}
use skillhunt.Auth.TwoFactor.Lockout.{submit, five_wrong_codes_lock}
use skillhunt.Auth.TwoFactor.Attempts.{failures}
use skillhunt.Auth.TwoFactor.Window.{StaysUp}
use skillhunt.Auth.TwoFactor.BackupCodes.{
  IsConsumed, accepted_by, with_codes, backup_code_single_use,
}
use skillhunt.Auth.TwoFactor.Confirmation.{confirm_ignores_lockout, confirm_codes_accepted}

abbrev users : Repository User user_id (Table User user_id)
users = repository user_id

abbrev bob : User
bob = record {
  id = "bob";
  email = "bob@example.org";
  username = "bob";
  password_hash = "pw";
  role = freelance;
  location = none;
  two_factor_enabled = true;
  two_factor_secret_encrypted = some "secret";
  two_factor_backup_codes_hashed = some ("c1" ∷ "c2" ∷ []);
  created_at = 0;
}

abbrev session : Session (Table User user_id) Memory
session = record {
  users = Table.save user_id bob (empty user_id);
  redis = fresh;
  now = 0;
  seed = 0;
}

-- An account without the second factor enrols, confirms, asks for new codes, and goes on.
abbrev newcomer : Session (Table User user_id) Memory
newcomer = record session {
  users =
      Table.save user_id
        (record bob {
          two_factor_enabled = false;
          two_factor_secret_encrypted = none;
          two_factor_backup_codes_hashed = none;
        })
        (empty user_id);
}

abbrev setup : List Call
setup =
    enrolls "bob"
    ∷ confirms "bob" (otp.generate_secret 0)
    ∷ regenerates "bob" (otp.generate_secret 0)
    ∷ []

abbrev first_steps : List Call
first_steps = setup ++ disables "bob" (otp.generate_secret 0) ∷ []

abbrev is_on : Option User → Bool
is_on none = false
is_on (some u) = u.two_factor_enabled

-- The confirm has activated it, and the disable has ended it.
activated :
    is_on (users.row (run users redis argon otp random box setup newcomer).users "bob") ≡ true
unfolding enroll confirm verify_code regenerate_backup_codes disable run step
activated = refl

ended :
    is_on (users.row (run users redis argon otp random box first_steps newcomer).users "bob")
    ≡ false
unfolding enroll confirm verify_code regenerate_backup_codes disable run step
ended = refl

run-AllEnrolled_example :
    AllEnrolled users redis argon otp random box
      (run users redis argon otp random box first_steps newcomer).users
run-AllEnrolled_example =
    run-AllEnrolled users redis argon otp random box first_steps newcomer (record {
      each = λ k u e on. elim (Bool-cases ("bob" == k)) [
        | inl f ↦
            let same = some-injective (simp f at e) in
            let off = ap (λ (x : User). x.two_factor_enabled) same in cc
        | inr f ↦ let missing = simp f at e in cc
      ];
    })

-- The Redis in memory answers for as long as it is up.
memory_stays_up : StaysUp redis (λ s. s.up ≡ true)
memory_stays_up = record {
  get_answers = λ s k h. (s.at k, ground arith);
  incr_answers = λ s k h. (bumped (s.at k), ground arith);
  get_up = λ s k h. h;
  incr_up = λ s k h. ground arith;
  expire_answers = λ s k ttl h. h;
  wait_up = λ s d h. h;
  expire_up = λ s k ttl h. ground arith;
}

abbrev guesses : List (ℕ × String)
guesses = (1, "b") ∷ (20, "c") ∷ (60, "d") ∷ (3, "e") ∷ []

-- The right code, twice while the account is locked.
abbrev right_codes : List (ℕ × String)
right_codes = (5, "secret") ∷ (200, "secret") ∷ []

five_wrong_codes_lock_example :
    let (answer, s₁) = verify_code users redis argon otp random box "bob" "a" session in
    let (answers, s₂) = submit users redis argon otp random box "bob" guesses s₁ in
    let (locked, s₃) = submit users redis argon otp random box "bob" right_codes s₂ in
    (answer ≡ ok false)
    × All (λ a. a ≡ ok false) answers
    × All
        (λ a. a ≡ err (too_many_requests "Trop de tentatives. Réessaie dans quelques minutes."))
        locked
    × ((d : ℕ)
        → 300 ≤ 84 + 205 + d
        → failures users redis argon otp random box "bob" (redis.wait d s₃.redis) ≡ 0)
five_wrong_codes_lock_example =
    five_wrong_codes_lock users redis argon otp random box memory_stays_up "a" guesses right_codes
      session "bob" "secret" "secret" bob refl refl refl refl
      (record { not_totp = refl; not_backup = refl })
      (
        record { not_totp = refl; not_backup = refl },
        (
          record { not_totp = refl; not_backup = refl },
          (
            record { not_totp = refl; not_backup = refl },
            (record { not_totp = refl; not_backup = refl }, tt),
          ),
        ),
      )
      refl (omega arith) refl

backup_code_single_use_example :
    let s' = (verify_code users redis argon otp random box "bob" "c1" session).1 in
    (rest : List String) × (c : IsConsumed
      (accepted_by users redis argon otp random box "c1")
      ("c1" ∷ "c2" ∷ [])
      rest)
    × (users.row s'.users "bob" ≡ some (with_codes users redis argon otp random box bob rest))
    × (All (λ h. accepted_by users redis argon otp random box "c1" h ≡ false) c.after
        → (verify_code users redis argon otp random box "bob" "c1" s').0 ≢ ok true)
unfolding verify_code
backup_code_single_use_example =
    backup_code_single_use users redis argon otp random box session "bob" "c1" "secret" "secret" bob
      refl refl refl refl refl

confirm_ignores_lockout_example :
    ((confirm users redis argon otp random box "bob" "x" (record session { redis = fresh })).0
      ≡ (confirm users redis argon otp random box "bob" "x" session).0)
    × ((confirm users redis argon otp random box "bob" "x" session).1.redis ≡ session.redis)
    × ((confirm users redis argon otp random box "bob" "x" session).0
          ≡ err (unauthorized "Code de vérification invalide")
        → (confirm users redis argon otp random box "bob" "x" session).1 ≡ session)
confirm_ignores_lockout_example =
    confirm_ignores_lockout users redis argon otp random box "bob" "x" session fresh

abbrev handed_out : List String
handed_out = codes_from random 0 8

confirm_codes_accepted_example :
    (length handed_out ≡ 8)
    × ((c : String) (v : Option String)
        → includes handed_out c ≡ true
        → (redis.get (fail_key "bob") fresh).0 ≡ some v
        → failures users redis argon otp random box "bob" fresh < max_failed_attempts
        → (verify_code users redis argon otp random box "bob" c
            (confirm users redis argon otp random box "bob" "secret" session).1).0
          ≡ ok true)
unfolding confirm
confirm_codes_accepted_example =
    confirm_codes_accepted users redis argon otp random box "bob" "secret" session handed_out refl
