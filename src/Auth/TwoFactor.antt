-- ===== src/Auth/TwoFactor.antt =====
-- backend-core/src/auth/two-factor.service.ts: TOTP enrolment, the codes' verification with its
-- lockout, and the backup codes.
pub mod Lifecycle
pub mod Attempts
pub mod Window
pub mod Lockout
pub mod BackupCodes
pub mod Confirmation
mod Examples
use Prim.Native.String
use skillhunt.Common.{
  ℕ, zero, suc, ◌+◌, ◌%◌, String, Bool, true, false, not, ◌&&◌, ◌||◌, Option, none, some, List, [],
  ◌∷◌, map, leb, if◌then◌else◌, ◌==◌, string_eq, nat_eq, Exec, Result, ok, err, not_found, conflict,
  unauthorized, service_unavailable, too_many_requests, internal, HttpError, ◌>>=◌, ◌>>◌, pure,
  throw, gets, modify, throw_if, require, truthy,
}
use skillhunt.Entities.{User, user_id}
use skillhunt.Store.{Repository}
use skillhunt.Redis.{Redis}
use skillhunt.External.{Argon, Otp, Random, SecretBox}
use skillhunt.Auth.Session.{Session, draw}

abbrev pub backup_codes_count : ℕ
backup_codes_count = 8

abbrev pub max_failed_attempts : ℕ
max_failed_attempts = 5

abbrev pub fail_window_seconds : ℕ
fail_window_seconds = 300

abbrev pub fail_key : String → String
fail_key id = String.◌++◌ "2fa:fail:" id

pub record EnrollResult : Type 0 where
  pub secret : String
  pub otpauth_url : String

-- `Number(stored ?? 0)`
abbrev pub failures_of : {R : Type 0} → Redis R → Option String → ℕ
failures_of redis none = 0
failures_of redis (some text) = redis.number text

-- A check that may throw, with its `catch { return false; }`.
abbrev pub or_false : Option Bool → Bool
or_false none = false
or_false (some b) = b

-- `user.twoFactorBackupCodesHashed ?? []`
abbrev pub or_empty : Option (List String) → List String
or_empty none = []
or_empty (some hashed) = hashed

-- The loop over the backup codes: what is left of the list when a code is accepted.
abbrev pub consume : (String → Bool) → List String → Option (List String)
consume accepts [] = none
consume accepts (h ∷ hashed) =
    if accepts h
    then some hashed
    else elim (consume accepts hashed) [ none ↦ none | some rest ↦ some (h ∷ rest) ]

-- A letter of the alphabet without 0/O and 1/I, `alphabet[byte % alphabet.length]`.
abbrev pub letter_at : List String → ℕ → String
letter_at [] i = ""
letter_at (c ∷ cs) zero = c
letter_at (c ∷ cs) (suc i) = letter_at cs i

abbrev pub alphabet : List String
alphabet =
    "A" ∷ "B" ∷ "C" ∷ "D" ∷ "E" ∷ "F" ∷ "G" ∷ "H" ∷ "J" ∷ "K" ∷ "M" ∷ "N" ∷ "P" ∷ "Q" ∷ "R" ∷ "S"
    ∷ "T" ∷ "U" ∷ "V" ∷ "W" ∷ "X" ∷ "Y" ∷ "Z" ∷ "2" ∷ "3" ∷ "4" ∷ "5" ∷ "6" ∷ "7" ∷ "8" ∷ "9" ∷ []

abbrev pub letter : ℕ → String
letter byte = letter_at alphabet (byte % 31)

abbrev pub concat : List String → String
concat [] = ""
concat (s ∷ ss) = String.◌++◌ s (concat ss)

-- Eight random letters with a dash in the middle, from one draw.
abbrev pub backup_code : Random → ℕ → String
backup_code random draw_no =
    let char = λ (i : ℕ). letter (random.byte draw_no i) in
    concat (char 0 ∷ char 1 ∷ char 2 ∷ char 3 ∷ "-" ∷ char 4 ∷ char 5 ∷ char 6 ∷ char 7 ∷ [])

-- The codes of `n` draws from the `seed`-th on.
abbrev pub codes_from : Random → ℕ → ℕ → List String
codes_from random seed zero = []
codes_from random seed (suc n) = backup_code random seed ∷ codes_from random (suc seed) n

-- `Promise.all(backupCodes.map((c) => hash(c)))`, each with a salt of its own.
abbrev pub hash_all : Argon → ℕ → List String → List String
hash_all argon seed [] = []
hash_all argon seed (c ∷ cs) = argon.hash seed c ∷ hash_all argon (suc seed) cs

module _ {U R : Type 0} (users : Repository User user_id U) (redis : Redis R) (argon : Argon)
    (otp : Otp) (random : Random) (box : SecretBox) where
  abbrev pub State : Type 0
  State = Session U R

  abbrev pub save_user : User → Exec State (Unit {0})
  save_user user = modify (λ s. record s { users = users.save user s.users })

  abbrev pub require_user : String → Exec State User
  require_user id = do
    found ← gets (λ s. users.find_one (λ u. u.id == id) s.users)
    require found (not_found "Utilisateur introuvable")

  pub status : String → Exec State Bool
  status id = do user ← require_user id; pure user.two_factor_enabled

  pub enroll : String → Exec State EnrollResult
  enroll id = do
    user ← require_user id
    throw_if user.two_factor_enabled
        (conflict "La double authentification est déjà activée sur ce compte")
    secret_draw ← draw
    let secret = otp.generate_secret secret_draw
    iv_draw ← draw
    save_user (record user { two_factor_secret_encrypted = some (box.encrypt iv_draw secret) })
    pure (record { secret = secret; otpauth_url = otp.keyuri user.email "SkillHunt" secret })

  abbrev pub is_valid_totp : String → String → State → Bool
  is_valid_totp secret code s = or_false (otp.verify s.now code secret)

  -- A secret that cannot be decrypted throws outside any `try`.
  abbrev pub decrypted : String → Exec State String
  decrypted payload = require (box.decrypt payload) (internal "decrypt")

  -- The random codes, and their hashes.
  abbrev pub generate_backup_codes : Exec State (List String)
  generate_backup_codes s = (
    ok (codes_from random s.seed backup_codes_count),
    record s { seed = s.seed + backup_codes_count },
  )

  abbrev pub hash_codes : List String → Exec State (List String)
  hash_codes codes s =
      (ok (hash_all argon s.seed codes), record s { seed = s.seed + backup_codes_count })

  pub confirm : String → String → Exec State (List String)
  confirm id code = do
    user ← require_user id
    payload ←
        require (truthy user.two_factor_secret_encrypted)
          (unauthorized "Aucun enrôlement 2FA en attente sur ce compte")
    secret ← decrypted payload
    valid ← gets (is_valid_totp secret code)
    throw_if (not valid) (unauthorized "Code de vérification invalide")
    codes ← generate_backup_codes
    hashed ← hash_codes codes
    save_user
        (record user { two_factor_enabled = true; two_factor_backup_codes_hashed = some hashed })
    pure codes

  -- The verdict on the counter that was read; a read that fails closes the door.
  abbrev pub lock_verdict : Option (Option String) → Result (Unit {0})
  lock_verdict none = err (
      service_unavailable
        "Service d'authentification momentanément indisponible. Réessaie dans un instant.")
  lock_verdict (some stored) =
      if leb max_failed_attempts (failures_of redis stored)
      then err (too_many_requests "Trop de tentatives. Réessaie dans quelques minutes.")
      else ok tt

  abbrev pub assert_not_locked : String → Exec State (Unit {0})
  assert_not_locked id s =
      let (stored, redis') = redis.get (fail_key id) s.redis in
      (lock_verdict stored, record s { redis = redis' })

  -- The first failure of a window starts its clock; errors are swallowed.
  abbrev pub after_incr : String → Option ℕ → R → R
  after_incr id none r = r
  after_incr id (some failures) r =
      if failures == 1 then (redis.expire_in (fail_key id) fail_window_seconds r).1 else r

  abbrev pub register_failure : String → Exec State (Unit {0})
  register_failure id s =
      let (failures, redis') = redis.incr (fail_key id) s.redis in
      (ok tt, record s { redis = after_incr id failures redis' })

  abbrev pub clear_failures : String → Exec State (Unit {0})
  clear_failures id s = (ok tt, record s { redis = (redis.del (fail_key id ∷ []) s.redis).1 })

  abbrev pub accepts : String → String → Bool
  accepts code hashed = or_false (argon.verify hashed code)

  -- From the loop over the backup codes on.
  abbrev pub verify_backup : User → Option (List String) → Exec State Bool
  verify_backup user none = do register_failure user.id; pure false
  verify_backup user (some rest) = do
    save_user (record user { two_factor_backup_codes_hashed = some rest })
    clear_failures user.id
    pure true

  -- From the TOTP check on.
  abbrev pub verify_totp : User → String → Bool → Exec State Bool
  verify_totp user code true = do clear_failures user.id; pure true
  verify_totp user code false =
      verify_backup user (consume (accepts code) (or_empty user.two_factor_backup_codes_hashed))

  -- `if (!user.twoFactorEnabled || !user.twoFactorSecretEncrypted) { return false; }`
  abbrev pub active_secret : User → Option String
  active_secret user =
      if user.two_factor_enabled then truthy user.two_factor_secret_encrypted else none

  abbrev pub verify_active : User → String → Option String → Exec State Bool
  verify_active user code none = pure false
  verify_active user code (some payload) = do
    assert_not_locked user.id
    secret ← decrypted payload
    valid ← gets (is_valid_totp secret code)
    verify_totp user code valid

  pub verify_code : String → String → Exec State Bool
  verify_code id code = do user ← require_user id; verify_active user code (active_secret user)

  -- What `disable` does with the verdict on the code.
  abbrev pub disable_after : String → Bool → Exec State (Unit {0})
  disable_after id valid = do
    throw_if (not valid) (unauthorized "Code de vérification invalide")
    user ← require_user id
    save_user (record user {
      two_factor_enabled = false;
      two_factor_secret_encrypted = none;
      two_factor_backup_codes_hashed = none;
    })

  pub disable : String → String → Exec State (Unit {0})
  disable id code = do valid ← verify_code id code; disable_after id valid

  -- What `regenerateBackupCodes` does with the verdict on the code.
  abbrev pub regenerate_after : String → Bool → Exec State (List String)
  regenerate_after id valid = do
    throw_if (not valid) (unauthorized "Code de vérification invalide")
    user ← require_user id
    codes ← generate_backup_codes
    hashed ← hash_codes codes
    save_user (record user { two_factor_backup_codes_hashed = some hashed })
    pure codes

  pub regenerate_backup_codes : String → String → Exec State (List String)
  regenerate_backup_codes id code = do valid ← verify_code id code; regenerate_after id valid
