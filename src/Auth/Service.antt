-- ===== src/Auth/Service.antt =====
-- backend-core/src/auth/auth.service.ts: registration, login with its 2FA step, rotation of the
-- refresh token and logout.
pub mod Login
pub mod Rotation
pub mod Registration
mod Examples
use skillhunt.Common.{
  ℕ, ◌*◌, String, Bool, true, false, not, Option, none, some, List, [], ◌∷◌, ◌==◌, string_eq,
  includes, if◌then◌else◌, Exec, Result, ok, err, unauthorized, forbidden, HttpError, ◌>>=◌, ◌>>◌,
  pure, throw, gets, modify, throw_if, require, truthy,
}
use skillhunt.Enums.{UserRole, freelance, recruiter, role_eq}
use skillhunt.Entities.{User, Point, ℤ, user_id}
use skillhunt.Store.{Repository}
use skillhunt.Redis.{Redis}
use skillhunt.External.{Claims, Jwt, Argon, Otp, Random, SecretBox}
use skillhunt.Auth.Session.{Session, on_redis, draw}
use skillhunt.Auth.TokenStore
use skillhunt.Auth.TwoFactor.{or_false, verify_code}

-- The validated bodies of the requests (auth/dto/register.dto.ts).
pub record LocationDto : Type 0 where
  pub latitude : ℤ
  pub longitude : ℤ

pub record RegisterDto : Type 0 where
  pub email : String
  pub username : String
  pub password : String
  pub role : UserRole
  pub location : Option LocationDto

pub record LoginDto : Type 0 where
  pub email : String
  pub password : String

abbrev pub self_assignable_roles : List UserRole
self_assignable_roles = freelance ∷ recruiter ∷ []

-- `Omit<User, 'passwordHash' | 'twoFactorSecretEncrypted' | 'twoFactorBackupCodesHashed'>`
pub record PublicUser : Type 0 where
  pub id : String
  pub email : String
  pub username : String
  pub role : UserRole
  pub location : Option Point
  pub two_factor_enabled : Bool
  pub created_at : ℕ

unfoldable pub to_public_user : User → PublicUser
to_public_user user = record {
  id = user.id;
  email = user.email;
  username = user.username;
  role = user.role;
  location = user.location;
  two_factor_enabled = user.two_factor_enabled;
  created_at = user.created_at;
}

pub record TokenPair (T : Type 0) : Type 0 where
  pub access_token : T
  pub refresh_token : T

-- `TokenPair | TwoFactorChallenge`
pub data LoginResult (T : Type 0) : Type 0 where
  tokens : TokenPair T → LoginResult T
  challenge : T → LoginResult T

abbrev pub access_ttl : ℕ
access_ttl = 15 * 60

abbrev pub refresh_ttl_seconds : ℕ
refresh_ttl_seconds = 7 * 24 * 60 * 60

abbrev pub twofa_pending_ttl : ℕ
twofa_pending_ttl = 5 * 60

abbrev pub access_claims : User → Claims
access_claims user = record {
  user_id = user.id;
  email = some user.email;
  role = some user.role;
  type = some "access";
  jti = none;
}

abbrev pub refresh_claims : User → String → Claims
refresh_claims user jti = record {
  user_id = user.id;
  email = some user.email;
  role = some user.role;
  type = some "refresh";
  jti = some jti;
}

abbrev pub pending_claims : User → Claims
pending_claims user = record {
  user_id = user.id;
  email = none;
  role = none;
  type = some "twofa_pending";
  jti = none;
}

-- `payload.type === expected`
abbrev pub type_is : String → Claims → Bool
type_is expected claims = elim claims.type [ none ↦ false | some type ↦ type == expected ]

-- The id of a refresh token, if the claims are those of one: the first two tests of
-- `payload.type !== 'refresh' || !payload.jti || …`.
abbrev pub refresh_jti : Claims → Option String
refresh_jti claims = if type_is "refresh" claims then truthy claims.jti else none

-- GeoJSON order: longitude, then latitude.
abbrev pub to_point : Option LocationDto → Option Point
to_point none = none
to_point (some location) = some (record { coordinates = (location.longitude, location.latitude) })

module _ {U R T : Type 0} (users : Repository User user_id U) (redis : Redis R) (jwt : Jwt T)
    (argon : Argon) (otp : Otp) (random : Random) (box : SecretBox) where
  abbrev pub State : Type 0
  State = Session U R

  -- Argon2 throws on a malformed hash, which counts as a wrong password.
  abbrev pub safe_verify : String → String → Bool
  safe_verify stored_hash password = or_false (argon.verify stored_hash password)

  pub issue_tokens : User → Exec State (TokenPair T)
  issue_tokens user = do
    access ← gets (λ s. jwt.sign (access_claims user) access_ttl s.now)
    uuid_draw ← draw
    let jti = random.uuid uuid_draw
    refreshed ← gets (λ s. jwt.sign (refresh_claims user jti) refresh_ttl_seconds s.now)
    on_redis (TokenStore.save redis jti user.id refresh_ttl_seconds)
    pure (record { access_token = access; refresh_token = refreshed })

  pub register : ℕ → RegisterDto → Exec State PublicUser
  register created_at dto = do
    throw_if (not (includes self_assignable_roles dto.role))
        (forbidden "Ce rôle ne peut pas être auto-attribué à l'inscription")
    existing ← gets (λ s. users.find_one (λ u. u.email == dto.email) s.users)
    throw_if (elim existing [ none ↦ false | some u ↦ true ])
        (unauthorized "Cette adresse email est déjà enregistrée")
    salt ← draw
    user ← gets (λ s. record {
      id = users.generate s.users;
      email = dto.email;
      username = dto.username;
      password_hash = argon.hash salt dto.password;
      role = dto.role;
      location = to_point dto.location;
      two_factor_enabled = false;
      two_factor_secret_encrypted = none;
      two_factor_backup_codes_hashed = none;
      created_at = created_at;
    })
    modify (λ s. record s { users = users.save user s.users })
    pure (to_public_user user)

  -- After the password was found right.
  abbrev pub login_verified : User → Bool → Exec State (LoginResult T)
  login_verified user true = do
    token ← gets (λ s. jwt.sign (pending_claims user) twofa_pending_ttl s.now)
    pure (challenge token)
  login_verified user false = do pair ← issue_tokens user; pure (tokens pair)

  pub login : LoginDto → Exec State (LoginResult T)
  login dto = do
    found ← gets (λ s. users.find_one (λ u. u.email == dto.email) s.users)
    user ← require found (unauthorized "Identifiants ou mot de passe incorrects")
    throw_if (not (safe_verify user.password_hash dto.password))
        (unauthorized "Identifiants ou mot de passe incorrects")
    login_verified user user.two_factor_enabled

  pub complete_two_factor_login : T → String → Exec State (TokenPair T)
  complete_two_factor_login token code = do
    verified ← gets (λ s. jwt.verify s.now token)
    claims ← require verified (unauthorized "Session 2FA expirée. Reconnecte-toi.")
    throw_if (not (type_is "twofa_pending" claims))
        (unauthorized "Session 2FA expirée. Reconnecte-toi.")
    valid ← verify_code users redis argon otp random box claims.user_id code
    throw_if (not valid) (unauthorized "Code de vérification invalide")
    found ← gets (λ s. users.find_one (λ u. u.id == claims.user_id) s.users)
    user ← require found (unauthorized "Utilisateur introuvable")
    issue_tokens user

  -- The check of the registry, whose failures are a plain `false`.
  abbrev pub check_registry : String → String → Exec State Bool
  check_registry jti user_id s =
      let (valid, redis') = TokenStore.is_valid redis jti user_id s.redis in
      (ok valid, record s { redis = redis' })

  -- The rotation proper, once the token was found valid.
  pub rotate : Claims → String → Exec State (TokenPair T)
  rotate claims jti = do
    on_redis (TokenStore.revoke redis jti)
    found ← gets (λ s. users.find_one (λ u. u.id == claims.user_id) s.users)
    user ← require found (unauthorized "Utilisateur introuvable")
    issue_tokens user

  pub refresh : T → Exec State (TokenPair T)
  refresh token = do
    verified ← gets (λ s. jwt.verify s.now token)
    claims ← require verified (unauthorized "Refresh token invalide ou expiré")
    jti ← require (refresh_jti claims) (unauthorized "Refresh token révoqué ou inconnu")
    valid ← check_registry jti claims.user_id
    throw_if (not valid) (unauthorized "Refresh token révoqué ou inconnu")
    rotate claims jti

  -- The revocation of a logout: the `catch` drops its error.
  abbrev pub try_revoke : Option String → State → State
  try_revoke none s = s
  try_revoke (some jti) s = record s { redis = (TokenStore.revoke redis jti s.redis).1 }

  abbrev pub jti_of : Option Claims → Option String
  jti_of none = none
  jti_of (some claims) = truthy claims.jti

  -- `success` is always true.
  pub logout : T → Exec State Bool
  logout token s = (ok true, try_revoke (jti_of (jwt.verify s.now token)) s)
