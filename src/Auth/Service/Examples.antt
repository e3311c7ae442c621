-- ===== src/Auth/Service/Examples.antt =====
-- The identity service on a table and a Redis in memory.
use skillhunt.Common.{
  ◌≡◌, ◌≢◌, refl, String, true, false, none, some, string_eq, ◌==◌, ok, err, unauthorized,
  if◌then◌else◌, HttpError, ◌*◌,
}
use skillhunt.Enums.{freelance, recruiter}
use skillhunt.Entities.{User, user_id}
use skillhunt.Store.{Repository}
use skillhunt.Store.Table
use skillhunt.Store.Table.{Table, repository, empty}
use skillhunt.Redis.Memory.{Memory, fresh, redis}
use skillhunt.External.{Claims}
use skillhunt.External.Plain.{Ticket, jwt, argon, otp, random, box}
use skillhunt.Auth.Session.{Session}
use skillhunt.Auth.TokenStore
use skillhunt.Auth.TokenStore.{refresh_key}
use skillhunt.Auth.Service.{
  RegisterDto, LoginDto, PublicUser, TokenPair, tokens, challenge, access_claims, refresh_claims,
  pending_claims, access_ttl, refresh_ttl_seconds, refresh_jti, register, login, refresh,
  issue_tokens, rotate,
}
use skillhunt.Auth.Service.Login.{IsVerified, login_outcome, login_refusals_alike}
use skillhunt.Auth.Service.Rotation.{refresh_rotates, refresh_while_down, IsPairOf}
use skillhunt.Auth.Service.Registration.{
  IsRegistered, HasUniqueEmails, register_effect, register-HasUniqueEmails,
}

abbrev users : Repository User user_id (Table User user_id)
users = repository user_id

abbrev ann : User
ann = record {
  id = "ann";
  email = "ann@example.org";
  username = "ann";
  password_hash = "pw";
  role = freelance;
  location = none;
  two_factor_enabled = false;
  two_factor_secret_encrypted = none;
  two_factor_backup_codes_hashed = none;
  created_at = 0;
}

abbrev people : Table User user_id
people = Table.save user_id ann (empty user_id)

-- The token `old` of ann is registered.
abbrev session : Session (Table User user_id) Memory
session = record {
  users = people;
  redis = record fresh { at = λ k. if refresh_key "old" == k then some "ann" else none };
  now = 0;
  seed = 0;
}

abbrev session_down : Session (Table User user_id) Memory
session_down = record session { redis = record fresh { up = false } }

abbrev nobody : Session (Table User user_id) Memory
nobody = record { users = empty user_id; redis = fresh; now = 0; seed = 0 }

abbrev newcomer : RegisterDto
newcomer = record {
  email = "bob@example.org";
  username = "bob";
  password = "secret";
  role = recruiter;
  location = none;
}

abbrev credentials : String → String → LoginDto
credentials email password = record { email = email; password = password }

login_outcome_example :
    let (r, s') =
      login users redis jwt argon otp random box (credentials "ann@example.org" "pw") session in
    ((pair : TokenPair Ticket)
      → r ≡ ok (tokens pair)
      → IsVerified users redis jwt argon otp random box
          (credentials "ann@example.org" "pw")
          session
          false)
    × ((token : Ticket)
        → r ≡ ok (challenge token)
        → (v : IsVerified users redis jwt argon otp random box
            (credentials "ann@example.org" "pw")
            session
            true)
          × (jwt.verify 0 token ≡ some (pending_claims v.user))
          × (s' ≡ session))
login_outcome_example =
    login_outcome users redis jwt argon otp random box (credentials "ann@example.org" "pw") session

login_refusals_alike_example :
    (login users redis jwt argon otp random box (credentials "eve@example.org" "pw") session
      ≡ login users redis jwt argon otp random box (credentials "ann@example.org" "no") session)
    × ((login users redis jwt argon otp random box (credentials "eve@example.org" "pw") session).1
        ≡ session)
login_refusals_alike_example =
    login_refusals_alike users redis jwt argon otp random box (credentials "eve@example.org" "pw")
      (credentials "ann@example.org" "no") session ann refl refl refl

abbrev old_token : Ticket
old_token = jwt.sign (refresh_claims ann "old") refresh_ttl_seconds 0

abbrev new_pair : TokenPair Ticket
new_pair = record {
  access_token = jwt.sign (access_claims ann) access_ttl 0;
  refresh_token = jwt.sign (refresh_claims ann "#") refresh_ttl_seconds 0;
}

refresh_rotates_example :
    let s' = (refresh users redis jwt argon otp random box old_token session).1 in
    (claims : Claims) × (jti : String) × (jwt.verify 0 old_token ≡ some claims)
    × (refresh_jti claims ≡ some jti)
    × (redis.at session.redis (refresh_key jti) ≡ some claims.user_id)
    × ((j : String)
        → redis.at s'.redis (refresh_key j) ≡ (
            if "#" == j
            then some claims.user_id
            else if jti == j
            then none
            else redis.at session.redis (refresh_key j)))
    × (redis.ttl s'.redis (refresh_key "#") ≡ some (7 * 24 * 60 * 60))
    × IsPairOf users redis jwt argon otp random box 0 claims.user_id "#" new_pair
    × ("#" ≢ jti
        → (refresh users redis jwt argon otp random box old_token s').0
          ≡ err (unauthorized "Refresh token révoqué ou inconnu"))
unfolding refresh rotate issue_tokens TokenStore.save TokenStore.is_valid TokenStore.revoke
refresh_rotates_example =
    refresh_rotates users redis jwt argon otp random box old_token session new_pair refl

refresh_while_down_example :
    (refresh users redis jwt argon otp random box old_token session_down).0
    ≡ err (unauthorized "Refresh token révoqué ou inconnu")
refresh_while_down_example =
    refresh_while_down users redis jwt argon otp random box old_token "old"
      (refresh_claims ann "old") session_down refl refl refl

register_effect_example :
    let (r, s') = register users redis jwt argon otp random box 5 newcomer session in
    ((e : HttpError) → r ≡ err e → s' ≡ session)
    × ((view : PublicUser)
        → r ≡ ok view
        → IsRegistered users redis jwt argon otp random box newcomer session view s'.users)
register_effect_example = register_effect users redis jwt argon otp random box 5 newcomer session

register-HasUniqueEmails_example :
    HasUniqueEmails users redis jwt argon otp random box
      (register users redis jwt argon otp random box 5 newcomer nobody).1.users
register-HasUniqueEmails_example =
    register-HasUniqueEmails users redis jwt argon otp random box 5 newcomer nobody
      (record { distinct = λ k j u v e. cc })
