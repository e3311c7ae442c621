-- ===== src/Auth/Controller/TwoFactor.antt =====
-- backend-core/src/auth/two-factor.controller.ts and dto/two-factor.dto.ts: the routes of the second
-- factor, and the codes that they let pass.
pub mod Codes
use Prim.Native.String
use Prim.Native.Char.{Char, code}
use skillhunt.Common.{
  ℕ, String, Bool, true, false, ◌&&◌, ◌||◌, Option, some, List, [], ◌∷◌, Exec, Result, ok, err,
  ◌>>=◌, ◌>>◌, pure, leb, ◌==◌, nat_eq,
}
use skillhunt.Entities.{User, user_id}
use skillhunt.Store.{Repository}
use skillhunt.Redis.{Redis}
use skillhunt.External.{Jwt, Argon, Otp, Random, SecretBox}
use skillhunt.Auth.Session.{Session}
use skillhunt.Auth.TwoFactor
use skillhunt.Auth.TwoFactor.{EnrollResult}
use skillhunt.Auth.Service.{TokenPair, complete_two_factor_login}
use skillhunt.Auth.Guards.{JwtPayload, AuthHeader, can_activate}
use skillhunt.Auth.Controller.{Exchange, on_session, set_refresh_cookie}

-- `\d` and `[A-Z2-9]`, the latter without regard to case.
abbrev pub is_digit : Char → Bool
is_digit c = leb 48 (code c) && leb (code c) 57

abbrev pub is_code_char : Char → Bool
is_code_char c =
    let n = code c in (leb 65 n && leb n 90) || (leb 97 n && leb n 122) || (leb 50 n && leb n 57)

-- A test of each character in turn.
abbrev pub matches : List (Char → Bool) → String → Bool
matches [] String.[] = true
matches [] (String.◌∷◌ c s) = false
matches (p ∷ ps) String.[] = false
matches (p ∷ ps) (String.◌∷◌ c s) = p c && matches ps s

abbrev pub totp_pattern : List (Char → Bool)
totp_pattern = is_digit ∷ is_digit ∷ is_digit ∷ is_digit ∷ is_digit ∷ is_digit ∷ []

abbrev pub is_dash : Char → Bool
is_dash c = code c == 45

abbrev pub backup_pattern : List (Char → Bool)
backup_pattern =
    is_code_char ∷ is_code_char ∷ is_code_char ∷ is_code_char ∷ is_dash ∷ is_code_char
    ∷ is_code_char ∷ is_code_char ∷ is_code_char ∷ []

-- `CODE_PATTERN`
abbrev pub is_code : String → Bool
is_code text = matches totp_pattern text || matches backup_pattern text

-- The routes that need a session; a code has passed its pattern.
pub data TwoFactorRoute : Type 0 where
  get_status : TwoFactorRoute
  post_enroll : TwoFactorRoute
  post_confirm : String → TwoFactorRoute
  post_disable : String → TwoFactorRoute
  post_regenerate : String → TwoFactorRoute

pub data TwoFactorAnswer : Type 0 where
  enabled : Bool → TwoFactorAnswer
  enrolled : EnrollResult → TwoFactorAnswer
  backup_codes : List String → TwoFactorAnswer
  disabled : TwoFactorAnswer

module _ {U R T : Type 0} (users : Repository User user_id U) (redis : Redis R) (jwt : Jwt T)
    (argon : Argon) (otp : Otp) (random : Random) (box : SecretBox) (is_production : Bool) where
  abbrev pub dispatch : TwoFactorRoute → String → Exec (Session U R) TwoFactorAnswer
  dispatch get_status id = do
    flag ← TwoFactor.status users redis argon otp random box id
    pure (enabled flag)
  dispatch post_enroll id = do
    result ← TwoFactor.enroll users redis argon otp random box id
    pure (enrolled result)
  dispatch (post_confirm code) id = do
    codes ← TwoFactor.confirm users redis argon otp random box id code
    pure (backup_codes codes)
  dispatch (post_disable code) id = do
    TwoFactor.disable users redis argon otp random box id code
    pure disabled
  dispatch (post_regenerate code) id = do
    codes ← TwoFactor.regenerate_backup_codes users redis argon otp random box id code
    pure (backup_codes codes)

  abbrev pub after_guard : TwoFactorRoute → Result JwtPayload → Exec (Session U R) TwoFactorAnswer
  after_guard route (err e) s = (err e, s)
  after_guard route (ok user) s = dispatch route user.user_id s

  -- `JwtAuthGuard`, then the method, for the user of the token.
  unfoldable pub serve_two_factor :
      AuthHeader T → TwoFactorRoute → Exec (Session U R) TwoFactorAnswer
  serve_two_factor header route s = after_guard route (can_activate jwt s.now header) s

  -- The second step of a login, which needs no session.
  unfoldable pub verify : T → String → Exec (Exchange (Session U R) T) (TokenPair T)
  verify two_factor_token code = do
    pair ←
        on_session
          (complete_two_factor_login users redis jwt argon otp random box two_factor_token code)
    set_refresh_cookie users redis jwt argon otp random box is_production pair.refresh_token
    pure pair
