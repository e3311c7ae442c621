-- ===== src/Auth/Controller.antt =====
-- backend-core/src/auth/auth.controller.ts and refresh-cookie.ts: the routes of the identity service
-- and the cookie that carries the refresh token.
pub mod Cookies
pub mod TwoFactor
mod Examples
use skillhunt.Common.{
  ℕ, ◌*◌, String, Bool, true, Option, none, some, List, [], ◌∷◌, ◌++◌, Exec, Result, ok, err,
  unauthorized, ◌>>=◌, ◌>>◌, pure, modify, require,
}
use skillhunt.Entities.{User, user_id}
use skillhunt.Store.{Repository}
use skillhunt.Redis.{Redis}
use skillhunt.External.{Jwt, Argon, Otp, Random, SecretBox}
use skillhunt.Auth.Session.{Session}
use skillhunt.Auth.Service
use skillhunt.Auth.Service.{
  RegisterDto, LoginDto, PublicUser, TokenPair, LoginResult, tokens, challenge,
}

pub record CookieOptions : Type 0 where
  pub http_only : Bool
  pub secure : Bool
  pub same_site : String
  pub path : String
  pub max_age : Option ℕ

abbrev pub refresh_cookie_name : String
refresh_cookie_name = "sh_refresh"

abbrev pub refresh_cookie_path : String
refresh_cookie_path = "/api/v1/auth"

abbrev pub refresh_cookie_max_age_ms : ℕ
refresh_cookie_max_age_ms = 7 * 24 * 60 * 60 * 1000

abbrev pub refresh_cookie_options : Bool → CookieOptions
refresh_cookie_options is_production = record {
  http_only = true;
  secure = is_production;
  same_site = "lax";
  path = refresh_cookie_path;
  max_age = some refresh_cookie_max_age_ms;
}

abbrev pub clear_refresh_cookie_options : Bool → CookieOptions
clear_refresh_cookie_options is_production = record {
  http_only = true;
  secure = is_production;
  same_site = "lax";
  path = refresh_cookie_path;
  max_age = none;
}

-- What a route tells the browser to do with its cookies.
pub data CookieAction (T : Type 0) : Type 0 where
  set_cookie : String → T → CookieOptions → CookieAction T
  clear_cookie : String → CookieOptions → CookieAction T

-- The shared state, and the actions on the response so far.
pub record Exchange (S T : Type 0) : Type 0 where
  pub session : S
  pub cookies : List (CookieAction T)

-- A call of the service.
abbrev pub on_session : {S T A : Type 0} → Exec S A → Exec (Exchange S T) A
on_session m s = let (r, session') = m s.session in (r, record s { session = session' })

-- `fromCookie ?? dto?.refreshToken`
abbrev pub read_refresh_token : {T : Type 0} → Option T → Option T → Option T
read_refresh_token none body = body
read_refresh_token (some token) body = some token

module _ {U R T : Type 0} (users : Repository User user_id U) (redis : Redis R) (jwt : Jwt T)
    (argon : Argon) (otp : Otp) (random : Random) (box : SecretBox) (is_production : Bool) where
  abbrev pub State : Type 0
  State = Exchange (Session U R) T

  abbrev pub set_refresh_cookie : T → Exec State (Unit {0})
  set_refresh_cookie token = modify (λ s. record s {
    cookies =
        s.cookies
        ++ set_cookie refresh_cookie_name token (refresh_cookie_options is_production) ∷ [];
  })

  pub register : ℕ → RegisterDto → Exec State PublicUser
  register now dto = on_session (Service.register users redis jwt argon otp random box now dto)

  -- No cookie before the second factor.
  abbrev pub with_cookie : LoginResult T → Exec State (LoginResult T)
  with_cookie (challenge token) = pure (challenge token)
  with_cookie (tokens pair) = do set_refresh_cookie pair.refresh_token; pure (tokens pair)

  pub login : LoginDto → Exec State (LoginResult T)
  login dto = do
    result ← on_session (Service.login users redis jwt argon otp random box dto)
    with_cookie result

  pub refresh : Option T → Option T → Exec State (TokenPair T)
  refresh from_cookie body = do
    token ← require (read_refresh_token from_cookie body) (unauthorized "Refresh token manquant")
    pair ← on_session (Service.refresh users redis jwt argon otp random box token)
    set_refresh_cookie pair.refresh_token
    pure pair

  abbrev pub logout_with : Option T → Exec State Bool
  logout_with none = pure true
  logout_with (some token) = on_session (Service.logout users redis jwt argon otp random box token)

  pub logout : Option T → Option T → Exec State Bool
  logout from_cookie body = do
    result ← logout_with (read_refresh_token from_cookie body)
    modify (λ s. record s {
      cookies =
          s.cookies
          ++ clear_cookie refresh_cookie_name (clear_refresh_cookie_options is_production) ∷ [];
    })
    pure result
