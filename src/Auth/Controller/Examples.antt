-- ===== src/Auth/Controller/Examples.antt =====
-- The routes on a table and a Redis in memory.
use skillhunt.Common.{
  ◌≡◌, none, some, if◌then◌else◌, true, false, ok, err, HttpError, [], ◌==◌, string_eq, ◌⊎◌,
  unauthorized, Option,
}
use skillhunt.Enums.{freelance}
use skillhunt.Entities.{User, user_id}
use skillhunt.Store.{Repository}
use skillhunt.Store.Table
use skillhunt.Store.Table.{Table, repository, empty}
use skillhunt.Redis.Memory.{Memory, fresh, redis}
use skillhunt.External.Plain.{Ticket, jwt, argon, otp, random, box}
use skillhunt.Auth.Session.{Session}
use skillhunt.Auth.TokenStore.{refresh_key}
use skillhunt.Auth.Service
use skillhunt.Auth.Service.{
  LoginDto, TokenPair, tokens, challenge, refresh_claims, refresh_ttl_seconds,
}
use skillhunt.Auth.Controller.{Exchange, login, refresh}
use skillhunt.Auth.Controller.Cookies.{carrying, login_sets_cookie, refresh_moves_cookie}

abbrev users : Repository User user_id (Table User user_id)
users = repository user_id

abbrev eve : User
eve = record {
  id = "eve";
  email = "eve@example.org";
  username = "eve";
  password_hash = "pw";
  role = freelance;
  location = none;
  two_factor_enabled = false;
  two_factor_secret_encrypted = none;
  two_factor_backup_codes_hashed = none;
  created_at = 0;
}

-- The token `old` of eve is registered.
abbrev exchange : Exchange (Session (Table User user_id) Memory) Ticket
exchange = record {
  session = record {
    users = Table.save user_id eve (empty user_id);
    redis = record fresh { at = λ k. if refresh_key "old" == k then some "eve" else none };
    now = 0;
    seed = 0;
  };
  cookies = [];
}

abbrev old_token : Ticket
old_token = jwt.sign (refresh_claims eve "old") refresh_ttl_seconds 0

abbrev credentials : LoginDto
credentials = record { email = "eve@example.org"; password = "pw" }

login_sets_cookie_example :
    let (r, s') = login users redis jwt argon otp random box true credentials exchange in
    ((pair : TokenPair Ticket)
      → r ≡ ok (tokens pair)
      → s'.cookies ≡ carrying users redis jwt argon otp random box true pair [])
    × ((token : Ticket) → r ≡ ok (challenge token) → s'.cookies ≡ [])
    × ((e : HttpError) → r ≡ err e → s'.cookies ≡ [])
login_sets_cookie_example =
    login_sets_cookie users redis jwt argon otp random box true credentials exchange

abbrev no_body : Option Ticket
no_body = none

refresh_moves_cookie_example :
    let (r, s') =
      refresh users redis jwt argon otp random box true (some old_token) none exchange in
    ((pair : TokenPair Ticket)
      → r ≡ ok pair
      → (token : Ticket) × ((some old_token ≡ some token)
          ⊎ ((some old_token ≡ none) × (none ≡ some token)))
        × ((Service.refresh users redis jwt argon otp random box token exchange.session).0
            ≡ ok pair)
        × (s'.cookies ≡ carrying users redis jwt argon otp random box true pair []))
    × ((e : HttpError) → r ≡ err e → s'.cookies ≡ [])
    × (some old_token ≡ none
        → no_body ≡ none
        → (r ≡ err (unauthorized "Refresh token manquant")) × (s' ≡ exchange))
refresh_moves_cookie_example =
    refresh_moves_cookie users redis jwt argon otp random box true (some old_token) none exchange
