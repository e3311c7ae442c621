-- ===== src/Auth/Guards/Examples.antt =====
-- The guards on plain tokens.
use skillhunt.Common.{◌≡◌, ◌<◌, ◌+◌, refl, none, some, [], ◌∷◌, false, ok, err, unauthorized, arith}
use skillhunt.Enums.{recruiter}
use skillhunt.Entities.{User}
use skillhunt.External.Plain.{Ticket, jwt}
use skillhunt.Auth.Service.{
  access_claims, refresh_claims, pending_claims, access_ttl, refresh_ttl_seconds, twofa_pending_ttl,
}
use skillhunt.Auth.Guards.{JwtPayload, bearer, enter, can_activate, roles_can_activate}
use skillhunt.Auth.Guards.Access.{IsEntered, enter-IsEntered, token_kinds_exclusive}

abbrev ann : User
ann = record {
  id = "ann";
  email = "ann@example.org";
  username = "ann";
  password_hash = "pw";
  role = recruiter;
  location = none;
  two_factor_enabled = false;
  two_factor_secret_encrypted = none;
  two_factor_backup_codes_hashed = none;
  created_at = 0;
}

abbrev identity : JwtPayload
identity = record { user_id = "ann"; email = some "ann@example.org"; role = some recruiter }

abbrev access_token : Ticket
access_token = jwt.sign (access_claims ann) access_ttl 0

enter-IsEntered_example : IsEntered jwt 1 (recruiter ∷ []) (bearer access_token) identity
unfolding enter can_activate roles_can_activate
enter-IsEntered_example = enter-IsEntered jwt 1 recruiter [] (bearer access_token) identity refl

token_kinds_exclusive_example :
    (1 < 0 + refresh_ttl_seconds
      → can_activate jwt 1 (bearer (jwt.sign (refresh_claims ann "j") refresh_ttl_seconds 0))
        ≡ err (unauthorized "Type de token invalide pour cette ressource"))
    × (1 < 0 + twofa_pending_ttl
        → can_activate jwt 1 (bearer (jwt.sign (pending_claims ann) twofa_pending_ttl 0))
          ≡ err (unauthorized "Type de token invalide pour cette ressource"))
    × (1 < 0 + access_ttl
        → enter jwt 1 none (bearer (jwt.sign (access_claims ann) access_ttl 0))
          ≡ ok (record { user_id = "ann"; email = some "ann@example.org"; role = some recruiter }))
token_kinds_exclusive_example = token_kinds_exclusive jwt ann "j" 0 1 (omega arith)
