-- ===== src/Web/Token.antt =====
-- frontend-web/src/features/auth/token.ts and types.ts: what the browser reads in an access token. It
-- verifies nothing.
use skillhunt.Common.{String, Option, none, some, List, [], ◌∷◌, truthy}
use skillhunt.Enums.{UserRole}

pub record AuthUser : Type 0 where
  pub user_id : String
  pub email : String
  pub role : UserRole

-- `Partial<AuthUser>`
pub record Payload : Type 0 where
  pub user_id : Option String
  pub email : Option String
  pub role : Option UserRole

-- The browser's own functions: `split('.')`, and `atob` with `JSON.parse`, which may throw (`none`),
-- on a part in the alphabet of base64url.
pub record Browser : Type 0 where
  pub split_dots : String → List String
  pub parse_base64url : String → Option Payload

-- The middle one of exactly three parts.
abbrev pub payload_part : List String → Option String
payload_part [] = none
payload_part (a ∷ []) = none
payload_part (a ∷ b ∷ []) = none
payload_part (a ∷ b ∷ c ∷ []) = some b
payload_part (a ∷ b ∷ c ∷ d ∷ parts) = none

-- `if (!payload.userId || !payload.email || !payload.role) { return null; }`
abbrev pub with_role : String → String → Option UserRole → Option AuthUser
with_role user_id email none = none
with_role user_id email (some role) =
    some (record { user_id = user_id; email = email; role = role })

abbrev pub with_email : String → Option String → Option UserRole → Option AuthUser
with_email user_id none role = none
with_email user_id (some email) role = with_role user_id email role

abbrev pub with_id : Option String → Option String → Option UserRole → Option AuthUser
with_id none email role = none
with_id (some user_id) email role = with_email user_id email role

abbrev pub user_of : Option Payload → Option AuthUser
user_of none = none
user_of (some payload) = with_id (truthy payload.user_id) (truthy payload.email) payload.role

abbrev pub parse_part : Browser → Option String → Option Payload
parse_part browser none = none
parse_part browser (some part) = browser.parse_base64url part

unfoldable pub decode_access_token : Browser → String → Option AuthUser
decode_access_token browser token =
    user_of (parse_part browser (payload_part (browser.split_dots token)))
