-- ===== src/Web/Session.antt =====
-- frontend-web/src/features/auth/session-store.ts: the session of a tab, in memory only. The
-- subscribers, which React calls to draw again, are not modelled.
use skillhunt.Common.{Option, none, some}
use skillhunt.Web.Token.{AuthUser}

pub record SessionStore (T : Type 0) : Type 0 where
  pub access_token : Option T
  pub current_user : Option AuthUser

abbrev pub no_session : {T : Type 0} → SessionStore T
no_session = record { access_token = none; current_user = none }

-- `decode` is `decodeAccessToken`.
abbrev pub set_session : {T : Type 0} → (T → Option AuthUser) → T → SessionStore T → SessionStore T
set_session decode token store = record { access_token = some token; current_user = decode token }

abbrev pub clear : {T : Type 0} → SessionStore T → SessionStore T
clear store = no_session
