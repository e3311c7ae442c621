-- ===== src/Web/Provider.antt =====
-- frontend-web/src/features/auth/AuthProvider.tsx and ProtectedRoute.tsx: how a session begins and
-- ends, and what a visitor without one sees.
use skillhunt.Common.{
  ◌≡◌, ◌↔◌, refl, String, Bool, true, false, Option, none, some, Result, ok, err,
}
use skillhunt.Web.Token.{AuthUser}
use skillhunt.Web.Session.{SessionStore, set_session, clear}

-- The body of an answer to a login: a challenge with its token, or an access token.
pub data LoginData (T : Type 0) : Type 0 where
  two_factor_challenge : T → LoginData T
  token_pair : T → LoginData T

pub data LoginOutcome (T : Type 0) : Type 0 where
  two_factor_required : T → LoginOutcome T
  signed_in : LoginOutcome T

abbrev pub on_login :
    {T : Type 0}
    → (T → Option AuthUser)
    → Result (LoginData T)
    → SessionStore T
    → Result (LoginOutcome T) × SessionStore T
on_login decode (err e) store = (err e, store)
on_login decode (ok (two_factor_challenge token)) store = (ok (two_factor_required token), store)
on_login decode (ok (token_pair token)) store = (ok signed_in, set_session decode token store)

abbrev pub verify_two_factor :
    {T : Type 0}
    → (T → Option AuthUser)
    → Result T
    → SessionStore T
    → Result (Unit {0}) × SessionStore T
verify_two_factor decode (err e) store = (err e, store)
verify_two_factor decode (ok token) store = (ok tt, set_session decode token store)

-- A registration whose call succeeded goes on with a login.
abbrev pub on_register :
    {T : Type 0}
    → (T → Option AuthUser)
    → Result (Unit {0})
    → Result (LoginData T)
    → SessionStore T
    → Result (LoginOutcome T) × SessionStore T
on_register decode (err e) login store = (err e, store)
on_register decode (ok _) login store = on_login decode login store

-- The session ends whatever the call answers, which is thrown on.
abbrev pub logout :
    {T : Type 0} → Result (Unit {0}) → SessionStore T → Result (Unit {0}) × SessionStore T
logout answer store = (answer, clear store)

-- The state of the application: restoring its session, or ready.
pub data Screen : Type 0 where
  restoring_session : Screen
  to_login : String → Screen
  content : Screen

abbrev pub for_user : Option AuthUser → String → Screen
for_user none from = to_login from
for_user (some user) from = content

unfoldable pub protected_route : Bool → Option AuthUser → String → Screen
protected_route false user from = restoring_session
protected_route true user from = for_user user from

-- The content is shown exactly to a user, once the restoration has ended; before, nobody is sent away.
pub protected_route_exact :
    (ready : Bool) (user : Option AuthUser) (from : String)
    → ((protected_route ready user from ≡ content)
        ↔ ((ready ≡ true) × ((u : AuthUser) × (user ≡ some u))))
      × (ready ≡ false → protected_route ready user from ≡ restoring_session)
unfolding protected_route
protected_route_exact false user from = ((λ h. cc, λ h. cc), λ h. refl)
protected_route_exact true none from = ((λ h. cc, λ h. cc), λ h. cc)
protected_route_exact true (some u) from = ((λ h. (refl, (u, refl)), λ h. refl), λ h. cc)
