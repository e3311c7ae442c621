-- ===== src/Auth/Guards.antt =====
-- backend-core/src/auth/guards/jwt-auth.guard.ts: who passes to a route.
pub mod Access
mod Examples
use Prim.Native.String
use skillhunt.Common.{
  ℕ, String, Bool, true, false, not, Option, none, some, List, [], ◌∷◌, ◌==◌, string_eq, includes,
  Result, ok, err, unauthorized, forbidden, if◌then◌else◌,
}
use skillhunt.Enums.{UserRole, role_eq}
use skillhunt.External.{Claims, Jwt}
use skillhunt.Auth.Service.{type_is}

-- What a token says of its bearer; a token may lack a field.
pub record JwtPayload : Type 0 where
  pub user_id : String
  pub email : Option String
  pub role : Option UserRole

-- The `Authorization` header as the guard reads it: with no `Bearer ` prefix, or with the token that
-- follows the first blank.
pub data AuthHeader (T : Type 0) : Type 0 where
  absent : AuthHeader T
  malformed : AuthHeader T
  bearer : T → AuthHeader T

-- From the verification of the signature on; `none` is what `verify` throws.
abbrev pub accept_claims : Option Claims → Result JwtPayload
accept_claims none = err (unauthorized "Token de sécurité invalide ou expiré")
accept_claims (some claims) =
    if type_is "access" claims
    then ok (record { user_id = claims.user_id; email = claims.email; role = claims.role })
    else err (unauthorized "Type de token invalide pour cette ressource")

-- `JwtAuthGuard.canActivate`: the payload that it puts on the request.
unfoldable pub can_activate : {T : Type 0} → Jwt T → ℕ → AuthHeader T → Result JwtPayload
can_activate jwt now absent = err (unauthorized "Token d'accès de sécurité manquant ou mal formé")
can_activate jwt now malformed =
    err (unauthorized "Token d'accès de sécurité manquant ou mal formé")
can_activate jwt now (bearer token) = accept_claims (jwt.verify now token)

-- `requiredRoles.includes(user.role)`
abbrev pub has_role : List UserRole → Option JwtPayload → Bool
has_role required none = false
has_role required (some user) = elim user.role [ none ↦ false | some role ↦ includes required role ]

abbrev pub roles_message : String
roles_message = "Votre profil n'a pas les autorisations nécessaires pour cette ressource"

-- `RolesGuard.canActivate`, for the roles that `@Roles` declares, if any, and the request's user.
unfoldable pub roles_can_activate : Option (List UserRole) → Option JwtPayload → Result (Unit {0})
roles_can_activate none user = ok tt
roles_can_activate (some []) user = ok tt
roles_can_activate (some (role ∷ roles)) user =
    if has_role (role ∷ roles) user then ok tt else err (forbidden roles_message)

abbrev pub admitted : JwtPayload → Result (Unit {0}) → Result JwtPayload
admitted user (err e) = err e
admitted user (ok _) = ok user

-- `@UseGuards(JwtAuthGuard, RolesGuard)`: the guards of a route, in this order.
abbrev pub guarded : Result JwtPayload → Option (List UserRole) → Result JwtPayload
guarded (err e) required = err e
guarded (ok user) required = admitted user (roles_can_activate required (some user))

unfoldable pub enter :
    {T : Type 0} → Jwt T → ℕ → Option (List UserRole) → AuthHeader T → Result JwtPayload
enter jwt now required header = guarded (can_activate jwt now header) required
