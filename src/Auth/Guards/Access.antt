-- ===== src/Auth/Guards/Access.antt =====
-- What the guards of jwt-auth.guard.ts let pass.
use skillhunt.Common.{
  ℕ, ◌≡◌, ◌<◌, ◌≤◌, ◌+◌, refl, sym, String, Bool, true, false, Option, none, some, List, ◌∷◌, ◌==◌,
  string_eq, includes, ok, err, unauthorized, forbidden, if◌then◌else◌, arith, Option-cases,
  Bool-cases, inl, inr, ok-injective, eq_iff,
}
use skillhunt.Enums.{UserRole, role_eq}
use skillhunt.Entities.{User}
use skillhunt.External.{Claims, Jwt}
use skillhunt.Auth.Service.{
  type_is, access_claims, refresh_claims, pending_claims, access_ttl, refresh_ttl_seconds,
  twofa_pending_ttl,
}
use skillhunt.Auth.Guards.{
  JwtPayload, AuthHeader, absent, malformed, bearer, can_activate, roles_can_activate,
  accept_claims, has_role, enter, guarded, admitted, roles_message,
}

pub is_access :
    (kind : Option String)
    → elim kind [ none ↦ false | some type ↦ type == "access" ] ≡ true
    → kind ≡ some "access"
is_access none h = cc
is_access (some type) h = ground (arith, eq_iff type "access")

has_role_of :
    (required : List UserRole) (user : JwtPayload)
    → has_role required (some user) ≡ true
    → (role : UserRole) × (user.role ≡ some role) × (includes required role ≡ true)
has_role_of required user h = elim (Option-cases user.role) [
  | inl e ↦ cc (rw e at h)
  | inr (role, e) ↦ (role, e, rw e at h)
]

passes :
    (required : List UserRole) (payload user : JwtPayload) (b : Bool)
    → b ≡ true
    → admitted payload (if b then ok tt else err (forbidden roles_message)) ≡ ok user
    → payload ≡ user
passes required payload user true e h = ok-injective h
passes required payload user false e h = cc

module _ {T : Type 0} (jwt : Jwt T) where
  -- The token of a request that passes the guards.
  pub record IsEntered (now : ℕ) (required : List UserRole) (header : AuthHeader T)
      (user : JwtPayload) : Type 0 where
    pub token : T
    pub claims : Claims
    pub header_is : header ≡ bearer token
    pub verified : jwt.verify now token ≡ some claims
    pub kind : claims.type ≡ some "access"
    pub user_is :
        user ≡ record { user_id = claims.user_id; email = claims.email; role = claims.role }
    pub allowed : (role : UserRole) × (claims.role ≡ some role) × (includes required role ≡ true)

  entered :
      (now : ℕ) (r : UserRole) (rs : List UserRole) (token : T) (user : JwtPayload)
      (claims : Claims)
      → jwt.verify now token ≡ some claims
      → guarded (accept_claims (some claims)) (some (r ∷ rs)) ≡ ok user
      → IsEntered now (r ∷ rs) (bearer token) user
  unfolding roles_can_activate
  entered now r rs token user claims verified h =
      let payload : JwtPayload = record {
        user_id = claims.user_id;
        email = claims.email;
        role = claims.role;
      } in
      elim (Bool-cases (type_is "access" claims)) [
        | inr other ↦ cc (simp other at h)
        | inl kind ↦ elim (Bool-cases (has_role (r ∷ rs) (some payload))) [
          | inr barred ↦ cc (simp (kind, barred) at h)
          | inl allowed ↦
              let same : payload ≡ user =
                passes (r ∷ rs) payload user (has_role (r ∷ rs) (some payload)) allowed
                  (rw kind at h) in
              record {
                token = token;
                claims = claims;
                header_is = refl;
                verified = verified;
                kind = is_access claims.type kind;
                user_is = sym same;
                allowed = has_role_of (r ∷ rs) payload allowed;
              }
        ]
      ]

  -- A request passes the guards of a route that requires roles only with a token that verifies now, is
  -- of the access kind and carries one of these roles; the user of the request is the token's.
  pub enter-IsEntered :
      (now : ℕ) (r : UserRole) (rs : List UserRole) (header : AuthHeader T) (user : JwtPayload)
      → enter jwt now (some (r ∷ rs)) header ≡ ok user
      → IsEntered now (r ∷ rs) header user
  unfolding enter can_activate
  enter-IsEntered now r rs absent user h = cc
  enter-IsEntered now r rs malformed user h = cc
  enter-IsEntered now r rs (bearer token) user h = elim (Option-cases (jwt.verify now token)) [
    | inl e ↦ cc (rw e at h)
    | inr (claims, e) ↦ entered now r rs token user claims e (rw e at h)
  ]

  -- While a refresh token or a token of the 2FA step is valid, it opens no route, and an access token
  -- opens those that require no role, for its user.
  pub token_kinds_exclusive :
      (user : User) (jti : String) (issued now : ℕ)
      → issued ≤ now
      → (now < issued + refresh_ttl_seconds
          → can_activate jwt now
              (bearer (jwt.sign (refresh_claims user jti) refresh_ttl_seconds issued))
            ≡ err (unauthorized "Type de token invalide pour cette ressource"))
        × (now < issued + twofa_pending_ttl
            → can_activate jwt now
                (bearer (jwt.sign (pending_claims user) twofa_pending_ttl issued))
              ≡ err (unauthorized "Type de token invalide pour cette ressource"))
        × (now < issued + access_ttl
            → enter jwt now none (bearer (jwt.sign (access_claims user) access_ttl issued))
              ≡ ok (record { user_id = user.id; email = some user.email; role = some user.role }))
  unfolding can_activate enter roles_can_activate
  token_kinds_exclusive user jti issued now from = (
    λ h. rw (jwt.verify-sign (refresh_claims user jti) refresh_ttl_seconds issued now from h) refl,
    λ h. rw (jwt.verify-sign (pending_claims user) twofa_pending_ttl issued now from h) refl,
    λ h. rw (jwt.verify-sign (access_claims user) access_ttl issued now from h) refl,
  )
