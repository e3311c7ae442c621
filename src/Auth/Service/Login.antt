-- ===== src/Auth/Service/Login.antt =====
-- The login of auth.service.ts: who gets tokens, who gets a 2FA step, and what a refusal tells.
use skillhunt.Common.{
  ◌≡◌, refl, Bool, true, false, none, some, ◌==◌, string_eq, arith, ok, ok-injective, subst,
  chain_ok, Option-cases, Bool-cases, inl, inr,
}
use skillhunt.Entities.{User, user_id}
use skillhunt.Store.{Repository}
use skillhunt.Redis.{Redis}
use skillhunt.External.{Jwt, Argon, Otp, Random, SecretBox}
use skillhunt.Auth.Session.{Session}
use skillhunt.Auth.Service.{
  LoginDto, tokens, challenge, TokenPair, login, safe_verify, issue_tokens, pending_claims,
  twofa_pending_ttl,
}

challenge-injective : {T : Type 0} → {a b : T} → challenge a ≡ challenge b → a ≡ b
challenge-injective h = cc

module _ {U R T : Type 0} (users : Repository User user_id U) (redis : Redis R) (jwt : Jwt T)
    (argon : Argon) (otp : Otp) (random : Random) (box : SecretBox) where
  -- The account of a login whose password is right.
  pub record IsVerified (dto : LoginDto) (s : Session U R) (enabled : Bool) : Type 0 where
    pub user : User
    pub found : users.find_one (λ u. u.email == dto.email) s.users ≡ some user
    pub password :
        safe_verify users redis jwt argon otp random box user.password_hash dto.password ≡ true
    pub two_factor : user.two_factor_enabled ≡ enabled

  -- Tokens are given only to an account with that address, its password and no active 2FA. With
  -- active 2FA the answer is a token of the pending kind, which the state does not depend on: no
  -- refresh token is registered.
  pub login_outcome :
      (dto : LoginDto) (s : Session U R)
      → let (r, s') = login users redis jwt argon otp random box dto s in
        ((pair : TokenPair T) → r ≡ ok (tokens pair) → IsVerified dto s false)
        × ((token : T)
            → r ≡ ok (challenge token)
            → (v : IsVerified dto s true) × (jwt.verify s.now token ≡ some (pending_claims v.user))
              × (s' ≡ s))
  unfolding login
  login_outcome dto s = elim (Option-cases (users.find_one (λ u. u.email == dto.email) s.users)) [
    | inl e ↦ simp e (λ p h. cc, λ t h. cc)
    | inr (u, e) ↦
        elim (Bool-cases
          (safe_verify users redis jwt argon otp random box u.password_hash dto.password)) [
            | inr wrong ↦ simp (e, wrong) (λ p h. cc, λ t h. cc)
            | inl right ↦ elim (Bool-cases u.two_factor_enabled) [
              | inl on ↦
                  simp (e, right, on)
                    (
                      λ p h. cc,
                      λ t h. (
                        record { user = u; found = e; password = right; two_factor = on },
                        subst (λ t. jwt.verify s.now t ≡ some (pending_claims u))
                            (challenge-injective (ok-injective h))
                            (jwt.verify-sign (pending_claims u) twofa_pending_ttl s.now s.now
                              (omega arith) (omega arith)),
                        refl,
                      ),
                    )
              | inr off ↦
                  simp (e, right, off)
                    (
                      λ p h. record { user = u; found = e; password = right; two_factor = off },
                      λ t h.
                          let (pair, _, step) =
                            chain_ok (issue_tokens users redis jwt argon otp random box u s) _ h in
                          cc (rw step at h),
                    )
            ]
          ]
  ]

  -- An unknown address and a wrong password are refused alike, with the state as it was.
  pub login_refusals_alike :
      (unknown wrong : LoginDto) (s : Session U R) (u : User)
      → users.find_one (λ u. u.email == unknown.email) s.users ≡ none
      → users.find_one (λ u. u.email == wrong.email) s.users ≡ some u
      → safe_verify users redis jwt argon otp random box u.password_hash wrong.password ≡ false
      → (login users redis jwt argon otp random box unknown s
          ≡ login users redis jwt argon otp random box wrong s)
        × ((login users redis jwt argon otp random box unknown s).1 ≡ s)
  unfolding login
  login_refusals_alike unknown wrong s u none_ some_ bad = simp (none_, some_, bad) (refl, refl)
