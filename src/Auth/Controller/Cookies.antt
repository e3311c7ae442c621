-- ===== src/Auth/Controller/Cookies.antt =====
-- The cookie follows the session: auth.controller.ts.
use skillhunt.Common.{
  ◌≡◌, refl, Bool, Option, some, List, [], ◌∷◌, ◌++◌, ok, err, HttpError, Option-cases, ◌⊎◌, none,
  unauthorized, Result-cases, inl, inr, ok-injective, subst, ◌∙◌,
}
use skillhunt.Entities.{User, user_id}
use skillhunt.Store.{Repository}
use skillhunt.Redis.{Redis}
use skillhunt.External.{Jwt, Argon, Otp, Random, SecretBox}
use skillhunt.Auth.Session.{Session}
use skillhunt.Auth.Service
use skillhunt.Auth.Service.{LoginDto, TokenPair, LoginResult, tokens, challenge}
use skillhunt.Auth.Controller.{
  Exchange, CookieAction, set_cookie, refresh_cookie_name, refresh_cookie_options,
  read_refresh_token, login, refresh,
}

tokens-injective : {T : Type 0} {a b : TokenPair T} → tokens a ≡ tokens b → a ≡ b
tokens-injective h = cc

-- The token that is read is that of the cookie, or that of the body where there is no cookie.
preferred :
    {T : Type 0} (c b : Option T) (token : T)
    → read_refresh_token c b ≡ some token
    → (c ≡ some token) ⊎ ((c ≡ none) × (b ≡ some token))
preferred none b token h = inr (refl, h)
preferred (some x) b token h = inl h

absent :
    {T A : Type 0} (c b : Option T) (token : T)
    → read_refresh_token c b ≡ some token
    → c ≡ none
    → b ≡ none
    → A
absent none none token h k l = cc
absent none (some x) token h k l = cc
absent (some x) b token h k l = cc

module _ {U R T : Type 0} (users : Repository User user_id U) (redis : Redis R) (jwt : Jwt T)
    (argon : Argon) (otp : Otp) (random : Random) (box : SecretBox) (is_production : Bool) where
  -- The response after the refresh token of `pair` was set.
  abbrev pub carrying : TokenPair T → List (CookieAction T) → List (CookieAction T)
  carrying pair cookies =
      cookies
      ++ set_cookie refresh_cookie_name pair.refresh_token (refresh_cookie_options is_production)
        ∷ []

  -- A login sets the cookie to the refresh token that it returns; one that throws or asks for the
  -- second factor sets none.
  pub login_sets_cookie :
      (dto : LoginDto) (s : Exchange (Session U R) T)
      → let (r, s') = login users redis jwt argon otp random box is_production dto s in
        ((pair : TokenPair T) → r ≡ ok (tokens pair) → s'.cookies ≡ carrying pair s.cookies)
        × ((token : T) → r ≡ ok (challenge token) → s'.cookies ≡ s.cookies)
        × ((e : HttpError) → r ≡ err e → s'.cookies ≡ s.cookies)
  unfolding login
  login_sets_cookie dto s =
      elim (Result-cases (Service.login users redis jwt argon otp random box dto s.session).0) [
        | inr (e, h) ↦ simp h (λ p e. cc, λ t e. refl, λ x e. refl)
        | inl (challenge token, h) ↦ simp h (λ p e. cc, λ t e. refl, λ x e. refl)
        | inl (tokens pair, h) ↦ simp h (
          λ p e.
              subst (λ p. carrying pair s.cookies ≡ carrying p s.cookies)
                (tokens-injective (ok-injective e)) refl,
          λ t e. cc,
          λ x e. cc,
        )
      ]

  -- A rotation takes the token of the cookie before that of the body, throws 401 without either, and
  -- sets the cookie to the new token if it returns; if it throws, the cookie stays.
  pub refresh_moves_cookie :
      (from_cookie body : Option T) (s : Exchange (Session U R) T)
      → let (r, s') =
          refresh users redis jwt argon otp random box is_production from_cookie body s in
        ((pair : TokenPair T)
          → r ≡ ok pair
          → (token : T) × ((from_cookie ≡ some token)
              ⊎ ((from_cookie ≡ none) × (body ≡ some token)))
            × ((Service.refresh users redis jwt argon otp random box token s.session).0 ≡ ok pair)
            × (s'.cookies ≡ carrying pair s.cookies))
        × ((e : HttpError) → r ≡ err e → s'.cookies ≡ s.cookies)
        × (from_cookie ≡ none
            → body ≡ none
            → (r ≡ err (unauthorized "Refresh token manquant")) × (s' ≡ s))
  unfolding refresh
  refresh_moves_cookie from_cookie body s =
      elim (Option-cases (read_refresh_token from_cookie body)) [
        | inl e ↦ simp e (λ p h. cc, λ x h. refl, λ a b. (refl, refl))
        | inr (token, e) ↦
            elim (Result-cases
              (Service.refresh users redis jwt argon otp random box token s.session).0) [
                | inr (x, h) ↦ simp (e, h) (λ p k. cc, λ x k. refl, absent from_cookie body token e)
                | inl (pair, h) ↦
                    simp (e, h)
                      (
                        λ p k. (
                          token,
                          preferred from_cookie body token e,
                          h ∙ k,
                          subst (λ p. carrying pair s.cookies ≡ carrying p s.cookies)
                              (ok-injective k) refl,
                        ),
                        λ x k. cc,
                        absent from_cookie body token e,
                      )
              ]
      ]
