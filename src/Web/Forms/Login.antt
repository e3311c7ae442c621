-- ===== src/Web/Forms/Login.antt =====
-- frontend-web/src/pages/Login.tsx: the two steps of a login.
use skillhunt.Common.{
  ℕ, ◌≡◌, refl, String, Bool, false, Option, none, some, ltb, ◌==◌, nat_eq, if◌then◌else◌, inl, inr,
  Bool-cases, ◌≢◌,
}
use skillhunt.Common.Text.{utf16_length}

-- The state of the page; `left_to` is where it navigated.
pub record LoginPage (T : Type 0) : Type 0 where
  pub two_factor_token : Option T
  pub error : Option String
  pub submitting : Bool
  pub left_to : Option String

-- How the call of a step ends: without a second factor, with its token, or with an error and the status
-- of the response, if there was one.
pub data StepOutcome (T : Type 0) : Type 0 where
  passed : StepOutcome T
  second_step : T → StepOutcome T
  refused : Option ℕ → StepOutcome T

abbrev pub too_short : String → Bool
too_short password = ltb (utf16_length password) 8

-- `location.state?.from ?? '/'`
abbrev pub from_of : Option String → String
from_of none = "/"
from_of (some from) = from

abbrev pub after_login : {T : Type 0} → String → StepOutcome T → LoginPage T → LoginPage T
after_login from passed page = record page { left_to = some from }
after_login from (second_step token) page = record page { two_factor_token = some token }
after_login from (refused status) page = record page {
  error = some "Email ou mot de passe incorrect.";
}

-- `handleSubmit`, with the outcome of its call, which a short password does not make.
unfoldable pub handle_submit :
    {T : Type 0} → Option String → String → StepOutcome T → LoginPage T → LoginPage T
handle_submit from password outcome page =
    if too_short password
    then record page { error = some "Le mot de passe doit faire au moins 8 caractères." }
    else record (after_login (from_of from) outcome (record page { error = none })) {
      submitting = false;
    }

abbrev pub is_429 : Option ℕ → Bool
is_429 none = false
is_429 (some status) = status == 429

abbrev pub after_verify : {T : Type 0} → String → Option (Option ℕ) → LoginPage T → LoginPage T
after_verify from none page = record page { left_to = some from }
after_verify from (some status) page = record page {
  error = some (
      if is_429 status
      then "Trop de tentatives. Réessaie dans quelques minutes."
      else "Code de vérification invalide.");
}

abbrev pub verify_with :
    {T : Type 0} → String → Option T → Option (Option ℕ) → LoginPage T → LoginPage T
verify_with from none failure page = record page { error = none }
verify_with from (some token) failure page =
    record (after_verify from failure (record page { error = none })) { submitting = false }

-- `handleVerify`, with the failure of its call, if it fails.
unfoldable pub handle_verify :
    {T : Type 0} → Option String → Option (Option ℕ) → LoginPage T → LoginPage T
handle_verify from failure page = verify_with (from_of from) page.two_factor_token failure page

-- The page is left only by a step whose call passed: the first without a second factor, or the second
-- with the token that the first gave.
pub steps-left :
    {T : Type 0} (from : Option String) (password : String) (outcome : StepOutcome T)
    (failure : Option (Option ℕ)) (page : LoginPage T)
    → page.left_to ≡ none
    → ((handle_submit from password outcome page).left_to ≢ none → outcome ≡ passed)
      × ((handle_verify from failure page).left_to ≢ none
          → (failure ≡ none) × ((token : T) × (page.two_factor_token ≡ some token)))
unfolding handle_submit handle_verify
steps-left {T = T} from password outcome failure page stays = (
  λ h. elim (Bool-cases (too_short password)) [
    | inl e ↦ absurd (h (simp e stays))
    | inr e ↦ first outcome (λ k. h (simp e k))
  ],
  λ h. second page.two_factor_token failure h,
)
  where
    first :
        (o : StepOutcome T)
        → (after_login (from_of from) o (record page { error = none })).left_to ≢ none
        → o ≡ passed
    first passed h = refl
    first (second_step token) h = absurd (h stays)
    first (refused status) h = absurd (h stays)

    second :
        (t : Option T) (f : Option (Option ℕ))
        → (verify_with (from_of from) t f page).left_to ≢ none
        → (f ≡ none) × ((token : T) × (t ≡ some token))
    second none f h = absurd (h stays)
    second (some token) none h = (refl, (token, refl))
    second (some token) (some status) h = absurd (h stays)
