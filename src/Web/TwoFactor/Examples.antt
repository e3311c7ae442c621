-- ===== src/Web/TwoFactor/Examples.antt =====
-- The 2FA section of the account page.
use skillhunt.Common.{◌≡◌, refl, true, false, none, some, List, [], ◌∷◌}
use skillhunt.Web.TwoFactor.{
  EnrollResponse, SettingsEvent, types, enroll_ends, confirm_ends, disable_ends, initial, play,
  section_of, starting, confirming, disabling,
}

abbrev enrolment : EnrollResponse
enrolment = record { secret = "S"; otpauth_url = "otpauth://totp/S" }

abbrev codes : List SettingsEvent
codes = enroll_ends (some enrolment) ∷ types "123456" ∷ confirm_ends (some ("aaaa-bbbb" ∷ [])) ∷ []

shown : (play initial codes).backup_codes ≡ some ("aaaa-bbbb" ∷ [])
shown = refl

secret_gone : section_of (some false) (play initial codes) ≡ starting none
secret_gone = refl

codes_gone : (play (play initial codes) (disable_ends true ∷ [])).backup_codes ≡ none
codes_gone = refl

-- A second try that passes leaves the error of the first under the form to confirm.
stale_error :
    section_of (some false) (play initial (enroll_ends none ∷ enroll_ends (some enrolment) ∷ []))
    ≡ confirming enrolment (some "Impossible de démarrer l'enrôlement. Réessaie plus tard.")
stale_error = refl

wrong_code_shown :
    section_of (some true) (play initial (types "1" ∷ disable_ends false ∷ []))
    ≡ disabling (some "Code de vérification invalide.")
wrong_code_shown = refl
