-- ===== src/Web/TwoFactor.antt =====
-- frontend-web/src/features/auth/TwoFactorSettings.tsx: the 2FA on the account page. What its mutations
-- answer arrives as events.
mod Examples
use skillhunt.Common.{
  ◌≡◌, ◌⊎◌, refl, String, Bool, true, false, Option, none, some, List, [], ◌∷◌, inl, inr, ◌++◌, ap,
  some-injective,
}
use skillhunt.Common.Text.{trim}

pub record EnrollResponse : Type 0 where
  pub secret : String
  pub otpauth_url : String

-- The state, with the data of `enroll`.
pub record Settings : Type 0 where
  pub code : String
  pub backup_codes : Option (List String)
  pub error : Option String
  pub enrolled : Option EnrollResponse

abbrev pub initial : Settings
initial = record { code = ""; backup_codes = none; error = none; enrolled = none }

-- Typing, a submission, and the answers of `enroll`, `confirm` and `disable`, which fail with `none`.
pub data SettingsEvent : Type 0 where
  types : String → SettingsEvent
  submits : SettingsEvent
  enroll_ends : Option EnrollResponse → SettingsEvent
  confirm_ends : Option (List String) → SettingsEvent
  disable_ends : Bool → SettingsEvent

abbrev pub wrong_code : String
wrong_code = "Code de vérification invalide."

-- `submitConfirm` and `submitDisable`: the code that is sent, and the page.
abbrev pub submit : Settings → String × Settings
submit page = (trim page.code, record page { error = none })

abbrev pub react : Settings → SettingsEvent → Settings
react page (types code) = record page { code = code }
react page submits = (submit page).1
react page (enroll_ends none) = record page {
  enrolled = none;
  error = some "Impossible de démarrer l'enrôlement. Réessaie plus tard.";
}
react page (enroll_ends (some data_)) = record page { enrolled = some data_ }
react page (confirm_ends none) = record page { error = some wrong_code }
react page (confirm_ends (some codes)) = record page {
  backup_codes = some codes;
  code = "";
  enrolled = none;
}
react page (disable_ends false) = record page { error = some wrong_code }
react page (disable_ends true) = record page { code = ""; backup_codes = none }

abbrev pub play : Settings → List SettingsEvent → Settings
play page [] = page
play page (e ∷ es) = play (react page e) es

-- What is drawn: nothing until the status is there, the form to disable, the form to confirm, or the
-- button to start; and the backup codes.
pub data Section : Type 0 where
  hidden : Section
  disabling : Option String → Section
  confirming : EnrollResponse → Option String → Section
  starting : Option String → Section

abbrev pub section_of : Option Bool → Settings → Section
section_of none page = hidden
section_of (some true) page = disabling page.error
section_of (some false) page = elim page.enrolled [
  | none ↦ starting page.error
  | some data_ ↦ confirming data_ page.error
]

-- Does an event leave the codes as they are?
abbrev pub IsSilent : SettingsEvent → Type 0
IsSilent (confirm_ends (some codes)) = ⊥
IsSilent (disable_ends true) = ⊥
IsSilent e = Unit

abbrev AllSilent : List SettingsEvent → Type 0
AllSilent [] = Unit
AllSilent (e ∷ es) = IsSilent e × AllSilent es

-- The codes come from a confirm that passed, with neither another nor a disable that passed after it.
pub record IsConfirmed (events : List SettingsEvent) (codes : List String) : Type 0 where
  pub before : List SettingsEvent
  pub after : List SettingsEvent
  pub split : events ≡ before ++ (confirm_ends (some codes) ∷ after)
  pub last : AllSilent after

later :
    (e : SettingsEvent) (es : List SettingsEvent) (codes : List String)
    → IsConfirmed es codes
    → IsConfirmed (e ∷ es) codes
later e es codes c = record {
  before = e ∷ c.before;
  after = c.after;
  split = ap (λ rest. e ∷ rest) c.split;
  last = c.last;
}

confirmed_now :
    (es : List SettingsEvent) (given codes : List String)
    → AllSilent es
    → given ≡ codes
    → IsConfirmed (confirm_ends (some given) ∷ es) codes
confirmed_now es given codes quiet same = record {
  before = [];
  after = es;
  split = ap (λ x. confirm_ends (some x) ∷ es) same;
  last = quiet;
}

abbrev Source : Settings → List SettingsEvent → List String → Type 0
Source page es codes = (AllSilent es × (page.backup_codes ≡ some codes)) ⊎ IsConfirmed es codes

before_all :
    (page : Settings) (e : SettingsEvent) (es : List SettingsEvent) (codes : List String)
    → Source (react page e) es codes
    → Source page (e ∷ es) codes
before_all page e es codes (inr c) = inr (later e es codes c)
before_all page (types code) es codes (inl (quiet, h)) = inl ((tt, quiet), h)
before_all page submits es codes (inl (quiet, h)) = inl ((tt, quiet), h)
before_all page (enroll_ends none) es codes (inl (quiet, h)) = inl ((tt, quiet), h)
before_all page (enroll_ends (some data_)) es codes (inl (quiet, h)) = inl ((tt, quiet), h)
before_all page (confirm_ends none) es codes (inl (quiet, h)) = inl ((tt, quiet), h)
before_all page (confirm_ends (some given)) es codes (inl (quiet, h)) =
    inr (confirmed_now es given codes quiet (some-injective h))
before_all page (disable_ends false) es codes (inl (quiet, h)) = inl ((tt, quiet), h)
before_all page (disable_ends true) es codes (inl (quiet, h)) = cc

sources :
    (page : Settings) (es : List SettingsEvent) (codes : List String)
    → (play page es).backup_codes ≡ some codes
    → Source page es codes
sources page [] codes h = inl (tt, h)
sources page (e ∷ es) codes h = before_all page e es codes (sources (react page e) es codes h)

-- The codes that a page shows are those of a confirm that passed on it, with neither another confirm nor
-- a disable that passed after it.
pub play-IsConfirmed :
    (es : List SettingsEvent) (codes : List String)
    → (play initial es).backup_codes ≡ some codes
    → IsConfirmed es codes
play-IsConfirmed es codes h = elim (sources initial es codes h) [ inl (quiet, e) ↦ cc | inr c ↦ c ]
