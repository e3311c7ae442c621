-- ===== src/Web/Forms.antt =====
-- The submissions of the pages AddGear.tsx, Login.tsx, Register.tsx and MessageThread.tsx of
-- frontend-web/src/pages: what a page sends, and what it becomes.
pub mod Login
use Prim.Native.String
use Prim.Native.Char.{Char}
use skillhunt.Common.{
  ℕ, ◌≡◌, ◌≢◌, ◌≤◌, ◌↔◌, refl, String, Bool, true, false, not, ◌&&◌, ◌||◌, Option, none, some, List,
  [], ◌∷◌, find, ltb, ◌==◌, string_eq, eq_iff, arith, if◌then◌else◌, Bool-cases, inl, inr, sym, ◌∙◌,
  subst, some-injective, ◌+◌,
}
use skillhunt.Common.Text.{trim, trim_start, trim_end, is_blank, keep_unless_last, utf16_length}
use skillhunt.Enums.{UserRole, freelance, recruiter, role_eq, GearCategory}
use skillhunt.Web.Thread.{SendResult, sent, failed}

-- `AddGearInput`; the category is empty until one is chosen.
pub record AddGearInput : Type 0 where
  pub category : Option GearCategory
  pub brand : String
  pub model : String
  pub serial_number : String

pub record FieldErrors : Type 0 where
  pub category : Option String
  pub brand : Option String
  pub model : Option String
  pub serial_number : Option String

abbrev pub error_if : Bool → String → Option String
error_if true text = some text
error_if false text = none

abbrev pub is_chosen : Option GearCategory → Bool
is_chosen none = false
is_chosen (some category) = true

abbrev pub validate : AddGearInput → FieldErrors
validate input = record {
  category = error_if (not (is_chosen input.category)) "Choisis une catégorie.";
  brand = error_if (trim input.brand == "") "La marque est obligatoire.";
  model = error_if (trim input.model == "") "Le modèle est obligatoire.";
  serial_number =
      error_if (ltb (utf16_length (trim input.serial_number)) 5)
        "Le numéro de série doit contenir au moins 5 caractères.";
}

-- `Object.keys(errors).length > 0`
abbrev pub is_error : Option String → Bool
is_error none = false
is_error (some text) = true

abbrev pub has_errors : FieldErrors → Bool
has_errors e =
    is_error e.category || is_error e.brand || is_error e.model || is_error e.serial_number

abbrev pub trimmed : AddGearInput → AddGearInput
trimmed input = record input {
  brand = trim input.brand;
  model = trim input.model;
  serial_number = trim input.serial_number;
}

-- The errors that the form shows, and the input that it sends, if any.
unfoldable pub submit_gear : AddGearInput → FieldErrors × Option AddGearInput
submit_gear fields =
    let input = trimmed fields in
    let errors = validate input in (errors, if has_errors errors then none else some input)

-- The page of a thread: the draft and the error of the last sending.
pub record Composer : Type 0 where
  pub draft : String
  pub send_error : Option String

-- What is sent of a draft.
abbrev pub outgoing : Composer → Option String
outgoing composer = let body = trim composer.draft in if body == "" then none else some body

abbrev pub on_sent : SendResult → Composer → Composer
on_sent sent composer = record { draft = ""; send_error = none }
on_sent (failed error) composer = record composer { send_error = some error }

-- A city of `CITIES`, and the body of a registration.
pub record City (N : Type 0) : Type 0 where
  pub name : String
  pub lat : N
  pub lon : N

pub record RegisterInput (N : Type 0) : Type 0 where
  pub email : String
  pub username : String
  pub password : String
  pub role : UserRole
  pub location : Option (N × N)

-- `CITIES.find(…) ?? CITIES[0]`
abbrev pub city_named : {N : Type 0} → City N → List (City N) → String → City N
city_named first cities name = elim (find (λ c. c.name == name) (first ∷ cities)) [
  | none ↦ first
  | some city ↦ city
]

abbrev pub location_for : {N : Type 0} → UserRole → City N → Option (N × N)
location_for role city = if role == freelance then some (city.lat, city.lon) else none

abbrev pub password_too_short : String
password_too_short = "Le mot de passe doit faire au moins 8 caractères."

-- The registration that is sent, or the error that is shown instead.
unfoldable pub submit_registration :
    {N : Type 0}
    → City N
    → List (City N)
    → String
    → String
    → String
    → UserRole
    → String
    → Option (RegisterInput N) × Option String
submit_registration first cities email username password role city_name =
    if ltb (utf16_length password) 8 then (none, some password_too_short) else (
      some (record {
        email = email;
        username = username;
        password = password;
        role = role;
        location = location_for role (city_named first cities city_name);
      }),
      none,
    )

length-trim_start : (s : String) → utf16_length (trim_start s) ≤ utf16_length s
length-trim_start String.[] = omega arith
length-trim_start (String.◌∷◌ c s) = elim (Bool-cases (is_blank c)) [
  | inl e ↦ simp e (omega (arith, length-trim_start s))
  | inr e ↦ simp e (omega arith)
]

length-keep_unless_last :
    (c : Char) (s : String) → utf16_length (keep_unless_last c s) ≤ utf16_length (String.◌∷◌ c s)
length-keep_unless_last c String.[] = elim (Bool-cases (is_blank c)) [
  | inl e ↦ simp e (omega arith)
  | inr e ↦ simp e (omega arith)
]
length-keep_unless_last c (String.◌∷◌ d s) = omega arith

length-trim_end : (s : String) → utf16_length (trim_end s) ≤ utf16_length s
length-trim_end String.[] = omega arith
length-trim_end (String.◌∷◌ c s) =
    omega (arith, length-keep_unless_last c (trim_end s), length-trim_end s)

length-trim : (s : String) → utf16_length (trim s) ≤ utf16_length s
length-trim s = omega (arith, length-trim_end (trim_start s), length-trim_start s)

-- What the backend's AddGearDto asks of a body.
pub record IsDeclarable (input : AddGearInput) : Type 0 where
  pub chosen : is_chosen input.category ≡ true
  pub branded : input.brand ≢ ""
  pub modelled : input.model ≢ ""
  pub numbered : 5 ≤ utf16_length input.serial_number

untrimmed : (text : String) → (trim text == "") ≡ false → text ≢ ""
untrimmed text h e = let k : (trim text == "") ≡ true = rw e refl in cc

no_error : (b : Bool) (text : String) → is_error (error_if b text) ≡ b
no_error true text = refl
no_error false text = refl

none_of :
    (a b c d : Bool)
    → (a || b || c || d) ≡ false
    → (a ≡ false) × (b ≡ false) × (c ≡ false) × (d ≡ false)
none_of a b c d h = (ground (arith, h), ground (arith, h), ground (arith, h), ground (arith, h))

declarable : (input : AddGearInput) → has_errors (validate input) ≡ false → IsDeclarable input
declarable input h =
    let (a, b, c, d) =
      none_of (is_error (validate input).category) (is_error (validate input).brand)
        (is_error (validate input).model) (is_error (validate input).serial_number) h in
    let e = sym (no_error (not (is_chosen input.category)) "Choisis une catégorie.") ∙ a in
    let long =
      sym (
        no_error (ltb (utf16_length (trim input.serial_number)) 5)
          "Le numéro de série doit contenir au moins 5 caractères.")
      ∙ d in
    record {
      chosen = ground (arith, e);
      branded =
          untrimmed input.brand
            (sym (no_error (trim input.brand == "") "La marque est obligatoire.") ∙ b);
      modelled =
          untrimmed input.model
            (sym (no_error (trim input.model == "") "Le modèle est obligatoire.") ∙ c);
      numbered = ground (arith, length-trim input.serial_number, long);
    }

-- What the form sends meets what the backend asks of it.
pub submit_gear-IsDeclarable :
    (fields input : AddGearInput) → (submit_gear fields).1 ≡ some input → IsDeclarable input
unfolding submit_gear
submit_gear-IsDeclarable fields input h =
    elim (Bool-cases (has_errors (validate (trimmed fields)))) [
      | inl e ↦ let k = simp e at h in cc
      | inr e ↦ subst IsDeclarable (some-injective (simp e at h)) (declarable (trimmed fields) e)
    ]
