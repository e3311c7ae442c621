-- ===== src/Web/Search.antt =====
-- frontend-web/src/features/matching/SearchFilters.tsx and pages/Search.tsx: the form of a search, with
-- the bounds of backend-core/src/matching/dto/search-match.dto.ts on its skills.
mod Examples
use skillhunt.Common.{
  ℕ, ◌≡◌, ◌≢◌, refl, String, Bool, true, false, not, ◌&&◌, ◌||◌, Option, none, some, List, [], ◌∷◌,
  map, filter, All, length, ltb, leb, ◌==◌, string_eq, nat_eq, if◌then◌else◌, Bool-cases, inl, inr,
  any, some-injective, subst, arith,
}
use skillhunt.Common.Text.{trim, split_on, utf16_length}
use skillhunt.Common.Membership.{All-imp, All-filter_meets}
use skillhunt.Web.Forms.{City, city_named}

pub record SearchCriteria (N : Type 0) : Type 0 where
  pub skills : List String
  pub lat : N
  pub lon : N
  pub radius_km : N

-- The fields of the form; `radius` is what `Number` makes of its text, if that is finite.
pub record SearchFields (N : Type 0) : Type 0 where
  pub skills_raw : String
  pub city_name : String
  pub radius : Option N

-- `skillsRaw.split(',').map((skill) => skill.trim()).filter(Boolean)`
abbrev pub skills_of : String → List String
skills_of raw = filter (λ skill. not (skill == "")) (map trim (split_on "," raw))

abbrev pub no_skill : String
no_skill = "Renseigne au moins une compétence."

abbrev pub wrong_radius : String
wrong_radius = "Le rayon doit être compris entre 1 et 500 km."

abbrev pub is_length_1_to_64 : String → Bool
is_length_1_to_64 skill = leb 1 (utf16_length skill) && leb (utf16_length skill) 64

-- `@ArrayMinSize(1) @ArrayMaxSize(50) @Length(1, 64, { each: true })`
abbrev pub accepts_skills : List String → Bool
accepts_skills skills =
    leb 1 (length skills)
    && leb (length skills) 50
    && not (any (λ skill. not (is_length_1_to_64 skill)) skills)

-- The numbers of the language, by the tests `radius < 1` and `radius > 500`.
module _ {N : Type 0} (is_below_1 is_above_500 : N → Bool) where
  abbrev pub within_radius :
      List String → City N → Option N → Option (SearchCriteria N) × Option String
  within_radius skills city none = (none, some wrong_radius)
  within_radius skills city (some radius) =
      if is_below_1 radius || is_above_500 radius then (none, some wrong_radius) else (
        some (record { skills = skills; lat = city.lat; lon = city.lon; radius_km = radius }),
        none,
      )

  abbrev pub with_skills :
      List String → City N → Option N → Option (SearchCriteria N) × Option String
  with_skills [] city radius = (none, some no_skill)
  with_skills (skill ∷ skills) city radius = within_radius (skill ∷ skills) city radius

  -- `handleSubmit`: the criteria that are sent, or the error that is shown instead.
  unfoldable pub submit_search :
      City N → List (City N) → SearchFields N → Option (SearchCriteria N) × Option String
  submit_search first cities fields =
      with_skills (skills_of fields.skills_raw) (city_named first cities fields.city_name)
        fields.radius

-- The page: the area of the search that it shows, which is not that of the form.
pub record SearchPage (N : Type 0) : Type 0 where
  pub submitted_area : Option (N × (N × N))

abbrev pub handle_search : {N : Type 0} → SearchCriteria N → SearchPage N → SearchPage N
handle_search criteria page = record {
  submitted_area = some (criteria.lat, (criteria.lon, criteria.radius_km));
}

abbrev pub is_403 : Option ℕ → Bool
is_403 none = false
is_403 (some status) = status == 403

-- The error of the search, with the status of the response, if there was one.
abbrev pub api_error : Option (Option ℕ) → Option String
api_error none = none
api_error (some status) = some (
    if is_403 status
    then "Cette recherche est réservée aux recruteurs."
    else "Le service de matching est momentanément indisponible. Réessaie dans un instant.")

-- What a search that is sent holds.
pub record IsSearch {N : Type 0} (is_below_1 is_above_500 : N → Bool) (city : City N)
    (criteria : SearchCriteria N) : Type 0 where
  pub skilled : criteria.skills ≢ []
  pub not_empty : All (λ skill. skill ≢ "") criteria.skills
  pub at_least : is_below_1 criteria.radius_km ≡ false
  pub at_most : is_above_500 criteria.radius_km ≡ false
  pub latitude : criteria.lat ≡ city.lat
  pub longitude : criteria.lon ≡ city.lon

skills_of-All : (raw : String) → All (λ skill. skill ≢ "") (skills_of raw)
skills_of-All raw =
    All-imp (λ skill. not (skill == "") ≡ true) (λ skill. skill ≢ "")
      (λ skill h e. let k : not (skill == "") ≡ false = rw e refl in cc) (skills_of raw)
      (All-filter_meets (λ skill. not (skill == "")) (map trim (split_on "," raw)))

-- A search is sent with at least one skill, none of them empty, a radius of 1 to 500 km, and the place
-- of the chosen city.
pub submit_search-IsSearch :
    {N : Type 0} (is_below_1 is_above_500 : N → Bool) (first : City N) (cities : List (City N))
    (fields : SearchFields N) (criteria : SearchCriteria N)
    → (submit_search is_below_1 is_above_500 first cities fields).0 ≡ some criteria
    → IsSearch is_below_1 is_above_500 (city_named first cities fields.city_name) criteria
unfolding submit_search
submit_search-IsSearch {N = N} is_below_1 is_above_500 first cities fields criteria h =
    go (skills_of fields.skills_raw) fields.radius (skills_of-All fields.skills_raw) h
  where
    city : City N
    city = city_named first cities fields.city_name

    bounded :
        (skills : List String) (radius : N)
        → skills ≢ []
        → All (λ skill. skill ≢ "") skills
        → (within_radius is_below_1 is_above_500 skills city (some radius)).0 ≡ some criteria
        → IsSearch is_below_1 is_above_500 city criteria
    bounded skills radius some_skill full h =
        elim (Bool-cases (is_below_1 radius || is_above_500 radius)) [
          | inl e ↦ let k = simp e at h in cc
          | inr e ↦
              subst (IsSearch is_below_1 is_above_500 city) (some-injective (simp e at h)) (record {
                skilled = some_skill;
                not_empty = full;
                at_least = ground (arith, e);
                at_most = ground (arith, e);
                latitude = refl;
                longitude = refl;
              })
        ]

    go :
        (skills : List String) (radius : Option N)
        → All (λ skill. skill ≢ "") skills
        → (with_skills is_below_1 is_above_500 skills city radius).0 ≡ some criteria
        → IsSearch is_below_1 is_above_500 city criteria
    go [] radius full h = cc
    go (skill ∷ skills) none full h = cc
    go (skill ∷ skills) (some radius) full h = bounded (skill ∷ skills) radius (λ e. cc) full h
