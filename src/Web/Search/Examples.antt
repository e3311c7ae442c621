-- ===== src/Web/Search/Examples.antt =====
-- Searches of SearchFilters.tsx, with a radius in km.
use skillhunt.Common.{ℕ, ◌≡◌, refl, false, some, none, [], ◌∷◌, ltb, String, Option}
use skillhunt.Web.Forms.{City}
use skillhunt.Web.Search.{SearchCriteria, submit_search, accepts_skills, skills_of}

abbrev paris : City ℕ
paris = record { name = "Paris"; lat = 48; lon = 2 }

abbrev lyon : City ℕ
lyon = record { name = "Lyon"; lat = 45; lon = 4 }

abbrev on_lyon : String → ℕ → Option (SearchCriteria ℕ) × Option String
on_lyon skills radius =
    submit_search (λ n. ltb n 1) (λ n. ltb 500 n) paris (lyon ∷ [])
      (record { skills_raw = skills; city_name = "Lyon"; radius = some radius })

two_skills : on_lyon " drone,, thermography " 500 ≡ (
  some (record { skills = "drone" ∷ "thermography" ∷ []; lat = 45; lon = 4; radius_km = 500 }),
  none,
)
unfolding submit_search
two_skills = refl

too_far : on_lyon "drone" 501 ≡ (none, some "Le rayon doit être compris entre 1 et 500 km.")
unfolding submit_search
too_far = refl

no_skills : on_lyon " , ," 50 ≡ (none, some "Renseigne au moins une compétence.")
unfolding submit_search
no_skills = refl

-- Sixty-five letters.
abbrev long_skill : String
long_skill = "aaaaaaaaaaaaaaaaaaaaaaaaaaaaaaaaaaaaaaaaaaaaaaaaaaaaaaaaaaaaaaaaa"

-- The form sends a skill that the backend refuses.
long_skill_is_sent :
    on_lyon long_skill 50
    ≡ (some (record { skills = long_skill ∷ []; lat = 45; lon = 4; radius_km = 50 }), none)
unfolding submit_search
long_skill_is_sent = refl

long_skill_is_refused : accepts_skills (skills_of long_skill) ≡ false
long_skill_is_refused = refl
