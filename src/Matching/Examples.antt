-- ===== src/Matching/Examples.antt =====
-- The proxy on a table in memory.
use skillhunt.Common.{ℕ, ◌≡◌, false, none, some, List, [], ◌∷◌, ok, err, ◌⊎◌, bad_gateway, internal}
use skillhunt.Enums.{freelance}
use skillhunt.Entities.{User, user_id}
use skillhunt.Store.Table
use skillhunt.Store.Table.{Table, repository, empty}
use skillhunt.Matching.{
  RawMatchResult, SearchMatchDto, MatchRequest, Response, answered, MatchResultDto, request_of,
  search, rejected, refused,
}
use skillhunt.Matching.Enriched.{IsEnriched, search-IsEnriched}

abbrev zoe : User
zoe = record {
  id = "zoe";
  email = "zoe@example.org";
  username = "zoe";
  password_hash = "pw";
  role = freelance;
  location = none;
  two_factor_enabled = false;
  two_factor_secret_encrypted = none;
  two_factor_backup_codes_hashed = none;
  created_at = 0;
}

abbrev people : Table User user_id
people = Table.save user_id zoe (empty user_id)

-- A microservice that knows two freelances, one of them deleted since.
abbrev fetch : MatchRequest ℕ → Response ℕ
fetch request = answered (
    some (
      record { freelance_id = "zoe"; score = 9; distance_km = 3 }
      ∷ record { freelance_id = "gone"; score = 7; distance_km = 5 }
      ∷ []))

abbrev dto : SearchMatchDto ℕ
dto = record { skills = "drone" ∷ []; lat = 43; lon = 1; radius_km = 50 }

search-IsEnriched_example :
    ((fetch (request_of dto none) ≡ rejected) ⊎ (fetch (request_of dto none) ≡ refused)
      → search (repository user_id) fetch dto none people
        ≡ (err (bad_gateway "Le service de matching est momentanément indisponible"), people))
    × (fetch (request_of dto none) ≡ answered none
        → search (repository user_id) fetch dto none people ≡ (err (internal "json"), people))
    × ((raw : List (RawMatchResult ℕ))
        → fetch (request_of dto none) ≡ answered (some raw)
        → (views : List (MatchResultDto ℕ)) × (search (repository user_id) fetch dto none people
            ≡ (ok views, people))
          × IsEnriched (repository user_id) fetch people raw views)
search-IsEnriched_example = search-IsEnriched (repository user_id) fetch dto none people
