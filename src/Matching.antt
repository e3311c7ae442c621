-- ===== src/Matching.antt =====
-- backend-core/src/matching/matching.service.ts: the proxy to the matching microservice. The call
-- over the network is a parameter; scores, distances and the request's coordinates are values that
-- the proxy only passes on.
pub mod Enriched
mod Examples
use skillhunt.Common.{
  ℕ, String, Bool, true, Option, none, some, List, [], ◌∷◌, map, reverse, find, includes, ◌==◌,
  string_eq, Exec, Result, ok, err, bad_gateway, internal, ◌>>=◌, pure, gets, truthy,
}
use skillhunt.Entities.{User, Point, ℤ, user_id}
use skillhunt.Store.{Repository}

pub record RawMatchResult (N : Type 0) : Type 0 where
  pub freelance_id : String
  pub score : N
  pub distance_km : N

-- The body of the request, and its correlation id.
pub record MatchRequest (N : Type 0) : Type 0 where
  pub request_id : Option String
  pub skills : List String
  pub location : N × N
  pub radius_km : N

pub record SearchMatchDto (N : Type 0) : Type 0 where
  pub skills : List String
  pub lat : N
  pub lon : N
  pub radius_km : N

-- How `fetch` ends: it rejects, it answers with an error status, or it answers with a body, which may
-- be no JSON (`none`).
pub data Response (N : Type 0) : Type 0 where
  rejected : Response N
  refused : Response N
  answered : Option (List (RawMatchResult N)) → Response N

pub record MatchResultDto (N : Type 0) : Type 0 where
  pub freelance_id : String
  pub username : Option String
  pub score : N
  pub distance_km : N
  pub latitude : Option ℤ
  pub longitude : Option ℤ

abbrev pub request_of : {N : Type 0} → SearchMatchDto N → Option String → MatchRequest N
request_of dto request_id = record {
  request_id = truthy request_id;
  skills = dto.skills;
  location = (dto.lat, dto.lon);
  radius_km = dto.radius_km;
}

abbrev pub unavailable : String
unavailable = "Le service de matching est momentanément indisponible"

abbrev pub body_of : {N : Type 0} → Response N → Result (List (RawMatchResult N))
body_of rejected = err (bad_gateway unavailable)
body_of refused = err (bad_gateway unavailable)
body_of (answered none) = err (internal "json")
body_of (answered (some raw)) = ok raw

-- `userById.get(id)`: of two entries of a map for one key, the last stays.
abbrev pub user_by_id : List User → String → Option User
user_by_id users id = find (λ u. u.id == id) (reverse users)

abbrev pub username_of : Option User → Option String
username_of none = none
username_of (some user) = some user.username

-- `user?.location?.coordinates`
abbrev pub coordinates_of : Option User → Option (ℤ × ℤ)
coordinates_of none = none
coordinates_of (some user) = elim user.location [ none ↦ none | some p ↦ some p.coordinates ]

abbrev pub latitude_of : Option (ℤ × ℤ) → Option ℤ
latitude_of none = none
latitude_of (some (longitude, latitude)) = some latitude

abbrev pub longitude_of : Option (ℤ × ℤ) → Option ℤ
longitude_of none = none
longitude_of (some (longitude, latitude)) = some longitude

abbrev pub enriched : {N : Type 0} → (String → Option User) → RawMatchResult N → MatchResultDto N
enriched by_id r = record {
  freelance_id = r.freelance_id;
  username = username_of (by_id r.freelance_id);
  score = r.score;
  distance_km = r.distance_km;
  latitude = latitude_of (coordinates_of (by_id r.freelance_id));
  longitude = longitude_of (coordinates_of (by_id r.freelance_id));
}

module _ {U N : Type 0} (users : Repository User user_id U)
    (fetch : MatchRequest N → Response N) where
  -- `find({ where: { id: In(ids) } })`, in the order of the database.
  abbrev pub users_in : List String → U → List User
  users_in ids t = users.find_where (λ u. includes ids u.id) (λ a b. true) t

  abbrev pub enrich : List (RawMatchResult N) → Exec U (List (MatchResultDto N))
  enrich [] s = (ok [], s)
  enrich (r ∷ raw) s = (
    ok (map (enriched (user_by_id (users_in (map (λ x. x.freelance_id) (r ∷ raw)) s))) (r ∷ raw)),
    s,
  )

  pub search : SearchMatchDto N → Option String → Exec U (List (MatchResultDto N))
  search dto request_id = do raw ← λ s. (body_of (fetch (request_of dto request_id)), s); enrich raw
