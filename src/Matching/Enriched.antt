-- ===== src/Matching/Enriched.antt =====
-- What the proxy of matching.service.ts adds to the answer of the microservice.
use skillhunt.Common.{
  ◌≡◌, refl, String, true, Option, some, List, [], ◌∷◌, map, reverse, ◌==◌, string_eq, eq_iff,
  includes, ok, err, All, arith, Option-cases, inl, inr, subst, none, ◌⊎◌, bad_gateway, internal,
}
use skillhunt.Common.Membership.{find-All, All-reverse_aux}
use skillhunt.Entities.{User, user_id}
use skillhunt.Store.{Repository}
use skillhunt.Matching.{
  RawMatchResult, SearchMatchDto, MatchRequest, Response, MatchResultDto, request_of, rejected,
  refused, answered, user_by_id, username_of, enriched, users_in, enrich, search,
}

All-map_each {ℓ} :
    {A B : Type 0} (P : B → Type ℓ) (f : A → B)
    → ((a : A) → P (f a))
    → (xs : List A) → All P (map f xs)
All-map_each P f each [] = tt
All-map_each P f each (x ∷ xs) = (each x, All-map_each P f each xs)

map-map :
    {A B C : Type 0} (g : B → C) (f : A → B) (h : A → C)
    → ((a : A) → g (f a) ≡ h a)
    → (xs : List A) → map g (map f xs) ≡ map h xs
map-map g f h same [] = refl
map-map g f h same (x ∷ xs) = rw (same x, map-map g f h same xs)

module _ {U N : Type 0} (users : Repository User user_id U)
    (fetch : MatchRequest N → Response N) where
  -- A name that is shown is that of the stored account.
  pub record IsNamed (t : U) (v : MatchResultDto N) (name : String) : Type 0 where
    pub user : User
    pub stored : users.row t v.freelance_id ≡ some user
    pub name_is : user.username ≡ name

  -- The answer in the microservice's order, with its scores, and with names of stored accounts.
  pub record IsEnriched (t : U) (raw : List (RawMatchResult N)) (views : List (MatchResultDto N))
      : Type 0 where
    pub ids : map (λ v. v.freelance_id) views ≡ map (λ r. r.freelance_id) raw
    pub scores : map (λ v. v.score) views ≡ map (λ r. r.score) raw
    pub distances : map (λ v. v.distance_km) views ≡ map (λ r. r.distance_km) raw
    pub names : All (λ v. (name : String) → v.username ≡ some name → IsNamed t v name) views

  by_id-IsNamed :
      (ids : List String) (t : U) (r : RawMatchResult N) (name : String)
      → username_of (user_by_id (users_in users fetch ids t) r.freelance_id) ≡ some name
      → IsNamed t (enriched (user_by_id (users_in users fetch ids t)) r) name
  by_id-IsNamed ids t r name e =
      elim (Option-cases (user_by_id (users_in users fetch ids t) r.freelance_id)) [
        | inl missing ↦ cc (rw missing at e)
        | inr (u, found) ↦
            let ((_, stored), meets) =
              find-All (λ u. (includes ids u.id ≡ true) × (users.row t u.id ≡ some u))
                (λ u. u.id == r.freelance_id) (reverse (users_in users fetch ids t)) u
                (All-reverse_aux _ (users_in users fetch ids t) []
                  (users.find_sound t (λ u. includes ids u.id) (λ a b. true)) tt)
                found in
            record {
              user = u;
              stored =
                  subst (λ k. users.row t k ≡ some u) ((eq_iff u.id r.freelance_id).0 meets) stored;
              name_is = ground (arith, rw found at e);
            }
      ]

  enrich-IsEnriched :
      (raw : List (RawMatchResult N)) (t : U)
      → (views : List (MatchResultDto N)) × (enrich users fetch raw t ≡ (ok views, t))
        × IsEnriched t raw views
  enrich-IsEnriched [] t =
      ([], refl, record { ids = refl; scores = refl; distances = refl; names = tt })
  enrich-IsEnriched (r ∷ raw) t =
      let by_id = user_by_id (users_in users fetch (map (λ x. x.freelance_id) (r ∷ raw)) t) in
      (
        map (enriched by_id) (r ∷ raw),
        refl,
        record {
          ids =
              map-map (λ v. v.freelance_id) (enriched by_id) (λ x. x.freelance_id) (λ x. refl)
                (r ∷ raw);
          scores = map-map (λ v. v.score) (enriched by_id) (λ x. x.score) (λ x. refl) (r ∷ raw);
          distances =
              map-map (λ v. v.distance_km) (enriched by_id) (λ x. x.distance_km) (λ x. refl)
                (r ∷ raw);
          names =
              All-map_each _ (enriched by_id)
                (λ x name e. by_id-IsNamed (map (λ x. x.freelance_id) (r ∷ raw)) t x name e)
                (r ∷ raw);
        },
      )

  -- A search changes nothing. A call to the microservice that fails or answers with an error status is
  -- a 502, and a body that is no JSON an error of the server; when the call gives a list, it returns that list in its order, with its scores and distances, and
  -- with a name only where the account is stored, which is the stored one.
  pub search-IsEnriched :
      (dto : SearchMatchDto N) (request_id : Option String) (t : U)
      → let response = fetch (request_of dto request_id) in
        ((response ≡ rejected) ⊎ (response ≡ refused)
          → search users fetch dto request_id t
            ≡ (err (bad_gateway "Le service de matching est momentanément indisponible"), t))
        × (response ≡ answered none
            → search users fetch dto request_id t ≡ (err (internal "json"), t))
        × ((raw : List (RawMatchResult N))
            → response ≡ answered (some raw)
            → (views : List (MatchResultDto N)) × (search users fetch dto request_id t
                ≡ (ok views, t))
              × IsEnriched t raw views)
  unfolding search
  search-IsEnriched dto request_id t = (
    λ h. elim h [ inl e ↦ rw e refl | inr e ↦ rw e refl ],
    λ h. rw h refl,
    λ raw h. rw h (enrich-IsEnriched raw t),
  )
