-- ===== src/Platform/Cors.antt =====
-- backend-core/src/common/cors.ts: the origins that a browser may call the API from.
use skillhunt.Common.{
  ◌≡◌, ◌≢◌, refl, sym, String, false, not, Option, none, some, List, [], ◌∷◌, map, filter, includes,
  All, ◌==◌, string_eq, eq_iff, if◌then◌else◌, Result, ok, err, internal, Bool-cases, inl, inr,
  arith, ok-injective, subst,
}
use skillhunt.Common.Text.{trim, split_on}
use skillhunt.Common.Membership.{All-filter_meets, All-imp}

abbrev pub default_cors_origin : String
default_cors_origin = "http://localhost:5173"

abbrev pub joker : String
joker =
    "CORS_ORIGIN ne peut pas contenir le joker \"*\" : incompatible avec credentials:true et dangereux."

abbrev pub no_origin : String
no_origin =
    "CORS_ORIGIN ne contient aucune origine valide après filtrage : vérifier la variable d'environnement."

abbrev pub raw_of : Option String → String
raw_of none = ""
raw_of (some raw_value) = trim raw_value

-- `origins.length === 0`
abbrev pub unless_empty : List String → Result (List String)
unless_empty [] = err (internal no_origin)
unless_empty (origin ∷ origins) = ok (origin ∷ origins)

abbrev pub accept_origins : List String → Result (List String)
accept_origins origins = if includes origins "*" then err (internal joker) else unless_empty origins

abbrev pub origins_in : String → List String
origins_in raw = filter (λ origin. not (origin == "")) (map trim (split_on "," raw))

unfoldable pub resolve_cors_origins : Option String → Result (List String)
resolve_cors_origins raw_value =
    let raw = raw_of raw_value in
    if raw == "" then ok (default_cors_origin ∷ []) else accept_origins (origins_in raw)

-- What the server is started with: at least one origin, none of which is empty or the joker.
pub record IsSafe (origins : List String) : Type 0 where
  pub some_origin : origins ≢ []
  pub named : All (λ origin. origin ≢ "") origins
  pub no_joker : includes origins "*" ≡ false

unless_empty_ok :
    (origins result : List String)
    → unless_empty origins ≡ ok result
    → (result ≡ origins) × (origins ≢ [])
unless_empty_ok [] result h = cc
unless_empty_ok (o ∷ os) result h = (sym (ok-injective h), λ e. cc)

-- Whatever the setting, the resolution throws or gives at least one origin, none empty, and never the
-- joker.
pub resolve_cors_origins-IsSafe :
    (raw_value : Option String) (origins : List String)
    → resolve_cors_origins raw_value ≡ ok origins
    → IsSafe origins
unfolding resolve_cors_origins
resolve_cors_origins-IsSafe raw_value origins h = elim (Bool-cases (raw_of raw_value == "")) [
  | inl e ↦ subst IsSafe (ok-injective (simp e at h)) (record {
    some_origin = λ f. cc;
    named = (λ f. let k = (eq_iff default_cors_origin "").1 f in cc, tt);
    no_joker = refl;
  })
  | inr e ↦ elim (Bool-cases (includes (origins_in (raw_of raw_value)) "*")) [
    | inl f ↦ let k = simp (e, f) at h in cc
    | inr f ↦
        let (same, filled) =
          unless_empty_ok (origins_in (raw_of raw_value)) origins (simp (e, f) at h) in
        subst IsSafe (sym same) (record {
          some_origin = filled;
          named =
              All-imp _ _ (λ o k g. absurd (ground (arith, eq_iff o "", g)))
                (origins_in (raw_of raw_value))
                (All-filter_meets _ (map trim (split_on "," (raw_of raw_value))));
          no_joker = f;
        })
  ]
]
