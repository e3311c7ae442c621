-- ===== src/Platform/RequestId.antt =====
-- backend-core/src/observability/request-id.middleware.ts: the correlation id of a request.
use Prim.Native.String.{count as text_length}
use Prim.Native.Char.{Char, code}
use skillhunt.Common.{
  ℕ, ◌≡◌, refl, String, Bool, true, ◌&&◌, ◌||◌, Option, none, some, List, [], ◌∷◌, if◌then◌else◌,
  leb, ◌==◌, nat_eq, Bool-cases, inl, inr, Option-cases,
}
use skillhunt.External.{Random}

abbrev pub request_id_header : String
request_id_header = "x-request-id"

-- `req.headers[…]`: a header may be repeated.
pub data Header : Type 0 where
  missing : Header
  single : String → Header
  repeated : List String → Header

abbrev pub candidate_of : Header → Option String
candidate_of missing = none
candidate_of (single value) = some value
candidate_of (repeated []) = none
candidate_of (repeated (value ∷ values)) = some value

-- `[A-Za-z0-9._-]`
abbrev pub is_safe_char : Char → Bool
is_safe_char c =
    let n = code c in
    (leb 65 n && leb n 90)
    || (leb 97 n && leb n 122)
    || (leb 48 n && leb n 57)
    || n == 46
    || n == 95
    || n == 45

abbrev pub all_safe : String → Bool
all_safe String.[] = true
all_safe (String.◌∷◌ c s) = is_safe_char c && all_safe s

-- `/^[A-Za-z0-9._-]{8,128}$/`
abbrev pub is_safe_request_id : String → Bool
is_safe_request_id value =
    leb 8 (text_length value) && leb (text_length value) 128 && all_safe value

-- The id that goes on the request and into the response's header; a new UUID for the draw `n`.
unfoldable pub request_id : Random → ℕ → Option String → String
request_id random n none = random.uuid n
request_id random n (some candidate) =
    if is_safe_request_id candidate then candidate else random.uuid n

unfoldable pub request_id_middleware : Random → ℕ → Header → String
request_id_middleware random n header = request_id random n (candidate_of header)

-- Whatever the header holds, the id has 8 to 128 characters, all letters, digits, points, dashes and
-- underscores, if the UUIDs have: nothing else of the request gets into the logs or the response.
pub request_id_middleware-safe :
    (random : Random)
    → ((n : ℕ) → is_safe_request_id (random.uuid n) ≡ true)
    → (n : ℕ) (header : Header) → is_safe_request_id (request_id_middleware random n header) ≡ true
unfolding request_id_middleware request_id
request_id_middleware-safe random h n header = elim (Option-cases (candidate_of header)) [
  | inl e ↦ simp e (h n)
  | inr (value, e) ↦ elim (Bool-cases (is_safe_request_id value)) [
    | inl f ↦ simp (e, f) refl
    | inr f ↦ simp (e, f) (h n)
  ]
]

-- A safe id of the caller is kept.
pub request_id_middleware-kept :
    (random : Random) (n : ℕ) (value : String)
    → is_safe_request_id value ≡ true
    → request_id_middleware random n (single value) ≡ value
unfolding request_id_middleware request_id
request_id_middleware-kept random n value h = simp h refl
