-- ===== src/Auth/TokenStore.antt =====
-- backend-core/src/auth/token-store.service.ts: the registry of the refresh tokens that are valid.
-- `refresh:{jti}` holds the user's id, and the set `user:{id}:jtis` indexes a user's tokens.
pub mod Keys
pub mod Registry
pub mod Histories
pub mod Refinement
mod Examples
mod RefinedExamples
use Prim.Native.String
use mathlib.Core.Option
use skillhunt.Common.{
  ℕ, String, Bool, true, false, ◌&&◌, Option, none, some, List, [], ◌∷◌, map, ◌==◌, string_eq, Exec,
  Result, ok, err, service_unavailable, internal, HttpError, ◌>>=◌, ◌>>◌, if◌then◌else◌,
}
use skillhunt.Redis.{Redis, set, sadd, expire, all_ok}

abbrev pub redis_down_message : String
redis_down_message =
    "Service d'authentification momentanément indisponible. Réessaie dans un instant."

abbrev pub refresh_key : String → String
refresh_key jti = String.◌++◌ "refresh:" jti

abbrev pub index_key : String → String
index_key user_id = String.◌++◌ "user:" (String.◌++◌ user_id ":jtis")

-- `stored !== null && stored === userId`
abbrev pub stored_is : Option String → String → Bool
stored_is none user_id = false
stored_is (some stored) user_id = stored == user_id

-- `results === null || results.some(([error]) => error !== null)`, and the catch above it
abbrev pub check_answers : Option (Option (List Bool)) → Result (Unit {0})
check_answers none = err (service_unavailable redis_down_message)
check_answers (some none) = err (service_unavailable redis_down_message)
check_answers (some (some answers)) =
    if all_ok answers then ok tt else err (service_unavailable redis_down_message)

-- The catch of `isValid`: a token that cannot be checked is not valid.
abbrev pub valid_answer : Option (Option String) → String → Bool
valid_answer none user_id = false
valid_answer (some stored) user_id = stored_is stored user_id

-- A rejected command: with `try`, a clean refusal; without, an unhandled error.
abbrev pub or_throw : Bool → HttpError → Result (Unit {0})
or_throw true e = ok tt
or_throw false e = err e

abbrev pub answer_or : {A : Type 0} → Option A → HttpError → Result A
answer_or none e = err e
answer_or (some a) e = ok a

module _ {R : Type 0} (redis : Redis R) where
  unfoldable pub save : String → String → ℕ → Exec R (Unit {0})
  save jti user_id ttl s =
      let (results, s') =
        redis.exec
          (set (refresh_key jti) user_id ttl
            ∷ sadd (index_key user_id) jti
            ∷ expire (index_key user_id) ttl
            ∷ [])
          s in
      (check_answers results, s')

  unfoldable pub is_valid : String → String → R → Bool × R
  is_valid jti user_id s =
      let (stored, s') = redis.get (refresh_key jti) s in (valid_answer stored user_id, s')

  unfoldable pub revoke : String → Exec R (Unit {0})
  revoke jti s =
      let (resolved, s') = redis.del (refresh_key jti ∷ []) s in
      (or_throw resolved (service_unavailable redis_down_message), s')

  -- A command outside any `try`.
  abbrev pub delete_keys : List String → Exec R (Unit {0})
  delete_keys ks s =
      let (resolved, s') = redis.del ks s in (or_throw resolved (internal "redis"), s')

  abbrev pub delete_some : List String → Exec R (Unit {0})
  delete_some [] s = (ok tt, s)
  delete_some (k ∷ ks) s = delete_keys (k ∷ ks) s

  abbrev pub read_index : String → Exec R (List String)
  read_index user_id s =
      let (jtis, s') = redis.smembers (index_key user_id) s in
      (answer_or jtis (internal "redis"), s')

  pub revoke_all_for_user : String → Exec R (Unit {0})
  revoke_all_for_user user_id = do
    jtis ← read_index user_id
    delete_some (map refresh_key jtis)
    delete_keys (index_key user_id ∷ [])
