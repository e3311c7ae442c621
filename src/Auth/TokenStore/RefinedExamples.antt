-- ===== src/Auth/TokenStore/RefinedExamples.antt =====
-- The registry on the Redis in memory, beside its map.
use skillhunt.Common.{
  ℕ, ◌≡◌, ◌≢◌, ◌↔◌, refl, String, true, Option, none, some, List, [], ◌∷◌, arith, string_eq,
}
use skillhunt.Redis.Memory.{Memory, fresh, redis}
use skillhunt.Auth.TokenStore.{refresh_key, save, revoke, is_valid}
use skillhunt.Auth.TokenStore.Refinement.{
  Ran, RegistryCall, start, saved, revoked, waited, saves, revokes, waits, after, view,
  Ran-IsRefined,
}

-- Two tokens for a minute, the end of the first, and half a minute.
abbrev second : Memory
second = (save redis "t2" "bob" 60 (save redis "t1" "ann" 60 fresh).1).1

abbrev end : Memory
end = redis.wait 30 (revoke redis "t1" second).1

abbrev calls : List RegistryCall
calls = waits 30 ∷ revokes "t1" ∷ saves "t2" "bob" 60 ∷ saves "t1" "ann" 60 ∷ []

ran : Ran redis fresh calls end
unfolding save revoke
ran = waited 30 (
    revoked "t1"
      (saved "t2" "bob" 60 (saved "t1" "ann" 60 start (omega arith) refl) (omega arith) refl) refl)

half_left : view redis end "t2" ≡ some ("bob", some 30)
unfolding save revoke
half_left = refl

Ran-IsRefined_example :
    ((j : String) → view redis end j ≡ after calls (view redis fresh) j)
    × ((jti user_id : String)
        → (redis.get (refresh_key jti) end).0 ≢ none
        → ((is_valid redis jti user_id end).0 ≡ true)
          ↔ ((left : Option ℕ) × (after calls (view redis fresh) jti ≡ some (user_id, left))))
Ran-IsRefined_example = Ran-IsRefined redis ran
