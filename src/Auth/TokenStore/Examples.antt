-- ===== src/Auth/TokenStore/Examples.antt =====
-- The registry on the Redis in memory.
use skillhunt.Common.{◌≡◌, ◌≢◌, refl, true, some, string_eq, false, arith}
use skillhunt.Redis.Memory.{Memory, fresh, redis}
use skillhunt.Auth.TokenStore.{refresh_key, save, is_valid, revoke, revoke_all_for_user}
use skillhunt.Auth.TokenStore.Histories.{
  Reaches, start, saved, revoked, waited, revoke_all_complete,
}

-- A token, and 50 of its 60 seconds later one of another user.
abbrev after_saves : Memory
after_saves = (save redis "t2" "bob" 60 (redis.wait 50 (save redis "t1" "ann" 60 fresh).1)).1

t1_is_valid : (is_valid redis "t1" "ann" after_saves).0 ≡ true
unfolding is_valid save
t1_is_valid = refl

t1_is_over : (is_valid redis "t1" "ann" (redis.wait 10 after_saves)).0 ≡ false
unfolding is_valid save
t1_is_over = refl

history : Reaches redis 60 fresh (revoke redis "t2" after_saves).1
unfolding save
history = revoked "t2" (saved "t2" "bob" (waited 50 (saved "t1" "ann" start refl)) refl)

revoke_all_complete_example :
    redis.at
      (revoke_all_for_user redis "ann" (revoke redis "t2" after_saves).1).1
      (refresh_key "t1")
    ≢ some "ann"
unfolding save revoke revoke_all_for_user
revoke_all_complete_example =
    revoke_all_complete redis "ann" "t1" (omega arith) (λ jti user_id e. cc) history refl
