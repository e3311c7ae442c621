-- ===== src/Auth/TokenStore/Histories.antt =====
-- Histories of the registry, and the global revocation of token-store.service.ts.
use skillhunt.Common.{
  ℕ, ◌≡◌, ◌≢◌, refl, String, none, some, List, [], ◌∷◌, map, string_eq, includes, arith, ok,
  if◌then◌else◌, chain_ok, ◌∙◌, ◌<◌,
}
use skillhunt.Redis.{Redis}
use skillhunt.Auth.TokenStore.{
  refresh_key, index_key, save, revoke, revoke_all_for_user, delete_keys, delete_some, read_index,
}
use skillhunt.Auth.TokenStore.Keys.{index_refresh-beq}
use skillhunt.Auth.TokenStore.Registry.{
  IsIndexed, save-IsIndexed, revoke-IsIndexed, wait-IsIndexed, includes-map_refresh,
}

module _ {R : Type 0} (redis : Redis R) where
  -- A registry after saves for `ttl` seconds that returned, revocations that returned or threw, and
  -- the time between them.
  pub data Reaches (ttl : ℕ) (s : R) : R → Type 0 where
    start : Reaches ttl s s
    saved :
        {t : R} (jti user_id : String)
        → Reaches ttl s t
        → (save redis jti user_id ttl t).0 ≡ ok tt
        → Reaches ttl s (save redis jti user_id ttl t).1
    revoked : {t : R} (jti : String) → Reaches ttl s t → Reaches ttl s (revoke redis jti t).1
    waited : {t : R} (d : ℕ) → Reaches ttl s t → Reaches ttl s (redis.wait d t)

  pub Reaches-IsIndexed :
      {ttl : ℕ} {s t : R}
      → 0 < ttl
      → IsIndexed redis ttl s
      → Reaches ttl s t
      → IsIndexed redis ttl t
  Reaches-IsIndexed pos v start = v
  Reaches-IsIndexed {ttl} pos v (saved {t} jti user_id r h) =
      save-IsIndexed redis jti user_id ttl t pos h (Reaches-IsIndexed pos v r)
  Reaches-IsIndexed {ttl} pos v (revoked {t} jti r) =
      revoke-IsIndexed redis jti ttl t (Reaches-IsIndexed pos v r)
  Reaches-IsIndexed {ttl} pos v (waited {t} d r) =
      wait-IsIndexed redis ttl d t (Reaches-IsIndexed pos v r)

  delete_keys-at :
      (ks : List String) (k : String) (s : R)
      → (delete_keys redis ks s).0 ≡ ok tt
      → redis.at (delete_keys redis ks s).1 k ≡ (if includes ks k then none else redis.at s k)
  delete_keys-at ks k s h = ground (arith, redis.at-del s ks k)

  delete_some-at :
      (ks : List String) (k : String) (s : R)
      → (delete_some redis ks s).0 ≡ ok tt
      → redis.at (delete_some redis ks s).1 k ≡ (if includes ks k then none else redis.at s k)
  delete_some-at [] k s h = refl
  delete_some-at (x ∷ ks) k s h = delete_keys-at (x ∷ ks) k s h

  abbrev after_index : String → R → R
  after_index user_id t = (redis.smembers (index_key user_id) t).1

  abbrev after_tokens : String → List String → R → R
  after_tokens user_id jtis t = (delete_some redis (map refresh_key jtis) (after_index user_id t)).1

  -- A global revocation that returns has made its three calls, and each was answered.
  revoke_all_steps :
      (user_id : String) (t : R)
      → (revoke_all_for_user redis user_id t).0 ≡ ok tt
      → (jtis : List String) × ((redis.smembers (index_key user_id) t).0 ≡ some jtis)
        × ((delete_some redis (map refresh_key jtis) (after_index user_id t)).0 ≡ ok tt)
        × ((delete_keys redis (index_key user_id ∷ []) (after_tokens user_id jtis t)).0 ≡ ok tt)
        × (revoke_all_for_user redis user_id t
            ≡ delete_keys redis (index_key user_id ∷ []) (after_tokens user_id jtis t))
  unfolding revoke_all_for_user
  revoke_all_steps user_id t h =
      let (jtis, read, step₁) = chain_ok (read_index redis user_id t) _ h in
      let (_, deleted, step₂) =
        chain_ok (delete_some redis (map refresh_key jtis) (after_index user_id t)) _
          (rw step₁ at h) in
      (jtis, ground arith, deleted, rw (step₁, step₂) at h, step₁ ∙ step₂)

  -- After any such history from an indexed registry, all of whose saves are for the same time, however
  -- much time passes, a global revocation that returns leaves no valid token to the user.
  pub revoke_all_complete :
      {ttl : ℕ} {s t : R} (user_id jti : String)
      → 0 < ttl
      → IsIndexed redis ttl s
      → Reaches ttl s t
      → (revoke_all_for_user redis user_id t).0 ≡ ok tt
      → redis.at (revoke_all_for_user redis user_id t).1 (refresh_key jti) ≢ some user_id
  revoke_all_complete {ttl} {s} {t} user_id jti pos v r h live =
      let (jtis, read, deleted, last, e) = revoke_all_steps user_id t h in
      let at₃ =
        delete_keys-at (index_key user_id ∷ []) (refresh_key jti) (after_tokens user_id jtis t)
          last in
      let at₂ =
        delete_some-at (map refresh_key jtis) (refresh_key jti) (after_index user_id t) deleted in
      let listed = redis.has-smembers t (index_key user_id) jti jtis read in
      let live₃ = rw e at live in
      let held : redis.at t (refresh_key jti) ≡ some user_id = ground (
        arith,
        at₃,
        at₂,
        live₃,
        redis.at-smembers t (index_key user_id) (refresh_key jti),
        index_refresh-beq user_id jti,
        includes-map_refresh jtis jti,
      ) in
      let indexed = (Reaches-IsIndexed pos v r jti user_id held).0 in
      ground (
        arith,
        at₃,
        at₂,
        listed,
        indexed,
        live₃,
        redis.at-smembers t (index_key user_id) (refresh_key jti),
        includes-map_refresh jtis jti,
        index_refresh-beq user_id jti,
      )
