-- ===== src/Auth/Service/Rotation.antt =====
-- The rotation of the refresh token in auth.service.ts.
use skillhunt.Common.{
  suc, ◌≡◌, ◌≢◌, refl, sym, String, true, none, some, ◌==◌, string_eq, arith, ok, err, ok-injective,
  unauthorized, if◌then◌else◌, Option-cases, Bool-cases, inl, inr, chain_ok, eq_iff, ◌∙◌, ap, ℕ,
  ◌*◌, beq_self, subst,
}
use skillhunt.Entities.{User, user_id}
use skillhunt.Store.{Repository}
use skillhunt.Redis.{Redis}
use skillhunt.External.{Claims, Jwt, Argon, Otp, Random, SecretBox}
use skillhunt.Auth.Session.{Session, on_redis}
use skillhunt.Auth.TokenStore
use skillhunt.Auth.TokenStore.{refresh_key, redis_down_message}
use skillhunt.Auth.TokenStore.Registry.{at-is_valid, is_valid_iff, revoke_effect, save_effect}
use skillhunt.Auth.Service.{
  TokenPair, refresh, rotate, issue_tokens, refresh_jti, refresh_claims, refresh_ttl_seconds,
  access_claims, access_ttl,
}

module _ {U R T : Type 0} (users : Repository User user_id U) (redis : Redis R) (jwt : Jwt T)
    (argon : Argon) (otp : Otp) (random : Random) (box : SecretBox) where
  -- The tokens of a pair, as they verify when they are given: the refresh token under its identifier,
  -- both for one account.
  pub record IsPairOf (now : ℕ) (user_id jti : String) (pair : TokenPair T) : Type 0 where
    pub refresh : Claims
    pub refresh_verified : jwt.verify now pair.refresh_token ≡ some refresh
    pub refresh_kind : refresh.type ≡ some "refresh"
    pub refresh_id : refresh.jti ≡ some jti
    pub refresh_user : refresh.user_id ≡ user_id
    pub access : Claims
    pub access_verified : jwt.verify now pair.access_token ≡ some access
    pub access_kind : access.type ≡ some "access"
    pub access_user : access.user_id ≡ user_id

  -- The pair that `issueTokens` makes in a state.
  abbrev issued_pair : User → Session U R → TokenPair T
  issued_pair user s = record {
    access_token = jwt.sign (access_claims user) access_ttl s.now;
    refresh_token = jwt.sign (refresh_claims user (random.uuid s.seed)) refresh_ttl_seconds s.now;
  }

  issued_pair-IsPairOf :
      (user : User) (user_id : String) (s : Session U R)
      → user.id ≡ user_id
      → IsPairOf s.now user_id (random.uuid s.seed) (issued_pair user s)
  issued_pair-IsPairOf user user_id s same = record {
    refresh = refresh_claims user (random.uuid s.seed);
    refresh_verified =
        jwt.verify-sign (refresh_claims user (random.uuid s.seed)) refresh_ttl_seconds s.now s.now
          (omega arith) (omega arith);
    refresh_kind = refl;
    refresh_id = refl;
    refresh_user = same;
    access = access_claims user;
    access_verified =
        jwt.verify-sign (access_claims user) access_ttl s.now s.now (omega arith) (omega arith);
    access_kind = refl;
    access_user = same;
  }

  issue_ok :
      (user : User) (s : Session U R) (pair : TokenPair T)
      → (issue_tokens users redis jwt argon otp random box user s).0 ≡ ok pair
      → let saved =
          TokenStore.save redis (random.uuid s.seed) user.id refresh_ttl_seconds s.redis in
        (pair ≡ issued_pair user s)
        × (saved.0 ≡ ok tt)
        × ((issue_tokens users redis jwt argon otp random box user s).1
            ≡ record s { redis = saved.1; seed = suc s.seed })
  unfolding issue_tokens
  issue_ok user s pair h =
      let started : Session U R = record s { seed = suc s.seed } in
      let (_, saved, step) =
        chain_ok
          (on_redis (TokenStore.save redis (random.uuid s.seed) user.id refresh_ttl_seconds)
            started)
          _ h in
      (ok-injective (sym (rw step at h)), saved, rw step refl)

  abbrev checked : Claims → String → Session U R → R
  checked claims jti s = (TokenStore.is_valid redis jti claims.user_id s.redis).1

  abbrev revoked : Claims → String → Session U R → R
  revoked claims jti s = (TokenStore.revoke redis jti (checked claims jti s)).1

  -- What a rotation that returns has done.
  pub record IsRotated (claims : Claims) (jti : String) (s : Session U R) (pair : TokenPair T)
      : Type 0 where
    pub user : User
    pub ended : (TokenStore.revoke redis jti s.redis).0 ≡ ok tt
    pub found : users.find_one (λ u. u.id == claims.user_id) s.users ≡ some user
    pub issued :
        (issue_tokens users redis jwt argon otp random box user
          (record s { redis = (TokenStore.revoke redis jti s.redis).1 })).0
        ≡ ok pair
    pub state :
        (rotate users redis jwt argon otp random box claims jti s).1
        ≡ (issue_tokens users redis jwt argon otp random box user
            (record s { redis = (TokenStore.revoke redis jti s.redis).1 })).1

  rotate_ok :
      (claims : Claims) (jti : String) (s : Session U R) (pair : TokenPair T)
      → (rotate users redis jwt argon otp random box claims jti s).0 ≡ ok pair
      → IsRotated claims jti s pair
  unfolding rotate
  rotate_ok claims jti s pair h =
      let (_, ended, step) = chain_ok (on_redis (TokenStore.revoke redis jti) s) _ h in
      elim (Option-cases (users.find_one (λ u. u.id == claims.user_id) s.users)) [
        | inl lost ↦ cc (simp (step, lost) at h)
        | inr (user, found) ↦ record {
          user = user;
          ended = ended;
          found = found;
          issued = simp (step, found) at h;
          state = simp (step, found) refl;
        }
      ]

  refresh_ok :
      (token : T) (s : Session U R) (pair : TokenPair T)
      → (refresh users redis jwt argon otp random box token s).0 ≡ ok pair
      → (claims : Claims) × (jti : String) × (jwt.verify s.now token ≡ some claims)
        × (refresh_jti claims ≡ some jti)
        × ((TokenStore.is_valid redis jti claims.user_id s.redis).0 ≡ true)
        × (refresh users redis jwt argon otp random box token s
            ≡ rotate users redis jwt argon otp random box claims jti
                (record s { redis = checked claims jti s }))
  unfolding refresh
  refresh_ok token s pair h = elim (Option-cases (jwt.verify s.now token)) [
    | inl bad ↦ cc (simp bad at h)
    | inr (claims, verified) ↦ elim (Option-cases (refresh_jti claims)) [
      | inl other ↦ cc (simp (verified, other) at h)
      | inr (jti, kind) ↦
          elim (Bool-cases (TokenStore.is_valid redis jti claims.user_id s.redis).0) [
            | inr gone ↦ cc (simp (verified, kind, gone) at h)
            | inl valid ↦ (claims, jti, verified, kind, valid, simp (verified, kind, valid) refl)
          ]
    ]
  ]

  -- The registry after a rotation, key by key.
  rotated_registry :
      (claims : Claims) (jti : String) (s : Session U R) (pair : TokenPair T)
      → (rotate users redis jwt argon otp random box claims jti s).0 ≡ ok pair
      → let s' = (rotate users redis jwt argon otp random box claims jti s).1 in
        ((j : String)
          → redis.at s'.redis (refresh_key j) ≡ (
              if random.uuid s.seed == j
              then some claims.user_id
              else if jti == j
              then none
              else redis.at s.redis (refresh_key j)))
        × (s'.now ≡ s.now)
        × (redis.ttl s'.redis (refresh_key (random.uuid s.seed)) ≡ some (7 * 24 * 60 * 60))
        × IsPairOf s.now claims.user_id (random.uuid s.seed) pair
  rotated_registry claims jti s pair h =
      let r = rotate_ok claims jti s pair h in
      let after : Session U R = record s { redis = (TokenStore.revoke redis jti s.redis).1 } in
      let (made, saved, state) = issue_ok r.user after pair r.issued in
      let same =
        (eq_iff r.user.id claims.user_id).0 (users.find_one_sound s.users _ r.user r.found).0 in
      let (registered, _, times, _) =
        save_effect redis (random.uuid s.seed) r.user.id refresh_ttl_seconds after.redis
          (omega arith) saved in
      let (ended, others, _) = revoke_effect redis jti s.redis in
      rw (r.state, state)
        (
          λ j.
              registered j
              ∙ ground (
                arith,
                same,
                ended r.ended,
                others j,
                eq_iff jti j,
                ap refresh_key {x = jti} {y = j},
              ),
          refl,
          times (random.uuid s.seed) ∙ rw (beq_self (random.uuid s.seed)) refl,
          subst (IsPairOf s.now claims.user_id (random.uuid s.seed)) (sym made)
              (issued_pair-IsPairOf r.user claims.user_id s same),
        )

  -- A token whose entry is gone is refused as revoked.
  refresh_gone :
      (token : T) (jti : String) (claims : Claims) (s : Session U R)
      → jwt.verify s.now token ≡ some claims
      → refresh_jti claims ≡ some jti
      → redis.at s.redis (refresh_key jti) ≡ none
      → (refresh users redis jwt argon otp random box token s).0
        ≡ err (unauthorized "Refresh token révoqué ou inconnu")
  unfolding refresh
  refresh_gone token jti claims s verified kind gone =
      elim (Bool-cases (TokenStore.is_valid redis jti claims.user_id s.redis).0) [
        | inl valid ↦
            let (_, live) = (is_valid_iff redis jti claims.user_id s.redis).0 valid in
            cc (gone, live)
        | inr invalid ↦ simp (verified, kind, invalid) refl
      ]

  -- A refresh that returns was given a refresh token that the registry held for the same user. It
  -- ends that token, registers for that user and seven days the identifier of the refresh token that it
  -- returns, beside an access token of the same user, and changes no other; unless the new
  -- identifier repeats the old one, the old token is refused from then on.
  pub refresh_rotates :
      (token : T) (s : Session U R) (pair : TokenPair T)
      → (refresh users redis jwt argon otp random box token s).0 ≡ ok pair
      → let s' = (refresh users redis jwt argon otp random box token s).1 in
        (claims : Claims) × (jti : String) × (jwt.verify s.now token ≡ some claims)
        × (refresh_jti claims ≡ some jti)
        × (redis.at s.redis (refresh_key jti) ≡ some claims.user_id)
        × ((j : String)
            → redis.at s'.redis (refresh_key j) ≡ (
                if random.uuid s.seed == j
                then some claims.user_id
                else if jti == j
                then none
                else redis.at s.redis (refresh_key j)))
        × (redis.ttl s'.redis (refresh_key (random.uuid s.seed)) ≡ some (7 * 24 * 60 * 60))
        × IsPairOf s.now claims.user_id (random.uuid s.seed) pair
        × (random.uuid s.seed ≢ jti
            → (refresh users redis jwt argon otp random box token s').0
              ≡ err (unauthorized "Refresh token révoqué ou inconnu"))
  refresh_rotates token s pair h =
      let (claims, jti, verified, kind, valid, step) = refresh_ok token s pair h in
      let read : Session U R = record s { redis = checked claims jti s } in
      let (registry, clock, lifetime, made) =
        rotated_registry claims jti read pair (rw step at h) in
      let (_, live) = (is_valid_iff redis jti claims.user_id s.redis).0 valid in
      let s' = (refresh users redis jwt argon otp random box token s).1 in
      let same_clock : s'.now ≡ s.now = ap (λ r. r.1.now) step ∙ clock in
      let keys : (j : String)
          → redis.at s'.redis (refresh_key j) ≡ (
              if random.uuid s.seed == j
              then some claims.user_id
              else if jti == j
              then none
              else redis.at s.redis (refresh_key j)) =
        λ j.
          ap (λ r. redis.at r.1.redis (refresh_key j)) step ∙ registry j ∙ unread claims jti s j in
      (
        claims,
        jti,
        verified,
        kind,
        live,
        keys,
        ap (λ r. redis.ttl r.1.redis (refresh_key (random.uuid s.seed))) step ∙ lifetime,
        made,
        λ fresh.
            refresh_gone token jti claims s' (rw same_clock verified) kind
              (keys jti ∙ ground (arith, eq_iff (random.uuid s.seed) jti, eq_iff jti jti)),
      )
    where
      unread :
          (claims : Claims) (jti : String) (s : Session U R) (j : String)
          → (if random.uuid s.seed == j
              then some claims.user_id
              else if jti == j
              then none
              else redis.at (checked claims jti s) (refresh_key j))
            ≡ (if random.uuid s.seed == j
                then some claims.user_id
                else if jti == j
                then none
                else redis.at s.redis (refresh_key j))
      unread claims jti s j = rw (at-is_valid redis jti claims.user_id s.redis (refresh_key j))

  -- A refresh while Redis does not answer is refused with 401, as if the token had been revoked,
  -- and not with the 503 of the other degraded paths.
  pub refresh_while_down :
      (token : T) (jti : String) (claims : Claims) (s : Session U R)
      → jwt.verify s.now token ≡ some claims
      → refresh_jti claims ≡ some jti
      → (redis.get (refresh_key jti) s.redis).0 ≡ none
      → (refresh users redis jwt argon otp random box token s).0
        ≡ err (unauthorized "Refresh token révoqué ou inconnu")
  unfolding refresh
  refresh_while_down token jti claims s verified kind down =
      elim (Bool-cases (TokenStore.is_valid redis jti claims.user_id s.redis).0) [
        | inl valid ↦
            let (up, _) = (is_valid_iff redis jti claims.user_id s.redis).0 valid in
            absurd (up down)
        | inr invalid ↦ simp (verified, kind, invalid) refl
      ]
