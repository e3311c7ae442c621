-- ===== src/Auth/TokenStore/Registry.antt =====
-- What the registry of token-store.service.ts promises: a saved token is valid, a revoked one is
-- not, and revoking all of a user's tokens misses none.
use skillhunt.Common.{
  ℕ, ◌≡◌, ◌≢◌, ◌↔◌, inl, inr, refl, String, Bool, true, Option, none, some, List, [], ◌∷◌, map,
  ◌==◌, string_eq, eq_iff, includes, arith, ok, if◌then◌else◌, ◌||◌, beq_self, Option-cases, ◌∙◌,
  ◌<◌, leb, sym, Bool-cases, some-injective, false,
}
use skillhunt.Redis.{Redis, set, sadd, expire, all_ok, expired, left}
use skillhunt.Auth.TokenStore.{
  refresh_key, index_key, stored_is, check_answers, save, is_valid, revoke,
}
use skillhunt.Auth.TokenStore.Keys.{
  refresh_key-beq, index_key-beq, refresh_index-beq, index_refresh-beq,
}

pub includes-map_refresh :
    (js : List String) (j : String) → includes (map refresh_key js) (refresh_key j) ≡ includes js j
includes-map_refresh [] j = refl
includes-map_refresh (x ∷ js) j = rw (refresh_key-beq x j, includes-map_refresh js j)

-- Is the first time to live over at the end of the second, at the latest?
abbrev pub within : Option ℕ → Option ℕ → Bool
within t none = true
within none (some m) = false
within (some n) (some m) = leb n m

within_refl : (n : ℕ) → within (some n) (some n) ≡ true
within_refl n = ground arith

within_left :
    (t u : Option ℕ) (d : ℕ)
    → within t u ≡ true
    → expired t d ≡ false
    → (expired u d ≡ false) × (within (left t d) (left u d) ≡ true)
within_left t none d h e = (refl, refl)
within_left none (some m) d h e = cc
within_left (some n) (some m) d h e = (ground arith, ground arith)

within_later :
    (t : Option ℕ) (n d : ℕ) → within t (some n) ≡ true → within (left t d) (some n) ≡ true
within_later none n d h = h
within_later (some m) n d h = ground arith

answered :
    (results : Option (Option (List Bool)))
    → check_answers results ≡ ok tt
    → (answers : List Bool) × (results ≡ some (some answers)) × (all_ok answers ≡ true)
answered none h = cc
answered (some none) h = cc
answered (some (some answers)) h = (answers, refl, ground arith)

module _ {R : Type 0} (redis : Redis R) where
  -- Every valid token stands in the index of its user, expires within `ttl` seconds, and not after
  -- that index.
  abbrev pub IsIndexed : ℕ → R → Type 0
  IsIndexed ttl s =
      (jti user_id : String)
      → redis.at s (refresh_key jti) ≡ some user_id
      → (redis.has s (index_key user_id) jti ≡ true)
        × (within (redis.ttl s (refresh_key jti)) (some ttl) ≡ true)
        × (within (redis.ttl s (refresh_key jti)) (redis.ttl s (index_key user_id)) ≡ true)

  -- A check changes nothing.
  pub at-is_valid :
      (jti user_id : String) (s : R) (k : String)
      → redis.at (is_valid redis jti user_id s).1 k ≡ redis.at s k
  unfolding is_valid
  at-is_valid jti user_id s k = redis.at-get s (refresh_key jti) k

  pub ttl-is_valid :
      (jti user_id : String) (s : R) (k : String)
      → redis.ttl (is_valid redis jti user_id s).1 k ≡ redis.ttl s k
  unfolding is_valid
  ttl-is_valid jti user_id s k = redis.ttl-get s (refresh_key jti) k

  -- A token is accepted exactly if Redis answers and holds its user's id.
  pub is_valid_iff :
      (jti user_id : String) (s : R)
      → ((is_valid redis jti user_id s).0 ≡ true) ↔ (
          ((redis.get (refresh_key jti) s).0 ≢ none)
          × (redis.at s (refresh_key jti) ≡ some user_id))
  unfolding is_valid
  is_valid_iff jti user_id s = elim (Option-cases (redis.get (refresh_key jti) s).0) [
    | inl down ↦ rw down (λ h. cc, λ h. absurd (h.0 refl))
    | inr (stored, up) ↦
        let same = redis.get-at s (refresh_key jti) stored up in rw (up, ← same) (valued stored)
  ]
    where
      valued :
          (stored : Option String)
          → (stored_is stored user_id ≡ true) ↔ ((some stored ≢ none) × (stored ≡ some user_id))
      valued none = (λ h. cc, λ h. cc)
      valued (some v) =
          (λ h. (λ e. cc, ground (arith, eq_iff v user_id)), λ h. ground (arith, eq_iff v user_id))

  -- A `save` that returns makes its token the user's, indexes it, and changes no other token.
  pub save_effect :
      (jti user_id : String) (ttl : ℕ) (s : R)
      → 0 < ttl
      → (save redis jti user_id ttl s).0 ≡ ok tt
      → let s' = (save redis jti user_id ttl s).1 in
        ((j : String)
          → redis.at s' (refresh_key j)
            ≡ (if jti == j then some user_id else redis.at s (refresh_key j)))
        × ((u j : String)
            → redis.has s' (index_key u) j ≡ (
                if user_id == u
                then (jti == j || redis.has s (index_key u) j)
                else redis.has s (index_key u) j))
        × ((j : String)
            → redis.ttl s' (refresh_key j)
              ≡ (if jti == j then some ttl else redis.ttl s (refresh_key j)))
        × ((u : String)
            → redis.ttl s' (index_key u)
              ≡ (if user_id == u then some ttl else redis.ttl s (index_key u)))
  unfolding save
  save_effect jti user_id ttl s pos h =
      let cs =
        set (refresh_key jti) user_id ttl
        ∷ sadd (index_key user_id) jti
        ∷ expire (index_key user_id) ttl
        ∷ [] in
      let (answers, e, all) = answered (redis.exec cs s).0 h in
      (
        λ j.
            redis.at-exec s cs answers (refresh_key j) e all
            ∙ rw (refresh_key-beq jti j, index_refresh-beq user_id j) refl,
        λ u j.
            redis.has-exec s cs answers (index_key u) j e all
            ∙ ground (arith, index_key-beq user_id u),
        λ j.
            redis.ttl-exec s cs answers (refresh_key j) e all
            ∙ rw (refresh_key-beq jti j, index_refresh-beq user_id j) refl,
        λ u.
            redis.ttl-exec s cs answers (index_key u) e all
            ∙ rw (index_key-beq user_id u, refresh_index-beq jti u) refl,
      )

  pub save-IsIndexed :
      (jti user_id : String) (ttl : ℕ) (s : R)
      → 0 < ttl
      → (save redis jti user_id ttl s).0 ≡ ok tt
      → IsIndexed ttl s
      → IsIndexed ttl (save redis jti user_id ttl s).1
  save-IsIndexed jti user_id ttl s pos h v j u e =
      let (at', has', ttl', index') = save_effect jti user_id ttl s pos h in
      let old : (jti == j) ≡ false → redis.at s (refresh_key j) ≡ some u =
        λ f. sym (at' j ∙ rw f refl) ∙ e in
      elim (Bool-cases (jti == j)) [
        | inl f ↦
            let same : user_id ≡ u = some-injective (sym (at' j ∙ rw f refl) ∙ e) in
            let own : (user_id == u) ≡ true = (eq_iff user_id u).1 same in
            (
              has' u j ∙ rw (own, f) refl,
              rw (ttl' j, f) (within_refl ttl),
              rw (ttl' j, f, index' u, own) (within_refl ttl),
            )
        | inr f ↦
            let (has_it, bounded, outlived) = v j u (old f) in
            elim (Bool-cases (user_id == u)) [
              | inl g ↦ (
                has' u j ∙ rw (g, f) has_it,
                rw (ttl' j, f) bounded,
                rw (ttl' j, f, index' u, g) bounded,
              )
              | inr g ↦ (
                has' u j ∙ rw g has_it,
                rw (ttl' j, f) bounded,
                rw (ttl' j, f, index' u, g) outlived,
              )
            ]
      ]

  -- Time takes the tokens away before their index.
  pub wait-IsIndexed : (ttl d : ℕ) (s : R) → IsIndexed ttl s → IsIndexed ttl (redis.wait d s)
  wait-IsIndexed ttl d s v j u e = elim (Bool-cases (expired (redis.ttl s (refresh_key j)) d)) [
    | inl over ↦
        let gone : none ≡ some u = sym (redis.at-wait s d (refresh_key j) ∙ rw over refl) ∙ e in
        absurd (cc)
    | inr live ↦
        let (has_it, bounded, outlived) =
          v j u (sym (redis.at-wait s d (refresh_key j) ∙ rw live refl) ∙ e) in
        let (index_live, after) =
          within_left (redis.ttl s (refresh_key j)) (redis.ttl s (index_key u)) d outlived live in
        let token_left = redis.ttl-wait s d (refresh_key j) live in
        (
          redis.has-wait s d (index_key u) j ∙ rw index_live has_it,
          rw token_left (within_later (redis.ttl s (refresh_key j)) ttl d bounded),
          rw (token_left, redis.ttl-wait s d (index_key u) index_live) after,
        )
  ]

  -- A `revoke` that returns ends its token; whether it returns or not, no other token changes.
  pub revoke_effect :
      (jti : String) (s : R)
      → let (r, s') = revoke redis jti s in
        (r ≡ ok tt → redis.at s' (refresh_key jti) ≡ none)
        × ((j : String) → j ≢ jti → redis.at s' (refresh_key j) ≡ redis.at s (refresh_key j))
        × ((j : String) → j ≢ jti → redis.ttl s' (refresh_key j) ≡ redis.ttl s (refresh_key j))
  unfolding revoke
  revoke_effect jti s = (
    λ h. ground (
      arith,
      redis.at-del s (refresh_key jti ∷ []) (refresh_key jti),
      beq_self (refresh_key jti),
    ),
    λ j other. ground (
      arith,
      redis.at-del_other s (refresh_key jti ∷ []) (refresh_key j),
      refresh_key-beq jti j,
      eq_iff jti j,
    ),
    λ j other. ground (
      arith,
      redis.ttl-del_other s (refresh_key jti ∷ []) (refresh_key j),
      refresh_key-beq jti j,
      eq_iff jti j,
    ),
  )

  pub revoke-IsIndexed :
      (jti : String) (ttl : ℕ) (s : R) → IsIndexed ttl s → IsIndexed ttl (revoke redis jti s).1
  unfolding revoke
  revoke-IsIndexed jti ttl s v j u e =
      let ks = refresh_key jti ∷ [] in
      let other : includes ks (index_key u) ≡ false = rw (refresh_index-beq jti u) refl in
      elim (redis.at-del_either s ks (refresh_key j)) [
        | inr gone ↦ let k : none ≡ some u = sym gone ∙ e in absurd cc
        | inl (at', ttl') ↦
            let (has_it, bounded, outlived) = v j u (sym at' ∙ e) in
            (
              redis.has-del_other s ks (index_key u) j other ∙ has_it,
              rw ttl' bounded,
              rw (ttl', redis.ttl-del_other s ks (index_key u) other) outlived,
            )
      ]
