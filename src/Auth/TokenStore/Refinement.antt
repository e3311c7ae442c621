-- ===== src/Auth/TokenStore/Refinement.antt =====
-- The registry of token-store.service.ts as what its callers take it for: a map from the ids of tokens
-- to their users and the time that they have left.
use skillhunt.Common.{
  ℕ, ◌≡◌, ◌≢◌, ◌↔◌, refl, sym, ap, ◌∙◌, String, true, Option, none, some, List, [], ◌∷◌, ◌==◌,
  string_eq, eq_iff, if◌then◌else◌, ok, Bool-cases, inl, inr, arith, ◌<◌, Option-cases,
  some-injective,
}
use skillhunt.Redis.{Redis, expired, left}
use skillhunt.Auth.TokenStore.{save, revoke, is_valid, refresh_key}
use skillhunt.Auth.TokenStore.Registry.{
  save_effect, revoke_effect, is_valid_iff, at-is_valid, ttl-is_valid,
}

-- The abstract registry, and what a call means for it.
abbrev pub Registry : Type 0
Registry = String → Option (String × Option ℕ)

pub data RegistryCall : Type 0 where
  saves : String → String → ℕ → RegistryCall
  waits : ℕ → RegistryCall
  revokes : String → RegistryCall
  checks : String → String → RegistryCall

-- An entry after `d` seconds.
abbrev pub aged : ℕ → Option (String × Option ℕ) → Option (String × Option ℕ)
aged d none = none
aged d (some (user_id, t)) = if expired t d then none else some (user_id, left t d)

abbrev pub entry : Option String → Option ℕ → Option (String × Option ℕ)
entry none t = none
entry (some user_id) t = some (user_id, t)

abbrev pub act : RegistryCall → Registry → Registry
act (saves jti user_id ttl) r j = if jti == j then some (user_id, some ttl) else r j
act (waits d) r j = aged d (r j)
act (revokes jti) r j = if jti == j then none else r j
act (checks jti user_id) r j = r j

-- The calls so far, the last first.
abbrev pub after : List RegistryCall → Registry → Registry
after [] r = r
after (c ∷ cs) r = act c (after cs r)

holder :
    (v : Option String) (t : Option ℕ) (user_id : String) (left : Option ℕ)
    → entry v t ≡ some (user_id, left)
    → v ≡ some user_id
holder none t user_id left h = cc
holder (some u) t user_id left h = ap some (ap (λ (p : String × Option ℕ). p.0) (some-injective h))

module _ {R : Type 0} (redis : Redis R) where
  abbrev pub view : R → Registry
  view s jti = entry (redis.at s (refresh_key jti)) (redis.ttl s (refresh_key jti))

  -- Calls of the service that return, and the time between them.
  pub data Ran (s : R) : List RegistryCall → R → Type 0 where
    start : Ran s [] s
    saved :
        {cs : List RegistryCall} {t : R} (jti user_id : String) (ttl : ℕ)
        → Ran s cs t
        → 0 < ttl
        → (save redis jti user_id ttl t).0 ≡ ok tt
        → Ran s (saves jti user_id ttl ∷ cs) (save redis jti user_id ttl t).1
    waited :
        {cs : List RegistryCall} {t : R} (d : ℕ)
        → Ran s cs t
        → Ran s (waits d ∷ cs) (redis.wait d t)
    revoked :
        {cs : List RegistryCall} {t : R} (jti : String)
        → Ran s cs t
        → (revoke redis jti t).0 ≡ ok tt
        → Ran s (revokes jti ∷ cs) (revoke redis jti t).1
    checked :
        {cs : List RegistryCall} {t : R} (jti user_id : String)
        → Ran s cs t
        → Ran s (checks jti user_id ∷ cs) (is_valid redis jti user_id t).1

  view-revoke :
      (jti : String) (s : R) (r : Registry) (j : String)
      → (revoke redis jti s).0 ≡ ok tt
      → view s j ≡ r j
      → view (revoke redis jti s).1 j ≡ act (revokes jti) r j
  view-revoke jti s r j h same =
      let (ended, others, times) = revoke_effect redis jti s in
      elim (Bool-cases (jti == j)) [
        | inl e ↦
            simp e (ap (view (revoke redis jti s).1) (sym ((eq_iff jti j).0 e)) ∙ rw (ended h) refl)
        | inr e ↦
            let other : j ≢ jti = λ f. absurd (ground (arith, eq_iff jti j, sym f)) in
            simp e (rw (others j other, times j other) same)
      ]

  view-save :
      (jti user_id : String) (ttl : ℕ) (s : R) (j : String)
      → 0 < ttl
      → (save redis jti user_id ttl s).0 ≡ ok tt
      → view (save redis jti user_id ttl s).1 j ≡ act (saves jti user_id ttl) (view s) j
  view-save jti user_id ttl s j pos h =
      let (at', _, ttl', _) = save_effect redis jti user_id ttl s pos h in
      elim (Bool-cases (jti == j)) [
        | inl e ↦ rw (at' j, ttl' j, e) refl
        | inr e ↦ rw (at' j, ttl' j, e) refl
      ]

  view-wait : (d : ℕ) (s : R) (j : String) → view (redis.wait d s) j ≡ aged d (view s j)
  view-wait d s j = elim (Option-cases (redis.at s (refresh_key j))) [
    | inl absent ↦ elim (Bool-cases (expired (redis.ttl s (refresh_key j)) d)) [
      | inl over ↦ rw (redis.at-wait s d (refresh_key j), over, absent) refl
      | inr live ↦ rw (redis.at-wait s d (refresh_key j), live, absent) refl
    ]
    | inr (user_id, held) ↦ elim (Bool-cases (expired (redis.ttl s (refresh_key j)) d)) [
      | inl over ↦ rw (redis.at-wait s d (refresh_key j), held, over) refl
      | inr live ↦
          rw
            (redis.at-wait s d (refresh_key j), redis.ttl-wait s d (refresh_key j) live, held, live)
            refl
    ]
  ]

  view-Ran :
      {s : R} {cs : List RegistryCall} {t : R}
      → Ran s cs t
      → (j : String) → view t j ≡ after cs (view s) j
  view-Ran start j = refl
  view-Ran (saved {t = t} jti user_id ttl r pos h) j =
      view-save jti user_id ttl t j pos h
      ∙ ap (λ v. if jti == j then some (user_id, some ttl) else v) (view-Ran r j)
  view-Ran (waited {t = t} d r) j = view-wait d t j ∙ ap (aged d) (view-Ran r j)
  view-Ran {s = s} (revoked {cs = cs} {t = t} jti r h) j =
      view-revoke jti t (after cs (view s)) j h (view-Ran r j)
  view-Ran (checked {t = t} jti user_id r) j =
      rw
        (
          at-is_valid redis jti user_id t (refresh_key j),
          ttl-is_valid redis jti user_id t (refresh_key j),
        )
        (view-Ran r j)

  -- After any calls that return and whatever time passes between them, the registry holds, with the
  -- time that each has left, what the same calls and times leave of the map that it held before; and while Redis answers, a token is accepted exactly for the user that the map gives it.
  pub Ran-IsRefined :
      {s : R} {cs : List RegistryCall} {t : R}
      → Ran s cs t
      → ((j : String) → view t j ≡ after cs (view s) j)
        × ((jti user_id : String)
            → (redis.get (refresh_key jti) t).0 ≢ none
            → ((is_valid redis jti user_id t).0 ≡ true)
              ↔ ((left : Option ℕ) × (after cs (view s) jti ≡ some (user_id, left))))
  Ran-IsRefined {t = t} r = (
    view-Ran r,
    λ jti user_id up.
        let iff = is_valid_iff redis jti user_id t in
        (
          λ h. (redis.ttl t (refresh_key jti), sym (view-Ran r jti) ∙ rw ((iff.0 h).1) refl),
          λ (left, h). iff.1 (up, holder _ _ user_id left (view-Ran r jti ∙ h)),
        ),
  )
