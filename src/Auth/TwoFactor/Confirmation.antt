-- ===== src/Auth/TwoFactor/Confirmation.antt =====
-- `confirm` of two-factor.service.ts: the codes that it hands out work, and it knows no lockout.
use skillhunt.Common.{
  ℕ, suc, ◌+◌, ◌≡◌, ◌≢◌, refl, String, true, false, Option, none, some, List, [], ◌∷◌, ◌==◌,
  string_eq, arith, ok, err, unauthorized, Option-cases, truthy, Bool-cases, inl, inr, eq_iff,
  includes, length, sym, ◌<◌, subst, ◌∙◌, ok-injective, leb,
}
use skillhunt.Entities.{User, user_id}
use skillhunt.Store.{Repository}
use skillhunt.Store.Lookup.{find_one-key, row-save_self}
use skillhunt.Redis.{Redis}
use skillhunt.External.{Argon, Otp, Random, SecretBox}
use skillhunt.Auth.Session.{Session}
use skillhunt.Auth.TwoFactor.{
  active_secret, verify_code, confirm, consume, accepts, or_empty, or_false, fail_key, codes_from,
  hash_all, failures_of, max_failed_attempts,
}
use skillhunt.Auth.TwoFactor.Attempts.{failures}

module _ {U R : Type 0} (users : Repository User user_id U) (redis : Redis R) (argon : Argon)
    (otp : Otp) (random : Random) (box : SecretBox) where
  -- `confirm` neither reads nor moves the counter of failures: with any other state of Redis it
  -- gives the same answer, and a wrong code leaves the whole state as it was. So the lockout of
  -- `verifyCode` does not bound the guesses at a TOTP that go through `confirm`.
  pub confirm_ignores_lockout :
      (id code : String) (s : Session U R) (r : R)
      → ((confirm users redis argon otp random box id code (record s { redis = r })).0
          ≡ (confirm users redis argon otp random box id code s).0)
        × ((confirm users redis argon otp random box id code s).1.redis ≡ s.redis)
        × ((confirm users redis argon otp random box id code s).0
              ≡ err (unauthorized "Code de vérification invalide")
            → (confirm users redis argon otp random box id code s).1 ≡ s)
  unfolding confirm
  confirm_ignores_lockout id code s r =
      elim (Option-cases (users.find_one (λ u. u.id == id) s.users)) [
        | inl e ↦ simp e (refl, refl, λ h. refl)
        | inr (u, e) ↦ elim (Option-cases (truthy u.two_factor_secret_encrypted)) [
          | inl off ↦ simp (e, off) (refl, refl, λ h. refl)
          | inr (payload, on) ↦ elim (Option-cases (box.decrypt payload)) [
            | inl broken ↦ simp (e, on, broken) (refl, refl, λ h. refl)
            | inr (secret, d) ↦ elim (Bool-cases (or_false (otp.verify s.now code secret))) [
              | inl good ↦ simp (e, on, d, good) (refl, refl, λ h. cc)
              | inr bad ↦ simp (e, on, d, bad) (refl, refl, λ h. refl)
            ]
          ]
        ]
      ]

  -- Codes handed out, and their hashes.
  consume-hash_all :
      (code : String) (salt : ℕ) (codes : List String)
      → includes codes code ≡ true
      → consume (accepts users redis argon otp random box code) (hash_all argon salt codes) ≢ none
  consume-hash_all code salt [] h e = cc
  consume-hash_all code salt (c ∷ codes) h e =
      ground
        (arith, eq_iff c code, argon.verify-hash salt c, consume-hash_all code (suc salt) codes)

  abbrev confirmed : User → Session U R → User
  confirmed u s = record u {
    two_factor_enabled = true;
    two_factor_backup_codes_hashed =
        some (hash_all argon (s.seed + 8) (codes_from random s.seed 8));
  }

  confirm_ok :
      (id code : String) (s : Session U R) (codes : List String)
      → (confirm users redis argon otp random box id code s).0 ≡ ok codes
      → (u : User) × (payload : String) × (secret : String) × (users.find_one
            (λ u. u.id == id)
            s.users
          ≡ some u)
        × (truthy u.two_factor_secret_encrypted ≡ some payload)
        × (box.decrypt payload ≡ some secret)
        × (codes ≡ codes_from random s.seed 8)
        × ((confirm users redis argon otp random box id code s).1
            ≡ record s { users = users.save (confirmed u s) s.users; seed = s.seed + 8 + 8 })
  unfolding confirm
  confirm_ok id code s codes h = elim (Option-cases (users.find_one (λ u. u.id == id) s.users)) [
    | inl e ↦ cc (simp e at h)
    | inr (u, e) ↦ elim (Option-cases (truthy u.two_factor_secret_encrypted)) [
      | inl off ↦ cc (simp (e, off) at h)
      | inr (payload, on) ↦ elim (Option-cases (box.decrypt payload)) [
        | inl broken ↦ cc (simp (e, on, broken) at h)
        | inr (secret, d) ↦ elim (Bool-cases (or_false (otp.verify s.now code secret))) [
          | inl good ↦ (
            u,
            payload,
            secret,
            e,
            on,
            d,
            ok-injective (sym (simp (e, on, d, good) at h)),
            simp (e, on, d, good) refl,
          )
          | inr bad ↦ cc (simp (e, on, d, bad) at h)
        ]
      ]
    ]
  ]

  -- An open account accepts a code that matches a stored hash.
  verify_accepts :
      (s : Session U R) (id c payload secret : String) (u : User) (v : Option String)
      → users.find_one (λ u. u.id == id) s.users ≡ some u
      → active_secret users redis argon otp random box u ≡ some payload
      → box.decrypt payload ≡ some secret
      → (redis.get (fail_key u.id) s.redis).0 ≡ some v
      → failures users redis argon otp random box u.id s.redis < max_failed_attempts
      → consume
          (accepts users redis argon otp random box c)
          (or_empty u.two_factor_backup_codes_hashed)
        ≢ none
      → (verify_code users redis argon otp random box id c s).0 ≡ ok true
  unfolding verify_code
  verify_accepts s id c payload secret u v found active d up open_ matches =
      let same = redis.get-at s.redis (fail_key u.id) v up in
      let free : leb max_failed_attempts (failures_of redis v) ≡ false = rw same (ground arith) in
      elim (Bool-cases (or_false (otp.verify s.now c secret))) [
        | inl good ↦ simp (found, active, up, free, d, good) refl
        | inr bad ↦
            elim (Option-cases (
              consume (accepts users redis argon otp random box c)
                (or_empty u.two_factor_backup_codes_hashed))) [
                  | inl spent ↦ absurd (matches spent)
                  | inr (rest, some_rest) ↦ simp (found, active, up, free, d, bad, some_rest) refl
                ]
      ]

  confirmed_accepts :
      (id c payload secret : String) (s : Session U R) (u : User) (v : Option String)
      → u.id ≡ id
      → truthy u.two_factor_secret_encrypted ≡ some payload
      → box.decrypt payload ≡ some secret
      → (redis.get (fail_key id) s.redis).0 ≡ some v
      → failures users redis argon otp random box id s.redis < max_failed_attempts
      → includes (codes_from random s.seed 8) c ≡ true
      → (verify_code users redis argon otp random box id c
          (record s { users = users.save (confirmed u s) s.users; seed = s.seed + 8 + 8 })).0
        ≡ ok true
  confirmed_accepts id c payload secret s u v same on d up open_ handed =
      let table = users.save (confirmed u s) s.users in
      let row : users.find_one (λ u. u.id == id) table ≡ some (confirmed u s) =
        find_one-key users table id
        ∙ subst (λ k. users.row table k ≡ some (confirmed u s)) same
            (row-save_self users s.users (confirmed u s)) in
      verify_accepts (record s { users = table; seed = s.seed + 8 + 8 }) id c payload secret
        (confirmed u s) v row on d
        (subst (λ k. (redis.get (fail_key k) s.redis).0 ≡ some v) (sym same) up)
        (subst (λ k. failures users redis argon otp random box k s.redis < max_failed_attempts)
          (sym same) open_)
        (consume-hash_all c (s.seed + 8) (codes_from random s.seed 8) handed)

  -- When `confirm` returns, it returns eight codes, and each of them is then accepted by
  -- `verifyCode` as long as Redis answers and the account is not locked.
  pub confirm_codes_accepted :
      (id code : String) (s : Session U R) (codes : List String)
      → (confirm users redis argon otp random box id code s).0 ≡ ok codes
      → (length codes ≡ 8)
        × ((c : String) (v : Option String)
            → includes codes c ≡ true
            → (redis.get (fail_key id) s.redis).0 ≡ some v
            → failures users redis argon otp random box id s.redis < max_failed_attempts
            → (verify_code users redis argon otp random box id c
                (confirm users redis argon otp random box id code s).1).0
              ≡ ok true)
  confirm_codes_accepted id code s codes h =
      let (u, payload, secret, found, on, d, made, state) = confirm_ok id code s codes h in
      let same : u.id ≡ id = (eq_iff u.id id).0 (users.find_one_sound s.users _ u found).0 in
      (
        rw made refl,
        λ c v handed up open_.
            rw state
              (confirmed_accepts id c payload secret s u v same on d up open_ (rw made at handed)),
      )
