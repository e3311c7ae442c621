-- ===== src/Auth/TwoFactor/BackupCodes.antt =====
-- The backup codes of two-factor.service.ts: each is good once.
use skillhunt.Common.{
  ◌≡◌, ◌≢◌, refl, String, Bool, true, false, none, some, List, [], ◌∷◌, ◌++◌, ◌==◌, string_eq,
  arith, ok, Option-cases, Bool-cases, Result-cases, inl, inr, eq_iff, All, subst, ◌∙◌,
}
use skillhunt.Entities.{User, user_id}
use skillhunt.Store.{Repository}
use skillhunt.Store.Lookup.{find_one-key, row-save_self}
use skillhunt.Redis.{Redis}
use skillhunt.External.{Argon, Otp, Random, SecretBox}
use skillhunt.Auth.Session.{Session}
use skillhunt.Auth.TwoFactor.{
  verify_code, active_secret, consume, accepts, or_empty, or_false, fail_key, lock_verdict,
}

-- A list without one accepted element, the first.
pub record IsConsumed (accepts : String → Bool) (hashed rest : List String) : Type 0 where
  pub before : List String
  pub used : String
  pub after : List String
  pub split : hashed ≡ before ++ used ∷ after
  pub left : rest ≡ before ++ after
  pub accepted : accepts used ≡ true
  pub first : All (λ h. accepts h ≡ false) before

consume-IsConsumed :
    (accepts : String → Bool) (hashed rest : List String)
    → consume accepts hashed ≡ some rest
    → IsConsumed accepts hashed rest
consume-IsConsumed accepts [] rest e = cc
consume-IsConsumed accepts (h ∷ hashed) rest e = elim (Bool-cases (accepts h)) [
  | inl yes_ ↦ record {
    before = [];
    used = h;
    after = hashed;
    split = refl;
    left = ground arith;
    accepted = yes_;
    first = tt;
  }
  | inr not_ ↦ elim (Option-cases (consume accepts hashed)) [
    | inl spent ↦ cc (rw (not_, spent) at e)
    | inr (r, found) ↦
        let c = consume-IsConsumed accepts hashed r found in
        let e' = rw (not_, found) at e in
        record {
          before = h ∷ c.before;
          used = c.used;
          after = c.after;
          split = rw (← c.split);
          left = ground (arith, c.left);
          accepted = c.accepted;
          first = (not_, c.first);
        }
  ]
]

consume-none :
    (accepts : String → Bool) (before after : List String)
    → All (λ h. accepts h ≡ false) before
    → All (λ h. accepts h ≡ false) after
    → consume accepts (before ++ after) ≡ none
consume-none accepts [] [] h k = refl
consume-none accepts [] (x ∷ after) h k = rw (k.0, consume-none accepts [] after tt k.1)
consume-none accepts (x ∷ before) after h k = rw (h.0, consume-none accepts before after h.1 k)

module _ {U R : Type 0} (users : Repository User user_id U) (redis : Redis R) (argon : Argon)
    (otp : Otp) (random : Random) (box : SecretBox) where
  abbrev pub accepted_by : String → String → Bool
  accepted_by = accepts users redis argon otp random box

  abbrev pub with_codes : User → List String → User
  with_codes u codes = record u { two_factor_backup_codes_hashed = some codes }

  -- A code that is no TOTP is accepted only by the loop over the backup codes.
  accepted_backup :
      (s : Session U R) (id code payload secret : String) (u : User)
      → users.find_one (λ u. u.id == id) s.users ≡ some u
      → active_secret users redis argon otp random box u ≡ some payload
      → box.decrypt payload ≡ some secret
      → or_false (otp.verify s.now code secret) ≡ false
      → (verify_code users redis argon otp random box id code s).0 ≡ ok true
      → (rest : List String) × (consume
            (accepted_by code)
            (or_empty u.two_factor_backup_codes_hashed)
          ≡ some rest)
        × ((verify_code users redis argon otp random box id code s).1.users
            ≡ users.save (with_codes u rest) s.users)
        × ((verify_code users redis argon otp random box id code s).1.now ≡ s.now)
  unfolding verify_code
  accepted_backup s id code payload secret u found active d bad h =
      elim (Result-cases
        (lock_verdict users redis argon otp random box (redis.get (fail_key u.id) s.redis).0)) [
          | inr (e, locked) ↦ cc (simp (found, active, locked) at h)
          | inl (_, free) ↦
              elim (Option-cases
                (consume (accepted_by code) (or_empty u.two_factor_backup_codes_hashed))) [
                  | inl spent ↦ cc (simp (found, active, free, d, bad, spent) at h)
                  | inr (rest, some_rest) ↦ (
                    rest,
                    some_rest,
                    simp (found, active, free, d, bad, some_rest) refl,
                    simp (found, active, free, d, bad, some_rest) refl,
                  )
                ]
        ]

  refused_backup :
      (s : Session U R) (id code payload secret : String) (u : User)
      → users.find_one (λ u. u.id == id) s.users ≡ some u
      → active_secret users redis argon otp random box u ≡ some payload
      → box.decrypt payload ≡ some secret
      → or_false (otp.verify s.now code secret) ≡ false
      → consume (accepted_by code) (or_empty u.two_factor_backup_codes_hashed) ≡ none
      → (verify_code users redis argon otp random box id code s).0 ≢ ok true
  unfolding verify_code
  refused_backup s id code payload secret u found active d bad spent h =
      elim (Result-cases
        (lock_verdict users redis argon otp random box (redis.get (fail_key u.id) s.redis).0)) [
          | inr (e, locked) ↦ cc (simp (found, active, locked) at h)
          | inl (_, free) ↦ cc (simp (found, active, free, d, bad, spent) at h)
        ]

  -- When a code that is no TOTP is accepted, it matched a backup code of the account: the stored
  -- list loses exactly the first such code and nothing else of the account changes. If no other
  -- stored code matches it, it is not accepted a second time.
  pub backup_code_single_use :
      (s : Session U R) (id code payload secret : String) (u : User)
      → users.find_one (λ u. u.id == id) s.users ≡ some u
      → active_secret users redis argon otp random box u ≡ some payload
      → box.decrypt payload ≡ some secret
      → or_false (otp.verify s.now code secret) ≡ false
      → (verify_code users redis argon otp random box id code s).0 ≡ ok true
      → let s' = (verify_code users redis argon otp random box id code s).1 in
        (rest : List String) × (c : IsConsumed
          (accepted_by code)
          (or_empty u.two_factor_backup_codes_hashed)
          rest)
        × (users.row s'.users id ≡ some (with_codes u rest))
        × (All (λ h. accepted_by code h ≡ false) c.after
            → (verify_code users redis argon otp random box id code s').0 ≢ ok true)
  backup_code_single_use s id code payload secret u found active d bad h =
      let (rest, spent, table, clock) =
        accepted_backup s id code payload secret u found active d bad h in
      let c = consume-IsConsumed (accepted_by code) _ rest spent in
      let s' = (verify_code users redis argon otp random box id code s).1 in
      let same : u.id ≡ id = (eq_iff u.id id).0 (users.find_one_sound s.users _ u found).0 in
      let row : users.row s'.users id ≡ some (with_codes u rest) = rw table (
        subst (λ k. users.row (users.save (with_codes u rest) s.users) k ≡ some (with_codes u rest))
          same (row-save_self users s.users (with_codes u rest))) in
      (
        rest,
        c,
        row,
        λ others.
            refused_backup s' id code payload secret (with_codes u rest)
              (find_one-key users s'.users id ∙ row) active d (rw clock bad)
              (rw c.left (consume-none (accepted_by code) c.before c.after c.first others)),
      )
