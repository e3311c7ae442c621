-- ===== src/Auth/Service/Registration.antt =====
-- The registration of auth.service.ts.
use skillhunt.Common.{
  ℕ, ◌≡◌, ◌≢◌, refl, sym, String, true, false, Option, none, some, ◌==◌, string_eq, arith, ok, err,
  ok-injective, HttpError, Option-cases, Bool-cases, inl, inr, eq_iff, includes, subst, ap, ◌∙◌,
  Result-cases,
}
use skillhunt.Enums.{admin, role_eq}
use skillhunt.Entities.{User, user_id}
use skillhunt.Store.{Repository}
use skillhunt.Store.Lookup.{row-save_self}
use skillhunt.Redis.{Redis}
use skillhunt.External.{Jwt, Argon, Otp, Random, SecretBox}
use skillhunt.Auth.Session.{Session}
use skillhunt.Auth.Service.{
  RegisterDto, PublicUser, to_public_user, to_point, register, self_assignable_roles,
}

same_email : (u w : User) → some u ≡ some w → u.email ≡ w.email
same_email u w e = ap (λ (o : Option User). elim o [ none ↦ u.email | some x ↦ x.email ]) e

module _ {U R T : Type 0} (users : Repository User user_id U) (redis : Redis R) (jwt : Jwt T)
    (argon : Argon) (otp : Otp) (random : Random) (box : SecretBox) where
  abbrev pub AreDistinct : U → Type 0
  AreDistinct t =
      (k j : String) (u v : User)
      → users.row t k ≡ some u
      → users.row t j ≡ some v
      → u.email ≡ v.email
      → k ≡ j

  -- No two accounts share an address.
  pub record HasUniqueEmails (t : U) : Type 0 where
    pub distinct : AreDistinct t

  -- The account that a registration stores.
  pub record IsRegistered (dto : RegisterDto) (s : Session U R) (view : PublicUser) (t : U)
      : Type 0 where
    pub user : User
    pub stored : users.row t user.id ≡ some user
    pub others : (k : String) → k ≢ user.id → users.row t k ≡ users.row s.users k
    pub was_free : users.row s.users user.id ≡ none
    pub email : user.email ≡ dto.email
    pub username : user.username ≡ dto.username
    pub role : user.role ≡ dto.role
    pub password : argon.verify user.password_hash dto.password ≡ some true
    pub location : user.location ≡ to_point dto.location
    pub two_factor : user.two_factor_enabled ≡ false
    pub no_secret : user.two_factor_secret_encrypted ≡ none
    pub no_codes : user.two_factor_backup_codes_hashed ≡ none
    pub shown : view ≡ to_public_user user
    pub not_admin : dto.role ≢ admin
    pub email_free : (k : String) (u : User) → users.row s.users k ≡ some u → u.email ≢ dto.email

  abbrev created : ℕ → RegisterDto → Session U R → User
  created now dto s = record {
    id = users.generate s.users;
    email = dto.email;
    username = dto.username;
    password_hash = argon.hash s.seed dto.password;
    role = dto.role;
    location = to_point dto.location;
    two_factor_enabled = false;
    two_factor_secret_encrypted = none;
    two_factor_backup_codes_hashed = none;
    created_at = now;
  }

  created-IsRegistered :
      (now : ℕ) (dto : RegisterDto) (s : Session U R)
      → includes self_assignable_roles dto.role ≡ true
      → users.find_one (λ u. u.email == dto.email) s.users ≡ none
      → IsRegistered dto s
          (to_public_user (created now dto s))
          (users.save (created now dto s) s.users)
  created-IsRegistered now dto s allowed free = record {
    user = created now dto s;
    stored = row-save_self users s.users (created now dto s);
    others = λ k other.
        ground
          (arith, users.row-save s.users (created now dto s) k, eq_iff (users.generate s.users) k);
    was_free = users.row-generate s.users;
    email = refl;
    username = refl;
    no_secret = refl;
    no_codes = refl;
    role = refl;
    password = argon.verify-hash s.seed dto.password;
    location = refl;
    two_factor = refl;
    shown = refl;
    not_admin = λ e. ground arith;
    email_free = λ k u row e. ground (
      arith,
      users.find_one_complete s.users (λ u. u.email == dto.email) k u free row,
      eq_iff u.email dto.email,
    );
  }

  -- A registration that throws changes nothing. One that returns was for a role other than ADMIN and
  -- an address that no account had: it stores one new account, with 2FA off and a hash that the
  -- password verifies against, changes no other, and shows it without its secrets.
  pub register_effect :
      (now : ℕ) (dto : RegisterDto) (s : Session U R)
      → let (r, s') = register users redis jwt argon otp random box now dto s in
        ((e : HttpError) → r ≡ err e → s' ≡ s)
        × ((view : PublicUser) → r ≡ ok view → IsRegistered dto s view s'.users)
  unfolding register
  register_effect now dto s = elim (Bool-cases (includes self_assignable_roles dto.role)) [
    | inr barred ↦ simp barred (λ e h. refl, λ v h. cc)
    | inl allowed ↦ elim (Option-cases (users.find_one (λ u. u.email == dto.email) s.users)) [
      | inr (u, taken) ↦ simp (allowed, taken) (λ e h. refl, λ v h. cc)
      | inl free ↦
          simp (allowed, free)
            (
              λ e h. cc,
              λ v h.
                  subst (λ v. IsRegistered dto s v (users.save (created now dto s) s.users))
                    (ok-injective h) (created-IsRegistered now dto s allowed free),
            )
    ]
  ]

  registered-AreDistinct :
      (dto : RegisterDto) (s : Session U R) (view : PublicUser) (t : U)
      → IsRegistered dto s view t
      → AreDistinct s.users
      → AreDistinct t
  registered-AreDistinct dto s view t reg unique k j u v ku jv e =
      elim (Bool-cases (k == reg.user.id)) [
        | inl k_new ↦ elim (Bool-cases (j == reg.user.id)) [
          | inl j_new ↦ ground (arith, eq_iff k reg.user.id, eq_iff j reg.user.id)
          | inr j_old ↦
              let mine =
                sym ku
                ∙ subst (λ x. users.row t x ≡ some reg.user) (sym ((eq_iff k reg.user.id).0 k_new))
                    reg.stored in
              absurd (
                reg.email_free j v (sym (reg.others j (ne j j_old)) ∙ jv)
                  (sym e ∙ same_email u reg.user mine ∙ reg.email))
        ]
        | inr k_old ↦ elim (Bool-cases (j == reg.user.id)) [
          | inl j_new ↦
              let mine =
                sym jv
                ∙ subst (λ x. users.row t x ≡ some reg.user) (sym ((eq_iff j reg.user.id).0 j_new))
                    reg.stored in
              absurd (
                reg.email_free k u (sym (reg.others k (ne k k_old)) ∙ ku)
                  (e ∙ same_email v reg.user mine ∙ reg.email))
          | inr j_old ↦
              unique k j u v (sym (reg.others k (ne k k_old)) ∙ ku)
                (sym (reg.others j (ne j j_old)) ∙ jv) e
        ]
      ]
    where
      ne : (k : String) → (k == reg.user.id) ≡ false → k ≢ reg.user.id
      ne k h same = ground (arith, eq_iff k reg.user.id)

  -- If no two accounts share an address, none do after a registration, whether it returns or throws.
  pub register-HasUniqueEmails :
      (now : ℕ) (dto : RegisterDto) (s : Session U R)
      → HasUniqueEmails s.users
      → HasUniqueEmails (register users redis jwt argon otp random box now dto s).1.users
  register-HasUniqueEmails now dto s unique =
      let (refused, returned) = register_effect now dto s in
      elim (Result-cases (register users redis jwt argon otp random box now dto s).0) [
        | inl (view, h) ↦ record {
          distinct = registered-AreDistinct dto s view _ (returned view h) unique.distinct;
        }
        | inr (e, h) ↦ rw (refused e h) unique
      ]
