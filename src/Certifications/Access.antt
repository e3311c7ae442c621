-- ===== src/Certifications/Access.antt =====
-- Who reads a document of certification.service.ts.
use skillhunt.Common.{
  ◌≡◌, refl, String, false, some, ◌==◌, string_eq, eq_iff, arith, ok, Option-cases, Bool-cases, inl,
  inr, subst, truthy, ok-injective,
}
use skillhunt.Enums.{freelance, role_eq}
use skillhunt.Entities.{Certification, certification_id}
use skillhunt.Store.{Repository}
use skillhunt.Storage.{StorageService}
use skillhunt.External.{Random}
use skillhunt.Auth.Guards.{JwtPayload}
use skillhunt.Certifications.{Archive, Host, is_foreign, get_document_url}

module _ {C S : Type 0} (certs : Repository Certification certification_id C)
    (storage : StorageService S) (random : Random) (host : Host) where
  -- What a returned address stands for.
  pub record IsGranted (id : String) (user : JwtPayload) (s : Archive C S) (url : String)
      : Type 0 where
    pub cert : Certification
    pub key : String
    pub stored : certs.row s.certs id ≡ some cert
    pub own : user.role ≡ some freelance → cert.freelance_id ≡ user.user_id
    pub has_document : truthy cert.s3_key ≡ some key
    pub signed : storage.get_signed_url key host.signed_url_ttl s.storage ≡ some url

  granted :
      (id : String) (user : JwtPayload) (s : Archive C S) (url key : String) (c : Certification)
      → certs.find_one (λ c. c.id == id) s.certs ≡ some c
      → is_foreign user c ≡ false
      → truthy c.s3_key ≡ some key
      → storage.get_signed_url key host.signed_url_ttl s.storage ≡ some url
      → IsGranted id user s url
  granted id user s url key c found own held signed =
      let (meets, stored) = certs.find_one_sound s.certs _ c found in
      record {
        cert = c;
        key = key;
        stored = subst (λ k. certs.row s.certs k ≡ some c) ((eq_iff c.id id).0 meets) stored;
        own = λ e. let k = rw e at own in ground (arith, eq_iff c.freelance_id user.user_id);
        has_document = held;
        signed = signed;
      }

  -- Asking for a document changes nothing. An address is given only for the document of a stored
  -- certification, to a freelance only for one of their own, and expires after the set time.
  pub get_document_url-IsGranted :
      (id : String) (user : JwtPayload) (s : Archive C S)
      → let (r, s') = get_document_url certs storage random host id user s in
        (s' ≡ s) × ((url : String) → r ≡ ok url → IsGranted id user s url)
  unfolding get_document_url
  get_document_url-IsGranted id user s =
      elim (Option-cases (certs.find_one (λ c. c.id == id) s.certs)) [
        | inl e ↦ simp e (refl, λ u h. cc)
        | inr (c, found) ↦ elim (Bool-cases (is_foreign user c)) [
          | inl foreign ↦ simp (found, foreign) (refl, λ u h. cc)
          | inr own ↦ elim (Option-cases (truthy c.s3_key)) [
            | inl purged ↦ simp (found, own, purged) (refl, λ u h. cc)
            | inr (key, held) ↦
                elim (Option-cases (storage.get_signed_url key host.signed_url_ttl s.storage)) [
                  | inl failed ↦ simp (found, own, held, failed) (refl, λ u h. cc)
                  | inr (url, signed) ↦
                      simp (found, own, held, signed)
                        (
                          refl,
                          λ u h.
                              subst (λ u. IsGranted id user s u) (ok-injective h)
                                (granted id user s url key c found own held signed),
                        )
                ]
          ]
        ]
      ]
