-- ===== src/Certifications/Controller/Permitted.antt =====
-- What a request to certification.controller.ts may write and read.
use skillhunt.Common.{
  ℕ, ◌≡◌, ◌⊎◌, refl, ap, ◌∙◌, String, Option, some, ◌∷◌, ◌==◌, string_eq, eq_iff, ok, err, Result,
  inl, inr, Bool-cases, Result-cases, ok-injective, ◌≢◌,
}
use skillhunt.Enums.{CertificationStatus}
use skillhunt.Entities.{Certification, certification_id}
use skillhunt.Store.{Repository}
use skillhunt.Storage.{StorageService}
use skillhunt.External.{Random, Jwt}
use skillhunt.Auth.Guards.{JwtPayload, AuthHeader, enter}
use skillhunt.Auth.Guards.Access.{IsEntered, enter-IsEntered}
use skillhunt.Gear.Controller.{map_ok}
use skillhunt.Certifications.{
  Archive, Host, UploadCertificationDto, UploadedFile, ReviewCertificationDto, declared,
  upload_certification, get_my_certifications, list_pending_for_validation, get_document_url,
  review_certification,
}
use skillhunt.Certifications.Uploads.{Stored, upload-Stored}
use skillhunt.Certifications.Review.{review_purges}
use skillhunt.Certifications.Access.{IsGranted, get_document_url-IsGranted}
use skillhunt.Certifications.Controller.{
  CertificationRoute, CertificationAnswer, upload, get_mine, get_pending, get_document, review,
  certificate, address, roles_of, dispatch, serve_certificates,
}

-- Which row a request may write: an upload, a pending one of the caller; a review, the named one.
abbrev pub MayWrite : CertificationRoute → JwtPayload → String → Option Certification → Type 0
MayWrite (upload now dto file) user k row =
    (c : Certification) × (row ≡ some c)
    × (c.freelance_id ≡ user.user_id)
    × (c.status ≡ CertificationStatus.pending)
MayWrite (get_mine query) user k row = ⊥
MayWrite (get_pending query) user k row = ⊥
MayWrite (get_document id) user k row = ⊥
MayWrite (review reviewed_at purged_at id dto) user k row = id ≡ k

module _ {C S : Type 0} (certs : Repository Certification certification_id C)
    (storage : StorageService S) (random : Random) (host : Host) where
  pub record IsPermitted (route : CertificationRoute) (user : JwtPayload) (s : Archive C S)
      (r : Result CertificationAnswer) (s' : Archive C S) : Type 0 where
    pub rows :
        (k : String)
        → (certs.row s'.certs k ≡ certs.row s.certs k)
          ⊎ MayWrite route user k (certs.row s'.certs k)
    pub granted :
        (url : String)
        → r ≡ ok (address url)
        → (id : String) × (route ≡ get_document id)
          × IsGranted certs storage random host id user s url

  -- A route whose answers are no addresses.
  no_address :
      {A : Type 0} (f : A → CertificationAnswer) (url : String)
      → ((a : A) → f a ≢ address url)
      → (r : Result A) → map_ok f r ≢ ok (address url)
  no_address f url differs (ok a) h = differs a (ok-injective h)
  no_address f url differs (err e) h = cc

  saved-MayWrite :
      (now : ℕ) (dto : UploadCertificationDto) (file : Option UploadedFile) (user : JwtPayload)
      (s s' : Archive C S)
      → Stored certs storage random host now user.user_id dto s s'
      → (k : String)
      → (certs.row s'.certs k ≡ certs.row s.certs k)
        ⊎ MayWrite (upload now dto file) user k (certs.row s'.certs k)
  saved-MayWrite now dto file user s s' (inl same) k = inl (ap (λ t. certs.row t k) same)
  saved-MayWrite now dto file user s s' (inr (id, saved)) k =
      let new = declared certs storage random host now user.user_id dto id in
      let after = ap (λ t. certs.row t k) saved ∙ certs.row-save s.certs new k in
      elim (Bool-cases (id == k)) [
        | inl e ↦ inr (new, after ∙ simp e refl, refl, refl)
        | inr e ↦ inl (after ∙ simp e refl)
      ]

  upload-IsPermitted :
      (now : ℕ) (dto : UploadCertificationDto) (file : Option UploadedFile) (user : JwtPayload)
      (s : Archive C S)
      → let (r, s') = upload_certification certs storage random host now user.user_id dto file s in
        IsPermitted (upload now dto file) user s (map_ok certificate r) s'
  upload-IsPermitted now dto file user s =
      let result = upload_certification certs storage random host now user.user_id dto file s in
      record {
        rows =
            saved-MayWrite now dto file user s result.1
              (upload-Stored certs storage random host now user.user_id dto file s);
        granted = λ url h. absurd (no_address certificate url (λ a e. cc) result.0 h);
      }

  review-IsPermitted :
      (t p : ℕ) (id : String) (dto : ReviewCertificationDto) (user : JwtPayload) (s : Archive C S)
      → let (r, s') = review_certification certs storage random host t p id dto s in
        IsPermitted (review t p id dto) user s (map_ok certificate r) s'
  review-IsPermitted t p id dto user s =
      let result = review_certification certs storage random host t p id dto s in
      let (thrown, decided) = review_purges certs storage random host t p id dto s in
      record {
        rows = λ k. elim (Result-cases result.0) [
          | inr (e, h) ↦ inl (ap (λ t. certs.row t k) (thrown e h))
          | inl (view, h) ↦ elim (Bool-cases (id == k)) [
            | inl here ↦ inr ((eq_iff id k).0 here)
            | inr there ↦ inl ((decided view h).rows k ∙ simp there refl)
          ]
        ];
        granted = λ url h. absurd (no_address certificate url (λ a e. cc) result.0 h);
      }

  -- A route that only reads.
  read-IsPermitted :
      (route : CertificationRoute) (user : JwtPayload) (s : Archive C S)
      (r : Result CertificationAnswer)
      → ((url : String) → r ≢ ok (address url))
      → IsPermitted route user s r s
  read-IsPermitted route user s r differs = record {
    rows = λ k. inl refl;
    granted = λ url h. absurd (differs url h);
  }

  document-IsPermitted :
      (id : String) (user : JwtPayload) (s : Archive C S)
      → let (r, s') = get_document_url certs storage random host id user s in
        IsPermitted (get_document id) user s (map_ok address r) s'
  document-IsPermitted id user s =
      let result = get_document_url certs storage random host id user s in
      let (same, granted) = get_document_url-IsGranted certs storage random host id user s in
      record {
        rows = λ k. inl (ap (λ t. certs.row t.certs k) same);
        granted = λ url h. (id, refl, granted url (addressed url result.0 h));
      }
    where
      addressed :
          (url : String) (r : Result String) → map_ok address r ≡ ok (address url) → r ≡ ok url
      addressed url (ok a) h = cc
      addressed url (err e) h = cc

  dispatch-IsPermitted :
      (route : CertificationRoute) (user : JwtPayload) (s : Archive C S)
      → let (r, s') = dispatch certs storage random host route user s in
        IsPermitted route user s r s'
  unfolding get_my_certifications list_pending_for_validation
  dispatch-IsPermitted (upload now dto file) user s = upload-IsPermitted now dto file user s
  dispatch-IsPermitted (get_mine query) user s =
      read-IsPermitted (get_mine query) user s _ (λ url e. cc)
  dispatch-IsPermitted (get_pending query) user s =
      read-IsPermitted (get_pending query) user s _ (λ url e. cc)
  dispatch-IsPermitted (get_document id) user s = document-IsPermitted id user s
  dispatch-IsPermitted (review t p id dto) user s = review-IsPermitted t p id dto user s

  -- A request to the certificates changes nothing and gives no address, or it carries a valid access
  -- token of a role that its route requires. Then an upload writes at most a pending row of the caller,
  -- a review at most the named row, the other routes none; and an address is only given for the named
  -- document, to a freelance only for one of their own.
  pub serve_certificates-IsPermitted :
      {T : Type 0} (jwt : Jwt T) (now : ℕ) (header : AuthHeader T) (route : CertificationRoute)
      (s : Archive C S)
      → let (r, s') = serve_certificates certs storage random host jwt now header route s in
        ((s' ≡ s) × ((url : String) → r ≢ ok (address url)))
        ⊎ ((user : JwtPayload) × IsEntered jwt now
              ((roles_of route).0 ∷ (roles_of route).1)
              header
              user
            × IsPermitted route user s r s')
  unfolding serve_certificates
  serve_certificates-IsPermitted jwt now header route s =
      elim (Result-cases (enter jwt now (some ((roles_of route).0 ∷ (roles_of route).1)) header)) [
        | inr (e, h) ↦ inl (simp h (refl, λ url k. cc))
        | inl (user, h) ↦ inr (
          user,
          enter-IsEntered jwt now (roles_of route).0 (roles_of route).1 header user h,
          simp h (dispatch-IsPermitted route user s),
        )
      ]
