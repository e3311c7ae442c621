-- ===== src/Certifications.antt =====
-- backend-core/src/certifications/certification.service.ts: upload of a document, its listings, the
-- access to it and the admin's decision, which purges it. pdf-lib, `Date` and the settings of the
-- environment are parameters.
pub mod Review
pub mod Fraud
pub mod Requests
pub mod Access
pub mod Uploads
pub mod Controller
mod Examples
use Prim.Native.String
use skillhunt.Common.{
  ℕ, suc, ◌-◌, ◌*◌, String, Bool, true, false, not, ◌&&◌, ◌||◌, Option, none, some, List, [], ◌∷◌,
  map, ltb, if◌then◌else◌, ◌==◌, string_eq, nat_eq, Exec, ok, err, not_found, bad_request, conflict,
  forbidden, internal, ◌>>=◌, ◌>>◌, pure, gets, modify, throw_if, require, truthy,
}
use skillhunt.Enums.{
  UserRole, freelance, role_eq, CertificationStatus, CertificationType, certification_status_eq,
  certification_type_eq,
}
use skillhunt.Entities.{Certification, certification_id}
use skillhunt.Store.{Repository}
use skillhunt.Storage.{StorageService}
use skillhunt.External.{Random}
use skillhunt.Auth.Guards.{JwtPayload}

pub record PublicCertification : Type 0 where
  pub id : String
  pub freelance_id : String
  pub type : CertificationType
  pub number : String
  pub valid_until : String
  pub status : CertificationStatus
  pub mime_type : String
  pub uploaded_at : ℕ
  pub reviewed_at : Option ℕ
  pub purged_at : Option ℕ

pub record PaginatedCertifications : Type 0 where
  pub items : List PublicCertification
  pub total : ℕ
  pub page : ℕ
  pub limit : ℕ

-- A date is a number of milliseconds.
pub record UploadCertificationDto : Type 0 where
  pub type : CertificationType
  pub number : String
  pub valid_until : ℕ

pub record ReviewCertificationDto : Type 0 where
  pub decision : CertificationStatus
  pub valid_until : Option ℕ

pub record QueryCertificationDto : Type 0 where
  pub status : Option CertificationStatus
  pub page : ℕ
  pub limit : ℕ

-- `Express.Multer.File`: the bytes, if any, and the size that it declares.
pub record UploadedFile : Type 0 where
  pub buffer : Option (List ℕ)
  pub size : ℕ

-- What is not part of the repository: pdf-lib's rewriting, which may throw (`none`),
-- `toISOString().slice(0, 10)`, a number as text, and the two settings.
pub record Host : Type 0 where
  pub strip_pdf : List ℕ → Option (List ℕ)
  pub date_only : ℕ → String
  pub text : ℕ → String
  pub max_file_mb : ℕ
  pub signed_url_ttl : ℕ

pub record Archive (C S : Type 0) : Type 0 where
  pub certs : C
  pub storage : S
  pub seed : ℕ

-- `%PDF`
abbrev pub is_pdf : List ℕ → Bool
is_pdf [] = false
is_pdf (a ∷ []) = false
is_pdf (a ∷ b ∷ []) = false
is_pdf (a ∷ b ∷ c ∷ []) = false
is_pdf (a ∷ b ∷ c ∷ d ∷ bytes) = a == 37 && b == 80 && c == 68 && d == 70

-- `file?.buffer`
abbrev pub buffer_of : Option UploadedFile → Option (List ℕ)
buffer_of none = none
buffer_of (some file) = file.buffer

abbrev pub size_of : Option UploadedFile → ℕ
size_of none = 0
size_of (some file) = file.size

-- `In([CertificationStatus.PENDING, CertificationStatus.VALIDATED])`
abbrev pub is_active : CertificationStatus → Bool
is_active CertificationStatus.pending = true
is_active CertificationStatus.validated = true
is_active CertificationStatus.rejected = false

-- The search for a declaration of the same certificate by another account.
abbrev pub is_duplicate : String → UploadCertificationDto → Certification → Bool
is_duplicate freelance_id dto c =
    c.type == dto.type
    && c.number == dto.number
    && is_active c.status
    && not (c.freelance_id == freelance_id)

abbrev pub exists : Option Certification → Bool
exists none = false
exists (some c) = true

abbrev pub s3_key_of : String → String → String
s3_key_of freelance_id id =
    String.◌++◌ "private/certifications/"
      (String.◌++◌ freelance_id (String.◌++◌ "/" (String.◌++◌ id ".pdf")))

unfoldable pub to_public : Certification → PublicCertification
to_public cert = record {
  id = cert.id;
  freelance_id = cert.freelance_id;
  type = cert.type;
  number = cert.number;
  valid_until = cert.valid_until;
  status = cert.status;
  mime_type = cert.mime_type;
  uploaded_at = cert.uploaded_at;
  reviewed_at = cert.reviewed_at;
  purged_at = cert.purged_at;
}

abbrev pub status_matches : Option CertificationStatus → Certification → Bool
status_matches none c = true
status_matches (some status) c = c.status == status

-- `order: { uploadedAt: 'DESC' }`
abbrev pub latest_first : Certification → Certification → Bool
latest_first a b = not (ltb a.uploaded_at b.uploaded_at)

abbrev pub is_freelance : Option UserRole → Bool
is_freelance none = false
is_freelance (some role) = role == freelance

-- `user.role === UserRole.FREELANCE && cert.freelanceId !== user.userId`
abbrev pub is_foreign : JwtPayload → Certification → Bool
is_foreign user cert = is_freelance user.role && not (cert.freelance_id == user.user_id)

module _ {C S : Type 0} (certs : Repository Certification certification_id C)
    (storage : StorageService S) (random : Random) (host : Host) where
  abbrev pub stripped : List ℕ → Exec (Archive C S) (List ℕ)
  stripped buffer = require (host.strip_pdf buffer) (bad_request "PDF illisible ou corrompu")

  abbrev pub draw : Exec (Archive C S) ℕ
  draw s = (ok s.seed, record s { seed = suc s.seed })

  -- A call of the port that rejects throws out of the method.
  abbrev pub put : String → List ℕ → Exec (Archive C S) (Unit {0})
  put key body s =
      let (resolved, storage') = storage.put key body "application/pdf" s.storage in
      ((if resolved then ok tt else err (internal "storage")), record s { storage = storage' })

  abbrev pub delete : String → Exec (Archive C S) (Unit {0})
  delete key s =
      let (resolved, storage') = storage.delete key s.storage in
      ((if resolved then ok tt else err (internal "storage")), record s { storage = storage' })

  -- The row that an upload inserts.
  abbrev pub declared : ℕ → String → UploadCertificationDto → String → Certification
  declared now freelance_id dto id = record {
    id = id;
    type = dto.type;
    number = dto.number;
    valid_until = host.date_only dto.valid_until;
    status = CertificationStatus.pending;
    s3_key = some (s3_key_of freelance_id id);
    mime_type = "application/pdf";
    uploaded_at = now;
    reviewed_at = none;
    purged_at = none;
    freelance_id = freelance_id;
  }

  -- From the rewriting of the document on.
  pub store_certification :
      ℕ → String → UploadCertificationDto → List ℕ → Exec (Archive C S) PublicCertification
  store_certification now freelance_id dto buffer = do
    cleaned ← stripped buffer
    drawn ← draw
    let id = random.uuid drawn
    put (s3_key_of freelance_id id) cleaned
    modify (λ s. record s { certs = certs.save (declared now freelance_id dto id) s.certs })
    pure (to_public (declared now freelance_id dto id))

  pub upload_certification :
      ℕ
      → String
      → UploadCertificationDto
      → Option UploadedFile
      → Exec (Archive C S) PublicCertification
  upload_certification now freelance_id dto file = do
    buffer ← require (buffer_of file) (bad_request "Fichier manquant")
    throw_if (ltb (host.max_file_mb * 1024 * 1024) (size_of file)) (
        bad_request (
          String.◌++◌ "Fichier trop volumineux (maximum "
            (String.◌++◌ (host.text host.max_file_mb) " Mo)")))
    throw_if (not (is_pdf buffer)) (bad_request "Format non supporté : un PDF est attendu")
    duplicate ← gets (λ s. certs.find_one (is_duplicate freelance_id dto) s.certs)
    throw_if (exists duplicate)
        (conflict "Ce numéro de brevet est déjà déclaré sur un autre compte")
    store_certification now freelance_id dto buffer

  pub paginate : (Certification → Bool) → ℕ → ℕ → Archive C S → PaginatedCertifications
  paginate where_ page limit s =
      let (rows, total) =
        certs.find_and_count where_ latest_first ((page - 1) * limit) limit s.certs in
      record { items = map to_public rows; total = total; page = page; limit = limit }

  pub get_my_certifications :
      String → QueryCertificationDto → Exec (Archive C S) PaginatedCertifications
  get_my_certifications freelance_id query = gets (
      paginate (λ c. c.freelance_id == freelance_id && status_matches query.status c) query.page
        query.limit)

  pub list_pending_for_validation :
      QueryCertificationDto → Exec (Archive C S) PaginatedCertifications
  list_pending_for_validation query =
      gets (paginate (λ c. c.status == CertificationStatus.pending) query.page query.limit)

  pub get_document_url : String → JwtPayload → Exec (Archive C S) String
  get_document_url cert_id user = do
    found ← gets (λ s. certs.find_one (λ c. c.id == cert_id) s.certs)
    cert ← require found (not_found "Certification introuvable")
    throw_if (is_foreign user cert) (forbidden "Accès refusé à ce document")
    key ←
        require (truthy cert.s3_key) (not_found "Document indisponible (purgé après vérification)")
    url ← gets (λ s. storage.get_signed_url key host.signed_url_ttl s.storage)
    require url (internal "storage")

  -- The fields that a decision sets, before the purge.
  abbrev pub decided : ℕ → ReviewCertificationDto → Certification → Certification
  decided reviewed_at dto cert = record cert {
    status = dto.decision;
    reviewed_at = some reviewed_at;
    valid_until = elim dto.valid_until [
      | none ↦ cert.valid_until
      | some date ↦ host.date_only date
    ];
  }

  -- `if (cert.s3Key) { … }`
  abbrev pub purge : ℕ → Certification → Option String → Exec (Archive C S) Certification
  purge now cert none = pure cert
  purge now cert (some key) = do
    delete key
    pure (record cert { s3_key = none; purged_at = some now })

  abbrev pub finish_review : Certification → Exec (Archive C S) PublicCertification
  finish_review cert = do
    modify (λ s. record s { certs = certs.save cert s.certs })
    pure (to_public cert)

  -- The two readings of the clock are arguments.
  pub review_certification :
      ℕ → ℕ → String → ReviewCertificationDto → Exec (Archive C S) PublicCertification
  review_certification reviewed_at purged_at cert_id dto = do
    found ← gets (λ s. certs.find_one (λ c. c.id == cert_id) s.certs)
    cert ← require found (not_found "Certification introuvable")
    throw_if (not (cert.status == CertificationStatus.pending))
        (conflict "Cette certification a déjà été traitée")
    purged ← purge purged_at (decided reviewed_at dto cert) (truthy cert.s3_key)
    finish_review purged
