-- ===== src/Certifications/Requests.antt =====
-- Uploads and reviews of certification.service.ts, in any order.
use skillhunt.Common.{ℕ, String, Option, List, [], ◌∷◌}
use skillhunt.Entities.{Certification, certification_id}
use skillhunt.Store.{Repository}
use skillhunt.Storage.{StorageService}
use skillhunt.External.{Random}
use skillhunt.Certifications.{
  Archive, Host, UploadCertificationDto, UploadedFile, ReviewCertificationDto, upload_certification,
  review_certification,
}
use skillhunt.Certifications.Fraud.{
  HasNoSharedNumber, upload-HasNoSharedNumber, review-HasNoSharedNumber,
}

-- A request that writes, with its times and the identity of the token.
pub data CertificationRequest : Type 0 where
  uploads : ℕ → String → UploadCertificationDto → Option UploadedFile → CertificationRequest
  reviews : ℕ → ℕ → String → ReviewCertificationDto → CertificationRequest

module _ {C S : Type 0} (certs : Repository Certification certification_id C)
    (storage : StorageService S) (random : Random) (host : Host) where
  abbrev pub handle : CertificationRequest → Archive C S → Archive C S
  handle (uploads now f dto file) s =
      (upload_certification certs storage random host now f dto file s).1
  handle (reviews t p id dto) s = (review_certification certs storage random host t p id dto s).1

  abbrev pub serve : List CertificationRequest → Archive C S → Archive C S
  serve [] s = s
  serve (r ∷ rs) s = serve rs (handle r s)

  handle-HasNoSharedNumber :
      (r : CertificationRequest) (s : Archive C S)
      → HasNoSharedNumber certs storage random host s.certs
      → HasNoSharedNumber certs storage random host (handle r s).certs
  handle-HasNoSharedNumber (uploads now f dto file) s v =
      upload-HasNoSharedNumber certs storage random host now f dto file s v
  handle-HasNoSharedNumber (reviews t p id dto) s v =
      review-HasNoSharedNumber certs storage random host t p id dto s v

  -- If no pending or validated certificate is declared by two accounts, the same holds after any
  -- uploads and reviews one after the other, whether they return or throw.
  pub serve-HasNoSharedNumber :
      (rs : List CertificationRequest) (s : Archive C S)
      → HasNoSharedNumber certs storage random host s.certs
      → HasNoSharedNumber certs storage random host (serve rs s).certs
  serve-HasNoSharedNumber [] s v = v
  serve-HasNoSharedNumber (r ∷ rs) s v =
      serve-HasNoSharedNumber rs (handle r s) (handle-HasNoSharedNumber r s v)
