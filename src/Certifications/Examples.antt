-- ===== src/Certifications/Examples.antt =====
-- The certification service on a table and a store in memory.
use skillhunt.Common.{List, ◌≡◌, Option, none, some, [], ◌∷◌, ok, err, HttpError, string_eq}
use skillhunt.Enums.{freelance, CertificationStatus, dgac_drone}
use skillhunt.Entities.{Certification, certification_id}
use skillhunt.Store.{Repository}
use skillhunt.Store.Table
use skillhunt.Store.Table.{Table, repository, empty}
use skillhunt.Storage.{StorageService}
use skillhunt.Storage.Fake.{FakeStorage, fake}
use skillhunt.Auth.Guards.{JwtPayload}
use skillhunt.External.Plain.{random, marks}
use skillhunt.Certifications.{
  Archive, Host, UploadCertificationDto, ReviewCertificationDto, UploadedFile, PublicCertification,
  review_certification,
}
use skillhunt.Certifications.Review.{IsDecided, review_purges}
use skillhunt.Certifications.Fraud.{HasNoSharedNumber}
use skillhunt.Certifications.Requests.{
  CertificationRequest, uploads, reviews, serve, serve-HasNoSharedNumber,
}

abbrev certs : Repository Certification certification_id (Table Certification certification_id)
certs = repository certification_id

abbrev storage : StorageService FakeStorage
storage = fake (λ key. key) marks

abbrev host : Host
host = record {
  strip_pdf = λ bytes. some bytes;
  date_only = λ date. "2027-12-31";
  text = marks;
  max_file_mb = 5;
  signed_url_ttl = 900;
}

abbrev diploma : Certification
diploma = record {
  id = "c1";
  type = dgac_drone;
  number = "FR-1";
  valid_until = "2027-12-31";
  status = CertificationStatus.pending;
  s3_key = some "k1";
  mime_type = "application/pdf";
  uploaded_at = 0;
  reviewed_at = none;
  purged_at = none;
  freelance_id = "ann";
}

abbrev archive : Archive (Table Certification certification_id) FakeStorage
archive = record {
  certs = Table.save certification_id diploma (empty certification_id);
  storage =
      λ key. some (record { body = 37 ∷ 80 ∷ 68 ∷ 70 ∷ []; content_type = "application/pdf" });
  seed = 0;
}

abbrev no_archive : Archive (Table Certification certification_id) FakeStorage
no_archive = record { certs = empty certification_id; storage = λ key. none; seed = 0 }

abbrev verdict : ReviewCertificationDto
verdict = record { decision = CertificationStatus.validated; valid_until = none }

abbrev upload : UploadCertificationDto
upload = record { type = dgac_drone; number = "FR-1"; valid_until = 7 }

abbrev file : Option UploadedFile
file = some (record { buffer = some (37 ∷ 80 ∷ 68 ∷ 70 ∷ []); size = 4 })

abbrev ann : JwtPayload
ann = record { user_id = "ann"; email = some "ann@example.org"; role = some freelance }

review_purges_example :
    let (r, s') = review_certification certs storage random host 5 6 "c1" verdict archive in
    ((e : HttpError) → r ≡ err e → s'.certs ≡ archive.certs)
    × ((view : PublicCertification)
        → r ≡ ok view
        → IsDecided certs storage random host 5 6 "c1" verdict archive view s')
review_purges_example = review_purges certs storage random host 5 6 "c1" verdict archive

-- An upload, its validation, and the same number by another account.
abbrev requests : List CertificationRequest
requests = uploads 5 "ann" upload file ∷ reviews 5 6 "c1" verdict ∷ uploads 7 "bob" upload file ∷ []

serve-HasNoSharedNumber_example :
    HasNoSharedNumber certs storage random host
      (serve certs storage random host requests no_archive).certs
serve-HasNoSharedNumber_example =
    serve-HasNoSharedNumber certs storage random host requests no_archive
      (record { exclusive = λ k j a b ka. cc })
