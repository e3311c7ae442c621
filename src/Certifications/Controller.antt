-- ===== src/Certifications/Controller.antt =====
-- backend-core/src/certifications/certification.controller.ts: the routes of the certificates behind
-- their guards. A path parameter has passed its pipe, a body or a query its validation, and a file the
-- limit of the reading of the form.
pub mod Permitted
mod Examples
use skillhunt.Common.{ℕ, String, Option, some, List, [], ◌∷◌, Exec, Result, ok, err}
use skillhunt.Enums.{UserRole, freelance, admin}
use skillhunt.Entities.{Certification, certification_id}
use skillhunt.Store.{Repository}
use skillhunt.Storage.{StorageService}
use skillhunt.External.{Random, Jwt}
use skillhunt.Auth.Guards.{JwtPayload, AuthHeader, enter}
use skillhunt.Gear.Controller.{answer}
use skillhunt.Certifications.{
  Archive, Host, UploadCertificationDto, QueryCertificationDto, ReviewCertificationDto,
  UploadedFile, PublicCertification, PaginatedCertifications, upload_certification,
  get_my_certifications, list_pending_for_validation, get_document_url, review_certification,
}

-- A request: its route with what the client sent, and the times at which the service reads the clock.
pub data CertificationRoute : Type 0 where
  upload : ℕ → UploadCertificationDto → Option UploadedFile → CertificationRoute
  get_mine : QueryCertificationDto → CertificationRoute
  get_pending : QueryCertificationDto → CertificationRoute
  get_document : String → CertificationRoute
  review : ℕ → ℕ → String → ReviewCertificationDto → CertificationRoute

-- `@Roles(…)`
abbrev pub roles_of : CertificationRoute → UserRole × List UserRole
roles_of (upload now dto file) = (freelance, [])
roles_of (get_mine query) = (freelance, [])
roles_of (get_pending query) = (admin, [])
roles_of (get_document id) = (freelance, admin ∷ [])
roles_of (review reviewed_at purged_at id dto) = (admin, [])

pub data CertificationAnswer : Type 0 where
  certificate : PublicCertification → CertificationAnswer
  certificates : PaginatedCertifications → CertificationAnswer
  address : String → CertificationAnswer

module _ {C S : Type 0} (certs : Repository Certification certification_id C)
    (storage : StorageService S) (random : Random) (host : Host) where
  -- The methods of the controller, by route: the identity is always the token's.
  abbrev pub dispatch : CertificationRoute → JwtPayload → Exec (Archive C S) CertificationAnswer
  dispatch (upload now dto file) user =
      answer certificate (upload_certification certs storage random host now user.user_id dto file)
  dispatch (get_mine query) user =
      answer certificates (get_my_certifications certs storage random host user.user_id query)
  dispatch (get_pending query) user =
      answer certificates (list_pending_for_validation certs storage random host query)
  dispatch (get_document id) user =
      answer address (get_document_url certs storage random host id user)
  dispatch (review reviewed_at purged_at id dto) user =
      answer certificate
        (review_certification certs storage random host reviewed_at purged_at id dto)

  abbrev pub guarded :
      CertificationRoute → Result JwtPayload → Exec (Archive C S) CertificationAnswer
  guarded route (err e) s = (err e, s)
  guarded route (ok user) s = dispatch route user s

  unfoldable pub serve_certificates :
      {T : Type 0}
      → Jwt T
      → ℕ
      → AuthHeader T
      → CertificationRoute
      → Exec (Archive C S) CertificationAnswer
  serve_certificates jwt now header route =
      let (role, roles) = roles_of route in
      guarded route (enter jwt now (some (role ∷ roles)) header)
