-- ===== src/Certifications/Controller/Examples.antt =====
-- The routes of the certificates on a table and a store in memory.
use skillhunt.Common.{◌≡◌, ◌≢◌, ◌⊎◌, refl, String, none, some, [], ◌∷◌, ok, err, forbidden}
use skillhunt.Enums.{freelance, admin, CertificationStatus, dgac_drone}
use skillhunt.Entities.{Certification, certification_id}
use skillhunt.Store.Table
use skillhunt.Store.Table.{Table, repository, empty}
use skillhunt.Storage.Fake.{FakeStorage, fake}
use skillhunt.External.Plain.{Ticket, jwt, random, marks}
use skillhunt.Auth.Service.{access_ttl}
use skillhunt.Auth.Guards.{
  JwtPayload, bearer, enter, can_activate, roles_can_activate, roles_message,
}
use skillhunt.Auth.Guards.Access.{IsEntered}
use skillhunt.Certifications.{Archive, Host, get_document_url}
use skillhunt.Certifications.Controller.{get_document, get_pending, address, serve_certificates}
use skillhunt.Certifications.Controller.Permitted.{IsPermitted, serve_certificates-IsPermitted}

abbrev host : Host
host = record {
  strip_pdf = λ bytes. some bytes;
  date_only = λ date. "2027-12-31";
  text = marks;
  max_file_mb = 5;
  signed_url_ttl = 900;
}

abbrev diploma : Certification
diploma = record {
  id = "c1";
  type = dgac_drone;
  number = "FR-1";
  valid_until = "2027-12-31";
  status = CertificationStatus.pending;
  s3_key = some "k1";
  mime_type = "application/pdf";
  uploaded_at = 0;
  reviewed_at = none;
  purged_at = none;
  freelance_id = "ann";
}

abbrev archive : Archive (Table Certification certification_id) FakeStorage
archive = record {
  certs = Table.save certification_id diploma (empty certification_id);
  storage =
      λ key. some (record { body = 37 ∷ 80 ∷ 68 ∷ 70 ∷ []; content_type = "application/pdf" });
  seed = 0;
}

abbrev token_of : String → Ticket
token_of user_id =
    jwt.sign
      (record {
        user_id = user_id;
        email = none;
        role = some freelance;
        type = some "access";
        jti = none;
      })
      access_ttl 0

refused :
    (serve_certificates
      (repository certification_id)
      (fake (λ key. key) marks)
      random
      host
      jwt
      1
      (bearer (token_of "bob"))
      (get_document "c1")
      archive).0
    ≡ err (forbidden "Accès refusé à ce document")
unfolding serve_certificates enter can_activate roles_can_activate get_document_url
refused = refl

queue_is_for_admins :
    (serve_certificates
      (repository certification_id)
      (fake (λ key. key) marks)
      random
      host
      jwt
      1
      (bearer (token_of "ann"))
      (get_pending (record { status = none; page = 1; limit = 20 }))
      archive).0
    ≡ err (forbidden roles_message)
unfolding serve_certificates enter can_activate roles_can_activate
queue_is_for_admins = refl

serve_certificates-IsPermitted_example :
    let (r, s') =
      serve_certificates
        (repository certification_id)
        (fake (λ key. key) marks)
        random
        host
        jwt
        1
        (bearer (token_of "ann"))
        (get_document "c1")
        archive in
    ((s' ≡ archive) × ((url : String) → r ≢ ok (address url)))
    ⊎ ((user : JwtPayload) × IsEntered jwt 1 (freelance ∷ admin ∷ []) (bearer (token_of "ann")) user
        × IsPermitted
            (repository certification_id)
            (fake (λ key. key) marks)
            random
            host
            (get_document "c1")
            user
            archive
            r
            s')
serve_certificates-IsPermitted_example =
    serve_certificates-IsPermitted (repository certification_id) (fake (λ key. key) marks) random
      host jwt 1 (bearer (token_of "ann")) (get_document "c1") archive
