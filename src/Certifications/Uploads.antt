-- ===== src/Certifications/Uploads.antt =====
-- What an upload of certification.service.ts leaves of the table of certificates.
use skillhunt.Common.{
  ℕ, ◌≡◌, ◌⊎◌, refl, String, Option, List, ltb, ◌*◌, inl, inr, Bool-cases, Option-cases,
}
use skillhunt.Entities.{Certification, certification_id}
use skillhunt.Store.{Repository}
use skillhunt.Storage.{StorageService}
use skillhunt.External.{Random}
use skillhunt.Certifications.{
  Archive, Host, UploadCertificationDto, UploadedFile, buffer_of, size_of, is_pdf, is_duplicate,
  declared, s3_key_of, upload_certification, store_certification,
}

module _ {C S : Type 0} (certs : Repository Certification certification_id C)
    (storage : StorageService S) (random : Random) (host : Host) where
  -- The table stays as it was, or has the row of the upload under some id.
  abbrev pub Stored : ℕ → String → UploadCertificationDto → Archive C S → Archive C S → Type 0
  Stored now f dto s s' =
      (s'.certs ≡ s.certs)
      ⊎ ((id : String) × (s'.certs
            ≡ certs.save (declared certs storage random host now f dto id) s.certs))

  store-Stored :
      (now : ℕ) (f : String) (dto : UploadCertificationDto) (buffer : List ℕ) (s : Archive C S)
      → Stored now f dto s (store_certification certs storage random host now f dto buffer s).1
  unfolding store_certification
  store-Stored now f dto buffer s = elim (Option-cases (host.strip_pdf buffer)) [
    | inl e ↦ simp e (inl refl)
    | inr (cleaned, e) ↦
        elim (Bool-cases
          (storage.put (s3_key_of f (random.uuid s.seed)) cleaned "application/pdf" s.storage).0) [
            | inr failed ↦ simp (e, failed) (inl refl)
            | inl kept ↦ simp (e, kept) (inr (random.uuid s.seed, refl))
          ]
  ]

  pub upload-Stored :
      (now : ℕ) (f : String) (dto : UploadCertificationDto) (file : Option UploadedFile)
      (s : Archive C S)
      → Stored now f dto s (upload_certification certs storage random host now f dto file s).1
  unfolding upload_certification
  upload-Stored now f dto file s = elim (Option-cases (buffer_of file)) [
    | inl e ↦ simp e (inl refl)
    | inr (buffer, e) ↦ elim (Bool-cases (ltb (host.max_file_mb * 1024 * 1024) (size_of file))) [
      | inl large ↦ simp (e, large) (inl refl)
      | inr small ↦ elim (Bool-cases (is_pdf buffer)) [
        | inr other ↦ simp (e, small, other) (inl refl)
        | inl pdf ↦ elim (Option-cases (certs.find_one (is_duplicate f dto) s.certs)) [
          | inr (c, taken) ↦ simp (e, small, pdf, taken) (inl refl)
          | inl free ↦ simp (e, small, pdf, free) (store-Stored now f dto buffer s)
        ]
      ]
    ]
  ]
