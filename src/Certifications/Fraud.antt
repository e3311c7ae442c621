-- ===== src/Certifications/Fraud.antt =====
-- The anti-fraud rule of certification.service.ts as an invariant of the stored certifications.
use skillhunt.Common.{
  ℕ, ◌≡◌, refl, sym, String, true, Option, none, some, List, ◌==◌, string_eq, eq_iff, arith,
  Option-cases, Bool-cases, Result-cases, inl, inr, ltb, ◌*◌, subst, ◌∙◌, truthy,
}
use skillhunt.Enums.{certification_type_eq, certification_type_beq_iff}
use skillhunt.Entities.{Certification, certification_id}
use skillhunt.Store.{Repository}
use skillhunt.Storage.{StorageService}
use skillhunt.External.{Random}
use skillhunt.Certifications.{
  Archive, Host, UploadCertificationDto, UploadedFile, ReviewCertificationDto, is_active,
  is_duplicate, declared, buffer_of, is_pdf, size_of, upload_certification, store_certification,
  review_certification, s3_key_of, PublicCertification,
}
use skillhunt.Certifications.Review.{IsDecided, review_purges, purged_row}

module _ {C S : Type 0} (certs : Repository Certification certification_id C)
    (storage : StorageService S) (random : Random) (host : Host) where
  abbrev pub AreExclusive : C → Type 0
  AreExclusive t =
      (k j : String) (a b : Certification)
      → certs.row t k ≡ some a
      → certs.row t j ≡ some b
      → a.type ≡ b.type
      → a.number ≡ b.number
      → is_active a.status ≡ true
      → is_active b.status ≡ true
      → a.freelance_id ≡ b.freelance_id

  -- No certificate that is pending or validated is declared by two accounts.
  pub record HasNoSharedNumber (t : C) : Type 0 where
    pub exclusive : AreExclusive t

  -- A row that is put in place of one that was as active, or that nobody else's row meets.
  save-AreExclusive :
      (t : C) (c : Certification)
      → ((k : String) (b : Certification)
          → certs.row t k ≡ some b
          → c.type ≡ b.type
          → c.number ≡ b.number
          → is_active c.status ≡ true
          → is_active b.status ≡ true
          → c.freelance_id ≡ b.freelance_id)
      → AreExclusive t
      → AreExclusive (certs.save c t)
  save-AreExclusive t c alone v k j a b ka jb ty nu aa ab =
      ground (arith, certs.row-save t c k, certs.row-save t c j, v k j a b, alone k a, alone j b)

  store-AreExclusive :
      (now : ℕ) (f : String) (dto : UploadCertificationDto) (buffer : List ℕ) (s : Archive C S)
      → certs.find_one (is_duplicate f dto) s.certs ≡ none
      → AreExclusive s.certs
      → AreExclusive (store_certification certs storage random host now f dto buffer s).1.certs
  unfolding store_certification
  store-AreExclusive now f dto buffer s free v = elim (Option-cases (host.strip_pdf buffer)) [
    | inl e ↦ simp e v
    | inr (cleaned, e) ↦
        elim (Bool-cases
          (storage.put (s3_key_of f (random.uuid s.seed)) cleaned "application/pdf" s.storage).0) [
            | inr failed ↦ simp (e, failed) v
            | inl kept ↦
                simp (e, kept)
                  (save-AreExclusive s.certs
                    (declared certs storage random host now f dto (random.uuid s.seed))
                    (λ k b kb ty nu aa ab. ground (
                      arith,
                      certs.find_one_complete s.certs (is_duplicate f dto) k b free kb,
                      certification_type_beq_iff b.type dto.type,
                      eq_iff b.number dto.number,
                      eq_iff b.freelance_id f,
                    ))
                    v)
          ]
  ]

  -- If no pending or validated certificate is declared by two accounts, the same holds after an
  -- upload, whether it returns or throws.
  pub upload-HasNoSharedNumber :
      (now : ℕ) (f : String) (dto : UploadCertificationDto) (file : Option UploadedFile)
      (s : Archive C S)
      → HasNoSharedNumber s.certs
      → HasNoSharedNumber (upload_certification certs storage random host now f dto file s).1.certs
  unfolding upload_certification
  upload-HasNoSharedNumber now f dto file s v = elim (Option-cases (buffer_of file)) [
    | inl e ↦ simp e v
    | inr (buffer, e) ↦ elim (Bool-cases (ltb (host.max_file_mb * 1024 * 1024) (size_of file))) [
      | inl large ↦ simp (e, large) v
      | inr small ↦ elim (Bool-cases (is_pdf buffer)) [
        | inr other ↦ simp (e, small, other) v
        | inl pdf ↦ elim (Option-cases (certs.find_one (is_duplicate f dto) s.certs)) [
          | inr (c, taken) ↦ simp (e, small, pdf, taken) v
          | inl free ↦
              simp (e, small, pdf, free)
                (record { exclusive = store-AreExclusive now f dto buffer s free v.exclusive })
        ]
      ]
    ]
  ]

  purged_row_keeps :
      (t p : ℕ) (dto : ReviewCertificationDto) (old : Certification) (o : Option String)
      → let row = purged_row certs storage random host t p dto old o in
        (row.type ≡ old.type) × (row.number ≡ old.number) × (row.freelance_id ≡ old.freelance_id)
  purged_row_keeps t p dto old none = (refl, refl, refl)
  purged_row_keeps t p dto old (some key) = (refl, refl, refl)

  -- What a row after a decision was before it.
  pub record IsFrom (s : Archive C S) (k : String) (a : Certification) : Type 0 where
    pub old : Certification
    pub stored : certs.row s.certs k ≡ some old
    pub type : a.type ≡ old.type
    pub number : a.number ≡ old.number
    pub owner : a.freelance_id ≡ old.freelance_id
    pub active : is_active a.status ≡ true → is_active old.status ≡ true

  decided-IsFrom :
      (t p : ℕ) (id : String) (dto : ReviewCertificationDto) (s s' : Archive C S)
      (view : PublicCertification)
      → IsDecided certs storage random host t p id dto s view s'
      → (k : String) (a : Certification) → certs.row s'.certs k ≡ some a
      → IsFrom s k a
  decided-IsFrom t p id dto s s' view d k a e = elim (Bool-cases (id == k)) [
    | inr other ↦ record {
      old = a;
      stored = ground (arith, d.rows k);
      type = refl;
      number = refl;
      owner = refl;
      active = λ h. h;
    }
    | inl here ↦
        let same : a ≡ d.row = ground (arith, d.rows k) in
        let keeps = purged_row_keeps t p dto d.old (truthy d.old.s3_key) in
        let is = d.row_is in
        record {
          old = d.old;
          stored = subst (λ k. certs.row s.certs k ≡ some d.old) ((eq_iff id k).0 here) d.stored;
          type = rw (same, is) keeps.0;
          number = rw (same, is) keeps.1;
          owner = rw (same, is) keeps.2;
          active = λ h. rw d.was_pending refl;
        }
  ]

  -- If no pending or validated certificate is declared by two accounts, the same holds after a
  -- review, whether it returns or throws.
  pub review-HasNoSharedNumber :
      (t p : ℕ) (id : String) (dto : ReviewCertificationDto) (s : Archive C S)
      → HasNoSharedNumber s.certs
      → HasNoSharedNumber (review_certification certs storage random host t p id dto s).1.certs
  review-HasNoSharedNumber t p id dto s v =
      let (refused, returned) = review_purges certs storage random host t p id dto s in
      let s' = (review_certification certs storage random host t p id dto s).1 in
      elim (Result-cases (review_certification certs storage random host t p id dto s).0) [
        | inr (e, h) ↦ rw (refused e h) v
        | inl (view, h) ↦ record {
          exclusive = λ k j a b ka jb ty nu aa ab.
              let from = decided-IsFrom t p id dto s s' view (returned view h) in
              let a_from = from k a ka in
              let b_from = from j b jb in
              a_from.owner
              ∙ v.exclusive k j a_from.old b_from.old a_from.stored b_from.stored
                  (sym a_from.type ∙ ty ∙ b_from.type) (sym a_from.number ∙ nu ∙ b_from.number)
                  (a_from.active aa) (b_from.active ab)
              ∙ sym b_from.owner;
        }
      ]
