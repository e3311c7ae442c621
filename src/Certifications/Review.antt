-- ===== src/Certifications/Review.antt =====
-- The decision of certification.service.ts and the purge that goes with it.
use skillhunt.Common.{
  ℕ, ◌≡◌, refl, String, true, Option, none, some, ◌==◌, string_eq, eq_iff, arith, Result, ok, err,
  HttpError, if◌then◌else◌, Option-cases, Bool-cases, inl, inr, ok-injective, subst, truthy,
}
use skillhunt.Enums.{CertificationStatus, certification_status_eq}
use skillhunt.Entities.{Certification, certification_id}
use skillhunt.Store.{Repository}
use skillhunt.Storage.{StorageService}
use skillhunt.External.{Random}
use skillhunt.Certifications.{
  Archive, Host, ReviewCertificationDto, PublicCertification, to_public, review_certification,
  decided,
}

module _ {C S : Type 0} (certs : Repository Certification certification_id C)
    (storage : StorageService S) (random : Random) (host : Host) where
  abbrev review :
      ℕ
      → ℕ
      → String
      → ReviewCertificationDto
      → Archive C S
      → Result PublicCertification × Archive C S
  review = review_certification certs storage random host

  -- The row with the decision, the date of the decision and the new date of validity, if there is one.
  abbrev pub decision_row : ℕ → ReviewCertificationDto → Certification → Certification
  decision_row t dto old = record old {
    status = dto.decision;
    reviewed_at = some t;
    valid_until = elim dto.valid_until [ none ↦ old.valid_until | some date ↦ host.date_only date ];
  }

  -- The row after a decision: off the queue, and with no document.
  abbrev pub purged_row :
      ℕ → ℕ → ReviewCertificationDto → Certification → Option String → Certification
  purged_row t p dto old none = decision_row t dto old
  purged_row t p dto old (some key) = record (decision_row t dto old) {
    s3_key = none;
    purged_at = some p;
  }

  -- What a decision does, from the state `s` to `s'`.
  pub record IsDecided (t p : ℕ) (id : String) (dto : ReviewCertificationDto) (s : Archive C S)
      (view : PublicCertification) (s' : Archive C S) : Type 0 where
    pub old : Certification
    pub stored : certs.row s.certs id ≡ some old
    pub was_pending : old.status ≡ CertificationStatus.pending
    pub row : Certification
    pub row_is : row ≡ purged_row t p dto old (truthy old.s3_key)
    pub rows :
        (k : String) → certs.row s'.certs k ≡ (if id == k then some row else certs.row s.certs k)
    pub no_key : truthy row.s3_key ≡ none
    pub purged :
        (key : String) → truthy old.s3_key ≡ some key → storage.object s'.storage key ≡ none
    pub shown : view ≡ to_public row

  kept-IsDecided :
      (t p : ℕ) (id : String) (dto : ReviewCertificationDto) (s : Archive C S) (old : Certification)
      → certs.row s.certs id ≡ some old
      → old.id ≡ id
      → old.status ≡ CertificationStatus.pending
      → truthy old.s3_key ≡ none
      → let row = decided certs storage random host t dto old in
        IsDecided t p id dto s (to_public row) (record s { certs = certs.save row s.certs })
  kept-IsDecided t p id dto s old stored same waiting none_ = record {
    old = old;
    stored = stored;
    was_pending = waiting;
    row = decided certs storage random host t dto old;
    row_is = rw none_ refl;
    rows =
        λ k. ground (arith, certs.row-save s.certs (decided certs storage random host t dto old) k);
    no_key = none_;
    purged = λ key e. cc;
    shown = refl;
  }

  purged-IsDecided :
      (t p : ℕ) (id key : String) (dto : ReviewCertificationDto) (s : Archive C S)
      (old : Certification)
      → certs.row s.certs id ≡ some old
      → old.id ≡ id
      → old.status ≡ CertificationStatus.pending
      → truthy old.s3_key ≡ some key
      → (storage.delete key s.storage).0 ≡ true
      → let row = purged_row t p dto old (some key) in
        IsDecided t p id dto s
          (to_public row)
          (record s { certs = certs.save row s.certs; storage = (storage.delete key s.storage).1 })
  purged-IsDecided t p id key dto s old stored same waiting held gone = record {
    old = old;
    stored = stored;
    was_pending = waiting;
    row = purged_row t p dto old (some key);
    row_is = rw held refl;
    rows = λ k. ground (arith, certs.row-save s.certs (purged_row t p dto old (some key)) k);
    no_key = refl;
    purged = λ k e. ground (arith, storage.object-delete s.storage key gone);
    shown = refl;
  }

  -- A review that throws leaves every row as it was. One that returns was of a stored and pending
  -- certification: it saves the decision, changes no other row, and the document is gone from the
  -- store and its key from the row, whatever the decision.
  pub review_purges :
      (t p : ℕ) (id : String) (dto : ReviewCertificationDto) (s : Archive C S)
      → let (r, s') = review t p id dto s in
        ((e : HttpError) → r ≡ err e → s'.certs ≡ s.certs)
        × ((view : PublicCertification) → r ≡ ok view → IsDecided t p id dto s view s')
  unfolding review_certification
  review_purges t p id dto s = elim (Option-cases (certs.find_one (λ c. c.id == id) s.certs)) [
    | inl e ↦ simp e (λ x h. refl, λ v h. cc)
    | inr (old, found) ↦
        let (meets, stored_own) = certs.find_one_sound s.certs _ old found in
        let same : old.id ≡ id = (eq_iff old.id id).0 meets in
        let stored = subst (λ k. certs.row s.certs k ≡ some old) same stored_own in
        elim (Bool-cases (old.status == CertificationStatus.pending)) [
          | inr treated ↦ simp (found, treated) (λ x h. refl, λ v h. cc)
          | inl waiting ↦ elim (Option-cases (truthy old.s3_key)) [
            | inl bare ↦
                simp (found, waiting, bare)
                  (
                    λ x h. cc,
                    λ v h.
                        subst
                          (λ v. IsDecided t p id dto s v (record s {
                            certs =
                                certs.save (decided certs storage random host t dto old) s.certs;
                          }))
                          (ok-injective h)
                          (kept-IsDecided t p id dto s old stored same (ground arith) bare),
                  )
            | inr (key, held) ↦ elim (Bool-cases (storage.delete key s.storage).0) [
              | inr failed ↦ simp (found, waiting, held, failed) (λ x h. refl, λ v h. cc)
              | inl gone ↦
                  simp (found, waiting, held, gone)
                    (
                      λ x h. cc,
                      λ v h.
                          subst
                            (λ v. IsDecided t p id dto s v (record s {
                              certs = certs.save (purged_row t p dto old (some key)) s.certs;
                              storage = (storage.delete key s.storage).1;
                            }))
                            (ok-injective h)
                            (purged-IsDecided t p id key dto s old stored same (ground arith) held
                              gone),
                    )
            ]
          ]
        ]
  ]
