-- ===== src/Enums.antt =====
-- The business enums of backend-core/src/common/enums.ts, with `===` on them.
use skillhunt.Common.{Eq, ◌≡◌, ◌↔◌, Bool, true, false, arith}

pub data UserRole : Type 0 where
  freelance recruiter admin : UserRole

pub data GearStatus : Type 0 where
  pending validated rejected : GearStatus

pub data GearCategory : Type 0 where
  drone camera_360 robotics sensor other : GearCategory

pub data CertificationType : Type 0 where
  dgac_drone elec_habilitation other : CertificationType

pub data CertificationStatus : Type 0 where
  pending validated rejected : CertificationStatus

abbrev pub role_beq : UserRole → UserRole → Bool
role_beq freelance freelance = true
role_beq recruiter recruiter = true
role_beq admin admin = true
role_beq _ _ = false

pub role_beq_iff : (a b : UserRole) → (role_beq a b ≡ true) ↔ (a ≡ b)
role_beq_iff a b = ground arith

instance abbrev pub role_eq : Eq UserRole
role_eq = record { beq = role_beq; beq_iff = role_beq_iff }

abbrev pub gear_status_beq : GearStatus → GearStatus → Bool
gear_status_beq GearStatus.pending GearStatus.pending = true
gear_status_beq GearStatus.validated GearStatus.validated = true
gear_status_beq GearStatus.rejected GearStatus.rejected = true
gear_status_beq _ _ = false

pub gear_status_beq_iff : (a b : GearStatus) → (gear_status_beq a b ≡ true) ↔ (a ≡ b)
gear_status_beq_iff a b = ground arith

instance abbrev pub gear_status_eq : Eq GearStatus
gear_status_eq = record { beq = gear_status_beq; beq_iff = gear_status_beq_iff }

abbrev pub category_beq : GearCategory → GearCategory → Bool
category_beq drone drone = true
category_beq camera_360 camera_360 = true
category_beq robotics robotics = true
category_beq sensor sensor = true
category_beq GearCategory.other GearCategory.other = true
category_beq _ _ = false

pub category_beq_iff : (a b : GearCategory) → (category_beq a b ≡ true) ↔ (a ≡ b)
category_beq_iff a b = ground arith

instance abbrev pub category_eq : Eq GearCategory
category_eq = record { beq = category_beq; beq_iff = category_beq_iff }

abbrev pub certification_type_beq : CertificationType → CertificationType → Bool
certification_type_beq dgac_drone dgac_drone = true
certification_type_beq elec_habilitation elec_habilitation = true
certification_type_beq CertificationType.other CertificationType.other = true
certification_type_beq _ _ = false

pub certification_type_beq_iff :
    (a b : CertificationType) → (certification_type_beq a b ≡ true) ↔ (a ≡ b)
certification_type_beq_iff a b = ground arith

instance abbrev pub certification_type_eq : Eq CertificationType
certification_type_eq = record {
  beq = certification_type_beq;
  beq_iff = certification_type_beq_iff;
}

abbrev pub certification_status_beq : CertificationStatus → CertificationStatus → Bool
certification_status_beq CertificationStatus.pending CertificationStatus.pending = true
certification_status_beq CertificationStatus.validated CertificationStatus.validated = true
certification_status_beq CertificationStatus.rejected CertificationStatus.rejected = true
certification_status_beq _ _ = false

pub certification_status_beq_iff :
    (a b : CertificationStatus) → (certification_status_beq a b ≡ true) ↔ (a ≡ b)
certification_status_beq_iff a b = ground arith

instance abbrev pub certification_status_eq : Eq CertificationStatus
certification_status_eq = record {
  beq = certification_status_beq;
  beq_iff = certification_status_beq_iff;
}
