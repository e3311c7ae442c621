-- ===== src/Entities.antt =====
-- The rows that TypeORM and Mongoose persist: backend-core/src/users/user.entity.ts,
-- gear/gear.entity.ts, certifications/certification.entity.ts and chat/message.schema.ts.
-- A `Date` is a number of milliseconds; an angle is a number of ten-millionths of a degree.
use skillhunt.Common.{ℕ, String, Bool, Option, List}
use skillhunt.Enums.{UserRole, GearStatus, GearCategory, CertificationType, CertificationStatus}

-- `negsuc n` is -(n + 1).
pub data ℤ : Type 0 where
  pos : ℕ → ℤ
  negsuc : ℕ → ℤ

-- A GeoJSON `Point`: its coordinates are [longitude, latitude].
pub record Point : Type 0 where
  pub coordinates : ℤ × ℤ

pub record User : Type 0 where
  pub id : String
  pub email : String
  pub username : String
  pub password_hash : String
  pub role : UserRole
  pub location : Option Point
  pub two_factor_enabled : Bool
  pub two_factor_secret_encrypted : Option String
  pub two_factor_backup_codes_hashed : Option (List String)
  pub created_at : ℕ

pub record Gear : Type 0 where
  pub id : String
  pub brand : String
  pub model : String
  pub serial_number : String
  pub category : GearCategory
  pub status : GearStatus
  pub is_in_loadout : Bool
  pub created_at : ℕ
  pub freelance_id : String

pub record Certification : Type 0 where
  pub id : String
  pub type : CertificationType
  pub number : String
  pub valid_until : String
  pub status : CertificationStatus
  pub s3_key : Option String
  pub mime_type : String
  pub uploaded_at : ℕ
  pub reviewed_at : Option ℕ
  pub purged_at : Option ℕ
  pub freelance_id : String

pub record Message : Type 0 where
  pub id : String
  pub conversation_id : String
  pub sender_id : String
  pub body : String
  pub created_at : ℕ

-- The primary keys.
abbrev pub user_id : User → String
user_id user = user.id

abbrev pub gear_id : Gear → String
gear_id gear = gear.id

abbrev pub certification_id : Certification → String
certification_id certification = certification.id

abbrev pub message_id : Message → String
message_id message = message.id
