-- ===== src/Gamification.antt =====
-- backend-core/src/gamification/gamification.service.ts: experience, levels and badges, computed from
-- the stored gear and certifications at each reading.
pub mod Levels
pub mod Profiles
mod Examples
use skillhunt.Common.{
  ℕ, ◌+◌, ◌*◌, String, Bool, true, false, ◌&&◌, Option, none, some, List, [], ◌∷◌, map, reverse,
  leb, ltb, filter, find, length, count, includes, ◌==◌, string_eq, if◌then◌else◌, Exec, not_found,
  ◌>>=◌, ◌>>◌, pure, gets, require,
}
use skillhunt.Enums.{
  GearStatus, GearCategory, CertificationStatus, CertificationType, dgac_drone, category_eq,
  gear_status_eq, certification_status_eq, certification_type_eq,
}
use skillhunt.Entities.{User, Gear, Certification, user_id, gear_id, certification_id}
use skillhunt.Store.{Repository}
use skillhunt.Gear.{loadout_max_slots, freelance_only}

abbrev pub xp_per_validated_gear : ℕ
xp_per_validated_gear = 50

abbrev pub xp_per_covered_category : ℕ
xp_per_covered_category = 30

abbrev pub xp_per_validated_certification : ℕ
xp_per_validated_certification = 80

pub record LevelDefinition : Type 0 where
  pub threshold : ℕ
  pub level : ℕ
  pub label : String

abbrev pub first_level : LevelDefinition
first_level = record { threshold = 0; level = 1; label = "Recrue" }

abbrev pub levels : List LevelDefinition
levels =
    first_level
    ∷ record { threshold = 100; level = 2; label = "Opérateur" }
    ∷ record { threshold = 250; level = 3; label = "Spécialiste" }
    ∷ record { threshold = 450; level = 4; label = "Vétéran" }
    ∷ record { threshold = 700; level = 5; label = "Élite" }
    ∷ record { threshold = 1000; level = 6; label = "Légende" }
    ∷ []

pub record BadgeView : Type 0 where
  pub id : String
  pub label : String
  pub description : String
  pub earned : Bool

pub record GamificationProfile : Type 0 where
  pub xp : ℕ
  pub level : ℕ
  pub level_label : String
  pub next_level_at : Option ℕ
  pub badges : List BadgeView

pub record PublicBadge : Type 0 where
  pub id : String
  pub label : String
  pub description : String

pub record PublicGamificationProfile : Type 0 where
  pub level : ℕ
  pub level_label : String
  pub badges : List PublicBadge

pub record FreelanceStats : Type 0 where
  pub validated_gear : ℕ
  pub covered_categories : ℕ
  pub validated_certifications : ℕ
  pub dgac_certifications : ℕ
  pub loadout_count : ℕ

pub record Badge : Type 0 where
  pub id : String
  pub label : String
  pub description : String
  pub earned_when : FreelanceStats → Bool

abbrev pub badge : String → String → String → (FreelanceStats → Bool) → Badge
badge id label description earned_when = record {
  id = id;
  label = label;
  description = description;
  earned_when = earned_when;
}

abbrev pub badge_catalog : List Badge
badge_catalog =
    badge "first-validated" "Première validation" "Un premier équipement validé par un admin"
      (λ s. leb 1 s.validated_gear)
    ∷ badge "arsenal-5" "Arsenal étoffé" "5 équipements validés" (λ s. leb 5 s.validated_gear)
    ∷ badge "arsenal-10" "Arsenal d'élite" "10 équipements validés" (λ s. leb 10 s.validated_gear)
    ∷ badge "polyvalent" "Polyvalent" "3 catégories de matériel couvertes"
        (λ s. leb 3 s.covered_categories)
    ∷ badge "certified" "Certifié" "Une certification professionnelle validée"
        (λ s. leb 1 s.validated_certifications)
    ∷ badge "dgac-pilot" "Télépilote DGAC" "Brevet de télépilote DGAC validé"
        (λ s. leb 1 s.dgac_certifications)
    ∷ badge "loadout-full" "Loadout complet" "4 équipements épinglés au loadout"
        (λ s. leb loadout_max_slots s.loadout_count)
    ∷ []

abbrev pub experience : FreelanceStats → ℕ
experience stats =
    stats.validated_gear * xp_per_validated_gear
    + stats.covered_categories * xp_per_covered_category
    + stats.validated_certifications * xp_per_validated_certification

-- `find(…) ?? LEVELS[0]`
abbrev pub or_first : Option LevelDefinition → LevelDefinition
or_first none = first_level
or_first (some l) = l

abbrev pub current_level : ℕ → LevelDefinition
current_level xp = or_first (find (λ l. leb l.threshold xp) (reverse levels))

abbrev pub threshold_of : Option LevelDefinition → Option ℕ
threshold_of none = none
threshold_of (some l) = some l.threshold

abbrev pub next_level : ℕ → Option LevelDefinition
next_level xp = find (λ l. ltb xp l.threshold) levels

abbrev pub badge_view : FreelanceStats → Badge → BadgeView
badge_view stats b = record {
  id = b.id;
  label = b.label;
  description = b.description;
  earned = b.earned_when stats;
}

-- `profileFor`, from the statistics on.
unfoldable pub profile : FreelanceStats → GamificationProfile
profile stats = record {
  xp = experience stats;
  level = (current_level (experience stats)).level;
  level_label = (current_level (experience stats)).label;
  next_level_at = threshold_of (next_level (experience stats));
  badges = map (badge_view stats) badge_catalog;
}

abbrev pub public_badge : BadgeView → PublicBadge
public_badge b = record { id = b.id; label = b.label; description = b.description }

-- The elements of `new Set(xs)`.
abbrev pub set_of : List GearCategory → List GearCategory
set_of [] = []
set_of (c ∷ cs) = let rest = set_of cs in if includes rest c then rest else c ∷ rest

-- The three tables that the service reads.
pub record Evidence (U G C : Type 0) : Type 0 where
  pub users : U
  pub gears : G
  pub certs : C

module _ {U G C : Type 0} (users : Repository User user_id U) (gears : Repository Gear gear_id G)
    (certs : Repository Certification certification_id C) where
  -- `find` with no order: the order is the database's.
  abbrev pub validated_gear_of : String → G → List Gear
  validated_gear_of id t =
      gears.find_where (λ g. g.freelance_id == id && g.status == GearStatus.validated) (λ a b. true)
        t

  abbrev pub valid_certs_of : String → C → List Certification
  valid_certs_of id t =
      certs.find_where (λ c. c.freelance_id == id && c.status == CertificationStatus.validated)
        (λ a b. true) t

  unfoldable pub stats_for : String → Evidence U G C → FreelanceStats
  stats_for id s = record {
    validated_gear = length (validated_gear_of id s.gears);
    covered_categories = length (set_of (map (λ g. g.category) (validated_gear_of id s.gears)));
    validated_certifications = length (valid_certs_of id s.certs);
    dgac_certifications = count (λ c. c.type == dgac_drone) (valid_certs_of id s.certs);
    loadout_count = count (λ g. g.is_in_loadout) (validated_gear_of id s.gears);
  }

  pub profile_for : String → Exec (Evidence U G C) GamificationProfile
  profile_for id = gets (λ s. profile (stats_for id s))

  pub public_profile_for : String → Exec (Evidence U G C) PublicGamificationProfile
  public_profile_for id = do
    found ← gets (λ s. users.find_one (λ u. u.id == id) s.users)
    require (freelance_only found) (not_found "Profil Freelance introuvable")
    p ← profile_for id
    pure (record {
      level = p.level;
      level_label = p.level_label;
      badges = map public_badge (filter (λ b. b.earned) p.badges);
    })
