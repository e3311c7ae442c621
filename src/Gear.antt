-- ===== src/Gear.antt =====
-- backend-core/src/gear/gear.service.ts: the lockers of the freelances, their validation by an
-- admin and the showcase (`loadout`). The repositories and Redis are parameters; the time of the
-- database is an argument of the method that inserts.
pub mod Cases
pub mod Showcase
pub mod Review
pub mod Decided
pub mod Listing
pub mod Requests
pub mod Controller
pub mod Races
mod Examples
use skillhunt.Common.{
  ℕ, ◌-◌, ◌*◌, String, Bool, true, false, not, ◌&&◌, ◌||◌, Option, none, some, List, [], ◌∷◌, map,
  leb, if◌then◌else◌, ◌==◌, string_eq, Exec, not_found, bad_request, conflict, ◌>>=◌, ◌>>◌, pure,
  gets, modify, throw_if, throw_some, require, HttpError,
}
use skillhunt.Enums.{
  UserRole, freelance, GearStatus, GearCategory, role_eq, gear_status_eq, category_eq,
}
use skillhunt.Entities.{User, Gear, user_id, gear_id}
use skillhunt.Store.{Repository}
use skillhunt.Redis.{Redis}
use skillhunt.Events.{publish, gear_validated, gear_rejected, DomainEventType}

abbrev pub loadout_max_slots : ℕ
loadout_max_slots = 4

pub record AddGearDto : Type 0 where
  pub category : GearCategory
  pub brand : String
  pub model : String
  pub serial_number : String

pub record QueryGearDto : Type 0 where
  pub category : Option GearCategory
  pub status : Option GearStatus
  pub page : ℕ
  pub limit : ℕ

pub record PublicQueryGearDto : Type 0 where
  pub category : Option GearCategory
  pub page : ℕ
  pub limit : ℕ

pub record Paginated (A : Type 0) : Type 0 where
  pub items : List A
  pub total : ℕ
  pub page : ℕ
  pub limit : ℕ

pub record PublicGearView : Type 0 where
  pub id : String
  pub brand : String
  pub model : String
  pub category : GearCategory
  pub status : GearStatus
  pub created_at : ℕ
  pub is_in_loadout : Bool

unfoldable pub to_public_gear_view : Gear → PublicGearView
to_public_gear_view gear = record {
  id = gear.id;
  brand = gear.brand;
  model = gear.model;
  category = gear.category;
  status = gear.status;
  created_at = gear.created_at;
  is_in_loadout = gear.is_in_loadout;
}

-- What the service reads and writes.
pub record Locker (U G R : Type 0) : Type 0 where
  pub users : U
  pub gears : G
  pub redis : R

-- `if (!user || user.role !== UserRole.FREELANCE)`
abbrev pub freelance_only : Option User → Option User
freelance_only none = none
freelance_only (some user) = if user.role == freelance then some user else none

-- `if (query.status) { where.status = query.status; }`
abbrev pub status_matches : Option GearStatus → Gear → Bool
status_matches none gear = true
status_matches (some status) gear = gear.status == status

abbrev pub category_matches : Option GearCategory → Gear → Bool
category_matches none gear = true
category_matches (some category) gear = gear.category == category

abbrev pub owned_by : String → Gear → Bool
owned_by freelance_id gear = gear.freelance_id == freelance_id

abbrev pub pinned_by : String → Gear → Bool
pinned_by freelance_id gear = gear.freelance_id == freelance_id && gear.is_in_loadout

-- `order: { isInLoadout: 'DESC', createdAt: 'DESC' }`
abbrev pub gear_order : Gear → Gear → Bool
gear_order a b =
    if a.is_in_loadout
    then not b.is_in_loadout || leb b.created_at a.created_at
    else not b.is_in_loadout && leb b.created_at a.created_at

module _ {U G R : Type 0} (users : Repository User user_id U) (gears : Repository Gear gear_id G)
    (redis : Redis R) where
  pub add_gear_to_locker : ℕ → String → AddGearDto → Exec (Locker U G R) Gear
  add_gear_to_locker now freelance_id dto = do
    found ← gets (λ s. users.find_one (λ u. u.id == freelance_id) s.users)
    user ← require (freelance_only found) (not_found "Profil Freelance introuvable ou non autorisé")
    gear ← gets (λ s. record {
      id = gears.generate s.gears;
      brand = dto.brand;
      model = dto.model;
      serial_number = dto.serial_number;
      category = dto.category;
      status = GearStatus.pending;
      is_in_loadout = false;
      created_at = now;
      freelance_id = user.id;
    })
    modify (λ s. record s { gears = gears.save gear s.gears })
    pure gear

  -- The helper of the three listings; `page` is at least 1 by the DTO.
  pub paginate : (Gear → Bool) → ℕ → ℕ → Locker U G R → Paginated Gear
  paginate where_ page limit s =
      let (items, total) =
        gears.find_and_count where_ gear_order ((page - 1) * limit) limit s.gears in
      record { items = items; total = total; page = page; limit = limit }

  pub get_freelance_gear : String → QueryGearDto → Exec (Locker U G R) (Paginated Gear)
  get_freelance_gear freelance_id query = gets (
      paginate
        (λ g.
          owned_by freelance_id g
          && category_matches query.category g
          && status_matches query.status g)
        query.page query.limit)

  pub get_public_freelance_gear :
      String → PublicQueryGearDto → Exec (Locker U G R) (Paginated PublicGearView)
  get_public_freelance_gear freelance_id query = do
    found ← gets (λ s. users.find_one (λ u. u.id == freelance_id) s.users)
    require (freelance_only found) (not_found "Profil Freelance introuvable")
    listed ← gets (
        paginate
          (λ g.
            owned_by freelance_id g
            && g.status == GearStatus.validated
            && category_matches query.category g)
          query.page query.limit)
    pure (record {
      items = map to_public_gear_view listed.items;
      total = listed.total;
      page = listed.page;
      limit = listed.limit;
    })

  pub list_pending_for_validation : QueryGearDto → Exec (Locker U G R) (Paginated Gear)
  list_pending_for_validation query = gets (
      paginate (λ g. g.status == GearStatus.pending && category_matches query.category g) query.page
        query.limit)

  -- The guards of `if (inLoadout) { … }`, in the code's order.
  abbrev pub showcase_error : String → Gear → Bool → Locker U G R → Option HttpError
  showcase_error freelance_id gear false s = none
  showcase_error freelance_id gear true s =
      if not (gear.status == GearStatus.validated)
      then some (bad_request "Seul un équipement validé peut rejoindre le loadout")
      else if not gear.is_in_loadout
          && leb loadout_max_slots (gears.count_where (pinned_by freelance_id) s.gears)
      then some (bad_request "Le loadout est complet (4 emplacements maximum)")
      else none

  pub set_loadout : String → String → Bool → Exec (Locker U G R) Gear
  set_loadout freelance_id gear_id in_loadout = do
    found ← gets (λ s. gears.find_one (λ g. g.id == gear_id && owned_by freelance_id g) s.gears)
    gear ← require found (not_found "Équipement introuvable")
    refusal ← gets (showcase_error freelance_id gear in_loadout)
    throw_some refusal
    let saved = record gear { is_in_loadout = in_loadout }
    modify (λ s. record s { gears = gears.save saved s.gears })
    pure saved

  -- The fields that a decision sets.
  abbrev pub reviewed : Gear → GearStatus → Gear
  reviewed gear decision =
      if decision == GearStatus.rejected
      then record gear { status = decision; is_in_loadout = false }
      else record gear { status = decision }

  abbrev pub review_event : GearStatus → DomainEventType
  review_event decision = if decision == GearStatus.validated then gear_validated else gear_rejected

  pub review_gear : String → GearStatus → Exec (Locker U G R) Gear
  review_gear gear_id decision = do
    found ← gets (λ s. gears.find_one (λ g. g.id == gear_id) s.gears)
    gear ← require found (not_found "Équipement introuvable")
    throw_if (not (gear.status == GearStatus.pending)) (conflict "Cet équipement a déjà été traité")
    let saved = reviewed gear decision
    modify (λ s. record s { gears = gears.save saved s.gears })
    modify (λ s. record s {
      redis =
          publish redis (review_event decision)
            (("gearId", saved.id) ∷ ("freelanceId", saved.freelance_id) ∷ []) s.redis;
    })
    pure saved
